-- ===== src/WsBridge.antt =====
-- packages/orchestrator/src/ws-bridge.ts: `WsBridge`, the sockets of the runners. A socket is a
-- number; a text is a number, and a missing or empty one is `none`. `labels` holds the field
-- `_sessionId` of each socket. The events that are emitted and the frames that are sent are recorded
-- in order. The database that `setDb` attaches is the one of the session manager.
mod Tests
pub mod Frames
pub mod Sockets
pub mod Isolation
use claude_agent_runner.Common.{
  ℕ, Option, none, some, Bool, true, false, not, ◌&&◌, List, [], ◌∷◌, ◌++◌, if◌then◌else◌, ◌==◌,
  same,
}
use claude_agent_runner.Common.Dict.{lookup, insert, remove}
use claude_agent_runner.Db.{SessionStatus, stopped, error, Db, insert_snapshot}
use claude_agent_runner.Sessions.{
  SessionManager, Session, get, update_status, set_error, set_sdk_session_id, update_context_tokens,
  increment_compact_count, clear_runtime, set_ws,
}
use claude_agent_runner.WsBridge.Frames.{Frame, Command, frame_of}

pub record Snapshot : Type 0 where
  pub trigger : ℕ
  pub message_count : ℕ
  pub roles : ℕ
  pub messages : ℕ
  pub request_id : Option ℕ

-- The messages of a runner by their type. Where the whole message is passed on, `ℕ` stands for it.
pub data Body : Type 0 where
  status : SessionStatus → Body
  session_init : Option ℕ → Body
  event : ℕ → Body
  failure : ℕ → ℕ → Body
  context_state : ℕ → Bool → ℕ → Body
  context_result : ℕ → ℕ → Body
  permission_request : ℕ → Body
  commands_result : ℕ → ℕ → Body
  context_snapshot : Snapshot → Body
  mcp_result : ℕ → ℕ → Body
  utility_query_result : ℕ → ℕ → Body
  pty_data : ℕ → Option ℕ → Body
  pty_exit : Option ℕ → Option ℕ → Body
  background_complete : ℕ → Body
  unhandled : Body

pub record RunnerMessage : Type 0 where
  pub session_id : Option ℕ
  pub body : Body

-- The events, with the session and, where the event's name has one, the request.
pub data Event : Type 0 where
  session_status any_status : ℕ → SessionStatus → Event
  session_inits session_event : ℕ → ℕ → Event
  session_error : ℕ → ℕ → ℕ → Event
  session_context_state any_context_state : ℕ → ℕ → Event
  context_results commands_results mcp_results utility_query_results : ℕ → ℕ → ℕ → Event
  permission_requests background_completes : ℕ → ℕ → Event
  context_snapshots : ℕ → Snapshot → Event
  pty_texts : ℕ → ℕ → Option ℕ → Event
  pty_exits : ℕ → Option ℕ → Option ℕ → Event

pub record WsBridge : Type 0 where
  pub connections : List (ℕ × ℕ)
  pub labels : List (ℕ × ℕ)
  pub sessions : SessionManager
  pub has_db : Bool
  pub shutting_down : Bool
  pub emitted : List Event
  pub sent : List (ℕ × Frame)

abbrev pub emit : Event → WsBridge → WsBridge
emit e b = record b { emitted = b.emitted ++ e ∷ [] }

abbrev pub with_sessions : SessionManager → WsBridge → WsBridge
with_sessions m b = record b { sessions = m }

-- The exception of `insertSnapshot` is caught.
abbrev pub kept : SessionManager → Option (ℕ × Db) → SessionManager
kept m none = m
kept m (some (id, db)) = record m { db = db }

abbrev pub store_snapshot : Bool → ℕ → Snapshot → ℕ → SessionManager → SessionManager
store_snapshot false s p now m = m
store_snapshot true s p now m =
    kept m (insert_snapshot s p.trigger p.message_count p.roles p.messages p.request_id now m.db)

abbrev pub counted : Bool → ℕ → ℕ → SessionManager → SessionManager
counted false s now m = m
counted true s now m = increment_compact_count s now m

-- The switch over the type of a message that is for session `s`.
pub handle : ℕ → Body → ℕ → WsBridge → WsBridge
unfolding insert_snapshot
handle s (status st) now b =
    emit (any_status s st)
      (emit (session_status s st) (with_sessions (update_status s st now b.sessions) b))
handle s (session_init none) now b = b
handle s (session_init (some sdk)) now b =
    emit (session_inits s sdk) (with_sessions (set_sdk_session_id s sdk now b.sessions) b)
handle s (event e) now b = emit (session_event s e) b
handle s (failure code text) now b =
    emit (session_error s code text) (with_sessions (set_error s text now b.sessions) b)
handle s (context_state tokens compacted whole) now b =
    let updated = counted compacted s now (update_context_tokens s tokens now b.sessions) in
    emit (any_context_state s whole)
      (emit (session_context_state s whole) (with_sessions updated b))
handle s (context_result request whole) now b = emit (context_results s request whole) b
handle s (permission_request whole) now b = emit (permission_requests s whole) b
handle s (commands_result request whole) now b = emit (commands_results s request whole) b
handle s (context_snapshot p) now b =
    emit (context_snapshots s p) (with_sessions (store_snapshot b.has_db s p now b.sessions) b)
handle s (mcp_result request whole) now b = emit (mcp_results s request whole) b
handle s (utility_query_result request whole) now b = emit (utility_query_results s request whole) b
handle s (pty_data text stderr) now b = emit (pty_texts s text stderr) b
handle s (pty_exit code signal) now b = emit (pty_exits s code signal) b
handle s (background_complete whole) now b = emit (background_completes s whole) b
handle s unhandled now b = b

-- The first message with a session id labels its socket.
abbrev pub contact : ℕ → Option ℕ → Option ℕ → WsBridge → WsBridge
contact w (some l) id b = b
contact w none none b = b
contact w none (some s) b = record b {
  connections = insert s w b.connections;
  labels = insert w s b.labels;
  sessions = set_ws s w b.sessions;
}

-- `msg.session_id || ws._sessionId`.
abbrev pub speaker : Option ℕ → Option ℕ → Option ℕ
speaker (some s) label = some s
speaker none label = label

abbrev pub dispatch : Option ℕ → Body → ℕ → WsBridge → WsBridge
dispatch none body now b = b
dispatch (some s) body now b = handle s body now b

-- `none` is a text that is no JSON.
unfoldable pub on_message : ℕ → Option RunnerMessage → ℕ → WsBridge → WsBridge
unfolding handle
on_message w none now b = b
on_message w (some msg) now b =
    let label = lookup w b.labels in
    dispatch (speaker msg.session_id label) msg.body now (contact w label msg.session_id b)

abbrev pub is_over : SessionStatus → Bool
is_over stopped = true
is_over error = true
is_over _ = false

-- The end of the socket that a session's commands went to.
abbrev pub disconnect : ℕ → ℕ → Option Session → WsBridge → WsBridge
disconnect s now none b = record b { connections = remove s b.connections }
disconnect s now (some session) b =
    let m = clear_runtime s b.sessions in
    let gone = record b { connections = remove s b.connections; sessions = m } in
    if not b.shutting_down && not (is_over session.status)
    then emit (session_status s stopped) (record gone { sessions = update_status s stopped now m })
    else gone

-- A socket that another one has replaced changes nothing when it closes.
abbrev pub closed : ℕ → Option ℕ → ℕ → WsBridge → WsBridge
closed w none now b = b
closed w (some s) now b =
    let gone = disconnect s now (get s b.sessions) b in
    if same (lookup s b.connections) (some w) then gone else b

unfoldable pub on_close : ℕ → ℕ → WsBridge → WsBridge
on_close w now b = closed w (lookup w b.labels) now b

abbrev pub rekeyed : Option ℕ → ℕ → ℕ → WsBridge → Bool × WsBridge
rekeyed none old new b = (false, b)
rekeyed (some w) old new b = (
  true,
  record b {
    connections = insert new w (remove old b.connections);
    labels = insert w new b.labels;
    sessions = set_ws new w b.sessions;
  },
)

unfoldable pub rekey_connection : ℕ → ℕ → WsBridge → Bool × WsBridge
rekey_connection old new b = rekeyed (lookup old b.connections) old new b

-- `is_open w` is `readyState === OPEN` at the moment of the call.
abbrev pub open_socket : (ℕ → Bool) → Option ℕ → Option ℕ
open_socket is_open none = none
open_socket is_open (some w) = if is_open w then some w else none

unfoldable pub is_connected : (ℕ → Bool) → ℕ → WsBridge → Bool
is_connected is_open s b = elim (open_socket is_open (lookup s b.connections)) [
  | none ↦ false
  | some w ↦ true
]

abbrev pub write : Option ℕ → Frame → WsBridge → Bool × WsBridge
write none f b = (false, b)
write (some w) f b = (true, record b { sent = b.sent ++ (w, f) ∷ [] })

-- What every sender does with its frame.
unfoldable pub deliver : (ℕ → Bool) → ℕ → Command → WsBridge → Bool × WsBridge
deliver is_open s c b = write (open_socket is_open (lookup s b.connections)) (frame_of c) b

pub set_db : WsBridge → WsBridge
set_db b = record b { has_db = true }

pub close : WsBridge → WsBridge
close b = record b { shutting_down = true }
