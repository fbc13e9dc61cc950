-- ===== src/WsBridge/Sockets.antt =====
-- packages/orchestrator/src/ws-bridge.ts: which socket serves which session.
use claude_agent_runner.Common.{
  ℕ, ◌≡◌, refl, sym, ◌∙◌, inl, inr, Option, none, some, Bool, true, false, not, ◌&&◌, List, [], ◌∷◌,
  ◌++◌, arith, if◌then◌else◌, ◌==◌, same, Bool-cases,
}
use claude_agent_runner.Common.Dict.{lookup, insert, remove, lookup-insert, lookup-remove}
use claude_agent_runner.Db.{stopped}
use claude_agent_runner.Sessions.{Session, get, clear_runtime, update_status}
use claude_agent_runner.WsBridge.Frames.{Command, frame_of}
use claude_agent_runner.WsBridge.{
  WsBridge, RunnerMessage, Body, status, session_init, event, failure, context_state,
  context_result, permission_request, commands_result, context_snapshot, mcp_result,
  utility_query_result, pty_data, pty_exit, background_complete, unhandled, handle, contact,
  speaker, dispatch, on_message, disconnect, closed, on_close, rekeyed, rekey_connection, is_over,
  emit, session_status, open_socket, is_connected, write, deliver,
}

-- The socket of a session is labelled with that session.
abbrev pub Backed : List (ℕ × ℕ) → List (ℕ × ℕ) → Type 0
Backed connections labels = (s w : ℕ) → lookup s connections ≡ some w → lookup w labels ≡ some s

abbrev pub IsBacked : WsBridge → Type 0
IsBacked b = Backed b.connections b.labels

pub data Op : Type 0 where
  messages : ℕ → Option RunnerMessage → ℕ → Op
  closes : ℕ → ℕ → Op
  rekeys : ℕ → ℕ → Op

pub step : Op → WsBridge → WsBridge
step (messages w msg now) b = on_message w msg now b
step (closes w now) b = on_close w now b
step (rekeys old new) b = (rekey_connection old new b).1

pub run : List Op → WsBridge → WsBridge
run [] b = b
run (o ∷ os) b = run os (step o b)

-- The messages that follow the first leave the sockets alone.
abbrev pub SameSockets : WsBridge → WsBridge → Type 0
SameSockets b c = (b.connections ≡ c.connections) × (b.labels ≡ c.labels)

pub handle-SameSockets :
    (s : ℕ) (body : Body) (now : ℕ) (b : WsBridge) → SameSockets (handle s body now b) b
unfolding handle
handle-SameSockets s (status st) now b = (refl, refl)
handle-SameSockets s (session_init none) now b = (refl, refl)
handle-SameSockets s (session_init (some sdk)) now b = (refl, refl)
handle-SameSockets s (event e) now b = (refl, refl)
handle-SameSockets s (failure code text) now b = (refl, refl)
handle-SameSockets s (context_state tokens compacted whole) now b = (refl, refl)
handle-SameSockets s (context_result request whole) now b = (refl, refl)
handle-SameSockets s (permission_request whole) now b = (refl, refl)
handle-SameSockets s (commands_result request whole) now b = (refl, refl)
handle-SameSockets s (context_snapshot p) now b = (refl, refl)
handle-SameSockets s (mcp_result request whole) now b = (refl, refl)
handle-SameSockets s (utility_query_result request whole) now b = (refl, refl)
handle-SameSockets s (pty_data text stderr) now b = (refl, refl)
handle-SameSockets s (pty_exit code signal) now b = (refl, refl)
handle-SameSockets s (background_complete whole) now b = (refl, refl)
handle-SameSockets s unhandled now b = (refl, refl)

dispatch-SameSockets :
    (s : Option ℕ) (body : Body) (now : ℕ) (b : WsBridge) → SameSockets (dispatch s body now b) b
dispatch-SameSockets none body now b = (refl, refl)
dispatch-SameSockets (some s) body now b = handle-SameSockets s body now b

Backed-insert :
    (connections labels : List (ℕ × ℕ)) (s w : ℕ)
    → Backed connections labels
    → lookup w labels ≡ none
    → Backed (insert s w connections) (insert w s labels)
Backed-insert connections labels s w h free t v e = elim (Bool-cases (s == t)) [
  | inl p ↦
      let found : some w ≡ some v = sym (lookup-insert s t w connections ∙ rw p) ∙ e in
      ground (arith, found, lookup-insert w v s labels)
  | inr p ↦
      let old = h t v (sym (lookup-insert s t w connections ∙ rw p) ∙ e) in
      ground (arith, old, lookup-insert w v s labels)
]

Backed-remove :
    (connections labels : List (ℕ × ℕ)) (s : ℕ)
    → Backed connections labels
    → Backed (remove s connections) labels
Backed-remove connections labels s h t v e = elim (Bool-cases (s == t)) [
  | inl p ↦ ground (arith, lookup-remove s t connections, e)
  | inr p ↦ h t v (sym (lookup-remove s t connections ∙ rw p) ∙ e)
]

-- The socket of `old` goes to `new`; no other session has it, since it was labelled `old`.
Backed-rekey :
    (connections labels : List (ℕ × ℕ)) (old new w : ℕ)
    → Backed connections labels
    → lookup old connections ≡ some w
    → Backed (insert new w (remove old connections)) (insert w new labels)
Backed-rekey connections labels old new w h at_old t v e = elim (Bool-cases (new == t)) [
  | inl p ↦
      let found : some w ≡ some v =
        sym (lookup-insert new t w (remove old connections) ∙ rw p) ∙ e in
      ground (arith, found, lookup-insert w v new labels)
  | inr p ↦
      let left : lookup t (remove old connections) ≡ some v =
        sym (lookup-insert new t w (remove old connections) ∙ rw p) ∙ e in
      elim (Bool-cases (old == t)) [
        | inl q ↦ ground (arith, lookup-remove old t connections, left)
        | inr q ↦
            let kept = h t v (sym (lookup-remove old t connections ∙ rw q) ∙ left) in
            let labelled = h old w at_old in
            ground (arith, kept, labelled, lookup-insert w v new labels)
      ]
]

contact-IsBacked :
    (w : ℕ) (label id : Option ℕ) (b : WsBridge)
    → lookup w b.labels ≡ label
    → IsBacked b
    → IsBacked (contact w label id b)
contact-IsBacked w (some l) id b e h = h
contact-IsBacked w none none b e h = h
contact-IsBacked w none (some s) b e h = Backed-insert b.connections b.labels s w h e

on_message-IsBacked :
    (w : ℕ) (msg : Option RunnerMessage) (now : ℕ) (b : WsBridge)
    → IsBacked b
    → IsBacked (on_message w msg now b)
unfolding on_message
on_message-IsBacked w none now b h = h
on_message-IsBacked w (some msg) now b h =
    let label = lookup w b.labels in
    let met = contact w label msg.session_id b in
    let (c, l) = dispatch-SameSockets (speaker msg.session_id label) msg.body now met in
    rw (c, l) (contact-IsBacked w label msg.session_id b refl h)

if-IsBacked : (t : Bool) (b c : WsBridge) → IsBacked b → IsBacked c → IsBacked (if t then b else c)
if-IsBacked true b c h k = h
if-IsBacked false b c h k = k

disconnect-IsBacked :
    (s now : ℕ) (session : Option Session) (b : WsBridge)
    → IsBacked b
    → IsBacked (disconnect s now session b)
disconnect-IsBacked s now none b h = Backed-remove b.connections b.labels s h
disconnect-IsBacked s now (some session) b h =
    let m = clear_runtime s b.sessions in
    let gone = record b { connections = remove s b.connections; sessions = m } in
    let ended = record gone { sessions = update_status s stopped now m } in
    let left = Backed-remove b.connections b.labels s h in
    if-IsBacked (not b.shutting_down && not (is_over session.status))
      (emit (session_status s stopped) ended) gone left left

closed-IsBacked :
    (w : ℕ) (label : Option ℕ) (now : ℕ) (b : WsBridge)
    → IsBacked b
    → IsBacked (closed w label now b)
closed-IsBacked w none now b h = h
closed-IsBacked w (some s) now b h =
    if-IsBacked (same (lookup s b.connections) (some w)) (disconnect s now (get s b.sessions) b) b
      (disconnect-IsBacked s now (get s b.sessions) b h) h

rekeyed-IsBacked :
    (found : Option ℕ) (old new : ℕ) (b : WsBridge)
    → lookup old b.connections ≡ found
    → IsBacked b
    → IsBacked (rekeyed found old new b).1
rekeyed-IsBacked none old new b e h = h
rekeyed-IsBacked (some w) old new b e h = Backed-rekey b.connections b.labels old new w h e

step-IsBacked : (o : Op) (b : WsBridge) → IsBacked b → IsBacked (step o b)
unfolding step on_close rekey_connection
step-IsBacked (messages w msg now) b h = on_message-IsBacked w msg now b h
step-IsBacked (closes w now) b h = closed-IsBacked w (lookup w b.labels) now b h
step-IsBacked (rekeys old new) b h = rekeyed-IsBacked (lookup old b.connections) old new b refl h

-- If every session's socket is labelled with that session, as when there is none, this stays so
-- over any history of messages, closed sockets and rekeyed connections.
pub run-IsBacked : (os : List Op) (b : WsBridge) → IsBacked b → IsBacked (run os b)
unfolding run
run-IsBacked [] b h = h
run-IsBacked (o ∷ os) b h = run-IsBacked os (step o b) (step-IsBacked o b h)

-- A refused command changes nothing; one that is accepted goes as one frame to one open socket.
abbrev pub Delivered : (ℕ → Bool) → ℕ → Command → WsBridge → Bool × WsBridge → Type 0
Delivered is_open s c b (false, b') = (b' ≡ b) × (is_connected is_open s b ≡ false)
Delivered is_open s c b (true, b') =
    (w : ℕ) × (b' ≡ record b { sent = b.sent ++ (w, frame_of c) ∷ [] })
    × (is_open w ≡ true)
    × (lookup w b.labels ≡ some s)

write-Delivered :
    (is_open : ℕ → Bool) (s : ℕ) (c : Command) (b : WsBridge) (found : Option ℕ)
    → lookup s b.connections ≡ found
    → IsBacked b
    → Delivered is_open s c b (write (open_socket is_open found) (frame_of c) b)
unfolding is_connected
write-Delivered is_open s c b none e h = (refl, rw (e, is_connected) refl)
write-Delivered is_open s c b (some w) e h = elim (Bool-cases (is_open w)) [
  | inl t ↦ rw t (w, refl, t, h s w e)
  | inr t ↦ rw t (refl, rw (e, is_connected, t) refl)
]

-- Where every session's socket is labelled with that session, each of the senders either returns
-- false, changes nothing and the session is not connected, or returns true and writes its frame,
-- once, to an open socket that is labelled with the session it was called for.
pub deliver-Delivered :
    (is_open : ℕ → Bool) (s : ℕ) (c : Command) (b : WsBridge)
    → IsBacked b
    → Delivered is_open s c b (deliver is_open s c b)
unfolding deliver
deliver-Delivered is_open s c b h = write-Delivered is_open s c b (lookup s b.connections) refl h
