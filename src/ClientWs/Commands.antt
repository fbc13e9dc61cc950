-- ===== src/ClientWs/Commands.antt =====
-- packages/orchestrator/src/client-ws.ts: the frames of the clients, the replies to them, and the
-- handlers of the frames that are passed on to a runner. A text is a number; `is_open` tells which
-- sockets, of runners and of clients, are open at the moment of the call.
use claude_agent_runner.Common.{
  ℕ, Option, none, some, Bool, true, false, List, [], ◌∷◌, ◌++◌, if◌then◌else◌, ◌&&◌, ◌==◌,
}
use claude_agent_runner.Db.{SessionStatus, busy, stopped, error}
use claude_agent_runner.Sessions.{Session, get, increment_messages, rename}
use claude_agent_runner.WsBridge.{WsBridge, deliver, with_sessions}
use claude_agent_runner.WsBridge.Frames.{
  Command, TurnOptions, send_message, send_steer, send_fork_and_steer, send_compact, send_rewind,
  send_set_options, send_permission_response, send_get_commands, send_mcp_command, send_rename,
}

-- `content`, `model`, `max_turns` and `max_thinking_tokens` of a frame.
pub record TurnFields : Type 0 where
  pub content : Option ℕ
  pub model : Option ℕ
  pub max_turns : Option ℕ
  pub max_thinking_tokens : Option ℕ

pub data SteerMode : Type 0 where
  steer_mode fork_mode : SteerMode

pub record SteerFields : Type 0 where
  pub turn : TurnFields
  pub mode : SteerMode
  pub compact : Option ℕ
  pub compact_instructions : Option ℕ
  pub operations : Option ℕ

pub record OptionFields : Type 0 where
  pub model : Option ℕ
  pub max_thinking_tokens : Option ℕ
  pub compact_instructions : Option ℕ
  pub permission_mode : Option ℕ
  pub effort : Option ℕ

-- The frames that name a session and are passed on to its runner.
pub data Request : Type 0 where
  send : ℕ → TurnFields → Request
  steer : ℕ → SteerFields → Request
  compact : Option ℕ → Request
  permission_response : ℕ → ℕ → Option ℕ → Option ℕ → Request
  rewind : ℕ → Request
  set_options : OptionFields → Request
  get_commands : Request
  rename_session : ℕ → Request
  mcp : ℕ → ℕ → Option ℕ → Request

pub data ErrorCode : Type 0 where
  invalid_request session_not_found : ErrorCode
  runner_code : ℕ → ErrorCode

-- The texts of the errors that acknowledge a frame.
pub data AckError : Type 0 where
  not_found is_busy has_stopped not_connected timed_out : AckError
  reported : ℕ → AckError

pub data ServerFrame : Type 0 where
  pong : ServerFrame
  error_frame : ErrorCode → Option ℕ → Option ℕ → ServerFrame
  subscribed : ℕ → SessionStatus → ℕ → ServerFrame
  ack : ℕ → Bool → Option AckError → ℕ → ServerFrame
  commands_result : ℕ → Option ℕ → ℕ → ServerFrame
  status_frame : ℕ → SessionStatus → ServerFrame
  event_frame context_state_frame permission_request_frame : ℕ → ℕ → ServerFrame
  session_error_frame : ℕ → ℕ → ℕ → ServerFrame

-- A listener that waits once for the runner's answer to a request.
pub data WaitKind : Type 0 where
  for_commands for_mcp : WaitKind

pub record Wait : Type 0 where
  pub kind : WaitKind
  pub session : ℕ
  pub request : ℕ
  pub client : ℕ

-- What the handlers share: the bridge with the sessions, who waits, and the frames sent to clients.
pub record Hub : Type 0 where
  pub bridge : WsBridge
  pub waits : List Wait
  pub outbox : List (ℕ × ServerFrame)

-- `HandleContext`: the client's socket, its tenant, the ids of connection and request, and the
-- clock's reading at the call.
pub record HandleContext : Type 0 where
  pub client : ℕ
  pub tenant : Option ℕ
  pub connection_id : ℕ
  pub request_id : ℕ
  pub now : ℕ

module _ (is_open : ℕ → Bool) where
  -- `sendFrame`.
  abbrev pub send_frame : ℕ → ServerFrame → Hub → Hub
  send_frame client frame h =
      if is_open client then record h { outbox = h.outbox ++ (client, frame) ∷ [] } else h

  -- `{ ok: sent, ...(!sent ? { error: "Runner not connected" } : {}) }`.
  abbrev pub ack_sent : ℕ → Bool → ℕ → ServerFrame
  ack_sent s true request = ack s true none request
  ack_sent s false request = ack s false (some not_connected) request

  abbrev pub acknowledged : HandleContext → ℕ → Bool × WsBridge → Hub → Hub
  acknowledged ctx s (done, b) h =
      send_frame ctx.client (ack_sent s done ctx.request_id) (record h { bridge = b })

  -- To hand a command to the bridge, and to acknowledge the frame with the result.
  abbrev pub forward : HandleContext → ℕ → Command → Hub → Hub
  forward ctx s c h = acknowledged ctx s (deliver is_open s c h.bridge) h

  abbrev pub turn_options : TurnFields → HandleContext → TurnOptions
  turn_options f ctx = record {
    content = f.content;
    model = f.model;
    max_turns = f.max_turns;
    max_thinking_tokens = f.max_thinking_tokens;
    request_id = some ctx.request_id;
    trace_id = some ctx.connection_id;
  }

  abbrev pub handle_send : ℕ → ℕ → TurnFields → HandleContext → Hub → Hub
  handle_send s text f ctx h =
      let m = increment_messages s ctx.now h.bridge.sessions in
      let counted = record h { bridge = with_sessions m h.bridge } in
      forward ctx s (send_message text (turn_options f ctx)) counted

  abbrev pub steer_command : SteerMode → ℕ → SteerFields → HandleContext → Command
  steer_command fork_mode text f ctx = send_fork_and_steer text (turn_options f.turn ctx)
  steer_command steer_mode text f ctx = send_steer text (record {
    turn = turn_options f.turn ctx;
    compact = f.compact;
    compact_instructions = f.compact_instructions;
    operations = f.operations;
  })

  abbrev pub set_options_command : OptionFields → HandleContext → Command
  set_options_command f ctx = send_set_options (record {
    model = f.model;
    max_thinking_tokens = f.max_thinking_tokens;
    compact_instructions = f.compact_instructions;
    permission_mode = f.permission_mode;
    effort = f.effort;
    request_id = some ctx.request_id;
    trace_id = some ctx.connection_id;
  })

  abbrev pub wait_for : WaitKind → HandleContext → ℕ → Hub → Hub
  wait_for kind ctx s h = record h {
    waits =
        h.waits
        ++ record { kind = kind; session = s; request = ctx.request_id; client = ctx.client } ∷ [];
  }

  -- The answer, an empty list if the runner is not connected, or else whoever waits for it.
  abbrev pub commands_requested : HandleContext → ℕ → Bool × WsBridge → Hub → Hub
  commands_requested ctx s (false, b) h =
      send_frame ctx.client (commands_result s none ctx.request_id) (record h { bridge = b })
  commands_requested ctx s (true, b) h = wait_for for_commands ctx s (record h { bridge = b })

  abbrev pub mcp_requested : HandleContext → ℕ → Bool × WsBridge → Hub → Hub
  mcp_requested ctx s (false, b) h =
      send_frame ctx.client (ack s false (some not_connected) ctx.request_id)
        (record h { bridge = b })
  mcp_requested ctx s (true, b) h = wait_for for_mcp ctx s (record h { bridge = b })

  -- The result of `rename` is not looked at, and the frame is always acknowledged.
  abbrev pub handle_rename : ℕ → ℕ → HandleContext → Hub → Hub
  handle_rename s title ctx h =
      let m = (rename s title ctx.tenant h.bridge.sessions).1 in
      let renamed = with_sessions m h.bridge in
      let (_, b) = deliver is_open s (send_rename title (some ctx.request_id)) renamed in
      send_frame ctx.client (ack s true none ctx.request_id) (record h { bridge = b })

  -- What each handler does once its guards are passed.
  unfoldable pub perform : HandleContext → ℕ → Request → Hub → Hub
  unfolding increment_messages rename deliver
  perform ctx s (send text f) h = handle_send s text f ctx h
  perform ctx s (steer text f) h = forward ctx s (steer_command f.mode text f ctx) h
  perform ctx s (compact instructions) h =
      forward ctx s (send_compact instructions (some ctx.request_id)) h
  perform ctx s (permission_response tool behavior text input) h =
      forward ctx s (send_permission_response tool behavior text input) h
  perform ctx s (rewind uuid) h =
      forward ctx s (send_rewind uuid (some ctx.request_id) (some ctx.connection_id)) h
  perform ctx s (set_options f) h = forward ctx s (set_options_command f ctx) h
  perform ctx s get_commands h =
      let c = send_get_commands (some ctx.request_id) (some ctx.connection_id) in
      commands_requested ctx s (deliver is_open s c h.bridge) h
  perform ctx s (rename_session title) h = handle_rename s title ctx h
  perform ctx s (mcp action server enabled) h =
      let c = send_mcp_command action server enabled (some ctx.request_id) in
      mcp_requested ctx s (deliver is_open s c h.bridge) h

  -- The guards on the session's status.
  abbrev pub refused : Request → SessionStatus → Option AckError
  refused (send _ _) busy = some is_busy
  refused (send _ _) stopped = some has_stopped
  refused (send _ _) error = some has_stopped
  refused (steer _ _) stopped = some has_stopped
  refused (steer _ _) error = some has_stopped
  refused (compact _) stopped = some has_stopped
  refused (compact _) error = some has_stopped
  refused (rewind _) busy = some is_busy
  refused _ _ = none

  abbrev pub refusal : Request → Option Session → Option AckError
  refusal q none = some not_found
  refusal q (some session) = refused q session.status

  abbrev pub unless_refused : HandleContext → ℕ → Request → Option AckError → Hub → Hub
  unless_refused ctx s q (some e) h = send_frame ctx.client (ack s false (some e) ctx.request_id) h
  unless_refused ctx s q none h = perform ctx s q h

  unfoldable pub handle_request : HandleContext → ℕ → Request → Hub → Hub
  unfolding perform
  handle_request ctx s q h = unless_refused ctx s q (refusal q (get s h.bridge.sessions)) h

  -- The answer of a runner to those who wait for it, each of whom waits no longer.
  abbrev pub same_kind : WaitKind → WaitKind → Bool
  same_kind for_commands for_commands = true
  same_kind for_mcp for_mcp = true
  same_kind _ _ = false

  abbrev pub is_answered : WaitKind → ℕ → ℕ → Wait → Bool
  is_answered kind s request w = same_kind w.kind kind && (w.session == s && w.request == request)

  unfoldable pub answer_waits : (Wait → Bool) → (Wait → ServerFrame) → List Wait → Hub → Hub
  answer_waits test frame [] h = h
  answer_waits test frame (w ∷ ws) h =
      let answered = send_frame w.client (frame w) h in
      let kept = record h { waits = h.waits ++ w ∷ [] } in
      answer_waits test frame ws (if test w then answered else kept)

  -- `settled` is `result.commands`, or `result.success` with `result.error`.
  abbrev pub settle_waits : (Wait → Bool) → (Wait → ServerFrame) → Hub → Hub
  settle_waits test frame h = answer_waits test frame h.waits (record h { waits = [] })
