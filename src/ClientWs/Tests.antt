-- ===== src/ClientWs/Tests.antt =====
-- packages/orchestrator/src/client-ws.ts: a client of one tenant, on which the definitions are run and
-- the theorems are applied.
use claude_agent_runner.Common.{ℕ, ◌≡◌, refl, ◌⊎◌, none, some, Bool, true, false, [], ◌∷◌, arith}
use claude_agent_runner.Common.Dict.{lookup, insert, remove}
use claude_agent_runner.Db.{SessionConfig, ready}
use claude_agent_runner.Sessions.{SessionManager, new_row, get, increment_messages, rename}
use claude_agent_runner.WsBridge.{WsBridge, deliver, session_event, commands_results}
use claude_agent_runner.WsBridge.Sockets.{IsBacked}
use claude_agent_runner.ClientWs.Commands.{
  get_commands, commands_result, subscribed, event_frame, error_frame, session_not_found, Hub,
  HandleContext, handle_request, perform, answer_waits,
}
use claude_agent_runner.ClientWs.{
  Client, World, heard, event_channel, subscribe, on_frame, on_event, on_connect, on_client_close,
  off, off_all, clean_all, notify,
}
use claude_agent_runner.WsBridge.{pty_exits}
use claude_agent_runner.WsBridge.Frames.{send_pty_input, frame_of}
use claude_agent_runner.ClientWs.Terminal.{
  Terminals, attach_terminal, on_terminal_message, on_terminal_event, typed, pty_exit, watchers,
  shown,
}
use claude_agent_runner.ClientWs.Answers.{on_answer}
use claude_agent_runner.ClientWs.Links.{IsLinked, is_subscribed}
use claude_agent_runner.ClientWs.Subscriptions.{
  connected, framed, Steps, stay, next, reached-IsLinked,
}
use claude_agent_runner.ClientWs.Delivery.{IsDelivered, on_event-IsDelivered}
use claude_agent_runner.ClientWs.Admission.{MaySubscribe, on_frame-subscribes}
use claude_agent_runner.ClientWs.Replies.{IsAnswered, handle_request-IsAnswered}
use claude_agent_runner.ClientWs.Truth.{Answered, handle_request-Answered}

program : Unit {0}
unfolding lookup insert remove get increment_messages rename deliver handle_request perform
    answer_waits on_frame on_event on_connect on_client_close off off_all clean_all notify
    on_terminal_message on_terminal_event attach_terminal watchers shown
program = tt

abbrev config : SessionConfig
config = record {
  name = none;
  pinned = false;
  repo = none;
  branch = none;
  workspace = none;
  vault_name = none;
  agent_id = none;
  model = 1;
  system_prompt = none;
  max_turns = none;
  thinking = none;
  additional_directories = none;
  compact_instructions = none;
  permission_mode = none;
  mcp_servers = none;
  allowed_paths = none;
  forked_from = none;
  tenant_id = some 7;
}

abbrev sessions : SessionManager
sessions = record {
  db = record {
    sessions = record (new_row 1 11 0 config 10) { status = ready } ∷ [];
    snapshots = [];
    next_snapshot_id = 1;
  };
  runtime = [];
}

-- Session 1 has the socket 20.
abbrev bridge : WsBridge
bridge = record {
  connections = (1, 20) ∷ [];
  labels = (20, 1) ∷ [];
  sessions = sessions;
  has_db = true;
  shutting_down = false;
  emitted = [];
  sent = [];
}

abbrev hub : Hub
hub = record { bridge = bridge; waits = []; outbox = [] }

abbrev nobody : World
nobody = record { hub = hub; listeners = []; clients = [] }

abbrev all_open : ℕ → Bool
all_open w = true

abbrev ctx : HandleContext
ctx = record { client = 50; tenant = some 7; connection_id = 60; request_id = 61; now = 70 }

abbrev joined : World
joined = on_frame all_open ctx (subscribe 1) (on_connect 50 (some 7) nobody)

replies_subscribed : joined.hub.outbox ≡ (50, subscribed 1 ready 61) ∷ []
unfolding program
replies_subscribed = refl

-- A client of another tenant is told that the session is not there.
refuses_stranger :
    (on_frame all_open ctx (subscribe 1) (on_connect 50 (some 8) nobody)).hub.outbox
    ≡ (50, error_frame session_not_found (some 1) (some 61)) ∷ []
unfolding program
refuses_stranger = refl

hears_event :
    (on_event all_open (session_event 1 9) joined).hub.outbox
    ≡ (50, subscribed 1 ready 61) ∷ (50, event_frame 1 9) ∷ []
unfolding program
hears_event = refl

commands_answer :
    (on_answer all_open
      (λ whole. some whole)
      (λ whole. true)
      (λ whole. none)
      (commands_results 1 61 5)
      (handle_request all_open ctx 1 get_commands hub)).outbox
    ≡ (50, commands_result 1 (some 5) 61) ∷ []
unfolding program
commands_answer = refl

-- A request that names another tenant's session is passed on all the same.
passes_stranger :
    (handle_request all_open (record ctx { tenant = some 8 }) 1 get_commands hub).bridge.sent
    ≡ (handle_request all_open ctx 1 get_commands hub).bridge.sent
unfolding program
passes_stranger = refl

abbrev terminals : Terminals
terminals =
    attach_terminal 50 1 (record { bridge = bridge; attached = []; outbox = []; closing = [] })

types_key :
    (on_terminal_message all_open (λ n. n) 50 (typed 3) terminals).bridge.sent
    ≡ (20, frame_of (send_pty_input 3)) ∷ []
unfolding program
types_key = refl

shows_exit :
    (on_terminal_event all_open (λ n. n) (pty_exits 1 (some 0) none) terminals).outbox
    ≡ (50, pty_exit (some 0) none) ∷ []
unfolding program
shows_exit = refl

nobody-IsLinked : IsLinked nobody
unfolding program
nobody-IsLinked ch c s = refl

arrives : Steps nobody joined
unfolding program
arrives =
    next (connected 50 (some 7) nobody refl)
      (next (framed all_open ctx (subscribe 1) (on_connect 50 (some 7) nobody)) (stay joined))

reached-IsLinked_example : IsLinked joined
reached-IsLinked_example = reached-IsLinked arrives nobody-IsLinked

joined-IsLinked : IsLinked joined
joined-IsLinked = reached-IsLinked arrives nobody-IsLinked

hears : heard all_open (session_event 1 9) ≡ some (event_channel, 1, event_frame 1 9)
hears = refl

on_event-IsDelivered_example :
    IsDelivered all_open 1 (event_frame 1 9) joined (on_event all_open (session_event 1 9) joined)
on_event-IsDelivered_example =
    on_event-IsDelivered all_open (session_event 1 9) event_channel 1 (event_frame 1 9) joined
      joined-IsLinked hears

is_in : is_subscribed 50 1 joined ≡ true
unfolding program
is_in = refl

on_frame-subscribes_example :
    let w = on_connect 50 (some 7) nobody in
    (is_subscribed 50 1 w ≡ true)
    ⊎ ((k : Client) × MaySubscribe all_open ctx (subscribe 1) 50 1 k w)
on_frame-subscribes_example =
    on_frame-subscribes all_open ctx (subscribe 1) 50 1 (on_connect 50 (some 7) nobody) is_in

bridge-IsBacked : IsBacked bridge
unfolding program
bridge-IsBacked s w e = ground (arith, e)

handle_request-Answered_example :
    Answered all_open ctx 1 hub (handle_request all_open ctx 1 get_commands hub)
handle_request-Answered_example =
    handle_request-Answered all_open ctx 1 get_commands hub refl refl bridge-IsBacked

handle_request-IsAnswered_example :
    IsAnswered all_open hub (handle_request all_open ctx 1 get_commands hub)
handle_request-IsAnswered_example =
    handle_request-IsAnswered all_open ctx 1 get_commands hub refl tt
