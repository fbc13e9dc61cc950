-- ===== src/WsBridge/Tests.antt =====
-- A bridge with one session on which the definitions are run and the theorems are applied.
use claude_agent_runner.Common.{ℕ, ◌≡◌, refl, none, some, true, false, List, [], ◌∷◌, arith}
use claude_agent_runner.Common.Dict.{lookup, insert, remove}
use claude_agent_runner.Db.{SessionConfig, ready, busy, stopped}
use claude_agent_runner.Sessions.{SessionManager, new_row, get, set_ws, update_status}
use claude_agent_runner.WsBridge.{
  WsBridge, RunnerMessage, Body, status, event, session_status, any_status, on_message, on_close,
  deliver, rekey_connection, handle,
}
use claude_agent_runner.WsBridge.Frames.{send_pty_input}
use claude_agent_runner.WsBridge.Sockets.{Op, messages, closes, rekeys, run, IsBacked, run-IsBacked}
use claude_agent_runner.WsBridge.Isolation.{on_message-get, on_message-on_close}

program : Unit {0}
unfolding lookup insert remove get set_ws update_status on_message on_close handle deliver
    rekey_connection
program = tt

abbrev config : SessionConfig
config = record {
  name = none;
  pinned = false;
  repo = none;
  branch = none;
  workspace = none;
  vault_name = none;
  agent_id = none;
  model = 1;
  system_prompt = none;
  max_turns = none;
  thinking = none;
  additional_directories = none;
  compact_instructions = none;
  permission_mode = none;
  mcp_servers = none;
  allowed_paths = none;
  forked_from = none;
  tenant_id = none;
}

abbrev sessions : SessionManager
sessions = record {
  db = record {
    sessions = new_row 1 11 0 config 10 ∷ new_row 2 12 0 config 10 ∷ [];
    snapshots = [];
    next_snapshot_id = 1;
  };
  runtime = [];
}

abbrev bridge : WsBridge
bridge = record {
  connections = [];
  labels = [];
  sessions = sessions;
  has_db = true;
  shutting_down = false;
  emitted = [];
  sent = [];
}

abbrev says : ℕ → Body → RunnerMessage
says s body = record { session_id = some s; body = body }

abbrev connected : WsBridge
connected = on_message 20 (some (says 1 (status ready))) 30 bridge

emits :
    (on_close 20 40 connected).emitted
    ≡ session_status 1 ready ∷ any_status 1 ready ∷ session_status 1 stopped ∷ []
unfolding program
emits = refl

sends : (deliver (λ w. true) 1 (send_pty_input 5) connected).0 ≡ true
unfolding program
sends = refl

history : List Op
history = messages 20 (some (says 1 (status ready))) 30 ∷ rekeys 1 2 ∷ closes 20 40 ∷ []

bridge-IsBacked : IsBacked bridge
unfolding program
bridge-IsBacked s w e = ground (arith, e)

run-IsBacked_example : IsBacked (run history bridge)
run-IsBacked_example = run-IsBacked history bridge bridge-IsBacked

on_message-get_example :
    get 2 (on_message 20 (some (says 1 (status busy))) 30 bridge).sessions ≡ get 2 bridge.sessions
on_message-get_example = on_message-get 20 (says 1 (status busy)) 30 bridge 2 refl

old_label : lookup 20 connected.labels ≡ some 1
unfolding program
old_label = refl

new_label : lookup 21 connected.labels ≡ none
unfolding program
new_label = refl

on_message-on_close_example :
    let c = on_message 21 (some (says 1 (event 3))) 50 connected in on_close 20 60 c ≡ c
on_message-on_close_example =
    on_message-on_close 20 21 1 (event 3) 50 60 connected old_label new_label refl
