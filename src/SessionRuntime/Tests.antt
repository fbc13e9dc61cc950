-- ===== src/SessionRuntime/Tests.antt =====
-- packages/orchestrator/src/server/services/session-runtime.ts: a warm runner, a fresh spawn and the
-- promises, on which the definitions are run and the theorems are applied.
use claude_agent_runner.Common.{
  ℕ, ◌≡◌, ◌≢◌, refl, Option, none, some, Bool, true, false, List, [], ◌∷◌, arith,
}
use claude_agent_runner.Common.Dict.{lookup, insert, remove}
use claude_agent_runner.Db.{SessionConfig, ready, busy}
use claude_agent_runner.Sessions.{SessionManager, new_row, get, create, set_ws, add_usage}
use claude_agent_runner.TokenPool.{TokenPool, Assigned, assign, release}
use claude_agent_runner.WarmPool.{WarmEntry}
use claude_agent_runner.WarmPool
use claude_agent_runner.WsBridge.{WsBridge, deliver, rekey_connection, is_connected}
use claude_agent_runner.WsBridge.Frames.{TurnOptions}
use claude_agent_runner.SessionRuntime.Spawn.{
  Settings, tokens_only, RuntimeContext, failed, kill, spawn_settled, finish_adopted,
}
use claude_agent_runner.SessionRuntime.Outcome.{
  Ended, spawn_settled-Ended, HandedOver, finish_adopted-HandedOver,
}
use claude_agent_runner.SessionRuntime.Waiting.{
  text_block, other_block, ResultEvent, Input, event, failure, fired, assistant, result_event,
  resolved, no_usage, collect_run, collect_step, send_and_collect, ReadyInput, ready_step,
  timed_out_waiting, status_was, timer_fired, ready_run, wait_for_ready, texts,
}
use claude_agent_runner.SessionRuntime.Collected.{Settled, send_and_collect-Settled}

program : Unit {0}
unfolding lookup insert remove get create set_ws add_usage assign release deliver rekey_connection
    is_connected spawn_settled finish_adopted collect_run collect_step send_and_collect ready_run
    wait_for_ready texts
program = tt

abbrev config : SessionConfig
config = record {
  name = none;
  pinned = false;
  repo = none;
  branch = none;
  workspace = none;
  vault_name = none;
  agent_id = none;
  model = 1;
  system_prompt = none;
  max_turns = none;
  thinking = none;
  additional_directories = none;
  compact_instructions = none;
  permission_mode = none;
  mcp_servers = none;
  allowed_paths = none;
  forked_from = none;
  tenant_id = none;
}

abbrev settings : Settings
settings = record {
  repo = none;
  branch = none;
  vault = none;
  model = 1;
  system_prompt = none;
  append_system_prompt = none;
  max_turns = none;
  thinking = none;
  allowed_tools = none;
  disallowed_tools = none;
  compact_instructions = none;
  permission_mode = none;
  mcp_servers = [];
  allowed_paths = none;
  credentials = [];
}

abbrev sessions : SessionManager
sessions = record {
  db = record { sessions = new_row 1 11 0 config 10 ∷ []; snapshots = []; next_snapshot_id = 1 };
  runtime = [];
}

-- Session 1 and the warm runner 100 are connected.
abbrev bridge : WsBridge
bridge = record {
  connections = (1, 20) ∷ (100, 30) ∷ [];
  labels = (20, 1) ∷ (30, 100) ∷ [];
  sessions = sessions;
  has_db = true;
  shutting_down = false;
  emitted = [];
  sent = [];
}

abbrev tokens : TokenPool
tokens = record { tokens = [] ∷ [] ∷ []; next_index = 0; session_tokens = (1, 0) ∷ (2, 1) ∷ [] }

abbrev context : RuntimeContext
context = record { bridge = bridge; pools = tokens_only tokens; docker = [] }

abbrev assigned : Assigned
assigned = record { token = some []; token_index = 1 }

abbrev entry : WarmEntry
entry = record {
  warm_id = 100;
  container_id = 44;
  token_index = 0;
  status = WarmPool.ready;
  spawned_at = 5;
  vault = none;
  agent_id = none;
}

abbrev all_open : ℕ → Bool
all_open w = true

abbrev text_of : Option (List ℕ) → ℕ
text_of none = 0
text_of (some cs) = 9

abbrev packed : Settings → ℕ
packed s = s.model

-- The id of session 1 is taken: the container is killed and the token released.
undoes :
    let (r, c) = spawn_settled 1 assigned config 50 (some 33) context in
    (r ≡ failed) × (c.docker ≡ kill 1 ∷ []) × (c.pools ≡ tokens_only (release 1 tokens))
unfolding program
undoes = (refl, refl, refl)

found : lookup 100 bridge.connections ≡ some 30
unfolding program
found = refl

apart : ◌≢◌ {A = ℕ} 2 100
apart = omega arith

finish_adopted-HandedOver_example :
    HandedOver 2 30 entry assigned 9 1 config context
      (finish_adopted all_open text_of packed 2 entry assigned settings config 50 context)
finish_adopted-HandedOver_example =
    finish_adopted-HandedOver all_open text_of packed 2 entry assigned settings config 50 30 context
      found refl refl apart

spawn_settled-Ended_example :
    Ended 2 assigned config (some 33) context (spawn_settled 2 assigned config 50 (some 33) context)
spawn_settled-Ended_example = spawn_settled-Ended 2 assigned config 50 (some 33) context

abbrev result : ResultEvent
result = record { is_success = true; result = []; usage = none; errors = none }

abbrev inputs : List Input
inputs =
    event (assistant (text_block (97 ∷ []) ∷ other_block ∷ []))
    ∷ event (assistant (text_block (98 ∷ []) ∷ []))
    ∷ event (result_event result)
    ∷ failure 4
    ∷ fired
    ∷ []

abbrev options : TurnOptions
options = record {
  content = none;
  model = none;
  max_turns = none;
  max_thinking_tokens = none;
  request_id = none;
  trace_id = none;
}

collects :
    (collect_run 1 500 inputs (send_and_collect 1 500 all_open 7 options bridge).1).outcomes
    ≡ resolved (97 ∷ 98 ∷ []) no_usage ∷ []
unfolding program
collects = refl

send_and_collect-Settled_example :
    Settled 1 500 inputs
      (is_connected all_open 1 bridge)
      bridge.sessions
      (collect_run 1 500 inputs (send_and_collect 1 500 all_open 7 options bridge).1)
send_and_collect-Settled_example = send_and_collect-Settled 1 500 all_open 7 options bridge inputs

abbrev ready_inputs : List ReadyInput
ready_inputs = status_was busy ∷ timer_fired ∷ status_was ready ∷ []

times_out : (ready_run ready_inputs (wait_for_ready 1 sessions)).outcomes ≡ timed_out_waiting ∷ []
unfolding program ready_step
times_out = refl
