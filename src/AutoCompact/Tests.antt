-- ===== src/AutoCompact/Tests.antt =====
-- A compactor with one waiting session on which the definitions are run and the theorems applied.
use claude_agent_runner.Common.{
  ℕ, ◌/◌, ◌<◌, ◌≡◌, refl, none, Bool, false, List, [], ◌∷◌, arith, count, ◌==◌, All,
}
use claude_agent_runner.Common.Dict.{lookup, insert, remove}
use claude_agent_runner.Db.{SessionConfig, idle, busy}
use claude_agent_runner.Sessions.{SessionManager, new_row, get}
use claude_agent_runner.AutoCompact.{AutoCompactor, fire, on_status_change, on_context_state}
use claude_agent_runner.AutoCompact.Quiet.{
  Fired, fire-Fired, Op, changes, fires, run, is_report_of, run-compacted,
}

program : Unit {0}
unfolding lookup insert remove get fire on_status_change on_context_state
program = tt

abbrev config : SessionConfig
config = record {
  name = none;
  pinned = false;
  repo = none;
  branch = none;
  workspace = none;
  vault_name = none;
  agent_id = none;
  model = 1;
  system_prompt = none;
  max_turns = none;
  thinking = none;
  additional_directories = none;
  compact_instructions = none;
  permission_mode = none;
  mcp_servers = none;
  allowed_paths = none;
  forked_from = none;
  tenant_id = none;
}

abbrev sessions : SessionManager
sessions = record {
  db = record {
    sessions = record (new_row 1 11 0 config 10) { status = idle } ∷ [];
    snapshots = [];
    next_snapshot_id = 1;
  };
  runtime = [];
}

abbrev compactor : AutoCompactor
compactor = record { threshold_pct = 95; idle_timers = []; context_pct = []; compacted = [] }

-- A stand-in for the quotient: any function serves the theorems.
abbrev percent : ℕ → ℕ → ℕ
percent tokens window = tokens / 2000

abbrev has_1m : ℕ → Bool
has_1m model = false

abbrev waiting : AutoCompactor
waiting = on_status_change 1 idle 20 (on_context_state percent has_1m 1 198000 sessions compactor)

compacts : (fire 1 sessions waiting).compacted ≡ 1 ∷ []
unfolding program
compacts = refl

fire-Fired_example : Fired 1 sessions waiting (fire 1 sessions waiting)
fire-Fired_example = fire-Fired 1 sessions waiting

after_fire : lookup 1 (fire 1 sessions waiting).context_pct ≡ none
unfolding program
after_fire = refl

same_threshold : 0 < (fire 1 sessions waiting).threshold_pct
unfolding program
same_threshold = omega arith

abbrev history : List Op
history = changes 1 busy 30 ∷ changes 1 idle 40 ∷ fires 1 sessions ∷ []

history_quiet : All (λ o. is_report_of 1 o ≡ false) history
history_quiet = (refl, (refl, (refl, tt)))

run-compacted_example :
    count (λ j. j == 1) (run percent has_1m history (fire 1 sessions waiting)).compacted
    ≡ count (λ j. j == 1) (fire 1 sessions waiting).compacted
run-compacted_example =
    run-compacted percent has_1m 1 history (fire 1 sessions waiting) same_threshold after_fire
      history_quiet
