-- ===== src/Capacity/Tests.antt =====
-- Three active sessions under a limit of two.
use claude_agent_runner.Common.{
  ◌+◌, ◌-◌, min, ◌≡◌, refl, none, some, false, List, [], ◌∷◌, arith, leb, length, take,
  if◌then◌else◌,
}
use claude_agent_runner.Common.Dict.{remove}
use claude_agent_runner.Common.Sort.{sort_by}
use claude_agent_runner.Db.{SessionConfig, SessionRow, ready, busy, idle}
use claude_agent_runner.Sessions.{
  new_row, active_count, evictable_by_lru, update_status, clear_runtime,
}
use claude_agent_runner.Sessions.Identity.{IsUnique}
use claude_agent_runner.Capacity.{
  AppContext, shutdown, kill, session_capacity_reached, stop_session_runtime, evict, ensure_limit,
  ensure_capacity, stop_all,
}
use claude_agent_runner.Capacity.Eviction.{ensure_capacity_lem}

program : Unit {0}
unfolding active_count evictable_by_lru update_status clear_runtime stop_session_runtime evict
    ensure_limit ensure_capacity stop_all sort_by remove
program = tt

abbrev config : SessionConfig
config = record {
  name = none;
  pinned = false;
  repo = none;
  branch = none;
  workspace = none;
  vault_name = none;
  agent_id = none;
  model = 1;
  system_prompt = none;
  max_turns = none;
  thinking = none;
  additional_directories = none;
  compact_instructions = none;
  permission_mode = none;
  mcp_servers = none;
  allowed_paths = none;
  forked_from = none;
  tenant_id = none;
}

abbrev three : List SessionRow
three =
    record (new_row 1 11 0 config 10) { status = idle; last_activity = 30 }
    ∷ record (new_row 2 12 1 config 11) { status = busy }
    ∷ record (new_row 3 13 0 config 12) { status = ready; last_activity = 20 }
    ∷ []

abbrev context : AppContext
context = record {
  sessions = record {
    db = record { sessions = three; snapshots = []; next_snapshot_id = 1 };
    runtime = [];
  };
  token_pool = none;
  max_active_sessions = some 2;
  calls = [];
}

-- Two must go for one to fit in: the session that rested longest, then the other.
calls_run : (ensure_capacity 50 context).0.calls ≡ shutdown 3 ∷ kill 3 ∷ shutdown 1 ∷ kill 1 ∷ []
unfolding program
calls_run = refl

error_run :
    (ensure_capacity 50 (record context { max_active_sessions = some 1 })).1
    ≡ some (session_capacity_reached 1)
unfolding program
error_run = refl

three-IsUnique : IsUnique three
three-IsUnique j = ground arith

ensure_capacity_lem_example :
    let candidates = evictable_by_lru none context.sessions in
    let needed = active_count none context.sessions + 1 - 2 in
    let (c', error) = ensure_capacity 50 context in
    (c' ≡ stop_all 50 (take needed candidates) context)
    × (active_count none c'.sessions
        ≡ active_count none context.sessions - min needed (length candidates))
    × (error ≡ (if leb needed (length candidates) then none else some (session_capacity_reached 2)))
ensure_capacity_lem_example = ensure_capacity_lem 2 50 context (omega arith) refl three-IsUnique
