-- ===== src/Sessions/Tests.antt =====
-- A table of three sessions on which the definitions are run and the theorems are applied.
use claude_agent_runner.Common.{
  ◌≡◌, refl, ◌⊎◌, none, some, Bool, true, false, ◌&&◌, List, [], ◌∷◌, arith, map, count, any,
}
use claude_agent_runner.Common.Dict.{lookup, insert, remove}
use claude_agent_runner.Common.Sort.{sort_by, IsSorted}
use claude_agent_runner.Db.{
  SessionConfig, SessionRow, SnapshotRow, ready, busy, idle, stopped, has_id, refers_to,
  delete_session,
}
use claude_agent_runner.Sessions.{
  SessionManager, Session, rows, new_row, get, create, update_status, active_count, rename,
  remove_session, is_evictable, evictable_by_lru, set_ws, name_exists, max_token_index, max_index,
  list, latest,
}
use claude_agent_runner.Sessions.Identity.{removes, step, IsUnique, get-step_other}
use claude_agent_runner.Sessions.Naming.{
  UniqueNames, rename-UniqueNames, remove_session_lem, evictable_by_lru_lem,
}

program : Unit {0}
unfolding get create update_status active_count rename remove_session evictable_by_lru set_ws
    name_exists max_token_index max_index list latest sort_by lookup insert remove delete_session
program = tt

abbrev config : SessionConfig
config = record {
  name = none;
  pinned = false;
  repo = none;
  branch = none;
  workspace = none;
  vault_name = none;
  agent_id = none;
  model = 1;
  system_prompt = none;
  max_turns = none;
  thinking = none;
  additional_directories = none;
  compact_instructions = none;
  permission_mode = none;
  mcp_servers = none;
  allowed_paths = none;
  forked_from = none;
  tenant_id = some 4;
}

abbrev snapshot : SnapshotRow
snapshot = record {
  id = 1;
  session_id = 1;
  request_id = none;
  trigger = 0;
  message_count = 2;
  roles = 0;
  messages = 0;
  created_at = 20;
}

abbrev three : List SessionRow
three =
    record (new_row 1 11 0 (record config { name = some 9 }) 10) {
      status = idle;
      last_activity = 30;
    }
    ∷ record (new_row 2 12 1 config 11) { status = busy }
    ∷ record (new_row 3 13 0 config 12) { status = ready; last_activity = 20 }
    ∷ []

abbrev manager : SessionManager
manager = record {
  db = record { sessions = three; snapshots = snapshot ∷ []; next_snapshot_id = 2 };
  runtime = [];
}

evictable_runs : map (λ (r : SessionRow). r.id) (evictable_by_lru (some 4) manager) ≡ 3 ∷ 1 ∷ []
unfolding program
evictable_runs = refl

active_runs : active_count none (update_status 2 stopped 40 manager) ≡ 2
unfolding program
active_runs = refl

rename_runs : (rename 2 9 (some 4) manager).0 ≡ false
unfolding program
rename_runs = refl

remove_runs : remove_session 1 manager ≡ none
unfolding program
remove_runs = refl

list_runs : map (λ (s : Session). s.id) (list none manager) ≡ 3 ∷ 2 ∷ 1 ∷ []
unfolding program
list_runs = refl

three-IsUnique : IsUnique three
three-IsUnique j = ground arith

get-step_other_example : get 3 (step (removes 2) manager) ≡ get 3 manager
get-step_other_example = get-step_other (removes 2) manager 3 refl

three-UniqueNames : UniqueNames (some 4) three
three-UniqueNames n = ground arith

rename-UniqueNames_example : UniqueNames (some 4) (rows (rename 2 8 (some 4) manager).1)
rename-UniqueNames_example =
    rename-UniqueNames 2 8 (some 4) manager three-IsUnique three-UniqueNames

remove_session_lem_example :
    ((remove_session 1 manager ≡ none)
      × (any (has_id 1) (rows manager) ≡ true)
      × (any (refers_to 1) manager.db.snapshots ≡ true))
    ⊎ ((m' : SessionManager) × (remove_session 1 manager ≡ some (get 1 manager, m'))
        × (get 1 m' ≡ none)
        × (lookup 1 m'.runtime ≡ none)
        × ((any (has_id 1) (rows manager) && any (refers_to 1) manager.db.snapshots) ≡ false))
remove_session_lem_example = remove_session_lem 1 manager

evictable_by_lru_lem_example :
    IsSorted (λ (r : SessionRow). r.last_activity) (evictable_by_lru none manager)
    × ((p : SessionRow → Bool)
        → count p (evictable_by_lru none manager)
          ≡ count (λ r. is_evictable none r && p r) (rows manager))
evictable_by_lru_lem_example = evictable_by_lru_lem none manager
