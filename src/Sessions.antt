-- ===== src/Sessions.antt =====
-- packages/orchestrator/src/sessions.ts: `SessionManager`, the sessions table with the runtime
-- references beside it. Each statement is an update of the rows that it selects; `now` is the
-- clock's reading at the call.
mod Tests
pub mod Identity
pub mod Naming
use claude_agent_runner.Common.{
  ℕ, ◌+◌, ◌-◌, max, Option, none, some, Bool, true, false, not, ◌&&◌, List, [], ◌∷◌, ◌++◌, map,
  if◌then◌else◌, ◌==◌, same, is_some, get_or, filter, find?, any, count,
}
use claude_agent_runner.Common.Dict.{lookup, insert, remove}
use claude_agent_runner.Common.Sort.{sort_by}
use claude_agent_runner.Db.{
  SessionStatus, starting, cloning, syncing, ready, busy, idle, stopped, error, SessionConfig,
  SessionRow, Db, has_id, delete_session,
}

pub record Runtime : Type 0 where
  pub ws : Option ℕ
  pub pending_resolve : Option ℕ

pub record SessionManager : Type 0 where
  pub db : Db
  pub runtime : List (ℕ × Runtime)

-- A session as `get` returns it.
pub record Session : Type 0 where
  pub row : SessionRow
  pub open row use *
  pub ws : Option ℕ
  pub pending_resolve : Option ℕ

abbrev pub new_row : ℕ → ℕ → ℕ → SessionConfig → ℕ → SessionRow
new_row id container_id token_index config now = record {
  id = id;
  container_id = container_id;
  status = starting;
  oauth_token_index = token_index;
  config = config;
  created_at = now;
  last_activity = now;
  message_count = 0;
  input_tokens = 0;
  output_tokens = 0;
  cost_usd = 0;
  last_error = none;
  sdk_session_id = none;
  context_tokens = 0;
  compact_count = 0;
  last_compact_at = none;
}

abbrev pub with_runtime : SessionRow → Option Runtime → Session
with_runtime r none = record { row = r; ws = none; pending_resolve = none }
with_runtime r (some rt) = record { row = r; ws = rt.ws; pending_resolve = rt.pending_resolve }

abbrev pub session_at : Option SessionRow → Option Runtime → Option Session
session_at none rt = none
session_at (some r) rt = some (with_runtime r rt)

abbrev pub rows : SessionManager → List SessionRow
rows m = m.db.sessions

abbrev pub with_rows : SessionManager → List SessionRow → SessionManager
with_rows m rs = record m { db = record (m.db) { sessions = rs } }

unfoldable pub get : ℕ → SessionManager → Option Session
get id m = session_at (find? (has_id id) (rows m)) (lookup id m.runtime)

-- `none` is the exception of the primary key.
unfoldable pub create : ℕ → ℕ → ℕ → SessionConfig → ℕ → SessionManager → Option SessionManager
create id container_id token_index config now m =
    if any (has_id id) (rows m)
    then none
    else some (with_rows m (rows m ++ new_row id container_id token_index config now ∷ []))

-- `WHERE tenant_id = ?`, where a tenant is given.
abbrev pub in_tenant : Option ℕ → SessionRow → Bool
in_tenant none r = true
in_tenant (some t) r = same r.tenant_id (some t)

-- `ORDER BY created_at DESC`, by the time that is left to the latest one.
pub latest : List SessionRow → ℕ
latest [] = 0
latest (r ∷ rs) = max r.created_at (latest rs)

pub list : Option ℕ → SessionManager → List Session
unfolding latest
list tenant m =
    let chosen = filter (in_tenant tenant) (rows m) in
    map (λ (r : SessionRow). with_runtime r (lookup r.id m.runtime))
      (sort_by (λ (r : SessionRow). latest chosen - r.created_at) chosen)

-- `UPDATE sessions SET … WHERE id = ?`.
abbrev pub update : ℕ → (SessionRow → SessionRow) → List SessionRow → List SessionRow
update id f = map (λ r. if has_id id r then f r else r)

abbrev pub update_row : ℕ → (SessionRow → SessionRow) → SessionManager → SessionManager
update_row id f m = with_rows m (update id f (rows m))

unfoldable pub update_status : ℕ → SessionStatus → ℕ → SessionManager → SessionManager
update_status id status now = update_row id (λ r. record r { status = status; last_activity = now })

pub set_error : ℕ → ℕ → ℕ → SessionManager → SessionManager
set_error id message now =
    update_row id (λ r. record r { status = error; last_error = some message; last_activity = now })

pub update_container_and_token : ℕ → ℕ → ℕ → ℕ → SessionManager → SessionManager
update_container_and_token id container_id token_index now = update_row id (λ r. record r {
  container_id = container_id;
  oauth_token_index = token_index;
  status = starting;
  last_activity = now;
})

pub set_sdk_session_id : ℕ → ℕ → ℕ → SessionManager → SessionManager
set_sdk_session_id id sdk_session_id now =
    update_row id (λ r. record r { sdk_session_id = some sdk_session_id; last_activity = now })

unfoldable pub clear_runtime : ℕ → SessionManager → SessionManager
clear_runtime id m = record m { runtime = remove id m.runtime }

pub reactivate : ℕ → ℕ → ℕ → ℕ → SessionManager → SessionManager
unfolding clear_runtime
reactivate id container_id token_index now m =
    update_row id
      (λ r. record r {
        container_id = container_id;
        oauth_token_index = token_index;
        status = starting;
        last_error = none;
        last_activity = now;
      })
      (clear_runtime id m)

unfoldable pub increment_messages : ℕ → ℕ → SessionManager → SessionManager
increment_messages id now =
    update_row id (λ r. record r { message_count = r.message_count + 1; last_activity = now })

unfoldable pub add_usage : ℕ → ℕ → ℕ → ℕ → SessionManager → SessionManager
add_usage id input output cost = update_row id (λ r. record r {
  input_tokens = r.input_tokens + input;
  output_tokens = r.output_tokens + output;
  cost_usd = r.cost_usd + cost;
})

pub update_context_tokens : ℕ → ℕ → ℕ → SessionManager → SessionManager
update_context_tokens id tokens now =
    update_row id (λ r. record r { context_tokens = tokens; last_activity = now })

pub increment_compact_count : ℕ → ℕ → SessionManager → SessionManager
increment_compact_count id now = update_row id (λ r. record r {
  compact_count = r.compact_count + 1;
  last_compact_at = some now;
  last_activity = now;
})

-- The session as it was, and the state without it; `none` is the exception of the foreign key.
unfoldable pub remove_session : ℕ → SessionManager → Option (Option Session × SessionManager)
unfolding get
remove_session id m = elim (delete_session id m.db) [
  | none ↦ none
  | some db ↦ some (get id m, record m { db = db; runtime = remove id m.runtime })
]

-- `status NOT IN ('stopped', 'error')`.
abbrev pub is_active_status : SessionStatus → Bool
is_active_status stopped = false
is_active_status error = false
is_active_status _ = true

abbrev pub is_active : SessionRow → Bool
is_active r = is_active_status r.status

unfoldable pub active_count : Option ℕ → SessionManager → ℕ
active_count tenant m = count (λ r. in_tenant tenant r && is_active r) (rows m)

pub get_token_index : ℕ → SessionManager → Option ℕ
get_token_index id m = elim (find? (has_id id) (rows m)) [
  | none ↦ none
  | some r ↦ some r.oauth_token_index
]

pub active_token_indices : SessionManager → List (ℕ × ℕ)
active_token_indices m =
    map (λ (r : SessionRow). (r.id, r.oauth_token_index)) (filter is_active (rows m))

pub max_index : List SessionRow → Option ℕ
max_index [] = none
max_index (r ∷ rs) = some (max r.oauth_token_index (get_or (max_index rs) 0))

pub max_token_index : SessionManager → Option ℕ
unfolding max_index
max_token_index m = max_index (rows m)

-- Another session of the tenant has the name.
abbrev pub is_taken_by : ℕ → ℕ → Option ℕ → SessionRow → Bool
is_taken_by id name tenant r = same r.name (some name) && (not (has_id id r) && in_tenant tenant r)

unfoldable pub rename : ℕ → ℕ → Option ℕ → SessionManager → Bool × SessionManager
rename id name tenant m =
    if any (is_taken_by id name tenant) (rows m)
    then (false, m)
    else (true, update_row id (λ r. record r { config = record (r.config) { name = some name } }) m)

unfoldable pub name_exists : ℕ → Option ℕ → SessionManager → Bool
name_exists name tenant m =
    any (λ (r : SessionRow). same r.name (some name) && in_tenant tenant r) (rows m)

pub set_pinned : ℕ → Bool → SessionManager → SessionManager
set_pinned id pinned =
    update_row id (λ r. record r { config = record (r.config) { pinned = pinned } })

-- `status IN ('ready', 'idle')`.
abbrev pub is_resting : SessionStatus → Bool
is_resting ready = true
is_resting idle = true
is_resting _ = false

abbrev pub is_evictable : Option ℕ → SessionRow → Bool
is_evictable tenant r = is_resting r.status && (not r.pinned && in_tenant tenant r)

-- `ORDER BY last_activity ASC`; the model takes the table's order where two times are equal.
unfoldable pub evictable_by_lru : Option ℕ → SessionManager → List SessionRow
evictable_by_lru tenant m =
    sort_by (λ (r : SessionRow). r.last_activity) (filter (is_evictable tenant) (rows m))

abbrev pub runtime_of : ℕ → SessionManager → Runtime
runtime_of id m = get_or (lookup id m.runtime) (record { ws = none; pending_resolve = none })

unfoldable pub set_ws : ℕ → ℕ → SessionManager → SessionManager
set_ws id ws m = record m {
  runtime = insert id (record (runtime_of id m) { ws = some ws }) m.runtime;
}

pub get_ws : ℕ → SessionManager → Option ℕ
get_ws id m = elim (lookup id m.runtime) [ none ↦ none | some rt ↦ rt.ws ]

pub set_pending_resolve : ℕ → Option ℕ → SessionManager → SessionManager
set_pending_resolve id resolve m = record m {
  runtime = insert id (record (runtime_of id m) { pending_resolve = resolve }) m.runtime;
}
