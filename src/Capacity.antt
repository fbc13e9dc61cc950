-- ===== src/Capacity.antt =====
-- packages/orchestrator/src/server/services/capacity.ts, with `stopSessionRuntime` and
-- `rollbackSession` of session-runtime.ts: room is made for a session by stopping the least recently
-- active ones. The calls on the runner bridge and on the container manager are recorded in order; a
-- `kill` that fails is ignored, as in the source. No other request is handled between the stops.
mod Tests
pub mod Eviction
use claude_agent_runner.Common.{
  ℕ, suc, Option, none, some, Bool, true, false, List, [], ◌∷◌, ◌++◌, if◌then◌else◌, ltb, length,
}
use claude_agent_runner.Db.{SessionRow, stopped}
use claude_agent_runner.Sessions.{
  SessionManager, update_status, clear_runtime, remove_session, active_count, evictable_by_lru,
}
use claude_agent_runner.Sessions.Identity.{after_remove}
use claude_agent_runner.TokenPool.{TokenPool, release}

pub data Call : Type 0 where
  shutdown : ℕ → Call
  kill : ℕ → Call

pub record AppContext : Type 0 where
  pub sessions : SessionManager
  pub token_pool : Option TokenPool
  pub max_active_sessions : Option ℕ
  pub calls : List Call

abbrev pub release_in : ℕ → Option TokenPool → Option TokenPool
release_in id none = none
release_in id (some p) = some (release id p)

pub stop_session_runtime : ℕ → ℕ → AppContext → AppContext
unfolding clear_runtime update_status
stop_session_runtime id now c = record c {
  calls = c.calls ++ shutdown id ∷ kill id ∷ [];
  sessions = update_status id stopped now (clear_runtime id c.sessions);
  token_pool = release_in id c.token_pool;
}

-- Where `remove` throws, the token is not released.
pub rollback_session : ℕ → AppContext → AppContext
rollback_session id c =
    let called = record c { calls = c.calls ++ shutdown id ∷ kill id ∷ [] } in
    elim (remove_session id c.sessions) [
      | none ↦ called
      | some (_, m) ↦ record called { sessions = m; token_pool = release_in id c.token_pool }
    ]

-- The loop of `ensureCapacity`: the state, and the count of active sessions at its end.
pub evict : ℕ → ℕ → List SessionRow → ℕ → AppContext → AppContext × ℕ
unfolding stop_session_runtime active_count
evict limit now [] active c = (c, active)
evict limit now (s ∷ ss) active c =
    let stopped_one = stop_session_runtime s.id now c in
    let rest = evict limit now ss (active_count none stopped_one.sessions) stopped_one in
    if ltb active limit then (c, active) else rest

pub data CapacityError : Type 0 where
  session_capacity_reached : ℕ → CapacityError

-- With a limit; the error carries it.
pub ensure_limit : ℕ → ℕ → AppContext → AppContext × Option CapacityError
unfolding evict evictable_by_lru active_count
ensure_limit limit now c =
    let active = active_count none c.sessions in
    let (c', left) = evict limit now (evictable_by_lru none c.sessions) active c in
    if ltb active limit
    then (c, none)
    else if ltb left limit
    then (c', none)
    else (c', some (session_capacity_reached limit))

-- No limit, or a limit of 0, switches the check off.
abbrev pub ensure_any : Option ℕ → ℕ → AppContext → AppContext × Option CapacityError
ensure_any none now c = (c, none)
ensure_any (some limit) now c = if ltb 0 limit then ensure_limit limit now c else (c, none)

pub ensure_capacity : ℕ → AppContext → AppContext × Option CapacityError
unfolding ensure_limit
ensure_capacity now c = ensure_any c.max_active_sessions now c

-- To stop a row of sessions one after the other.
pub stop_all : ℕ → List SessionRow → AppContext → AppContext
unfolding stop_session_runtime
stop_all now [] c = c
stop_all now (s ∷ ss) c = stop_all now ss (stop_session_runtime s.id now c)
