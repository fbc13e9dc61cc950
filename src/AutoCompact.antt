-- ===== src/AutoCompact.antt =====
-- packages/orchestrator/src/auto-compact.ts: `AutoCompactor`, which has idle sessions compacted.
-- `percent tokens window` stands for `Math.round` of the quotient in floating point, `has_1m` for the
-- test whether a model's name contains "1m". A timer is its session's entry in `idle_timers`, and
-- `fire` is its callback, which runs only while the entry is there.
mod Tests
pub mod Quiet
use claude_agent_runner.Common.{
  ℕ, Option, none, some, Bool, true, false, ◌||◌, List, [], ◌∷◌, ◌++◌, if◌then◌else◌, get_or,
  is_some, ltb,
}
use claude_agent_runner.Common.Dict.{lookup, insert, remove}
use claude_agent_runner.Db.{SessionStatus, ready, idle}
use claude_agent_runner.Sessions.{SessionManager, Session, get, is_resting}

-- `compacted`: the calls of `bridge.sendCompact`, in order.
pub record AutoCompactor : Type 0 where
  pub threshold_pct : ℕ
  pub idle_timers : List (ℕ × ℕ)
  pub context_pct : List (ℕ × ℕ)
  pub compacted : List ℕ

abbrev pub get_context_window : (ℕ → Bool) → ℕ → ℕ
get_context_window has_1m model = if has_1m model then 1000000 else 200000

module _ (percent : ℕ → ℕ → ℕ) (has_1m : ℕ → Bool) where
  abbrev pub set_pct : ℕ → ℕ → Option Session → AutoCompactor → AutoCompactor
  set_pct id tokens none c = c
  set_pct id tokens (some session) c = record c {
    context_pct =
        insert id (percent tokens (get_context_window has_1m session.model)) c.context_pct;
  }

  unfoldable pub on_context_state : ℕ → ℕ → SessionManager → AutoCompactor → AutoCompactor
  on_context_state id tokens m c = set_pct id tokens (get id m) c

abbrev pub pct_of : ℕ → AutoCompactor → ℕ
pct_of id c = get_or (lookup id c.context_pct) 0

abbrev pub cancel_idle_timer : ℕ → AutoCompactor → AutoCompactor
cancel_idle_timer id c = record c { idle_timers = remove id c.idle_timers }

-- A timer that is set again starts anew; `now` is when.
abbrev pub start_idle_timer : ℕ → ℕ → AutoCompactor → AutoCompactor
start_idle_timer id now c =
    let cancelled = cancel_idle_timer id c in
    if ltb (pct_of id c) c.threshold_pct
    then cancelled
    else record cancelled { idle_timers = insert id now cancelled.idle_timers }

unfoldable pub on_status_change : ℕ → SessionStatus → ℕ → AutoCompactor → AutoCompactor
on_status_change id status now c =
    if is_resting status then start_idle_timer id now c else cancel_idle_timer id c

pub on_session_removed : ℕ → AutoCompactor → AutoCompactor
on_session_removed id c = record (cancel_idle_timer id c) { context_pct = remove id c.context_pct }

abbrev pub compact : ℕ → AutoCompactor → AutoCompactor
compact id c = record c {
  compacted = c.compacted ++ id ∷ [];
  context_pct = remove id c.context_pct;
}

-- `maybeCompact`, from the session that `get` returns on.
abbrev pub maybe_compact : ℕ → Option Session → AutoCompactor → AutoCompactor
maybe_compact id none c = c
maybe_compact id (some session) c =
    if is_resting session.status
    then if ltb (pct_of id c) c.threshold_pct then c else compact id c
    else c

-- The callback of the timer.
unfoldable pub fire : ℕ → SessionManager → AutoCompactor → AutoCompactor
fire id m c =
    if is_some (lookup id c.idle_timers)
    then maybe_compact id (get id m) (cancel_idle_timer id c)
    else c

pub destroy : AutoCompactor → AutoCompactor
destroy c = record c { idle_timers = []; context_pct = [] }
