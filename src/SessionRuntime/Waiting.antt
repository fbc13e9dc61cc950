-- ===== src/SessionRuntime/Waiting.antt =====
-- packages/orchestrator/src/server/services/session-runtime.ts: `waitForReady` and `sendAndCollect`, a
-- promise each with listeners and a timer. `outcomes` lists the calls of `resolve` and `reject`,
-- `attached` tells whether the listeners are on the bridge and `timer` whether the timer runs. A text
-- that is put together is the list of its characters.
use claude_agent_runner.Common.{
  ℕ, Option, none, some, Bool, true, false, ◌&&◌, List, [], ◌∷◌, ◌++◌, if◌then◌else◌, get_or,
}
use claude_agent_runner.Db.{SessionStatus, ready}
use claude_agent_runner.Sessions.{SessionManager, Session, get, add_usage}
use claude_agent_runner.TokenPool.{is_nonempty}
use claude_agent_runner.WsBridge.{WsBridge, deliver}
use claude_agent_runner.WsBridge.Frames.{TurnOptions, send_message}

pub data Block : Type 0 where
  text_block : List ℕ → Block
  other_block : Block

pub record Usage : Type 0 where
  pub input_tokens : ℕ
  pub output_tokens : ℕ
  pub cost_usd : ℕ
  pub duration_ms : ℕ

abbrev pub no_usage : Usage
no_usage = record { input_tokens = 0; output_tokens = 0; cost_usd = 0; duration_ms = 0 }

pub record ResultEvent : Type 0 where
  pub is_success : Bool
  pub result : List ℕ
  pub usage : Option Usage
  pub errors : Option (List (List ℕ))

-- A content that is no array has no blocks.
pub data RunnerEvent : Type 0 where
  assistant : List Block → RunnerEvent
  result_event : ResultEvent → RunnerEvent
  other_event : RunnerEvent

pub data Reason : Type 0 where
  runner_not_connected agent_execution_failed : Reason
  no_result_after : ℕ → Reason
  runner_error : ℕ → Reason
  agent_errors : List ℕ → Reason

pub data Outcome : Type 0 where
  resolved : List ℕ → Usage → Outcome
  rejected : Reason → Outcome

pub record Collect : Type 0 where
  pub text : List ℕ
  pub attached : Bool
  pub timer : Bool
  pub outcomes : List Outcome
  pub sessions : SessionManager

-- What can happen to the promise: an event or an error of the session, or the end of the timer.
pub data Input : Type 0 where
  event : RunnerEvent → Input
  failure : ℕ → Input
  fired : Input

unfoldable pub texts : List Block → List ℕ
texts [] = []
texts (text_block t ∷ bs) = t ++ texts bs
texts (other_block ∷ bs) = texts bs

-- `join(", ")`.
unfoldable pub join_errors : List (List ℕ) → List ℕ
join_errors [] = []
join_errors (e ∷ []) = e
join_errors (e ∷ f ∷ es) = e ++ b',' ∷ b' ' ∷ join_errors (f ∷ es)

abbrev pub joined_reason : List ℕ → Reason
joined_reason [] = agent_execution_failed
joined_reason (c ∷ cs) = agent_errors (c ∷ cs)

abbrev pub reason_of : Option (List (List ℕ)) → Reason
reason_of none = agent_execution_failed
reason_of (some es) = joined_reason (join_errors es)

abbrev pub outcome_of : ResultEvent → List ℕ → Outcome
outcome_of r text =
    if r.is_success
    then resolved (if is_nonempty r.result then r.result else text) (get_or r.usage no_usage)
    else rejected (reason_of r.errors)

-- `cleanup`, and then `resolve` or `reject`.
abbrev pub settle : Outcome → Collect → Collect
settle o c = record c { attached = false; timer = false; outcomes = c.outcomes ++ o ∷ [] }

module _ (session timeout_ms : ℕ) where
  abbrev pub spend : ResultEvent → SessionManager → SessionManager
  spend r m =
      let u = get_or r.usage no_usage in
      add_usage session u.input_tokens u.output_tokens u.cost_usd m

  abbrev pub heard_event : RunnerEvent → Collect → Collect
  heard_event (assistant bs) c = record c { text = c.text ++ texts bs }
  heard_event (result_event r) c =
      settle (outcome_of r c.text) (record c { sessions = spend r c.sessions })
  heard_event other_event c = c

  unfoldable pub collect_step : Input → Collect → Collect
  unfolding texts join_errors add_usage
  collect_step (event e) c = if c.attached then heard_event e c else c
  collect_step (failure message) c =
      if c.attached then settle (rejected (runner_error message)) c else c
  collect_step fired c = if c.timer then settle (rejected (no_result_after timeout_ms)) c else c

  -- All that happens after the call.
  unfoldable pub collect_run : List Input → Collect → Collect
  collect_run [] c = c
  collect_run (i ∷ is) c = collect_run is (collect_step i c)

  abbrev pub collect_started : SessionManager → Collect
  collect_started m = record {
    text = [];
    attached = true;
    timer = true;
    outcomes = [];
    sessions = m;
  }

  -- The timer and the listeners are set up, and then the message is sent.
  abbrev pub collect_sent : Bool × WsBridge → WsBridge × Collect
  collect_sent (true, b) = (b, collect_started b.sessions)
  collect_sent (false, b) = (b, settle (rejected runner_not_connected) (collect_started b.sessions))

  unfoldable pub send_and_collect : (ℕ → Bool) → ℕ → TurnOptions → WsBridge → WsBridge × Collect
  unfolding deliver
  send_and_collect is_open message o b =
      collect_sent (deliver is_open session (send_message message o) b)

pub data ReadyOutcome : Type 0 where
  is_ready timed_out_waiting : ReadyOutcome
  runner_failed : ℕ → ReadyOutcome

pub data ReadyInput : Type 0 where
  status_was : SessionStatus → ReadyInput
  failed_with : ℕ → ReadyInput
  timer_fired : ReadyInput

pub record Ready : Type 0 where
  pub attached : Bool
  pub timer : Bool
  pub outcomes : List ReadyOutcome

abbrev pub settle_ready : ReadyOutcome → Ready → Ready
settle_ready o c = record { attached = false; timer = false; outcomes = c.outcomes ++ o ∷ [] }

abbrev pub is_ready_status : SessionStatus → Bool
is_ready_status ready = true
is_ready_status _ = false

unfoldable pub ready_step : ReadyInput → Ready → Ready
ready_step (status_was st) c =
    if c.attached && is_ready_status st then settle_ready is_ready c else c
ready_step (failed_with message) c =
    if c.attached then settle_ready (runner_failed message) c else c
ready_step timer_fired c = if c.timer then settle_ready timed_out_waiting c else c

unfoldable pub ready_run : List ReadyInput → Ready → Ready
ready_run [] c = c
ready_run (i ∷ is) c = ready_run is (ready_step i c)

abbrev pub ready_from : Option Session → Ready
ready_from none = record { attached = true; timer = true; outcomes = [] }
ready_from (some s) =
    if is_ready_status s.status
    then record { attached = false; timer = false; outcomes = is_ready ∷ [] }
    else record { attached = true; timer = true; outcomes = [] }

unfoldable pub wait_for_ready : ℕ → SessionManager → Ready
wait_for_ready session m = ready_from (get session m)
