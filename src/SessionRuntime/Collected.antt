-- ===== src/SessionRuntime/Collected.antt =====
-- packages/orchestrator/src/server/services/session-runtime.ts: the promises of `waitForReady` and
-- `sendAndCollect` settle once, by the first input that ends them.
use claude_agent_runner.Common.{
  ℕ, ◌≡◌, refl, ap, inl, inr, Option, none, some, Bool, true, false, not, List, [], ◌∷◌, ◌++◌,
  if◌then◌else◌, is_some, any, length, Bool-cases,
}
use claude_agent_runner.Common.Dict.{lookup}
use claude_agent_runner.Sessions.{SessionManager, Session, get}
use claude_agent_runner.WsBridge.{WsBridge, is_connected, write, open_socket}
use claude_agent_runner.WsBridge.Frames.{Frame, TurnOptions, send_message, frame_of}
use claude_agent_runner.SessionRuntime.Waiting.{
  Input, event, failure, fired, assistant, result_event, other_event, Outcome, rejected,
  runner_not_connected, runner_error, no_result_after, Collect, texts, outcome_of, spend,
  collect_step, collect_run, collect_sent, send_and_collect, ReadyInput, status_was, failed_with,
  timer_fired, ReadyOutcome, is_ready, runner_failed, timed_out_waiting, Ready, is_ready_status,
  ready_step, ready_run, ready_from, wait_for_ready,
}

abbrev pub to_list : {A : Type 0} → Option A → List A
to_list none = []
to_list (some a) = a ∷ []

-- The answer that a row of inputs gives: the first result, error or end of the timer decides, with
-- the text that the assistant sent before it.
pub answer_from : ℕ → List Input → List ℕ → Option Outcome
answer_from ms [] text = none
answer_from ms (event (assistant bs) ∷ is) text = answer_from ms is (text ++ texts bs)
answer_from ms (event (result_event r) ∷ is) text = some (outcome_of r text)
answer_from ms (event other_event ∷ is) text = answer_from ms is text
answer_from ms (failure message ∷ is) text = some (rejected (runner_error message))
answer_from ms (fired ∷ is) text = some (rejected (no_result_after ms))

-- The usage of the result, where it comes before an error and the end of the timer.
pub spent_by : ℕ → List Input → SessionManager → SessionManager
spent_by s [] m = m
spent_by s (event (result_event r) ∷ is) m = spend s 0 r m
spent_by s (event (assistant bs) ∷ is) m = spent_by s is m
spent_by s (event other_event ∷ is) m = spent_by s is m
spent_by s (failure message ∷ is) m = m
spent_by s (fired ∷ is) m = m

abbrev pub is_fired : Input → Bool
is_fired fired = true
is_fired _ = false

module _ (session ms : ℕ) where
  -- Without listeners and timer nothing happens any more.
  collect_over :
      (is : List Input) (text : List ℕ) (os : List Outcome) (m : SessionManager)
      → let c : Collect = record {
        text = text;
        attached = false;
        timer = false;
        outcomes = os;
        sessions = m;
      } in
        collect_run session ms is c ≡ c
  unfolding collect_run collect_step
  collect_over [] text os m = refl
  collect_over (event e ∷ is) text os m = collect_over is text os m
  collect_over (failure x ∷ is) text os m = collect_over is text os m
  collect_over (fired ∷ is) text os m = collect_over is text os m

  -- What a promise that waits has come to.
  abbrev pub HasCollected : List Input → List ℕ → SessionManager → Collect → Type 0
  HasCollected is text m c =
      (c.outcomes ≡ to_list (answer_from ms is text))
      × (c.sessions ≡ spent_by session is m)
      × (c.attached ≡ not (is_some (answer_from ms is text)))
      × (c.timer ≡ not (is_some (answer_from ms is text)))

  collecting :
      (is : List Input) (text : List ℕ) (m : SessionManager)
      → HasCollected is text m (
          collect_run session ms is
            (record { text = text; attached = true; timer = true; outcomes = []; sessions = m }))
  unfolding collect_run collect_step answer_from spent_by
  collecting [] text m = (refl, refl, refl, refl)
  collecting (event (assistant bs) ∷ is) text m = collecting is (text ++ texts bs) m
  collecting (event (result_event r) ∷ is) text m =
      rw (collect_over is text (outcome_of r text ∷ []) (spend session ms r m))
        (refl, refl, refl, refl)
  collecting (event other_event ∷ is) text m = collecting is text m
  collecting (failure x ∷ is) text m =
      rw (collect_over is text (rejected (runner_error x) ∷ []) m) (refl, refl, refl, refl)
  collecting (fired ∷ is) text m =
      rw (collect_over is text (rejected (no_result_after ms) ∷ []) m) (refl, refl, refl, refl)

  fired_answers :
      (is : List Input) (text : List ℕ)
      → any is_fired is ≡ true
      → is_some (answer_from ms is text) ≡ true
  unfolding answer_from
  fired_answers [] text h = h
  fired_answers (event (assistant bs) ∷ is) text h = fired_answers is (text ++ texts bs) h
  fired_answers (event (result_event r) ∷ is) text h = refl
  fired_answers (event other_event ∷ is) text h = fired_answers is text h
  fired_answers (failure x ∷ is) text h = refl
  fired_answers (fired ∷ is) text h = refl

  -- One outcome, where there is an answer.
  one_outcome :
      (os : List Outcome) (x : Option Outcome) → os ≡ to_list x → is_some x ≡ true → length os ≡ 1
  one_outcome os none e h = cc
  one_outcome os (some o) e h = ap length e

  -- A `sendAndCollect` after the inputs, by whether its message was sent.
  abbrev pub Settled : List Input → Bool → SessionManager → Collect → Type 0
  Settled is true m c = HasCollected is [] m c × (any is_fired is ≡ true → length c.outcomes ≡ 1)
  Settled is false m c =
      (c.outcomes ≡ rejected runner_not_connected ∷ [])
      × (c.sessions ≡ m)
      × (c.attached ≡ false)
      × (c.timer ≡ false)

  sent_settles :
      (x : Option ℕ) (f : Frame) (b : WsBridge) (is : List Input)
      → Settled is
          (is_some x)
          b.sessions
          (collect_run session ms is (collect_sent session ms (write x f b)).1)
  sent_settles none f b is =
      rw (collect_over is [] (rejected runner_not_connected ∷ []) b.sessions)
        (refl, refl, refl, refl)
  sent_settles (some w) f b is =
      let h = collecting is [] b.sessions in
      (h, λ e. one_outcome _ (answer_from ms is []) h.0 (fired_answers is [] e))

  -- `sendAndCollect` settles once at most, whatever happens after the call and in whatever order. If
  -- the session's runner has an open socket, the first result, error or end of the timer decides, with
  -- the text that the assistant sent until then; the usage of a result is added to the session once
  -- and nothing else is; listeners and timer are there just as long as it has not settled; and once
  -- the timer has run out it has settled. If not, it is rejected at once, and nothing changes that.
  pub send_and_collect-Settled :
      (is_open : ℕ → Bool) (message : ℕ) (o : TurnOptions) (b : WsBridge) (is : List Input)
      → Settled is
          (is_connected is_open session b)
          b.sessions
          (collect_run session ms is (send_and_collect session ms is_open message o b).1)
  unfolding send_and_collect is_connected
  send_and_collect-Settled is_open message o b is =
      go (open_socket is_open (lookup session b.connections)) (
        sent_settles (open_socket is_open (lookup session b.connections))
          (frame_of (send_message message o)) b is)
    where
      go :
          (x : Option ℕ)
          → Settled is (is_some x) b.sessions (
              collect_run session ms is
                (collect_sent session ms (write x (frame_of (send_message message o)) b)).1)
          → Settled is
              (elim x [ none ↦ false | some w ↦ true ])
              b.sessions
              (collect_run session ms is
                (collect_sent session ms (write x (frame_of (send_message message o)) b)).1)
      go none h = h
      go (some w) h = h

-- The first status `ready`, error or end of the timer.
pub ready_answer : List ReadyInput → Option ReadyOutcome
ready_answer [] = none
ready_answer (status_was st ∷ is) =
    let later = ready_answer is in if is_ready_status st then some is_ready else later
ready_answer (failed_with message ∷ is) = some (runner_failed message)
ready_answer (timer_fired ∷ is) = some timed_out_waiting

abbrev pub is_timer : ReadyInput → Bool
is_timer timer_fired = true
is_timer _ = false

ready_over :
    (is : List ReadyInput) (os : List ReadyOutcome)
    → let c : Ready = record { attached = false; timer = false; outcomes = os } in
      ready_run is c ≡ c
unfolding ready_run ready_step
ready_over [] os = refl
ready_over (status_was st ∷ is) os = ready_over is os
ready_over (failed_with x ∷ is) os = ready_over is os
ready_over (timer_fired ∷ is) os = ready_over is os

abbrev pub IsDecided : Option ReadyOutcome → Ready → Type 0
IsDecided x c =
    (c.outcomes ≡ to_list x) × (c.attached ≡ not (is_some x)) × (c.timer ≡ not (is_some x))

readying :
    (is : List ReadyInput)
    → IsDecided
        (ready_answer is)
        (ready_run is (record { attached = true; timer = true; outcomes = [] }))
unfolding ready_run ready_step ready_answer
readying [] = (refl, refl, refl)
readying (status_was st ∷ is) = elim (Bool-cases (is_ready_status st)) [
  | inl t ↦ rw (ready_run, t, ready_over is (is_ready ∷ [])) (refl, refl, refl)
  | inr t ↦ rw (ready_run, t) (readying is)
]
readying (failed_with x ∷ is) = rw (ready_over is (runner_failed x ∷ [])) (refl, refl, refl)
readying (timer_fired ∷ is) = rw (ready_over is (timed_out_waiting ∷ [])) (refl, refl, refl)

timer_answers : (is : List ReadyInput) → any is_timer is ≡ true → is_some (ready_answer is) ≡ true
unfolding ready_answer
timer_answers [] h = h
timer_answers (status_was st ∷ is) h = elim (Bool-cases (is_ready_status st)) [
  | inl t ↦ rw t refl
  | inr t ↦ rw t (timer_answers is h)
]
timer_answers (failed_with x ∷ is) h = refl
timer_answers (timer_fired ∷ is) h = refl

-- Whether the session is ready at the call.
abbrev pub is_ready_session : Option Session → Bool
is_ready_session none = false
is_ready_session (some s) = is_ready_status s.status

abbrev pub Awaited : List ReadyInput → Bool → Ready → Type 0
Awaited is true c = IsDecided (some is_ready) c
Awaited is false c =
    IsDecided (ready_answer is) c × (any is_timer is ≡ true → is_some (ready_answer is) ≡ true)

ready_from-Awaited :
    (x : Option Session) (is : List ReadyInput)
    → Awaited is (is_ready_session x) (ready_run is (ready_from x))
ready_from-Awaited none is = (readying is, timer_answers is)
ready_from-Awaited (some s) is = elim (Bool-cases (is_ready_status s.status)) [
  | inl t ↦ rw (t, ready_over is (is_ready ∷ [])) (refl, refl, refl)
  | inr t ↦ rw t (readying is, timer_answers is)
]

-- `waitForReady` settles once at most. For a session that is ready at the call it has succeeded, and
-- nothing changes that. Otherwise the first status `ready`, error or end of the timer after the call
-- decides; listeners and timer are there just as long as it has not settled; and once the timer has
-- run out it has settled.
pub wait_for_ready-Awaited :
    (session : ℕ) (m : SessionManager) (is : List ReadyInput)
    → Awaited is (is_ready_session (get session m)) (ready_run is (wait_for_ready session m))
unfolding wait_for_ready
wait_for_ready-Awaited session m is = ready_from-Awaited (get session m) is
