-- ===== src/RunnerTurn/Busy.antt =====
-- packages/runner/src/command-handler.ts: when the runner is busy, and what becomes of a steer.
use claude_agent_runner.Common.{
  ℕ, ◌+◌, ◌≡◌, refl, sym, ◌∙◌, Option, none, some, Bool, true, false, List, [], ◌∷◌, ◌++◌,
  if◌then◌else◌, is_some,
}
use mathlib.Core.Path.{subst}
use claude_agent_runner.RunnerTurn.{
  TurnRequest, SteerRequest, Turn, Handler, looping, single, interrupting, forking, preparing,
  readying, RunnerState, TurnEnd, done, thrown, send, begin, start, interrupt, finish, reported,
  cancelled, steered, forked, resumed, RunnerFrame, busy_status, ready_status, execution_error,
  waits_on, turn_of, steer_of, is_cancel, on_message, on_compact, on_steer, on_steer_idle,
  on_fork_and_steer, resume_first, on_wait_end,
}

-- Busy just while one handler runs.
abbrev pub HasOne : Bool → List Handler → Type 0
HasOne b [] = b ≡ false
HasOne b (h ∷ []) = b ≡ true
HasOne b (h ∷ i ∷ hs) = ⊥

abbrev pub IsBusyRight : RunnerState → Type 0
IsBusyRight s = HasOne s.is_busy s.handlers

-- A message comes only while the runner is idle.
pub data Step : RunnerState → RunnerState → Type 0 where
  messaged :
      (o : Bool) (r : TurnRequest) (s : RunnerState) → s.is_busy ≡ false → Step s (on_message o r s)
  compacted :
      (o : Bool) (i request : Option ℕ) (s : RunnerState) → Step s (on_compact o i request s)
  steered_by : (o : Bool) (p : SteerRequest) (s : RunnerState) → Step s (on_steer o p s)
  forked_by : (o : Bool) (r : TurnRequest) (s : RunnerState) → Step s (on_fork_and_steer o r s)
  ended : (o : Bool) (end : TurnEnd) (s : RunnerState) → Step s (on_wait_end o end s)

pub data Steps : RunnerState → RunnerState → Type 0 where
  stay : (s : RunnerState) → Steps s s
  next : {s t u : RunnerState} → Step s t → Steps t u → Steps s u

if-IsBusyRight :
    (b : Bool) (s t : RunnerState)
    → (b ≡ true → IsBusyRight s)
    → (b ≡ false → IsBusyRight t)
    → IsBusyRight (if b then s else t)
if-IsBusyRight true s t h k = h refl
if-IsBusyRight false s t h k = k refl

joins_none :
    (b : Bool) (hs : List Handler) (h : Handler)
    → b ≡ false
    → HasOne b hs
    → HasOne true (hs ++ h ∷ [])
joins_none b [] h e k = refl
joins_none b (x ∷ []) h e k = let bad : true ≡ false = sym k ∙ e in cc
joins_none b (x ∷ y ∷ hs) h e k = absurd k

begin-IsBusyRight :
    (o : Bool) (h : Handler) (a b : Option ℕ) (s : RunnerState)
    → s.is_busy ≡ false
    → IsBusyRight s
    → IsBusyRight (begin o h a b s)
begin-IsBusyRight true h a b s e k = joins_none s.is_busy s.handlers h e k
begin-IsBusyRight false h a b s e k = joins_none s.is_busy s.handlers h e k

interrupt-IsBusyRight : (o : Bool) (s : RunnerState) → IsBusyRight s → IsBusyRight (interrupt s)
interrupt-IsBusyRight o s k =
    if-IsBusyRight s.has_session (record s { interrupts = s.interrupts + 1 }) s (λ u. k) (λ u. k)

on_steer_idle-IsBusyRight :
    (o : Bool) (p : SteerRequest) (s : RunnerState)
    → s.is_busy ≡ false
    → IsBusyRight s
    → IsBusyRight (on_steer_idle o p s)
on_steer_idle-IsBusyRight o p s e k =
    if-IsBusyRight (is_cancel p.request) _ _ (λ u. told o)
      (λ u.
        begin-IsBusyRight o (readying p) p.request.request_id p.request.trace_id
          (record s { operations = s.operations ++ p.operations }) e k)
  where
    told :
        (o : Bool) → IsBusyRight (send o (ready_status p.request.request_id p.request.trace_id) s)
    told true = k
    told false = k

-- A handler that was resumed: it waits again and the runner is busy, or it is over.
abbrev IsResumed : Option Handler × RunnerState → Type 0
IsResumed (x, s) = s.is_busy ≡ is_some x

finish-IsResumed : (o : Bool) (t : Turn) (s : RunnerState) → (finish o t s).is_busy ≡ false
finish-IsResumed true t s = refl
finish-IsResumed false t s = refl

send_busy : (o : Bool) (f : RunnerFrame) (s : RunnerState) → (send o f s).is_busy ≡ s.is_busy
send_busy true f s = refl
send_busy false f s = refl

interrupt_busy : (s : RunnerState) → (interrupt s).is_busy ≡ s.is_busy
interrupt_busy s = go s.has_session
  where
    go :
        (b : Bool)
        → (if b then record s { interrupts = s.interrupts + 1 } else s).is_busy ≡ s.is_busy
    go true = refl
    go false = refl

cancelled-IsResumed :
    (o : Bool) (t : Turn) (b : Bool) (s : RunnerState)
    → s.is_busy ≡ true
    → IsResumed (cancelled o t b s)
cancelled-IsResumed o t true s e = interrupt_busy s ∙ e
cancelled-IsResumed o t false s e = finish-IsResumed o t s

steered-IsResumed :
    (o : Bool) (t : Turn) (x : Option SteerRequest) (s : RunnerState)
    → s.is_busy ≡ true
    → IsResumed (steered o t x s)
steered-IsResumed o t none s e = finish-IsResumed o t s
steered-IsResumed o t (some p) s e =
    if-IsResumed (is_cancel p.request) _ _
      (cancelled-IsResumed o t s.has_session (record s { pending_steer = none }) e) e
  where
    if-IsResumed :
        (b : Bool) (x y : Option Handler × RunnerState)
        → IsResumed x
        → IsResumed y
        → IsResumed (if b then x else y)
    if-IsResumed true x y h k = h
    if-IsResumed false x y h k = k

forked-IsResumed :
    (o : Bool) (t : Turn) (x : Option TurnRequest) (s : RunnerState)
    → s.is_busy ≡ true
    → IsResumed (forked o t x s)
forked-IsResumed o t none s e = steered-IsResumed o t s.pending_steer s e
forked-IsResumed o t (some r) s e = e

reported_busy :
    (o : Bool) (t : Turn) (end : TurnEnd) (b : Bool) (s : RunnerState)
    → (reported o t end b s).is_busy ≡ s.is_busy
reported_busy o t done b s = refl
reported_busy o t (thrown e) true s = refl
reported_busy o t (thrown e) false s = send_busy o (execution_error t.request_id t.trace_id e) s

resumed-IsResumed :
    (o : Bool) (h : Handler) (end : TurnEnd) (s : RunnerState)
    → s.is_busy ≡ true
    → IsResumed (resumed o h end s)
resumed-IsResumed o (looping t) end s e =
    forked-IsResumed o t s.pending_fork (reported o t end (is_some s.pending_steer) s)
      (reported_busy o t end (is_some s.pending_steer) s ∙ e)
resumed-IsResumed o (forking t r) done s e = e
resumed-IsResumed o (forking t r) (thrown x) s e =
    steered-IsResumed o t (some (steer_of r)) (record s { pending_steer = some (steer_of r) }) e
resumed-IsResumed o (interrupting t) end s e = finish-IsResumed o t s
resumed-IsResumed o (preparing p) end s e =
    send_busy o (busy_status p.request.request_id p.request.trace_id) s ∙ e
resumed-IsResumed o (readying p) end s e = e
resumed-IsResumed o (single t) end s e = finish-IsResumed o t (reported o t end false s)

waits_on-HasOne : (b : Bool) (x : Option Handler) → b ≡ is_some x → HasOne b (waits_on true x ++ [])
waits_on-HasOne b none e = e
waits_on-HasOne b (some h) e = e

resume_first-IsBusyRight :
    (o : Bool) (hs : List Handler) (end : TurnEnd) (s : RunnerState)
    → s.handlers ≡ hs
    → IsBusyRight s
    → IsBusyRight (resume_first o hs end s)
unfolding resume_first
resume_first-IsBusyRight o [] end s f k = k
resume_first-IsBusyRight o (h ∷ []) end s f k =
    let busy : HasOne s.is_busy (h ∷ []) = subst (HasOne s.is_busy) f k in
    waits_on-HasOne (resumed o h end s).1.is_busy (resumed o h end s).0
      (resumed-IsResumed o h end s busy)
resume_first-IsBusyRight o (h ∷ i ∷ hs) end s f k =
    let bad : HasOne s.is_busy (h ∷ i ∷ hs) = subst (HasOne s.is_busy) f k in absurd bad

step-IsBusyRight : {s t : RunnerState} → Step s t → IsBusyRight s → IsBusyRight t
unfolding on_message on_compact on_steer on_fork_and_steer on_wait_end
step-IsBusyRight (messaged o r s e) k = begin-IsBusyRight o _ r.request_id r.trace_id _ e k
step-IsBusyRight (compacted true i request s) k = k
step-IsBusyRight (compacted false i request s) k = k
step-IsBusyRight (steered_by o p s) k =
    if-IsBusyRight s.is_busy _ _
      (λ e. interrupt-IsBusyRight o (record s { pending_steer = some p }) k)
      (λ e. on_steer_idle-IsBusyRight o p s e k)
step-IsBusyRight (forked_by o r s) k =
    if-IsBusyRight s.is_busy _ _
      (λ e. interrupt-IsBusyRight o (record s { pending_fork = some r }) k)
      (λ e.
        begin-IsBusyRight o (single (turn_of r false none)) r.request_id r.trace_id
          (start (turn_of r false none) s) e k)
step-IsBusyRight (ended o end s) k = resume_first-IsBusyRight o s.handlers end s refl k

-- Where messages come only while the runner is idle, it is busy just while one handler runs, and never
-- two run: this stays so over any history of messages, compactions, steers, forks, and ends of what
-- the handlers wait for, which are turns, forks that are made or fail, interrupts and operations.
pub history-IsBusyRight : {s t : RunnerState} → Steps s t → IsBusyRight s → IsBusyRight t
history-IsBusyRight (stay s) k = k
history-IsBusyRight (next a b) k = history-IsBusyRight b (step-IsBusyRight a k)
