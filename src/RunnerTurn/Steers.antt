-- ===== src/RunnerTurn/Steers.antt =====
-- packages/runner/src/command-handler.ts: what becomes of the steer and the fork that are pending when
-- the turn of a message ends.
use claude_agent_runner.Common.{
  ℕ, ◌+◌, ◌≡◌, refl, sym, inl, inr, Option, none, some, Bool, true, false, List, [], ◌∷◌, ◌++◌,
  if◌then◌else◌, Bool-cases,
}
use mathlib.Core.List.{append-nil, append_assoc}
use mathlib.Core.Path.{subst}
use claude_agent_runner.RunnerTurn.{
  TurnRequest, SteerRequest, Turn, Handler, looping, interrupting, forking, preparing, RunnerState,
  TurnEnd, done, thrown, RunnerFrame, busy_status, ready_status, execution_error, send, start,
  finish, cancelled, steered, waits_on, turn_of, steer_of, steer_turn, is_cancel, resume_first,
  on_wait_end,
}

-- What the handlers wait for ends, one after the other, and no command comes; the socket is open.
unfoldable pub settle : List TurnEnd → RunnerState → RunnerState
unfolding on_wait_end
settle [] s = s
settle (e ∷ es) s = settle es (on_wait_end true e s)

-- The turns that a pending steer leads to, and its operations; none for a cancel.
abbrev pub turns_of_steer : Option SteerRequest → List Turn
turns_of_steer none = []
turns_of_steer (some p) = if is_cancel p.request then [] else steer_turn p ∷ []

abbrev pub operations_of_steer : Option SteerRequest → List ℕ
operations_of_steer none = []
operations_of_steer (some p) = if is_cancel p.request then [] else p.operations

-- The steer that is left when the fork, if there is one, has ended.
abbrev pub steer_left : Option TurnRequest → TurnEnd → Option SteerRequest → Option SteerRequest
steer_left none e p = p
steer_left (some r) done p = p
steer_left (some r) (thrown e) p = some (steer_of r)

abbrev pub turns_of_fork : Option TurnRequest → TurnEnd → List Turn
turns_of_fork none e = []
turns_of_fork (some r) done = turn_of r false none ∷ []
turns_of_fork (some r) (thrown e) = []

abbrev pub last_turn : Turn → List Turn → Turn
last_turn t [] = t
last_turn t (u ∷ us) = last_turn u us

-- No handler waits and nothing is pending, with these turns and operations so far, and the runner has
-- said last that it is ready, with the ids of this turn.
abbrev pub Ended : Turn → List Turn → List ℕ → RunnerState → Type 0
Ended t turns operations s =
    (s.turns ≡ turns)
    × (s.operations ≡ operations)
    × (s.is_busy ≡ false)
    × (s.handlers ≡ [])
    × (s.pending_steer ≡ none)
    × (s.pending_fork ≡ none)
    × ((before : List RunnerFrame) × (s.sent ≡ before ++ ready_status t.request_id t.trace_id ∷ []))

settle_idle :
    (es : List TurnEnd) (s : RunnerState)
    → settle es (record s { handlers = [] }) ≡ record s { handlers = [] }
unfolding settle on_wait_end resume_first
settle_idle [] s = refl
settle_idle (e ∷ es) s = settle_idle es s

-- A state in which one handler waits.
abbrev waiting : Handler → Option TurnRequest → Option SteerRequest → RunnerState → RunnerState
waiting h fork steer s = record s { handlers = h ∷ []; pending_fork = fork; pending_steer = steer }

idle-Ended :
    (t : Turn) (es : List TurnEnd) (turns : List Turn) (operations : List ℕ) (s : RunnerState)
    → Ended t turns operations (record s { handlers = [] })
    → Ended t turns operations (settle es (record s { handlers = [] }))
idle-Ended t es turns operations s h = subst (Ended t turns operations) (sym (settle_idle es s)) h

last_loop :
    (t : Turn) (e : TurnEnd) (es : List TurnEnd) (s : RunnerState)
    → Ended t s.turns s.operations (settle (e ∷ es) (waiting (looping t) none none s))
unfolding settle on_wait_end resume_first
last_loop t done es s =
    idle-Ended t es s.turns s.operations (finish true t (waiting (looping t) none none s))
      (refl, refl, refl, refl, refl, refl, (s.sent, refl))
last_loop t (thrown e) es s =
    let told = execution_error t.request_id t.trace_id e in
    idle-Ended t es s.turns s.operations
      (finish true t (send true told (waiting (looping t) none none s)))
      (refl, refl, refl, refl, refl, refl, (s.sent ++ told ∷ [], refl))

prepared :
    (p : SteerRequest) (e f : TurnEnd) (es : List TurnEnd) (s : RunnerState)
    → Ended
        (steer_turn p)
        (s.turns ++ steer_turn p ∷ [])
        s.operations
        (settle (e ∷ f ∷ es) (waiting (preparing p) none none s))
unfolding settle on_wait_end resume_first
prepared p e f es s =
    last_loop (steer_turn p) f es
      (start (steer_turn p) (send true (busy_status p.request.request_id p.request.trace_id) s))

-- A handler that was resumed, and the waits that follow.
abbrev onwards : List TurnEnd → Option Handler × RunnerState → RunnerState
onwards es x = settle es (record (x.1) { handlers = waits_on true x.0 ++ [] })

abbrev quiet : RunnerState → RunnerState
quiet s = record s { pending_fork = none; pending_steer = none }

interrupted-Ended :
    (t : Turn) (b : Bool) (e : TurnEnd) (es : List TurnEnd) (s : RunnerState)
    → Ended t s.turns s.operations (
        settle
          (e ∷ es)
          (record (if b then record (quiet s) { interrupts = s.interrupts + 1 } else quiet s) {
            handlers = interrupting t ∷ [];
          }))
unfolding settle on_wait_end resume_first
interrupted-Ended t true e es s =
    idle-Ended t es s.turns s.operations
      (finish true t (record (quiet s) { interrupts = s.interrupts + 1 }))
      (refl, refl, refl, refl, refl, refl, (s.sent, refl))
interrupted-Ended t false e es s =
    idle-Ended t es s.turns s.operations (finish true t (quiet s))
      (refl, refl, refl, refl, refl, refl, (s.sent, refl))

cancelled-Ended :
    (t : Turn) (b : Bool) (e : TurnEnd) (es : List TurnEnd) (s : RunnerState)
    → Ended t s.turns s.operations (onwards (e ∷ es) (cancelled true t b (quiet s)))
cancelled-Ended t true e es s = interrupted-Ended t s.has_session e es s
cancelled-Ended t false e es s =
    idle-Ended t (e ∷ es) s.turns s.operations (finish true t (quiet s))
      (refl, refl, refl, refl, refl, refl, (s.sent, refl))

Ended-steered :
    (t : Turn) (x : Option SteerRequest) (e f : TurnEnd) (es : List TurnEnd) (s : RunnerState)
    → Ended
        (last_turn t (turns_of_steer x))
        (s.turns ++ turns_of_steer x)
        (s.operations ++ operations_of_steer x)
        (onwards
          (e ∷ f ∷ es)
          (steered true t x (record s { pending_fork = none; pending_steer = x })))
Ended-steered t none e f es s =
    idle-Ended t (e ∷ f ∷ es) (s.turns ++ []) (s.operations ++ []) (finish true t (quiet s)) (
      sym (append-nil s.turns),
      sym (append-nil s.operations),
      refl,
      refl,
      refl,
      refl,
      (s.sent, refl),
    )
Ended-steered t (some p) e f es s = elim (Bool-cases (is_cancel p.request)) [
  | inl c ↦
      rw (c, append-nil s.turns, append-nil s.operations)
        (cancelled-Ended t s.has_session e (f ∷ es) s)
  | inr c ↦ rw c (prepared p e f es (record s { operations = s.operations ++ p.operations }))
]

loop-steered :
    (t : Turn) (x : Option SteerRequest) (e f g : TurnEnd) (es : List TurnEnd) (s : RunnerState)
    → Ended
        (last_turn t (turns_of_steer x))
        (s.turns ++ turns_of_steer x)
        (s.operations ++ operations_of_steer x)
        (settle (e ∷ f ∷ g ∷ es) (waiting (looping t) none x s))
unfolding settle on_wait_end resume_first
loop-steered t x done f g es s = Ended-steered t x f g es (record s { handlers = looping t ∷ [] })
loop-steered t none (thrown e) f g es s =
    Ended-steered t none f g es (
      send true (execution_error t.request_id t.trace_id e)
        (record s { handlers = looping t ∷ [] }))
loop-steered t (some p) (thrown e) f g es s =
    Ended-steered t (some p) f g es (record s { handlers = looping t ∷ [] })

-- All turns that follow the one that runs.
abbrev pub turns_ahead : Option TurnRequest → Option SteerRequest → TurnEnd → List Turn
turns_ahead r p e = turns_of_fork r e ++ turns_of_steer (steer_left r e p)

-- What the end of the turn, with all that was pending, comes to; `e` is the end of the fork.
abbrev pub IsSettled : Turn → TurnEnd → RunnerState → RunnerState → Type 0
IsSettled t e s =
    Ended (last_turn t (turns_ahead s.pending_fork s.pending_steer e))
      (s.turns ++ turns_ahead s.pending_fork s.pending_steer e)
      (s.operations ++ operations_of_steer (steer_left s.pending_fork e s.pending_steer))

-- The state at the wait for the fork.
forking-Ended :
    (t : Turn) (r : TurnRequest) (x : Option SteerRequest) (f g h i : TurnEnd) (es : List TurnEnd)
    (s : RunnerState)
    → IsSettled t f
        (record s { pending_fork = some r; pending_steer = x })
        (settle (f ∷ g ∷ h ∷ i ∷ es) (waiting (forking t r) none x s))
unfolding settle on_wait_end resume_first
forking-Ended t r x done g h i es s =
    rw (sym (append_assoc s.turns (turn_of r false none ∷ []) (turns_of_steer x)))
      (loop-steered (turn_of r false none) x g h i es (start (turn_of r false none) s))
forking-Ended t r x (thrown e) g h i es s =
    Ended-steered t (some (steer_of r)) g h (i ∷ es) (record s { handlers = forking t r ∷ [] })

loop-IsSettled :
    (t : Turn) (r : Option TurnRequest) (x : Option SteerRequest) (e f g h i : TurnEnd)
    (es : List TurnEnd) (s : RunnerState)
    → IsSettled t f
        (record s { pending_fork = r; pending_steer = x })
        (settle (e ∷ f ∷ g ∷ h ∷ i ∷ es) (waiting (looping t) r x s))
unfolding settle on_wait_end resume_first
loop-IsSettled t none x e f g h i es s = loop-steered t x e f g (h ∷ i ∷ es) s
loop-IsSettled t (some r) x done f g h i es s = forking-Ended t r x f g h i es s
loop-IsSettled t (some r) none (thrown e) f g h i es s =
    forking-Ended t r none f g h i es (send true (execution_error t.request_id t.trace_id e) s)
loop-IsSettled t (some r) (some p) (thrown e) f g h i es s = forking-Ended t r (some p) f g h i es s

-- The turn of a message's loop runs, in any state, and from then on no command comes. When five of the
-- things that the handler waits for have ended, whatever they end with, the handler is over and stays
-- so: the runner is idle, nothing is pending, and the last frame says that it is ready, with the ids of
-- the last turn. Just these turns were started, in this order: that of the pending fork, if there is
-- one and it is made, then that of the pending steer, with its own settings, unless it is a cancel; and
-- just the operations of that steer were carried out. If the fork fails, its request, without its
-- thinking budget, is the steer, and the steer that was pending is lost.
pub settle-IsSettled :
    (t : Turn) (e f g h i : TurnEnd) (es : List TurnEnd) (s : RunnerState)
    → s.handlers ≡ looping t ∷ []
    → IsSettled t f s (settle (e ∷ f ∷ g ∷ h ∷ i ∷ es) s)
settle-IsSettled t e f g h i es s only =
    subst (λ hs. IsSettled t f s (settle (e ∷ f ∷ g ∷ h ∷ i ∷ es) (record s { handlers = hs })))
      (sym only) (loop-IsSettled t s.pending_fork s.pending_steer e f g h i es s)
