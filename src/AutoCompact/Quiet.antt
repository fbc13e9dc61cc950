-- ===== src/AutoCompact/Quiet.antt =====
-- packages/orchestrator/src/auto-compact.ts: when a compaction is asked for, and when not again.
use claude_agent_runner.Common.{
  ℕ, ◌≤◌, ◌<◌, ◌≡◌, refl, ap, ◌∙◌, ◌⊎◌, inl, inr, Option, none, some, Bool, true, false, List, [],
  ◌∷◌, ◌++◌, if◌then◌else◌, ◌==◌, arith, count, count-append, is_some, ltb, Bool-cases, All,
}
use claude_agent_runner.Common.Dict.{lookup, insert, lookup-insert, lookup-remove}
use claude_agent_runner.Db.{SessionStatus}
use claude_agent_runner.Sessions.{SessionManager, Session, get, is_resting}
use claude_agent_runner.AutoCompact.{
  AutoCompactor, on_context_state, on_status_change, on_session_removed, fire, destroy, pct_of,
  set_pct, get_context_window, maybe_compact, cancel_idle_timer, compact,
}

-- A timer asks for nothing, or for one compaction of its own session, which then is there, rests,
-- has reached the threshold, and loses its percentage.
abbrev pub Fired : ℕ → SessionManager → AutoCompactor → AutoCompactor → Type 0
Fired id m c c' =
    (c'.compacted ≡ c.compacted)
    ⊎ ((session : Session) × (get id m ≡ some session)
        × (is_resting session.status ≡ true)
        × (c.threshold_pct ≤ pct_of id c)
        × (c'.compacted ≡ c.compacted ++ id ∷ [])
        × (lookup id c'.context_pct ≡ none))

maybe_compact-Fired :
    (id : ℕ) (m : SessionManager) (found : Option Session) (c : AutoCompactor)
    → get id m ≡ found
    → Fired id m c (maybe_compact id found c)
maybe_compact-Fired id m none c e = inl refl
maybe_compact-Fired id m (some session) c e = elim (Bool-cases (is_resting session.status)) [
  | inl rests ↦ elim (Bool-cases (ltb (pct_of id c) c.threshold_pct)) [
    | inl low ↦ rw (rests, low) (inl refl)
    | inr high ↦
        rw (rests, high)
          (inr (
            session,
            e,
            rests,
            ground arith,
            refl,
            lookup-remove id id c.context_pct ∙ ground arith,
          ))
  ]
  | inr busy ↦ rw busy (inl refl)
]

-- When a timer fires, either no compaction is asked for, or just one, of the timer's session, and
-- then this session is there, is ready or idle, has reached the threshold, and loses its percentage.
pub fire-Fired : (id : ℕ) (m : SessionManager) (c : AutoCompactor) → Fired id m c (fire id m c)
unfolding fire
fire-Fired id m c = elim (Bool-cases (is_some (lookup id c.idle_timers))) [
  | inl t ↦ rw t (maybe_compact-Fired id m (get id m) (cancel_idle_timer id c) refl)
  | inr t ↦ rw t (inl refl)
]

pub data Op : Type 0 where
  reports : ℕ → ℕ → SessionManager → Op
  changes : ℕ → SessionStatus → ℕ → Op
  removes : ℕ → Op
  fires : ℕ → SessionManager → Op
  destroys : Op

abbrev pub is_report_of : ℕ → Op → Bool
is_report_of id (reports j tokens m) = j == id
is_report_of id (changes j status now) = false
is_report_of id (removes j) = false
is_report_of id (fires j m) = false
is_report_of id destroys = false

-- No percentage is down for the session, and it has been compacted `n` times.
abbrev Quiet : ℕ → ℕ → AutoCompactor → Type 0
Quiet id n c =
    (0 < c.threshold_pct)
    × (lookup id c.context_pct ≡ none)
    × (count (λ j. j == id) c.compacted ≡ n)

if-Quiet :
    (id n : ℕ) (t : Bool) (c d : AutoCompactor)
    → Quiet id n c
    → Quiet id n d
    → Quiet id n (if t then c else d)
if-Quiet id n true c d h k = h
if-Quiet id n false c d h k = k

compact-Quiet :
    (id n j : ℕ) (c : AutoCompactor) → (j == id) ≡ false → Quiet id n c → Quiet id n (compact j c)
compact-Quiet id n j c other (low, free, many) = (
  low,
  lookup-remove j id c.context_pct ∙ rw other free,
  ground (arith, count-append (λ i. i == id) c.compacted (j ∷ []), many),
)

maybe_compact-Quiet :
    (id n j : ℕ) (found : Option Session) (c : AutoCompactor)
    → Quiet id n c
    → Quiet id n (maybe_compact j found c)
maybe_compact-Quiet id n j none c h = h
maybe_compact-Quiet id n j (some session) c h =
    if-Quiet id n (is_resting session.status)
      (if ltb (pct_of j c) c.threshold_pct then c else compact j c) c below h
  where
    below : Quiet id n (if ltb (pct_of j c) c.threshold_pct then c else compact j c)
    below = elim (Bool-cases (j == id)) [
      | inl t ↦
          let e : j ≡ id = ground arith in
          let empty : lookup j c.context_pct ≡ none = ap (λ k. lookup k c.context_pct) e ∙ h.1 in
          let low : ltb (pct_of j c) c.threshold_pct ≡ true = rw empty (ground (arith, h.0)) in
          rw low h
      | inr t ↦
          if-Quiet id n (ltb (pct_of j c) c.threshold_pct) c (compact j c) h
            (compact-Quiet id n j c t h)
    ]

module _ (percent : ℕ → ℕ → ℕ) (has_1m : ℕ → Bool) where
  pub step : Op → AutoCompactor → AutoCompactor
  step (reports id tokens m) c = on_context_state percent has_1m id tokens m c
  step (changes id status now) c = on_status_change id status now c
  step (removes id) c = on_session_removed id c
  step (fires id m) c = fire id m c
  step destroys c = destroy c

  pub run : List Op → AutoCompactor → AutoCompactor
  run [] c = c
  run (o ∷ os) c = run os (step o c)

  set_pct-Quiet :
      (id n j tokens : ℕ) (found : Option Session) (c : AutoCompactor)
      → (j == id) ≡ false
      → Quiet id n c
      → Quiet id n (set_pct percent has_1m j tokens found c)
  set_pct-Quiet id n j tokens none c other h = h
  set_pct-Quiet id n j tokens (some session) c other (low, free, many) =
      let pct = percent tokens (get_context_window has_1m session.model) in
      (low, lookup-insert j id pct c.context_pct ∙ rw other free, many)

  step-Quiet :
      (id n : ℕ) (o : Op) (c : AutoCompactor)
      → is_report_of id o ≡ false
      → Quiet id n c
      → Quiet id n (step o c)
  unfolding step on_context_state on_status_change on_session_removed fire destroy lookup
  step-Quiet id n (reports j tokens m) c other h = set_pct-Quiet id n j tokens (get j m) c other h
  step-Quiet id n (changes j status now) c other h =
      let cancelled = cancel_idle_timer j c in
      let timed = record cancelled { idle_timers = insert j now cancelled.idle_timers } in
      if-Quiet id n (is_resting status)
        (if ltb (pct_of j c) c.threshold_pct then cancelled else timed) cancelled
        (if-Quiet id n (ltb (pct_of j c) c.threshold_pct) cancelled timed h h) h
  step-Quiet id n (removes j) c other (low, free, many) =
      (low, ground (arith, lookup-remove j id c.context_pct, free), many)
  step-Quiet id n (fires j m) c other h =
      if-Quiet id n (is_some (lookup j c.idle_timers))
        (maybe_compact j (get j m) (cancel_idle_timer j c)) c
        (maybe_compact-Quiet id n j (get j m) (cancel_idle_timer j c) h) h
  step-Quiet id n destroys c other (low, free, many) = (low, refl, many)

  run-Quiet :
      (id n : ℕ) (os : List Op) (c : AutoCompactor)
      → All (λ o. is_report_of id o ≡ false) os
      → Quiet id n c
      → Quiet id n (run os c)
  unfolding run
  run-Quiet id n [] c others h = h
  run-Quiet id n (o ∷ os) c (other, others) h =
      run-Quiet id n os (step o c) others (step-Quiet id n o c other h)

  -- With a threshold above 0, a session without a percentage, as after its compaction, is not
  -- compacted again, whatever happens to it and to others, until its context is reported again.
  pub run-compacted :
      (id : ℕ) (os : List Op) (c : AutoCompactor)
      → 0 < c.threshold_pct
      → lookup id c.context_pct ≡ none
      → All (λ o. is_report_of id o ≡ false) os
      → count (λ j. j == id) (run os c).compacted ≡ count (λ j. j == id) c.compacted
  run-compacted id os c low free others =
      (run-Quiet id (count (λ j. j == id) c.compacted) os c others (low, free, refl)).2
