-- ===== src/WarmPool/Refill.antt =====
-- packages/orchestrator/src/warm-pool.ts: `refill` brings every profile to its target.
use claude_agent_runner.Common.{
  ℕ, zero, suc, ◌-◌, ◌≤◌, ◌≡◌, refl, sym, ap, ◌∙◌, Option, none, some, true, false, List, [], ◌∷◌,
  ◌++◌, arith, length, count, All, count-append, length-append,
}
use mathlib.Core.List.{append-nil, append_assoc}
use claude_agent_runner.TokenPool.{assign}
use claude_agent_runner.WarmPool.{
  WarmEntry, WarmPoolProfile, WarmPool, fits, matches_profile, new_entry, begin_spawn, spawn_times,
  fill_profiles, begun, refill, target_sum,
}

-- Every profile has as many entries as it wants.
abbrev pub Reached : List WarmEntry → List WarmPoolProfile → Type 0
Reached es = All (λ (p : WarmPoolProfile). p.target_size ≤ count (matches_profile p) es)

fits_self : (text : Option ℕ) → fits text text ≡ true
fits_self none = refl
fits_self (some n) = ground arith

matches_self :
    (p : WarmPoolProfile) (id token_index now : ℕ)
    → matches_profile p (new_entry p id token_index now) ≡ true
matches_self p id token_index now = rw (fits_self p.vault, fits_self p.agent_id)

module _ (uuid : ℕ → ℕ) where
  begin_spawn-pool :
      (p : WarmPoolProfile) (now : ℕ) (s : WarmPool)
      → (e : WarmEntry) × ((begin_spawn uuid p now s).pool ≡ s.pool ++ e ∷ [])
        × (matches_profile p e ≡ true)
        × ((begin_spawn uuid p now s).profiles ≡ s.profiles)
  unfolding begin_spawn
  begin_spawn-pool p now s = (
    new_entry p (uuid s.drawn) (assign (uuid s.drawn) s.token_pool).0.token_index now,
    refl,
    matches_self p (uuid s.drawn) (assign (uuid s.drawn) s.token_pool).0.token_index now,
    refl,
  )

  spawn_times-pool :
      (n : ℕ) (p : WarmPoolProfile) (now : ℕ) (s : WarmPool)
      → (added : List WarmEntry) × ((spawn_times uuid n p now s).pool ≡ s.pool ++ added)
        × (length added ≡ n)
        × (count (matches_profile p) added ≡ n)
  unfolding spawn_times
  spawn_times-pool zero p now s = ([], sym (append-nil s.pool), refl, refl)
  spawn_times-pool (suc n) p now s =
      let (e, at_end, fit, _) = begin_spawn-pool p now s in
      let (added, all, long, many) = spawn_times-pool n p now (begin_spawn uuid p now s) in
      (
        e ∷ added,
        all ∙ ap (λ es. es ++ added) at_end ∙ append_assoc s.pool (e ∷ []) added,
        omega (arith, long),
        ground (arith, fit, many),
      )

  -- The loop over the profiles only adds entries, no more than the targets' sum, and reaches each.
  fill_profiles-pool :
      (ps : List WarmPoolProfile) (now : ℕ) (s : WarmPool)
      → (added : List WarmEntry) × ((fill_profiles uuid ps now s).pool ≡ s.pool ++ added)
        × (length added ≤ target_sum ps)
        × Reached (fill_profiles uuid ps now s).pool ps
  unfolding fill_profiles target_sum
  fill_profiles-pool [] now s = ([], sym (append-nil s.pool), omega arith, tt)
  fill_profiles-pool (p ∷ ps) now s =
      let needed = p.target_size - count (matches_profile p) s.pool in
      let (new, grown, long, many) = spawn_times-pool needed p now s in
      let (added, all, few, reached) =
        fill_profiles-pool ps now (spawn_times uuid needed p now s) in
      let whole = all ∙ ap (λ es. es ++ added) grown ∙ append_assoc s.pool new added in
      (
        new ++ added,
        whole,
        omega (arith, length-append new added, long, few),
        (
          omega (
            arith,
            many,
            ap (count (matches_profile p)) whole,
            count-append (matches_profile p) s.pool (new ++ added),
            count-append (matches_profile p) new added,
          ),
          reached,
        ),
      )

  pub refill-pool :
      (now : ℕ) (s : WarmPool)
      → s.refilling ≡ false
      → (refill uuid now s).pool
        ≡ (fill_profiles uuid s.profiles now (record s { refilling = true; awaited = [] })).pool
  unfolding refill
  refill-pool now s idle = ap (λ b. (begun uuid b s filled).pool) idle
    where
      filled : WarmPool
      filled = fill_profiles uuid s.profiles now (record s { refilling = true; awaited = [] })

  -- Where no refill runs, `refill` leaves the entries of the pool where they are, starts no more
  -- than the targets' sum behind them, and then every profile has as many entries as it wants.
  pub refill-Reached :
      (now : ℕ) (s : WarmPool)
      → s.refilling ≡ false
      → (added : List WarmEntry) × ((refill uuid now s).pool ≡ s.pool ++ added)
        × (length added ≤ target_sum s.profiles)
        × Reached (refill uuid now s).pool s.profiles
  refill-Reached now s idle =
      let started = record s { refilling = true; awaited = [] } in
      rw (refill-pool now s idle) (fill_profiles-pool s.profiles now started)

  fill_profiles-stay :
      (ps : List WarmPoolProfile) (now : ℕ) (s : WarmPool)
      → Reached s.pool ps
      → fill_profiles uuid ps now s ≡ s
  unfolding fill_profiles spawn_times
  fill_profiles-stay [] now s r = refl
  fill_profiles-stay (p ∷ ps) now s (enough, r) =
      let none_needed : p.target_size - count (matches_profile p) s.pool ≡ 0 =
        omega (arith, enough) in
      ap (λ n. fill_profiles uuid ps now (spawn_times uuid n p now s)) none_needed
      ∙ fill_profiles-stay ps now s r

  -- Where no refill runs and every profile has as many entries as it wants, `refill` starts nothing:
  -- the pool is as it was, and no refill runs afterwards.
  pub refill-stay :
      (now : ℕ) (s : WarmPool)
      → s.refilling ≡ false
      → Reached s.pool s.profiles
      → ((refill uuid now s).pool ≡ s.pool) × ((refill uuid now s).refilling ≡ false)
  unfolding refill
  refill-stay now s idle r =
      let started = record s { refilling = true; awaited = [] } in
      let same_state = fill_profiles-stay s.profiles now started r in
      (
        refill-pool now s idle ∙ ap (λ t. t.pool) same_state,
        ap (λ b. (begun uuid b s (fill_profiles uuid s.profiles now started)).refilling) idle
            ∙ ap (λ t. (begun uuid false s t).refilling) same_state,
      )
