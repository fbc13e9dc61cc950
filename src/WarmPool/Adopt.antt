-- ===== src/WarmPool/Adopt.antt =====
-- packages/orchestrator/src/warm-pool.ts: which entry `adopt` and `take` hand out.
use claude_agent_runner.Common.{
  ℕ, ◌≡◌, refl, ap, inl, inr, Option, none, some, Bool, true, false, List, [], ◌∷◌, ◌++◌, All,
  Bool-cases,
}
use claude_agent_runner.WarmPool.{
  WarmEntry, WarmPool, usable, refill, adopt, split_first, put_back, taken,
}

-- No item passes, or the first one that does stands between those before it and those after it.
abbrev pub Split :
    (WarmEntry → Bool) → List WarmEntry → Option (WarmEntry × List WarmEntry) → Type 0
Split test es none = All (λ e. test e ≡ false) es
Split test es (some (e, left)) =
    (before : List WarmEntry) × (after : List WarmEntry) × (es ≡ before ++ e ∷ after)
    × (left ≡ before ++ after)
    × (test e ≡ true)
    × All (λ f. test f ≡ false) before

put_back-Split :
    (test : WarmEntry → Bool) (e : WarmEntry) (es : List WarmEntry)
    (r : Option (WarmEntry × List WarmEntry))
    → test e ≡ false
    → Split test es r
    → Split test (e ∷ es) (put_back e r)
put_back-Split test e es none t h = (t, h)
put_back-Split test e es (some (f, left)) t (before, after, whole, rest, passes, misses) =
    (e ∷ before, after, ap (λ l. e ∷ l) whole, ap (λ l. e ∷ l) rest, passes, (t, misses))

pub split_first-Split :
    (test : WarmEntry → Bool) (es : List WarmEntry) → Split test es (split_first test es)
unfolding split_first
split_first-Split test [] = tt
split_first-Split test (e ∷ es) = elim (Bool-cases (test e)) [
  | inl t ↦ rw t ([], es, refl, refl, t, tt)
  | inr t ↦ rw t (put_back-Split test e es (split_first test es) t (split_first-Split test es))
]

-- What the caller gets and what is left, before the refill that a found entry starts.
abbrev pub Adopted :
    (ℕ → ℕ) → (WarmEntry → Bool) → ℕ → WarmPool → Option WarmEntry × WarmPool → Type 0
Adopted uuid test now s (none, s') = (s' ≡ s) × All (λ e. test e ≡ false) s.pool
Adopted uuid test now s (some e, s') =
    (before : List WarmEntry) × (after : List WarmEntry) × (s.pool ≡ before ++ e ∷ after)
    × (test e ≡ true)
    × All (λ f. test f ≡ false) before
    × (s' ≡ refill uuid now (record s { pool = before ++ after }))

module _ (uuid : ℕ → ℕ) where
  taken-Adopted :
      (test : WarmEntry → Bool) (now : ℕ) (s : WarmPool) (r : Option (WarmEntry × List WarmEntry))
      → Split test s.pool r
      → Adopted uuid test now s (taken uuid now s r)
  taken-Adopted test now s none h = (refl, h)
  taken-Adopted test now s (some (e, left)) (before, after, whole, rest, passes, misses) =
      (before, after, whole, passes, misses, ap (λ l. refill uuid now (record s { pool = l })) rest)

  -- `adopt` returns nothing, and changes nothing, only if no entry is ready, connected and of the
  -- vault and agent that were asked for. Otherwise it returns the first that is; just this entry
  -- leaves the pool, the others keep their order, and then a refill starts.
  pub adopt-Adopted :
      (connected : ℕ → Bool) (vault agent : Option ℕ) (now : ℕ) (s : WarmPool)
      → Adopted uuid (usable connected vault agent) now s (adopt uuid connected vault agent now s)
  unfolding adopt
  adopt-Adopted connected vault agent now s =
      let test = usable connected vault agent in
      taken-Adopted test now s (split_first test s.pool) (split_first-Split test s.pool)
