-- ===== src/TokenPool/Usage.antt =====
-- `usage` counts the sessions of each token.
use claude_agent_runner.Common.{
  ℕ, zero, suc, ◌+◌, ◌<◌, ltb, leb, ◌&&◌, ◌≡◌, refl, sym, ap, ◌∙◌, some, List, [], ◌∷◌, arith,
  length, get_elem?, count, get_or, ◌==◌,
}
use claude_agent_runner.Common.Dict.{lookup, insert, lookup-insert}
use claude_agent_runner.TokenPool.{TokenPool, size, usage, usage_from, tally}
use claude_agent_runner.TokenPool.Validity.{IsValid, Below}

-- How many sessions have the index.
abbrev pub sessions_with : ℕ → List (ℕ × ℕ) → ℕ
sessions_with i = count (λ e. e.1 == i)

lookup-tally :
    (i : ℕ) (m counts : List (ℕ × ℕ))
    → get_or (lookup i (tally m counts)) 0 ≡ sessions_with i m + get_or (lookup i counts) 0
unfolding tally
lookup-tally i [] counts = omega arith
lookup-tally i ((s, j) ∷ m) counts =
    let n = get_or (lookup j counts) 0 + 1 in
    ground (
      arith,
      lookup-tally i m (insert j n counts),
      lookup-insert j i n counts,
      ap (λ (k : ℕ). get_or (lookup k counts) 0) {x = j} {y = i},
    )

usage_from-get :
    (i k : ℕ) (ts : List (List ℕ)) (counts : List (ℕ × ℕ))
    → k < length ts
    → get_elem? (usage_from i ts counts) k ≡ some (i + k, get_or (lookup (i + k) counts) 0)
unfolding usage_from
usage_from-get i k [] counts h = elim h [ ]
usage_from-get i zero (t ∷ ts) counts h = let e : i + 0 ≡ i = omega arith in rw e
usage_from-get i (suc k) (t ∷ ts) counts h =
    let e : i + suc k ≡ i + 1 + k = omega arith in
    rw e (usage_from-get (i + 1) k ts counts (omega arith))

-- The total of a column of counts.
abbrev pub total : List (ℕ × ℕ) → ℕ
total [] = 0
total ((_, n) ∷ us) = n + total us

-- The sessions whose index lies in a span.
abbrev in_span : ℕ → ℕ → List (ℕ × ℕ) → ℕ
in_span i n = count (λ e. leb i e.1 && ltb e.1 (i + n))

in_span_zero : (i : ℕ) (m : List (ℕ × ℕ)) → in_span i 0 m ≡ 0
in_span_zero i [] = refl
in_span_zero i ((s, j) ∷ m) = ground (arith, in_span_zero i m)

in_span-suc :
    (i n : ℕ) (m : List (ℕ × ℕ)) → in_span i (suc n) m ≡ sessions_with i m + in_span (i + 1) n m
in_span-suc i n [] = omega arith
in_span-suc i n ((s, j) ∷ m) = ground (arith, in_span-suc i n m)

in_span_all : (n : ℕ) (m : List (ℕ × ℕ)) → Below n m → in_span 0 n m ≡ length m
in_span_all n [] h = refl
in_span_all n ((s, j) ∷ m) h = ground (arith, in_span_all n m h.1)

total-usage_from :
    (i : ℕ) (ts : List (List ℕ)) (m : List (ℕ × ℕ))
    → total (usage_from i ts (tally m [])) ≡ in_span i (length ts) m
unfolding usage_from lookup
total-usage_from i [] m = sym (in_span_zero i m)
total-usage_from i (t ∷ ts) m =
    omega (arith, lookup-tally i m [], total-usage_from (i + 1) ts m, in_span-suc i (length ts) m)

-- In a valid pool `usage` lists, for each token, the number of sessions that hold it, and the
-- numbers add up to the number of sessions: none is counted twice or missed.
pub usage_lem :
    (p : TokenPool)
    → IsValid p
    → ((i : ℕ) → i < size p → get_elem? (usage p) i ≡ some (i, sessions_with i p.session_tokens))
      × (total (usage p) ≡ length p.session_tokens)
unfolding usage lookup
usage_lem p v = (
  λ i h.
      usage_from-get 0 i p.tokens (tally p.session_tokens []) h
      ∙ ground (arith, lookup-tally i p.session_tokens []),
  total-usage_from 0 p.tokens p.session_tokens ∙ in_span_all (size p) p.session_tokens v.below,
)
