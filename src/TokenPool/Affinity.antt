-- ===== src/TokenPool/Affinity.antt =====
-- A session keeps its token.
use claude_agent_runner.Common.{
  ℕ, ◌≡◌, refl, ◌∙◌, none, some, false, List, [], ◌∷◌, arith, if◌then◌else◌, ltb, ◌==◌, ==_refl,
  All, inl, inr, Bool-cases,
}
use claude_agent_runner.Common.Dict.{lookup, insert, lookup-insert, lookup-remove}
use claude_agent_runner.TokenPool.{
  TokenPool, Op, restores, assigns, releases, size, restore_sessions, assign, get, release, step,
  run,
}

-- An operation that leaves the session's assignment alone.
abbrev pub Spares : ℕ → Op → Type 0
Spares s (restores active k) = lookup s active ≡ none
Spares s (assigns j) = (j == s) ≡ false
Spares s (releases j) = (j == s) ≡ false

restore_sessions_spares :
    (n s : ℕ) (active m : List (ℕ × ℕ))
    → lookup s active ≡ none
    → lookup s (restore_sessions n active m) ≡ lookup s m
unfolding restore_sessions lookup
restore_sessions_spares n s [] m h = refl
restore_sessions_spares n s ((j, i) ∷ rest) m h =
    let later : lookup s rest ≡ none = ground arith in
    elim (Bool-cases (ltb i n)) [
      | inl t ↦ rw t (
          restore_sessions_spares n s rest (insert j i m) later
          ∙ lookup-insert j s i m
          ∙ ground arith)
      | inr t ↦ rw t (restore_sessions_spares n s rest m later)
    ]

step-Spares :
    (s : ℕ) (o : Op) (p : TokenPool)
    → Spares s o
    → (lookup s (step o p).session_tokens ≡ lookup s p.session_tokens)
      × ((step o p).tokens ≡ p.tokens)
unfolding step
step-Spares s (restores active k) p h =
    (restore_sessions_spares (size p) s active p.session_tokens h, refl)
step-Spares s (assigns j) p h = (lookup-insert j s p.next_index p.session_tokens ∙ rw h, refl)
step-Spares s (releases j) p h = (lookup-remove j s p.session_tokens ∙ rw h, refl)

run-Spares :
    (s : ℕ) (os : List Op) (p : TokenPool)
    → All (Spares s) os
    → (lookup s (run os p).session_tokens ≡ lookup s p.session_tokens)
      × ((run os p).tokens ≡ p.tokens)
unfolding run
run-Spares s [] p h = (refl, refl)
run-Spares s (o ∷ os) p h =
    let (l, t) = run-Spares s os (step o p) h.1 in
    let (l', t') = step-Spares s o p h.0 in (l ∙ l', t ∙ t')

get_same :
    (s : ℕ) (p q : TokenPool)
    → lookup s q.session_tokens ≡ lookup s p.session_tokens
    → q.tokens ≡ p.tokens
    → get s q ≡ get s p
unfolding get
get_same s p q l t = ground arith

-- The token that `assign` returns for a session is the one that `get` returns for it, after any
-- operations that neither assign nor release that session nor restore it.
pub get-assign :
    (s : ℕ) (p : TokenPool) (os : List Op)
    → All (Spares s) os
    → get s (run os (assign s p).1) ≡ (assign s p).0.token
unfolding assign get
get-assign s p os h =
    let q = (assign s p).1 in
    let (l, t) = run-Spares s os q h in get_same s q (run os q) l t ∙ at_once
  where
    at_once : get s (assign s p).1 ≡ (assign s p).0.token
    at_once =
        let n = p.next_index in
        let e : lookup s (insert s n p.session_tokens) ≡ some n =
          lookup-insert s s n p.session_tokens ∙ rw (==_refl s) in
        rw (e, get)

-- After `release` the session has no token, and every other session keeps its own.
pub get-release :
    (s j : ℕ) (p : TokenPool) → get j (release s p) ≡ (if s == j then none else get j p)
unfolding get release
get-release s j p = ground (arith, lookup-remove s j p.session_tokens)
