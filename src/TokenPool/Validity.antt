-- ===== src/TokenPool/Validity.antt =====
-- The invariant of the token pool.
use native.Mathlib.Nat.{mod-lt}
use claude_agent_runner.Common.{
  ℕ, zero, suc, ◌+◌, ◌<◌, ◌≡◌, refl, ap, inl, inr, none, some, Bool, List, [], ◌∷◌, arith, ltb,
  length, get_elem?, All, Bool-cases,
}
use claude_agent_runner.Common.Dict.{lookup, insert, All-insert, All-remove, All-lookup}
use claude_agent_runner.TokenPool.{
  TokenPool, Op, nonempty_pool, restores, assigns, releases, size, create, parse_tokens,
  restore_sessions, assign, get, step, run,
}

abbrev pub Below : ℕ → List (ℕ × ℕ) → Type 0
Below n = All (λ e. e.1 < n)

pub record IsValid (p : TokenPool) : Type 0 where
  pub nonempty : 0 < size p
  pub in_range : p.next_index < size p
  pub below : Below (size p) p.session_tokens

create-IsValid :
    (is_space : ℕ → Bool) (text : List ℕ) (p : TokenPool)
    → create is_space text ≡ some p
    → IsValid p
unfolding create
create-IsValid is_space text p e = go (parse_tokens is_space text) refl
  where
    go : (ts : List (List ℕ)) → parse_tokens is_space text ≡ ts → IsValid p
    go [] h = cc (ap nonempty_pool h)
    go (t ∷ ts) h = ground (arith, ap nonempty_pool h)

restore_sessions-Below :
    (n : ℕ) (active m : List (ℕ × ℕ)) → Below n m → Below n (restore_sessions n active m)
unfolding restore_sessions
restore_sessions-Below n [] m h = h
restore_sessions-Below n ((s, i) ∷ rest) m h = elim (Bool-cases (ltb i n)) [
  | inl t ↦
      rw t (restore_sessions-Below n rest (insert s i m) (All-insert _ s i m (ground arith) h))
  | inr t ↦ rw t (restore_sessions-Below n rest m h)
]

step-IsValid : (o : Op) (p : TokenPool) → IsValid p → IsValid (step o p)
unfolding step
step-IsValid (restores active none) p v = record {
  nonempty = v.nonempty;
  in_range = v.in_range;
  below = restore_sessions-Below (size p) active p.session_tokens v.below;
}
step-IsValid (restores active (some k)) p v = record {
  nonempty = v.nonempty;
  in_range = mod-lt (k + 1) v.nonempty;
  below = restore_sessions-Below (size p) active p.session_tokens v.below;
}
step-IsValid (assigns s) p v = record {
  nonempty = v.nonempty;
  in_range = mod-lt (p.next_index + 1) v.nonempty;
  below = All-insert _ s p.next_index p.session_tokens v.in_range v.below;
}
step-IsValid (releases s) p v = record {
  nonempty = v.nonempty;
  in_range = v.in_range;
  below = All-remove _ s p.session_tokens v.below;
}

pub run-IsValid : (os : List Op) (p : TokenPool) → IsValid p → IsValid (run os p)
unfolding run
run-IsValid [] p v = v
run-IsValid (o ∷ os) p v = run-IsValid os (step o p) (step-IsValid o p v)

get_elem?-lt :
    (ts : List (List ℕ)) (i : ℕ) → i < length ts → (t : List ℕ) × (get_elem? ts i ≡ some t)
get_elem?-lt [] i h = elim h [ ]
get_elem?-lt (t ∷ ts) zero h = (t, refl)
get_elem?-lt (t ∷ ts) (suc i) h = get_elem?-lt ts i (omega arith)

-- Whatever was assigned, released and restored since the constructor succeeded, the next index
-- names a token, `assign` returns that token, and every session that has an index has a token.
pub run-create-IsValid :
    (is_space : ℕ → Bool) (text : List ℕ) (p : TokenPool) (os : List Op)
    → create is_space text ≡ some p
    → let q = run os p in
      (q.next_index < size q)
      × ((s : ℕ) → (t : List ℕ) × ((assign s q).0.token ≡ some t))
      × ((s i : ℕ) → lookup s q.session_tokens ≡ some i → (t : List ℕ) × (get s q ≡ some t))
unfolding get assign
run-create-IsValid is_space text p os e =
    let q = run os p in
    let v = run-IsValid os p (create-IsValid is_space text p e) in
    (
      v.in_range,
      λ s. get_elem?-lt q.tokens q.next_index v.in_range,
      λ s i h. rw (h, get) (get_elem?-lt q.tokens i (All-lookup _ s i q.session_tokens v.below h)),
    )
