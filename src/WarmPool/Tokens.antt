-- ===== src/WarmPool/Tokens.antt =====
-- packages/orchestrator/src/warm-pool.ts with token-pool.ts: the tokens that warm entries hold.
use claude_agent_runner.Common.{
  ℕ, zero, suc, ◌+◌, ◌-◌, ◌≤◌, ◌<◌, ◌≡◌, refl, sym, ap, ◌∙◌, inl, inr, Option, none, some, Bool,
  true, false, not, List, [], ◌∷◌, ◌++◌, map, arith, count, any, filter, All, All-append, All-map,
  count-append, count-filter-le, ==_iff, ==_refl, Bool-cases, ◌==◌, if◌then◌else◌,
}
use claude_agent_runner.Common.Dict.{lookup, insert, remove, lookup-insert, lookup-remove}
use mathlib.Core.List.{map-append}
use claude_agent_runner.TokenPool.{TokenPool, assign, release}
use mathlib.Core.Path.{subst}
use claude_agent_runner.WarmPool.Adopt.{Split, split_first-Split}
use claude_agent_runner.WarmPool.{
  WarmEntry, WarmPool, WarmPoolProfile, has_warm_id, mark_first, mark_ready, refill, adopt, take,
  spawned, spawn_failed, destroy, begin_spawn, spawn_times, fill_profiles, release_all, is_warm_id,
  begun, taken, usable, split_first, matches_profile, new_entry,
}

-- An entry's id and the index of its token.
abbrev pub key : WarmEntry → ℕ × ℕ
key e = (e.warm_id, e.token_index)

abbrev pub has_key : ℕ → ℕ × ℕ → Bool
has_key id k = k.0 == id

-- The id was drawn, and the token pool has the token down for it.
abbrev pub Held : (ℕ → ℕ) → ℕ → List (ℕ × ℕ) → ℕ × ℕ → Type 0
Held uuid drawn tokens (id, i) = (lookup id tokens ≡ some i) × (n : ℕ) × (n < drawn) × (id ≡ uuid n)

abbrev pub AllHeld : (ℕ → ℕ) → ℕ → List (ℕ × ℕ) → List (ℕ × ℕ) → Type 0
AllHeld uuid drawn tokens ks =
    All (Held uuid drawn tokens) ks × ((id : ℕ) → count (has_key id) ks ≤ 1)

abbrev pub IsValid : (ℕ → ℕ) → WarmPool → Type 0
IsValid uuid s = AllHeld uuid s.drawn s.token_pool.session_tokens (map key s.pool)

keys-mark_first : (id : ℕ) (es : List WarmEntry) → map key (mark_first id es) ≡ map key es
unfolding mark_first
keys-mark_first id [] = refl
keys-mark_first id (e ∷ es) = ground (arith, keys-mark_first id es)

keys-spawned :
    (id container : ℕ) (es : List WarmEntry)
    → map key (map (λ e. if has_warm_id id e then record e { container_id = container } else e) es)
      ≡ map key es
keys-spawned id container [] = refl
keys-spawned id container (e ∷ es) = ground (arith, keys-spawned id container es)

keys-filter :
    (id : ℕ) (es : List WarmEntry)
    → map key (filter (λ e. not (has_warm_id id e)) es)
      ≡ filter (λ k. not (has_key id k)) (map key es)
keys-filter id [] = refl
keys-filter id (e ∷ es) = ground (arith, keys-filter id es)

-- An id that was not drawn yet belongs to none of the entries.
module _ (uuid : ℕ → ℕ) (fresh : (i j : ℕ) → uuid i ≡ uuid j → i ≡ j) where
  unheld :
      (drawn : ℕ) (tokens ks : List (ℕ × ℕ))
      → All (Held uuid drawn tokens) ks
      → count (has_key (uuid drawn)) ks ≡ 0
  unheld drawn tokens [] h = refl
  unheld drawn tokens ((id, i) ∷ ks) ((_, n, less, e), h) = elim (Bool-cases (id == uuid drawn)) [
    | inl t ↦ absurd (omega (arith, less, fresh n drawn (sym e ∙ (==_iff id (uuid drawn)).0 t)))
    | inr t ↦ rw t (unheld drawn tokens ks h)
  ]

  still_Held :
      (drawn i : ℕ) (tokens : List (ℕ × ℕ)) (k : ℕ × ℕ)
      → Held uuid drawn tokens k
      → Held uuid (drawn + 1) (insert (uuid drawn) i tokens) k
  still_Held drawn i tokens (id, j) (l, n, less, e) = elim (Bool-cases (uuid drawn == id)) [
    | inl t ↦ absurd (omega (arith, less, fresh drawn n ((==_iff (uuid drawn) id).0 t ∙ e)))
    | inr t ↦ (lookup-insert (uuid drawn) id i tokens ∙ rw t l, n, omega (arith, less), e)
  ]

  AllHeld-begin :
      (drawn i : ℕ) (tokens ks : List (ℕ × ℕ))
      → AllHeld uuid drawn tokens ks
      → AllHeld uuid (drawn + 1) (insert (uuid drawn) i tokens) (ks ++ (uuid drawn, i) ∷ [])
  AllHeld-begin drawn i tokens ks (h, u) = (
    All-append (Held uuid (drawn + 1) (insert (uuid drawn) i tokens)) ks ((uuid drawn, i) ∷ [])
        (All-map (Held uuid drawn tokens) (Held uuid (drawn + 1) (insert (uuid drawn) i tokens)) ks
          (still_Held drawn i tokens) h)
        (
          (
            (lookup-insert (uuid drawn) (uuid drawn) i tokens ∙ rw (==_refl (uuid drawn))),
            drawn,
            omega arith,
            refl,
          ),
          tt,
        ),
    λ id.
        rw (count-append (has_key id) ks ((uuid drawn, i) ∷ []))
          (elim (Bool-cases (uuid drawn == id)) [
            | inl t ↦
                let same_id : uuid drawn ≡ id = (==_iff (uuid drawn) id).0 t in
                let absent =
                  ap (λ j. count (has_key j) ks) (sym same_id) ∙ unheld drawn tokens ks h in
                rw t (omega (arith, absent))
            | inr t ↦ rw t (omega (arith, u id))
          ]),
  )

All-part :
    (P : ℕ × ℕ → Type 0) (ks : List (ℕ × ℕ)) (k : ℕ × ℕ) (ls : List (ℕ × ℕ))
    → All P (ks ++ k ∷ ls)
    → All P (ks ++ ls)
All-part P [] k ls (h, hs) = hs
All-part P (j ∷ ks) k ls (h, hs) = (h, All-part P ks k ls hs)

AllHeld-part :
    (uuid : ℕ → ℕ) (drawn : ℕ) (tokens ks : List (ℕ × ℕ)) (k : ℕ × ℕ) (ls : List (ℕ × ℕ))
    → AllHeld uuid drawn tokens (ks ++ k ∷ ls)
    → AllHeld uuid drawn tokens (ks ++ ls)
AllHeld-part uuid drawn tokens ks k ls (h, u) = (
  All-part (Held uuid drawn tokens) ks k ls h,
  λ id.
      ground (arith, u id, count-append (has_key id) ks (k ∷ ls), count-append (has_key id) ks ls),
)

-- A failed spawn gives back the token of the id that it removes.
released_Held :
    (uuid : ℕ → ℕ) (drawn id : ℕ) (tokens ks : List (ℕ × ℕ))
    → All (Held uuid drawn tokens) ks
    → All (Held uuid drawn (remove id tokens)) (filter (λ k. not (has_key id k)) ks)
released_Held uuid drawn id tokens [] h = tt
released_Held uuid drawn id tokens ((j, i) ∷ ks) ((l, n, less, e), h) =
    elim (Bool-cases (j == id)) [
      | inl t ↦ rw t (released_Held uuid drawn id tokens ks h)
      | inr t ↦
          let other : (id == j) ≡ false = ground arith in
          rw t (
            (lookup-remove id j tokens ∙ rw other l, n, less, e),
            released_Held uuid drawn id tokens ks h,
          )
    ]

AllHeld-released :
    (uuid : ℕ → ℕ) (drawn id : ℕ) (tokens ks : List (ℕ × ℕ))
    → AllHeld uuid drawn tokens ks
    → AllHeld uuid drawn (remove id tokens) (filter (λ k. not (has_key id k)) ks)
AllHeld-released uuid drawn id tokens ks (h, u) = (
  released_Held uuid drawn id tokens ks h,
  λ j. omega (arith, count-filter-le (has_key j) (λ k. not (has_key id k)) ks, u j),
)

pub data Op : Type 0 where
  adopts : (ℕ → Bool) → Option ℕ → Option ℕ → ℕ → Op
  takes : (ℕ → Bool) → ℕ → Op
  marks : ℕ → Op
  refills : ℕ → Op
  spawns : ℕ → ℕ → Op
  fails : ℕ → Op
  destroys : Op

pub step : (ℕ → ℕ) → Op → WarmPool → WarmPool
step uuid (adopts connected vault agent now) s = (adopt uuid connected vault agent now s).1
step uuid (takes connected now) s = (take uuid connected now s).1
step uuid (marks id) s = mark_ready id s
step uuid (refills now) s = refill uuid now s
step uuid (spawns id container) s = spawned id container s
step uuid (fails id) s = spawn_failed id s
step uuid destroys s = destroy s

pub run : (ℕ → ℕ) → List Op → WarmPool → WarmPool
run uuid [] s = s
run uuid (o ∷ os) s = run uuid os (step uuid o s)

module _ (uuid : ℕ → ℕ) (fresh : (i j : ℕ) → uuid i ≡ uuid j → i ≡ j) where
  begin_spawn-IsValid :
      (p : WarmPoolProfile) (now : ℕ) (s : WarmPool)
      → IsValid uuid s
      → IsValid uuid (begin_spawn uuid p now s)
  unfolding begin_spawn assign
  begin_spawn-IsValid p now s v =
      let tokens = s.token_pool.session_tokens in
      let i = s.token_pool.next_index in
      let added = new_entry p (uuid s.drawn) i now ∷ [] in
      rw (map-append key s.pool added)
        (AllHeld-begin uuid fresh s.drawn i tokens (map key s.pool) v)

  spawn_times-IsValid :
      (n : ℕ) (p : WarmPoolProfile) (now : ℕ) (s : WarmPool)
      → IsValid uuid s
      → IsValid uuid (spawn_times uuid n p now s)
  unfolding spawn_times
  spawn_times-IsValid zero p now s v = v
  spawn_times-IsValid (suc n) p now s v =
      spawn_times-IsValid n p now (begin_spawn uuid p now s) (begin_spawn-IsValid p now s v)

  fill_profiles-IsValid :
      (ps : List WarmPoolProfile) (now : ℕ) (s : WarmPool)
      → IsValid uuid s
      → IsValid uuid (fill_profiles uuid ps now s)
  unfolding fill_profiles
  fill_profiles-IsValid [] now s v = v
  fill_profiles-IsValid (p ∷ ps) now s v =
      let needed = p.target_size - count (matches_profile p) s.pool in
      fill_profiles-IsValid ps now (spawn_times uuid needed p now s)
        (spawn_times-IsValid needed p now s v)

  begun-IsValid :
      (b : Bool) (s t : WarmPool)
      → IsValid uuid s
      → IsValid uuid t
      → IsValid uuid (begun uuid b s t)
  begun-IsValid true s t v w = v
  begun-IsValid false s t v w = w

  refill-IsValid : (now : ℕ) (s : WarmPool) → IsValid uuid s → IsValid uuid (refill uuid now s)
  unfolding refill
  refill-IsValid now s v =
      let started = record s { refilling = true; awaited = [] } in
      begun-IsValid s.refilling s (fill_profiles uuid s.profiles now started) v
        (fill_profiles-IsValid s.profiles now started v)

  taken-IsValid :
      (test : WarmEntry → Bool) (now : ℕ) (s : WarmPool) (r : Option (WarmEntry × List WarmEntry))
      → Split test s.pool r
      → IsValid uuid s
      → IsValid uuid (taken uuid now s r).1
  taken-IsValid test now s none h v = v
  taken-IsValid test now s (some (e, left)) (before, after, whole, rest, _, _) v =
      refill-IsValid now (record s { pool = left })
        (subst (λ l. AllHeld uuid s.drawn tokens l)
          (sym (map-append key before after) ∙ ap (map key) (sym rest))
          (AllHeld-part uuid s.drawn tokens (map key before) (key e) (map key after) (
            subst (λ l. AllHeld uuid s.drawn tokens l)
              (ap (map key) whole ∙ map-append key before (e ∷ after)) v)))
    where
      tokens : List (ℕ × ℕ)
      tokens = s.token_pool.session_tokens

  step-IsValid : (o : Op) (s : WarmPool) → IsValid uuid s → IsValid uuid (step uuid o s)
  unfolding step adopt take mark_ready spawned spawn_failed destroy release
  step-IsValid (adopts connected vault agent now) s v =
      let test = usable connected vault agent in
      taken-IsValid test now s (split_first test s.pool) (split_first-Split test s.pool) v
  step-IsValid (takes connected now) s v =
      let test = usable connected none none in
      taken-IsValid test now s (split_first test s.pool) (split_first-Split test s.pool) v
  step-IsValid (marks id) s v = rw (keys-mark_first id s.pool) v
  step-IsValid (refills now) s v = refill-IsValid now s v
  step-IsValid (spawns id container) s v = rw (keys-spawned id container s.pool) v
  step-IsValid (fails id) s v =
      rw (keys-filter id s.pool)
        (AllHeld-released uuid s.drawn id s.token_pool.session_tokens (map key s.pool) v)
  step-IsValid destroys s v = (tt, λ id. omega arith)

  -- Provided that random ids never repeat: if every entry of the warm pool has the token that it
  -- names down for its id in the token pool, and no two entries share an id, then this stays so
  -- over any history of refills, adoptions, finished and failed spawns, and destruction.
  pub run-AllHeld : (os : List Op) (s : WarmPool) → IsValid uuid s → IsValid uuid (run uuid os s)
  unfolding run
  run-AllHeld [] s v = v
  run-AllHeld (o ∷ os) s v = run-AllHeld os (step uuid o s) (step-IsValid o s v)

release_all-lookup :
    (id : ℕ) (es : List WarmEntry) (tokens : TokenPool)
    → lookup id (release_all es tokens).session_tokens
      ≡ (if any (has_warm_id id) es then none else lookup id tokens.session_tokens)
unfolding release_all release
release_all-lookup id [] tokens = refl
release_all-lookup id (e ∷ es) tokens = ground (
  arith,
  release_all-lookup id es (release e.warm_id tokens),
  lookup-remove e.warm_id id tokens.session_tokens,
)

-- `destroy` gives back the tokens of just the warm entries: an id that `isWarmId` knew has none
-- afterwards, and any other id keeps what it had.
pub destroy-lookup :
    (id : ℕ) (s : WarmPool)
    → lookup id (destroy s).token_pool.session_tokens
      ≡ (if is_warm_id id s then none else lookup id s.token_pool.session_tokens)
unfolding destroy is_warm_id
destroy-lookup id s = release_all-lookup id s.pool s.token_pool
