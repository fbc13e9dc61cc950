-- ===== src/Context/Leaf.antt =====
-- The index finds every record that has a uuid, and the chain ends at the leaf that was picked.
use claude_agent_runner.Common.{
  ℕ, zero, suc, ◌+◌, ◌≡◌, refl, sym, ap, ◌∙◌, ◌⊎◌, inl, inr, Option, none, some, Bool, true, false,
  List, [], ◌∷◌, arith, if◌then◌else◌, same, is_some, length, last, filter, In, In-last, In-filter,
  Bool-cases, Option-cases, same_iff,
}
use claude_agent_runner.Common.Dict.{lookup, lookup-insert}
use claude_agent_runner.Context.{
  JsonlRecord, has, add_known, index, parents, is_leaf, is_main_leaf, parent_of, walk, rounds,
  pick_leaf, build_chain,
}
use claude_agent_runner.Context.Walk.{
  Index, uuids, At, IsConversation, walk_fuel, walk-IsConversation, index-IsKeyed, unvisited-rounds,
}

-- No two records share a uuid; records without one do not count.
abbrev pub IsUnique : List JsonlRecord → Type 0
IsUnique [] = Unit {0}
IsUnique (r ∷ rs) = ((r.uuid ≡ none) ⊎ (has r.uuid (uuids rs) ≡ false)) × IsUnique rs

lookup-add_known :
    (o : Option ℕ) (r : JsonlRecord) (m : Index) (u : ℕ)
    → lookup u (add_known o r m) ≡ (if same o (some u) then some r else lookup u m)
lookup-add_known none r m u = refl
lookup-add_known (some k) r m u = lookup-insert k u r m

-- A key that is there stays there.
index_keeps :
    (rs : List JsonlRecord) (m : Index) (u : ℕ) (x : JsonlRecord)
    → lookup u m ≡ some x
    → (y : JsonlRecord) × (lookup u (index rs m) ≡ some y)
unfolding index
index_keeps [] m u x h = (x, h)
index_keeps (r ∷ rs) m u x h = elim (Bool-cases (same r.uuid (some u))) [
  | inl t ↦ index_keeps rs (add_known r.uuid r m) u r (lookup-add_known r.uuid r m u ∙ rw t)
  | inr t ↦ index_keeps rs (add_known r.uuid r m) u x (lookup-add_known r.uuid r m u ∙ rw t h)
]

same_uuid :
    (r x : JsonlRecord) (u : ℕ)
    → r ≡ x
    → r.uuid ≡ some u
    → (o : Option JsonlRecord) → (if same x.uuid (some u) then some x else o) ≡ some x
same_uuid r x u p e o = rw ((same_iff x.uuid (some u)).1 (sym (ap (λ z. z.uuid) p) ∙ e))

not_later :
    (x : JsonlRecord) (u : ℕ) (us : List (Option ℕ))
    → x.uuid ≡ some u
    → (x.uuid ≡ none) ⊎ (has x.uuid us ≡ false)
    → has (some u) us ≡ false
not_later x u us e (inl h) = cc
not_later x u us e (inr h) = sym (ap (λ o. has o us) e) ∙ h

index-lookup :
    (rs : List JsonlRecord) (m : Index) (r : JsonlRecord) (u : ℕ)
    → In r rs
    → r.uuid ≡ some u
    → (x : JsonlRecord) × (lookup u (index rs m) ≡ some x)
unfolding index
index-lookup [] m r u i e = absurd i
index-lookup (x ∷ rs) m r u (inl p) e =
    index_keeps rs (add_known x.uuid x m) u x
      (lookup-add_known x.uuid x m u ∙ same_uuid r x u p e (lookup u m))
index-lookup (x ∷ rs) m r u (inr i) e = index-lookup rs (add_known x.uuid x m) r u i e

-- A key that no record has is found where it was.
pub index_misses :
    (rs : List JsonlRecord) (m : Index) (u : ℕ)
    → has (some u) (uuids rs) ≡ false
    → lookup u (index rs m) ≡ lookup u m
unfolding index
index_misses [] m u h = refl
index_misses (r ∷ rs) m u h =
    index_misses rs (add_known r.uuid r m) u (ground arith)
    ∙ lookup-add_known r.uuid r m u
    ∙ ground arith

-- In a file without duplicates each record is found under its uuid.
pub index-lookup_unique :
    (rs : List JsonlRecord) (m : Index) (r : JsonlRecord) (u : ℕ)
    → IsUnique rs
    → In r rs
    → r.uuid ≡ some u
    → lookup u (index rs m) ≡ some r
unfolding index
index-lookup_unique [] m r u q i e = absurd i
index-lookup_unique (x ∷ rs) m r u q (inl p) e =
    index_misses rs (add_known x.uuid x m) u
      (not_later x u (uuids rs) (sym (ap (λ z. z.uuid) p) ∙ e) q.0)
    ∙ lookup-add_known x.uuid x m u
    ∙ same_uuid r x u p e (lookup u m)
    ∙ ap some (sym p)
index-lookup_unique (x ∷ rs) m r u q (inr i) e =
    index-lookup_unique rs (add_known x.uuid x m) r u q.1 i e

-- The picked leaf is a record of the file that has a uuid.
pub pick_leaf-In :
    (rs : List JsonlRecord) (r : JsonlRecord)
    → pick_leaf rs ≡ some r
    → In r rs × (is_some r.uuid ≡ true)
unfolding pick_leaf
pick_leaf-In rs r e = elim (Option-cases (last (filter (is_main_leaf (parents rs)) rs))) [
  | inl no_main ↦ picked (is_leaf (parents rs)) (rw (no_main, pick_leaf) at e) (λ h. ground arith)
  | inr (x, main) ↦
      picked (is_main_leaf (parents rs)) (main ∙ (rw (main, pick_leaf) at e)) (λ h. ground arith)
]
  where
    picked :
        (p : JsonlRecord → Bool)
        → last (filter p rs) ≡ some r
        → (p r ≡ true → is_some r.uuid ≡ true)
        → In r rs × (is_some r.uuid ≡ true)
    picked p h f = let (i, t) = In-filter p rs r (In-last (filter p rs) r h) in (i, f t)

pub At-pick_leaf : (rs : List JsonlRecord) → At (index rs []) (pick_leaf rs)
At-pick_leaf rs = go (pick_leaf rs) refl
  where
    found :
        (r : JsonlRecord) (o : Option ℕ)
        → r.uuid ≡ o
        → In r rs
        → is_some o ≡ true
        → At (index rs []) (some r)
    found r none e i h = cc
    found r (some u) e i h = let (x, l) = index-lookup rs [] r u i e in (u, x, e, l)

    go : (o : Option JsonlRecord) → pick_leaf rs ≡ o → At (index rs []) o
    go none e = tt
    go (some r) e = let (i, h) = pick_leaf-In rs r e in found r r.uuid refl i h

-- For every file, duplicate uuids, missing parents and cycles included, the chain that
-- `buildChain` returns is linked by the parents, visits no uuid twice, and stops only at a record
-- whose parent is absent or already in the chain.
pub build_chain-IsConversation :
    (rs : List JsonlRecord) → IsConversation (index rs []) (build_chain rs)
unfolding build_chain
build_chain-IsConversation rs =
    walk-IsConversation (rounds rs) (index rs []) (pick_leaf rs) [] (index-IsKeyed rs [] tt)
      (At-pick_leaf rs) (omega (arith, unvisited-rounds rs [])) tt tt tt

-- The walk of `buildChain` ends by its own test: more rounds than the model gives it, however many,
-- return the same chain.
pub build_chain_fuel :
    (rs : List JsonlRecord) (k : ℕ)
    → walk (rounds rs + k) (index rs []) [] (pick_leaf rs) [] ≡ build_chain rs
unfolding build_chain
build_chain_fuel rs k = sym (
    walk_fuel (rounds rs) (rounds rs + k) (index rs []) [] (pick_leaf rs) []
      (index-IsKeyed rs [] tt) (At-pick_leaf rs) (omega (arith, unvisited-rounds rs []))
      (omega arith))

walk-last :
    (f : ℕ) (m : Index) (vs : List (Option ℕ)) (current : Option JsonlRecord) (x : JsonlRecord)
    (chain : List JsonlRecord)
    → last (walk f m vs current (x ∷ chain)) ≡ last (x ∷ chain)
unfolding walk
walk-last zero m vs current x chain = refl
walk-last (suc f) m vs none x chain = refl
walk-last (suc f) m vs (some r) x chain =
    ground (arith, walk-last f m (r.uuid ∷ vs) (parent_of m r) r (x ∷ chain))

-- The chain ends at the picked leaf, and is empty only where there is none.
pub last-build_chain : (rs : List JsonlRecord) → last (build_chain rs) ≡ pick_leaf rs
unfolding build_chain walk
last-build_chain rs = go (pick_leaf rs)
  where
    go : (o : Option JsonlRecord) → last (walk (rounds rs) (index rs []) [] o []) ≡ o
    go none = refl
    go (some r) =
        walk-last (suc (length rs)) (index rs []) (r.uuid ∷ []) (parent_of (index rs []) r) r []
