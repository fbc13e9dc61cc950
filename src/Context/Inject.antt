-- ===== src/Context/Inject.antt =====
-- `injectMessage` at the tail: the new message follows the whole conversation.
use claude_agent_runner.Common.{
  ℕ, zero, suc, ◌≡◌, refl, sym, ap, ◌∙◌, ◌⊎◌, inl, inr, Option, none, some, true, false, List, [],
  ◌∷◌, ◌++◌, arith, if◌then◌else◌, same, is_some, length, length-append, last, last-append, filter,
  filter-append, In, All, Bool-cases,
}
use claude_agent_runner.Common.Dict.{lookup, insert, lookup-insert, All-lookup, All-insert}
use claude_agent_runner.Context.{
  JsonlRecord, Role, ok, user_role, system_role, at_tail, has, add_known, index, parents,
  is_main_leaf, look, parent_of, walk, pick_leaf, build_chain, new_record, leaf_uuid, tail_uuid,
  inject_message,
}
use claude_agent_runner.Context.Walk.{Index, uuids, IsKeyed, index-IsKeyed}
use claude_agent_runner.Context.Leaf.{
  IsUnique, index_misses, index-lookup_unique, pick_leaf-In, last-build_chain,
}

-- A uuid that `randomUUID` has just made: no record has it or names it as its parent.
pub record IsFresh (u : ℕ) (rs : List JsonlRecord) : Type 0 where
  pub unused : has (some u) (uuids rs) ≡ false
  pub unnamed : has (some u) (parents rs) ≡ false

-- No record of the index names the uuid as its parent.
abbrev NoParent : ℕ → Index → Type 0
NoParent u = All (λ e. same e.1.parent_uuid (some u) ≡ false)

add_known-NoParent :
    (u : ℕ) (o : Option ℕ) (r : JsonlRecord) (m : Index)
    → (is_some o ≡ true → same r.parent_uuid (some u) ≡ false)
    → NoParent u m
    → NoParent u (add_known o r m)
add_known-NoParent u none r m h n = n
add_known-NoParent u (some k) r m h n = All-insert _ k r m (h refl) n

index-NoParent :
    (u : ℕ) (rs : List JsonlRecord) (m : Index)
    → has (some u) (parents rs) ≡ false
    → NoParent u m
    → NoParent u (index rs m)
unfolding index parents
index-NoParent u [] m h n = n
index-NoParent u (r ∷ rs) m h n =
    index-NoParent u rs (add_known r.uuid r m) (ground arith)
      (add_known-NoParent u r.uuid r m (λ i. ground arith) n)

index-append :
    (rs : List JsonlRecord) (m : Index) (r : JsonlRecord) (u : ℕ)
    → r.uuid ≡ some u
    → index (rs ++ r ∷ []) m ≡ insert u r (index rs m)
unfolding index
index-append [] m r u e = ap (λ o. add_known o r m) e
index-append (x ∷ rs) m r u e = index-append rs (add_known x.uuid x m) r u e

parents-append : (rs ss : List JsonlRecord) → parents (rs ++ ss) ≡ parents rs ++ parents ss
unfolding parents
parents-append [] ss = refl
parents-append (r ∷ rs) ss = ground (arith, parents-append rs ss)

has-append :
    (o : Option ℕ) (us vs : List (Option ℕ))
    → has o us ≡ false
    → has o vs ≡ false
    → has o (us ++ vs) ≡ false
has-append o [] vs h k = k
has-append o (u ∷ us) vs h k = ground (arith, has-append o us vs)

-- The record that the walk is at was found in the index.
abbrev Found : Index → Option JsonlRecord → Type 0
Found m none = Unit {0}
Found m (some r) = (p : ℕ) × (lookup p m ≡ some r)

module _ (m : Index) (u : ℕ) (new : JsonlRecord) (keyed : IsKeyed m) (unnamed : NoParent u m)
    (absent : lookup u m ≡ none) where
  lookup-same : (q : ℕ) → same (some q) (some u) ≡ false → lookup q (insert u new m) ≡ lookup q m
  lookup-same q h = lookup-insert u q new m ∙ ground arith

  look-same : (o : Option ℕ) → same o (some u) ≡ false → look (insert u new m) o ≡ look m o
  look-same none h = refl
  look-same (some q) h = lookup-same q h

  parent_of-Found : (r : JsonlRecord) → Found m (parent_of m r)
  parent_of-Found r = go r.parent_uuid
    where
      found : (q : ℕ) (o : Option JsonlRecord) → lookup q m ≡ o → Found m o
      found q none e = tt
      found q (some x) e = (q, e)

      go : (o : Option ℕ) → Found m (look m o)
      go none = tt
      go (some q) = found q (lookup q m) refl

  has_same :
      (r : JsonlRecord) (p : ℕ) (vs : List (Option ℕ))
      → lookup p m ≡ some r
      → has r.uuid (vs ++ some u ∷ []) ≡ has r.uuid vs
  has_same r p vs f = go (Bool-cases (same (some p) (some u)))
    where
      apart :
          (o : Option ℕ) (ws : List (Option ℕ))
          → same o (some u) ≡ false
          → has o (ws ++ some u ∷ []) ≡ has o ws
      apart o [] h = ground arith
      apart o (w ∷ ws) h = ground (arith, apart o ws h)

      keyed_at : r.uuid ≡ some p
      keyed_at = All-lookup _ p r m keyed f

      go :
          (same (some p) (some u) ≡ true) ⊎ (same (some p) (some u) ≡ false)
          → has r.uuid (vs ++ some u ∷ []) ≡ has r.uuid vs
      go (inl t) =
          let e : p ≡ u = ground arith in
          let f' : lookup u m ≡ some r = ap (λ q. lookup q m) (sym e) ∙ f in cc
      go (inr t) = apart r.uuid vs (ap (λ o. same o (some u)) keyed_at ∙ t)

  -- The walk over the longer file makes the same steps, in front of the new record.
  walk_same :
      (f : ℕ) (vs : List (Option ℕ)) (current : Option JsonlRecord) (chain : List JsonlRecord)
      → Found m current
      → walk f (insert u new m) (vs ++ some u ∷ []) current (chain ++ new ∷ [])
        ≡ walk f m vs current chain ++ new ∷ []
  unfolding walk
  walk_same zero vs current chain h = refl
  walk_same (suc f) vs none chain h = refl
  walk_same (suc f) vs (some r) chain (p, h) = elim (Bool-cases (has r.uuid vs)) [
    | inl seen ↦ rw (has_same r p vs h, seen)
    | inr next ↦
        rw (has_same r p vs h, next, look-same r.parent_uuid (All-lookup _ p r m unnamed h))
          (walk_same f (r.uuid ∷ vs) (parent_of m r) (r ∷ chain) (parent_of-Found r))
  ]

has-In :
    (o : Option ℕ) (r : JsonlRecord) (rs : List JsonlRecord)
    → In r rs
    → has o (uuids rs) ≡ false
    → same o r.uuid ≡ false
has-In o r [] i h = absurd i
has-In o r (x ∷ rs) (inl e) h = ap (λ z. same o z.uuid) e ∙ ground arith
has-In o r (x ∷ rs) (inr i) h = has-In o r rs i (ground arith)

-- The uuid of the picked leaf, as the tail of the chain has it.
tail-pick_leaf : (rs : List JsonlRecord) → tail_uuid (build_chain rs) ≡ leaf_uuid (pick_leaf rs)
tail-pick_leaf rs = ap leaf_uuid (last-build_chain rs)

tail_unused :
    (rs : List JsonlRecord) (u : ℕ)
    → has (some u) (uuids rs) ≡ false
    → same (some u) (tail_uuid (build_chain rs)) ≡ false
tail_unused rs u h = ap (same (some u)) (tail-pick_leaf rs) ∙ go (pick_leaf rs) refl
  where
    go : (o : Option JsonlRecord) → pick_leaf rs ≡ o → same (some u) (leaf_uuid o) ≡ false
    go none e = refl
    go (some r) e = has-In (some u) r rs (pick_leaf-In rs r e).0 h

module _ (rs : List JsonlRecord) (u : ℕ) (new : JsonlRecord) (unique : IsUnique rs)
    (fresh : IsFresh u rs) (named : new.uuid ≡ some u) (main : new.is_sidechain ≡ false)
    (linked : new.parent_uuid ≡ tail_uuid (build_chain rs)) where
  m : Index
  m = index rs []

  parent_unused : same (some u) new.parent_uuid ≡ false
  parent_unused = ap (same (some u)) linked ∙ tail_unused rs u fresh.unused

  new_unnamed : has (some u) (parents (rs ++ new ∷ [])) ≡ false
  unfolding parents
  new_unnamed =
      ap (has (some u)) (parents-append rs (new ∷ []))
      ∙ has-append (some u) (parents rs) (parents (new ∷ [])) fresh.unnamed
          (ground (arith, parent_unused))

  new_leaf : is_main_leaf (parents (rs ++ new ∷ [])) new ≡ true
  new_leaf = ground (arith, new_unnamed)

  pick_new : pick_leaf (rs ++ new ∷ []) ≡ some new
  unfolding pick_leaf
  pick_new =
      let p = is_main_leaf (parents (rs ++ new ∷ [])) in
      let e : filter p (rs ++ new ∷ []) ≡ filter p rs ++ new ∷ [] =
        filter-append p rs (new ∷ [])
        ∙ ap (λ b. filter p rs ++ (if b then new ∷ [] else [])) new_leaf in
      rw (ap last e ∙ last-append (filter p rs) new, pick_leaf)

  absent : lookup u m ≡ none
  unfolding m lookup
  absent = index_misses rs [] u fresh.unused

  unnamed : NoParent u m
  unfolding m
  unnamed = index-NoParent u rs [] fresh.unnamed tt

  keyed : IsKeyed m
  unfolding m
  keyed = index-IsKeyed rs [] tt

  leaf_apart : (r : JsonlRecord) (o : Option ℕ) → In r rs → r.uuid ≡ o → same o (some u) ≡ false
  leaf_apart r none i e = refl
  leaf_apart r (some q) i e =
      let h = has-In (some u) r rs i fresh.unused in
      let h' : same (some u) (some q) ≡ false = sym (ap (same (some u)) e) ∙ h in ground arith

  -- The leaf is found in the index under its uuid.
  leaf_there :
      (r : JsonlRecord) (o : Option ℕ)
      → In r rs
      → r.uuid ≡ o
      → is_some o ≡ true
      → (q : ℕ) × (o ≡ some q) × (lookup q m ≡ some r)
  unfolding m
  leaf_there r none i e s = cc
  leaf_there r (some q) i e s = (q, refl, index-lookup_unique rs [] r q unique i e)

  leaf-Found : (o : Option JsonlRecord) → pick_leaf rs ≡ o → Found m o
  leaf-Found none e = tt
  leaf-Found (some r) e =
      let (i, s) = pick_leaf-In rs r e in let (q, _, f) = leaf_there r r.uuid i refl s in (q, f)

  leaf_looked :
      (o : Option JsonlRecord) → pick_leaf rs ≡ o → look (insert u new m) (leaf_uuid o) ≡ o
  leaf_looked none e = refl
  leaf_looked (some r) e =
      let (i, s) = pick_leaf-In rs r e in
      let (q, g, f) = leaf_there r r.uuid i refl s in
      look-same m u new keyed unnamed absent r.uuid (leaf_apart r r.uuid i refl) ∙ ap (look m) g ∙ f

  at_leaf : look (insert u new m) new.parent_uuid ≡ pick_leaf rs
  at_leaf =
      ap (look (insert u new m)) (linked ∙ tail-pick_leaf rs) ∙ leaf_looked (pick_leaf rs) refl

  -- A new record that names the tail as its parent is appended to the chain.
  pub build_chain-append : build_chain (rs ++ new ∷ []) ≡ build_chain rs ++ new ∷ []
  unfolding build_chain walk m
  build_chain-append =
      let n : length (rs ++ new ∷ []) ≡ suc (length rs) =
        omega (arith, length-append rs (new ∷ [])) in
      let fuel = suc (suc (length rs)) in
      let m' = insert u new m in
      rw (n, index-append rs [] new u named, pick_new)
        (ap (λ o. walk fuel m' (o ∷ []) (look m' new.parent_uuid) (new ∷ [])) named
          ∙ ap (λ o. walk fuel m' (some u ∷ []) o (new ∷ [])) at_leaf
          ∙ walk_same m u new keyed unnamed absent fuel [] (pick_leaf rs) []
              (leaf-Found (pick_leaf rs) refl))

new_record_fields :
    (u now text : ℕ) (role : Role) (p : Option ℕ)
    → let new = new_record u now text role p in
      (new.uuid ≡ some u) × (new.is_sidechain ≡ false) × (new.parent_uuid ≡ p)
unfolding new_record
new_record_fields u now text user_role p = (refl, refl, refl)
new_record_fields u now text system_role p = (refl, refl, refl)

-- In a file whose uuids are distinct, a message that is injected with no place and a fresh uuid
-- becomes the last of the conversation, behind the whole chain of before, and the rest of the file
-- keeps its records.
pub inject_message-tail :
    (rs : List JsonlRecord) (u now text : ℕ) (role : Role)
    → IsUnique rs
    → IsFresh u rs
    → (out : List JsonlRecord) × (new : JsonlRecord) × (inject_message rs u now text role at_tail
        ≡ ok out)
      × (out ≡ rs ++ new ∷ [])
      × (new.uuid ≡ some u)
      × (build_chain out ≡ build_chain rs ++ new ∷ [])
unfolding inject_message
inject_message-tail rs u now text role unique fresh =
    let p = tail_uuid (build_chain rs) in
    let new = new_record u now text role p in
    let (named, main, linked) = new_record_fields u now text role p in
    (
      rs ++ new ∷ [],
      new,
      refl,
      refl,
      named,
      build_chain-append rs u new unique fresh named main linked,
    )
