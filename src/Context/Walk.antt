-- ===== src/Context/Walk.antt =====
-- How far `buildChain` walks: the fuel of the model is enough, and what the chain is made of.
use claude_agent_runner.Common.{
  ℕ, zero, suc, ◌+◌, ◌≤◌, ◌<◌, ◌≡◌, refl, ap, ◌⊎◌, inl, inr, Option, none, some, true, false, not,
  List, [], ◌∷◌, arith, map, same, length, count, All, Bool-cases,
}
use claude_agent_runner.Common.Dict.{lookup, insert, All-insert, All-lookup}
use claude_agent_runner.Context.{JsonlRecord, has, add_known, index, look, parent_of, walk, rounds}

abbrev pub Index : Type 0
Index = List (ℕ × JsonlRecord)

abbrev pub uuids : List JsonlRecord → List (Option ℕ)
uuids = map (λ r. r.uuid)

-- How many keys of the index the walk has not visited.
abbrev pub unvisited : List (Option ℕ) → Index → ℕ
unvisited vs = count (λ e. not (has (some e.0) vs))

unvisited_mono :
    (u : Option ℕ) (vs : List (Option ℕ)) (m : Index) → unvisited (u ∷ vs) m ≤ unvisited vs m
unvisited_mono u vs [] = omega arith
unvisited_mono u vs ((k, x) ∷ m) = ground (arith, unvisited_mono u vs m)

-- A visit of a key that is there and not yet visited leaves fewer.
unvisited-visit :
    (u : ℕ) (r : JsonlRecord) (vs : List (Option ℕ)) (m : Index)
    → lookup u m ≡ some r
    → has (some u) vs ≡ false
    → unvisited (some u ∷ vs) m < unvisited vs m
unfolding lookup
unvisited-visit u r vs [] e h = cc
unvisited-visit u r vs ((k, x) ∷ m) e h = elim (Bool-cases (same (some u) (some k))) [
  | inl t ↦
      let p : u ≡ k = ground arith in
      ground (arith, unvisited_mono (some u) vs m, ap (λ z. has (some z) vs) p)
  | inr t ↦ ground (arith, unvisited-visit u r vs m)
]

unvisited-le : (vs : List (Option ℕ)) (m : Index) → unvisited vs m ≤ length m
unvisited-le vs [] = omega arith
unvisited-le vs (e ∷ m) = ground (arith, unvisited-le vs m)

length-insert : (u : ℕ) (r : JsonlRecord) (m : Index) → length (insert u r m) ≤ suc (length m)
unfolding insert
length-insert u r [] = omega arith
length-insert u r ((k, x) ∷ m) = ground (arith, length-insert u r m)

abbrev pub IsKeyed : Index → Type 0
IsKeyed = All (λ e. e.1.uuid ≡ some e.0)

add_known-IsKeyed :
    (o : Option ℕ) (r : JsonlRecord) (m : Index)
    → r.uuid ≡ o
    → IsKeyed m
    → IsKeyed (add_known o r m)
add_known-IsKeyed none r m e h = h
add_known-IsKeyed (some u) r m e h = All-insert _ u r m e h

length-add_known :
    (o : Option ℕ) (r : JsonlRecord) (m : Index) → length (add_known o r m) ≤ suc (length m)
length-add_known none r m = omega arith
length-add_known (some u) r m = length-insert u r m

pub index-IsKeyed : (rs : List JsonlRecord) (m : Index) → IsKeyed m → IsKeyed (index rs m)
unfolding index
index-IsKeyed [] m h = h
index-IsKeyed (r ∷ rs) m h =
    index-IsKeyed rs (add_known r.uuid r m) (add_known-IsKeyed r.uuid r m refl h)

length-index : (rs : List JsonlRecord) (m : Index) → length (index rs m) ≤ length rs + length m
unfolding index
length-index [] m = omega arith
length-index (r ∷ rs) m =
    omega (arith, length-index rs (add_known r.uuid r m), length-add_known r.uuid r m)

-- The record that the walk is at is there under its uuid.
abbrev pub At : Index → Option JsonlRecord → Type 0
At m none = Unit {0}
At m (some r) = (u : ℕ) × (x : JsonlRecord) × (r.uuid ≡ some u) × (lookup u m ≡ some x)

lookup-At : (m : Index) (p : ℕ) (o : Option JsonlRecord) → IsKeyed m → lookup p m ≡ o → At m o
lookup-At m p none h e = tt
lookup-At m p (some x) h e = (p, x, All-lookup _ p x m h e, e)

pub parent_of-At : (m : Index) (r : JsonlRecord) → IsKeyed m → At m (parent_of m r)
parent_of-At m r h = go r.parent_uuid
  where
    go : (o : Option ℕ) → At m (look m o)
    go none = tt
    go (some p) = lookup-At m p (lookup p m) h refl

-- A visit shrinks what is left to visit.
At-visit :
    (m : Index) (r : JsonlRecord) (vs : List (Option ℕ))
    → At m (some r)
    → has r.uuid vs ≡ false
    → unvisited (r.uuid ∷ vs) m < unvisited vs m
At-visit m r vs (u, x, e, f) h = simp e (unvisited-visit u x vs m f (simp (← e) h))

-- With more fuel than keys left to visit, the walk does not depend on its fuel.
pub walk_fuel :
    (f g : ℕ) (m : Index) (vs : List (Option ℕ)) (current : Option JsonlRecord)
    (chain : List JsonlRecord)
    → IsKeyed m
    → At m current
    → unvisited vs m < f
    → f ≤ g
    → walk f m vs current chain ≡ walk g m vs current chain
unfolding walk
walk_fuel zero g m vs current chain k a h l = absurd (omega arith)
walk_fuel (suc f) zero m vs current chain k a h l = absurd (omega arith)
walk_fuel (suc f) (suc g) m vs none chain k a h l = refl
walk_fuel (suc f) (suc g) m vs (some r) chain k a h l = elim (Bool-cases (has r.uuid vs)) [
  | inl seen ↦ rw seen
  | inr new ↦ rw new (
      walk_fuel f g m (r.uuid ∷ vs) (parent_of m r) (r ∷ chain) k (parent_of-At m r k)
        (omega (arith, At-visit m r vs a new)) (omega arith))
]

-- Each record of a chain is the one that the next names as its parent.
abbrev pub IsLinked : Index → List JsonlRecord → Type 0
IsLinked m [] = Unit {0}
IsLinked m (a ∷ []) = Unit {0}
IsLinked m (a ∷ b ∷ c) = (parent_of m b ≡ some a) × IsLinked m (b ∷ c)

abbrev pub IsDistinct : List JsonlRecord → Type 0
IsDistinct [] = Unit {0}
IsDistinct (a ∷ c) = (has a.uuid (uuids c) ≡ false) × IsDistinct c

-- What the walk has reached is the parent of the chain's first record.
abbrev pub Reached : Index → Option JsonlRecord → List JsonlRecord → Type 0
Reached m current [] = Unit {0}
Reached m current (a ∷ c) = parent_of m a ≡ current

-- The chain begins at a root, at a record whose parent is not in the file, or where the links
-- come back to a record of the chain.
abbrev pub IsComplete : Index → List JsonlRecord → Type 0
IsComplete m [] = Unit {0}
IsComplete m (a ∷ c) =
    (parent_of m a ≡ none)
    ⊎ ((p : JsonlRecord) × (parent_of m a ≡ some p) × (has p.uuid (uuids (a ∷ c)) ≡ true))

abbrev pub IsConversation : Index → List JsonlRecord → Type 0
IsConversation m c = IsLinked m c × IsDistinct c × IsComplete m c

IsLinked-cons :
    (m : Index) (r : JsonlRecord) (c : List JsonlRecord)
    → Reached m (some r) c
    → IsLinked m c
    → IsLinked m (r ∷ c)
IsLinked-cons m r [] h l = tt
IsLinked-cons m r (a ∷ c) h l = (h, l)

IsComplete-none : (m : Index) (c : List JsonlRecord) → Reached m none c → IsComplete m c
IsComplete-none m [] h = tt
IsComplete-none m (a ∷ c) h = inl h

IsComplete-seen :
    (m : Index) (r : JsonlRecord) (c : List JsonlRecord)
    → Reached m (some r) c
    → has r.uuid (uuids c) ≡ true
    → IsComplete m c
IsComplete-seen m r [] h s = tt
IsComplete-seen m r (a ∷ c) h s = inr (r, h, s)

pub walk-IsConversation :
    (f : ℕ) (m : Index) (current : Option JsonlRecord) (chain : List JsonlRecord)
    → IsKeyed m
    → At m current
    → unvisited (uuids chain) m < f
    → Reached m current chain
    → IsLinked m chain
    → IsDistinct chain
    → IsConversation m (walk f m (uuids chain) current chain)
unfolding walk
walk-IsConversation zero m current chain k a h rd l d = absurd (omega arith)
walk-IsConversation (suc f) m none chain k a h rd l d = (l, d, IsComplete-none m chain rd)
walk-IsConversation (suc f) m (some r) chain k a h rd l d =
    elim (Bool-cases (has r.uuid (uuids chain))) [
      | inl seen ↦ rw seen (l, d, IsComplete-seen m r chain rd seen)
      | inr new ↦ rw new (
          walk-IsConversation f m (parent_of m r) (r ∷ chain) k (parent_of-At m r k)
            (omega (arith, At-visit m r (uuids chain) a new)) refl (IsLinked-cons m r chain rd l)
            (new, d))
    ]

-- Two rounds more than there are records are always enough.
pub unvisited-rounds :
    (rs : List JsonlRecord) (vs : List (Option ℕ)) → suc (unvisited vs (index rs [])) < rounds rs
unvisited-rounds rs vs = omega (arith, unvisited-le vs (index rs []), length-index rs [])
