-- ===== src/Common/Lists.antt =====
-- Lists measured by native numbers and filtered by Boolean tests.
use Prim.Native.Nat.{ℕ, zero, suc, ◌+◌, ◌≤◌, ◌<◌}
use mathlib.Core.Path.{◌≡◌, refl, sym, ap, ◌∙◌}
use mathlib.Core.Logic.{◌⊎◌, inl, inr}
use mathlib.Core.Bool.{Bool, true, false, ◌||◌}
use mathlib.Core.List.{List, [], ◌∷◌, ◌++◌, map}
use mathlib.Core.Option.{Option, none, some}
use native.Mathlib.Omega.{arith}
use claude_agent_runner.Common.Tests.{if◌then◌else◌, Bool-cases}

module _ {ℓ} {A : Type ℓ} where
  abbrev pub length : List A → ℕ
  length [] = 0
  length (x ∷ xs) = suc (length xs)

  abbrev pub get_elem? : List A → ℕ → Option A
  get_elem? [] i = none
  get_elem? (x ∷ xs) zero = some x
  get_elem? (x ∷ xs) (suc i) = get_elem? xs i

  abbrev pub take : ℕ → List A → List A
  take zero xs = []
  take (suc n) [] = []
  take (suc n) (x ∷ xs) = x ∷ take n xs

  abbrev pub drop : ℕ → List A → List A
  drop zero xs = xs
  drop (suc n) [] = []
  drop (suc n) (x ∷ xs) = drop n xs

  -- `xs.filter(test)`.
  abbrev pub filter : (A → Bool) → List A → List A
  filter test [] = []
  filter test (x ∷ xs) = if test x then x ∷ filter test xs else filter test xs

  -- How many items pass the test.
  abbrev pub count : (A → Bool) → List A → ℕ
  count test [] = 0
  count test (x ∷ xs) = if test x then suc (count test xs) else count test xs

  -- `xs.some(test)`.
  abbrev pub any : (A → Bool) → List A → Bool
  any test [] = false
  any test (x ∷ xs) = test x || any test xs

  -- `xs.find(test)`.
  abbrev pub find? : (A → Bool) → List A → Option A
  find? test [] = none
  find? test (x ∷ xs) = if test x then some x else find? test xs

  -- The last item that passes the test.
  abbrev pub find_last? : (A → Bool) → List A → Option A
  find_last? test [] = none
  find_last? test (x ∷ xs) = elim (find_last? test xs) [
    | some y ↦ some y
    | none ↦ if test x then some x else none
  ]

  -- A predicate at every item.
  abbrev pub All {κ} : (A → Type κ) → List A → Type κ
  All P [] = Unit
  All P (x ∷ xs) = P x × All P xs

  -- `xs[xs.length - 1]`.
  abbrev pub last : List A → Option A
  last [] = none
  last (x ∷ []) = some x
  last (x ∷ y ∷ xs) = last (y ∷ xs)

  pub length-append : (xs ys : List A) → length (xs ++ ys) ≡ length xs + length ys
  length-append [] ys = omega arith
  length-append (x ∷ xs) ys = omega (arith, length-append xs ys)

  pub count-append : (p : A → Bool) (xs ys : List A) → count p (xs ++ ys) ≡ count p xs + count p ys
  count-append p [] ys = omega arith
  count-append p (x ∷ xs) ys = ground (arith, count-append p xs ys)

  pub length-filter : (p : A → Bool) (xs : List A) → length (filter p xs) ≡ count p xs
  length-filter p [] = refl
  length-filter p (x ∷ xs) = ground (arith, length-filter p xs)

  pub filter-append :
      (p : A → Bool) (xs ys : List A) → filter p (xs ++ ys) ≡ filter p xs ++ filter p ys
  filter-append p [] ys = refl
  filter-append p (x ∷ xs) ys = ground (arith, filter-append p xs ys)

  pub All-append {κ} : (P : A → Type κ) (xs ys : List A) → All P xs → All P ys → All P (xs ++ ys)
  All-append P [] ys left right = right
  All-append P (x ∷ xs) ys (first, left) right = (first, All-append P xs ys left right)

  pub All-map {κ μ} :
      (P : A → Type κ) (Q : A → Type μ) (xs : List A) → ((a : A) → P a → Q a) → All P xs → All Q xs
  All-map P Q [] f h = tt
  All-map P Q (x ∷ xs) f h = (f x h.0, All-map P Q xs f h.1)

-- To be an item of a list, with its place kept.
abbrev pub In : {A : Type 0} → A → List A → Type 0
In a [] = ⊥
In a (x ∷ xs) = (a ≡ x) ⊎ In a xs

pub last-append : {A : Type 0} (xs : List A) (a : A) → last (xs ++ a ∷ []) ≡ some a
last-append [] a = refl
last-append (x ∷ []) a = refl
last-append (x ∷ y ∷ xs) a = last-append (y ∷ xs) a

pub In-last : {A : Type 0} (xs : List A) (a : A) → last xs ≡ some a → In a xs
In-last [] a h = cc
In-last (x ∷ []) a h = inl (ground arith)
In-last (x ∷ y ∷ xs) a h = inr (In-last (y ∷ xs) a h)

pub In-filter :
    {A : Type 0} (p : A → Bool) (xs : List A) (a : A) → In a (filter p xs) → In a xs × (p a ≡ true)
In-filter p [] a h = absurd h
In-filter p (x ∷ xs) a h = elim (Bool-cases (p x)) [
  | inl t ↦ go t (λ i. In-filter p xs a i) (rw t at h)
  | inr t ↦ let r = In-filter p xs a (rw t at h) in (inr r.0, r.1)
]
  where
    go :
        p x ≡ true
        → (In a (filter p xs) → In a xs × (p a ≡ true))
        → (a ≡ x) ⊎ In a (filter p xs)
        → In a (x ∷ xs) × (p a ≡ true)
    go t f (inl e) = (inl e, rw e t)
    go t f (inr i) = let r = f i in (inr r.0, r.1)

pub In-append_left : {A : Type 0} (xs ys : List A) (a : A) → In a xs → In a (xs ++ ys)
In-append_left [] ys a h = absurd h
In-append_left (x ∷ xs) ys a (inl e) = inl e
In-append_left (x ∷ xs) ys a (inr i) = inr (In-append_left xs ys a i)

pub find-In :
    {A : Type 0} (p : A → Bool) (xs : List A) (a : A) → find? p xs ≡ some a → In a xs × (p a ≡ true)
find-In p [] a h = cc
find-In p (x ∷ xs) a h = elim (Bool-cases (p x)) [
  | inl t ↦ let e : a ≡ x = ground arith in (inl e, rw e t)
  | inr t ↦ let r = find-In p xs a (rw t at h) in (inr r.0, r.1)
]

pub count_of_In :
    {A : Type 0} (p : A → Bool) (xs : List A) (a : A) → In a xs → p a ≡ true → 0 < count p xs
count_of_In p [] a i h = absurd i
count_of_In p (x ∷ xs) a (inl e) h = rw (ap p (sym e) ∙ h) (omega arith)
count_of_In p (x ∷ xs) a (inr i) h = ground (arith, count_of_In p xs a i h)

-- Where at most one item passes, the one that does is found.
pub find_unique :
    {A : Type 0} (p : A → Bool) (xs : List A) (a : A)
    → count p xs ≤ 1
    → In a xs
    → p a ≡ true
    → find? p xs ≡ some a
find_unique p [] a u i h = absurd i
find_unique p (x ∷ xs) a u (inl e) h = rw (ap p (sym e) ∙ h) (ap some (sym e))
find_unique p (x ∷ xs) a u (inr i) h =
    ground (arith, count_of_In p xs a i h, find_unique p xs a (ground arith) i h)

pub In-map : {A B : Type 0} (f : A → B) (xs : List A) (a : A) → In a xs → In (f a) (map f xs)
In-map f [] a i = absurd i
In-map f (x ∷ xs) a (inl e) = inl (ap f e)
In-map f (x ∷ xs) a (inr i) = inr (In-map f xs a i)

pub In-filter_of :
    {A : Type 0} (p : A → Bool) (xs : List A) (a : A) → In a xs → p a ≡ true → In a (filter p xs)
In-filter_of p [] a i h = absurd i
In-filter_of p (x ∷ xs) a (inl e) h = rw (ap p (sym e) ∙ h) (inl e)
In-filter_of p (x ∷ xs) a (inr i) h = elim (Bool-cases (p x)) [
  | inl t ↦ rw t (inr (In-filter_of p xs a i h))
  | inr t ↦ rw t (In-filter_of p xs a i h)
]

pub In-append_last : {A : Type 0} (xs : List A) (a : A) → In a (xs ++ a ∷ [])
In-append_last [] a = inl refl
In-append_last (x ∷ xs) a = inr (In-append_last xs a)

pub count-filter-le :
    {A : Type 0} (p q : A → Bool) (xs : List A) → count p (filter q xs) ≤ count p xs
count-filter-le p q [] = omega arith
count-filter-le p q (x ∷ xs) = ground (arith, count-filter-le p q xs)

pub count_of_not-any : {A : Type 0} (p : A → Bool) (xs : List A) → any p xs ≡ false → count p xs ≡ 0
count_of_not-any p [] h = refl
count_of_not-any p (x ∷ xs) h = ground (arith, count_of_not-any p xs)
