-- ===== src/Common/Sort.antt =====
-- `ORDER BY`: a stable sort by a key, with what it keeps.
use Prim.Native.Nat.{ℕ, ◌≤◌}
use mathlib.Core.Path.{◌≡◌, refl}
use mathlib.Core.Logic.{inl, inr}
use mathlib.Core.Bool.{Bool}
use mathlib.Core.List.{List, [], ◌∷◌}
use native.Mathlib.Omega.{arith}
use claude_agent_runner.Common.Tests.{if◌then◌else◌, leb, Bool-cases}
use claude_agent_runner.Common.Lists.{count, All}

module _ {A : Type 0} (key : A → ℕ) where
  pub insert_by : A → List A → List A
  insert_by a [] = a ∷ []
  insert_by a (x ∷ xs) = if leb (key a) (key x) then a ∷ x ∷ xs else x ∷ insert_by a xs

  unfoldable pub sort_by : List A → List A
  unfolding insert_by
  sort_by [] = []
  sort_by (x ∷ xs) = insert_by x (sort_by xs)

  -- Every item's key is at most those of the items behind it.
  abbrev pub IsSorted : List A → Type 0
  IsSorted [] = Unit {0}
  IsSorted (x ∷ xs) = All (λ y. key x ≤ key y) xs × IsSorted xs

  All-insert_by :
      (n : ℕ) (a : A) (xs : List A)
      → n ≤ key a
      → All (λ y. n ≤ key y) xs
      → All (λ y. n ≤ key y) (insert_by a xs)
  unfolding insert_by
  All-insert_by n a [] h k = (h, tt)
  All-insert_by n a (x ∷ xs) h k = ground (arith, All-insert_by n a xs h k.1)

  All-le : (m n : ℕ) (xs : List A) → m ≤ n → All (λ y. n ≤ key y) xs → All (λ y. m ≤ key y) xs
  All-le m n [] h k = tt
  All-le m n (x ∷ xs) h k = (omega arith, All-le m n xs h k.1)

  insert_by-IsSorted : (a : A) (xs : List A) → IsSorted xs → IsSorted (insert_by a xs)
  unfolding insert_by
  insert_by-IsSorted a [] s = (tt, tt)
  insert_by-IsSorted a (x ∷ xs) s = elim (Bool-cases (leb (key a) (key x))) [
    | inl t ↦
        let le : key a ≤ key x = ground arith in rw t ((le, All-le (key a) (key x) xs le s.0), s)
    | inr t ↦ rw t (All-insert_by (key x) a xs (ground arith) s.0, insert_by-IsSorted a xs s.1)
  ]

  pub sort_by-IsSorted : (xs : List A) → IsSorted (sort_by xs)
  unfolding sort_by
  sort_by-IsSorted [] = tt
  sort_by-IsSorted (x ∷ xs) = insert_by-IsSorted x (sort_by xs) (sort_by-IsSorted xs)

  count-insert_by :
      (p : A → Bool) (a : A) (xs : List A) → count p (insert_by a xs) ≡ count p (a ∷ xs)
  unfolding insert_by
  count-insert_by p a [] = refl
  count-insert_by p a (x ∷ xs) = ground (arith, count-insert_by p a xs)

  pub count-sort_by : (p : A → Bool) (xs : List A) → count p (sort_by xs) ≡ count p xs
  unfolding sort_by
  count-sort_by p [] = refl
  count-sort_by p (x ∷ xs) = ground (arith, count-insert_by p x (sort_by xs), count-sort_by p xs)
