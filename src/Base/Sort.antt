-- ===== src/Base/Sort.antt =====
-- `sorted(xs, key=f)`: Python's stable sort, by a numeric key.
use Prim.Native.Nat.{ℕ, ◌≤◌, ◌+◌}
use mathlib.Core.List.{List, [], ◌∷◌, Perm}
use mathlib.Core.List.Perm
use native.Mathlib.Omega.{arith}
use seerflow.Base.Tests.{leb, if◌then◌else◌, Bool-cases}
use mathlib.Core.Path.{◌≡◌, refl}
use seerflow.Base.Lists.{All, length}
use mathlib.Core.Logic.{inl, inr}

module _ {A : Type 0} (key : A → ℕ) where
  -- Before the first element whose key is not smaller, so that equal keys keep their order.
  unfoldable pub insert_sorted : A → List A → List A
  insert_sorted a [] = a ∷ []
  insert_sorted a (x ∷ xs) =
      let rest = insert_sorted a xs in if leb (key a) (key x) then a ∷ x ∷ xs else x ∷ rest

  unfoldable pub sorted : List A → List A
  unfolding insert_sorted
  sorted [] = []
  sorted (x ∷ xs) = insert_sorted x (sorted xs)

  abbrev pub IsSorted : List A → Type 0
  IsSorted [] = Unit
  IsSorted (x ∷ xs) = All (λ y. key x ≤ key y) xs × IsSorted xs

  pub insert_sorted-perm : (a : A) (xs : List A) → Perm (insert_sorted a xs) (a ∷ xs)
  unfolding insert_sorted
  insert_sorted-perm a [] = Perm.refl _
  insert_sorted-perm a (x ∷ xs) = elim (Bool-cases (leb (key a) (key x))) [
    | inl e ↦ rw e (Perm.refl _)
    | inr e ↦ rw e (Perm.trans (Perm.cons x (insert_sorted-perm a xs)) (Perm.swap a x xs))
  ]

  pub sorted-perm : (xs : List A) → Perm (sorted xs) xs
  unfolding sorted
  sorted-perm [] = Perm.refl _
  sorted-perm (x ∷ xs) =
      Perm.trans (insert_sorted-perm x (sorted xs)) (Perm.cons x (sorted-perm xs))

  pub All-insert_sorted {κ} :
      (P : A → Type κ) (a : A) (xs : List A) → P a → All P xs → All P (insert_sorted a xs)
  unfolding insert_sorted
  All-insert_sorted P a [] p h = (p, tt)
  All-insert_sorted P a (x ∷ xs) p h = elim (Bool-cases (leb (key a) (key x))) [
    | inl e ↦ rw e (p, h)
    | inr e ↦ rw e (h.0, All-insert_sorted P a xs p h.1)
  ]

  pub All-sorted {κ} : (P : A → Type κ) (xs : List A) → All P xs → All P (sorted xs)
  unfolding sorted
  All-sorted P [] h = tt
  All-sorted P (x ∷ xs) h = All-insert_sorted P x (sorted xs) h.0 (All-sorted P xs h.1)

  All-le :
      (k : ℕ) (x : A) (xs : List A)
      → k ≤ key x
      → All (λ y. key x ≤ key y) xs
      → All (λ y. k ≤ key y) xs
  All-le k x [] h all = tt
  All-le k x (y ∷ xs) h all = (omega arith, All-le k x xs h all.1)

  insert_sorted-IsSorted : (a : A) (xs : List A) → IsSorted xs → IsSorted (insert_sorted a xs)
  unfolding insert_sorted
  insert_sorted-IsSorted a [] s = (tt, tt)
  insert_sorted-IsSorted a (x ∷ xs) s = elim (Bool-cases (leb (key a) (key x))) [
    | inl e ↦ let le : key a ≤ key x = ground arith in rw e ((le, All-le (key a) x xs le s.0), s)
    | inr e ↦ rw e (
      All-insert_sorted (λ y. key x ≤ key y) a xs (ground arith) s.0,
      insert_sorted-IsSorted a xs s.1,
    )
  ]

  pub sorted-IsSorted : (xs : List A) → IsSorted (sorted xs)
  unfolding sorted
  sorted-IsSorted [] = tt
  sorted-IsSorted (x ∷ xs) = insert_sorted-IsSorted x (sorted xs) (sorted-IsSorted xs)

  length-insert_sorted : (a : A) (xs : List A) → length (insert_sorted a xs) ≡ length xs + 1
  unfolding insert_sorted
  length-insert_sorted a [] = omega arith
  length-insert_sorted a (x ∷ xs) = ground (arith, length-insert_sorted a xs)

  pub length-sorted : (xs : List A) → length (sorted xs) ≡ length xs
  unfolding sorted
  length-sorted [] = refl
  length-sorted (x ∷ xs) = omega (arith, length-insert_sorted x (sorted xs), length-sorted xs)
