-- ===== src/Prelude/Sort.antt =====
-- A stable sort by a numeric key, as `slice::sort_by` does it, and what it keeps.
use Prim.Native.Nat.{ℕ}
use mathlib.Core.Path.{◌≡◌, refl}
use mathlib.Core.Logic.{inl, inr}
use mathlib.Core.List.{List, [], ◌∷◌, Perm}
use mathlib.Core.List.Perm
use rgb_lib.Prelude.Tests.{leb, if◌then◌else◌, Bool-cases}

module _ {ℓ} {A : Type ℓ} where
  -- before the first element with no smaller key
  unfoldable pub insert_by : ℕ × A → List (ℕ × A) → List (ℕ × A)
  insert_by x [] = x ∷ []
  insert_by x (y ∷ ys) = let rest = insert_by x ys in if leb x.0 y.0 then x ∷ y ∷ ys else y ∷ rest

  unfoldable pub sort_pairs : List (ℕ × A) → List (ℕ × A)
  unfolding insert_by
  sort_pairs [] = []
  sort_pairs (x ∷ xs) = insert_by x (sort_pairs xs)

  insert_by-perm : (x : ℕ × A) (l : List (ℕ × A)) → Perm (insert_by x l) (x ∷ l)
  unfolding insert_by
  insert_by-perm x [] = Perm.refl (x ∷ [])
  insert_by-perm x (y ∷ ys) = elim (Bool-cases (leb x.0 y.0)) [
    | inl before ↦ rw before (Perm.refl (x ∷ y ∷ ys))
    | inr after ↦ rw after (Perm.trans (Perm.cons y (insert_by-perm x ys)) (Perm.swap x y ys))
  ]

  pub sort_pairs-perm : (l : List (ℕ × A)) → Perm (sort_pairs l) l
  unfolding sort_pairs
  sort_pairs-perm [] = Perm.refl []
  sort_pairs-perm (x ∷ xs) =
      Perm.trans (insert_by-perm x (sort_pairs xs)) (Perm.cons x (sort_pairs-perm xs))

  -- something is sorted to something
  pub insert_by-cons :
      (x : ℕ × A) (l : List (ℕ × A)) → (y : ℕ × A) × (r : List (ℕ × A)) × (insert_by x l ≡ y ∷ r)
  unfolding insert_by
  insert_by-cons x [] = (x, [], refl)
  insert_by-cons x (y ∷ ys) = elim (Bool-cases (leb x.0 y.0)) [
    | inl before ↦ (x, y ∷ ys, rw before)
    | inr after ↦ (y, insert_by x ys, rw after)
  ]
