-- ===== src/Prelude/Lists.antt =====
-- Lists: lengths in native numbers, Boolean filters and searches.
use Prim.Native.Nat.{ℕ, suc}
use mathlib.Core.Path.{◌≡◌, refl, subst}
use mathlib.Core.Logic.{inl, inr}
use mathlib.Core.Bool.{Bool, true, false, ◌&&◌, ◌||◌}
use mathlib.Core.List.{List, [], ◌∷◌, ◌++◌, Memᴰ}
use mathlib.Core.Option.{Option, none, some}
use native.Mathlib.Omega.{arith}
use rgb_lib.Prelude.Tests.{if◌then◌else◌, Bool-cases}

module _ {ℓ} {A : Type ℓ} where
  abbrev pub length : List A → ℕ
  length [] = 0
  length (x ∷ xs) = suc (length xs)

  -- `iter().filter(p).collect()`, and `retain`
  abbrev pub filter : (A → Bool) → List A → List A
  filter p [] = []
  filter p (x ∷ xs) = let rest = filter p xs in if p x then x ∷ rest else rest

  abbrev pub any : (A → Bool) → List A → Bool
  any p [] = false
  any p (x ∷ xs) = p x || any p xs

  abbrev pub all : (A → Bool) → List A → Bool
  all p [] = true
  all p (x ∷ xs) = p x && all p xs

  abbrev pub is_empty : List A → Bool
  is_empty [] = true
  is_empty (x ∷ xs) = false

  -- `iter().find(p)`
  abbrev pub find : (A → Bool) → List A → Option A
  find p [] = none
  find p (x ∷ xs) = let rest = find p xs in if p x then some x else rest

  abbrev pub first : List A → Option A
  first [] = none
  first (x ∷ xs) = some x

  -- Every element has the property.
  abbrev pub All {κ} : (A → Type κ) → List A → Type κ
  All P [] = Unit
  All P (x ∷ xs) = P x × All P xs

  -- all elements of some lists, in order
  abbrev pub concat_map {κ} : {B : Type κ} → (B → List A) → List B → List A
  concat_map f [] = []
  concat_map f (x ∷ xs) = f x ++ concat_map f xs

  pub find-true : (p : A → Bool) (xs : List A) (a : A) → find p xs ≡ some a → p a ≡ true
  find-true p [] a h = ground arith
  find-true p (x ∷ xs) a h = ground (arith, find-true p xs a)

  pub All-find {κ} :
      (P : A → Type κ) (p : A → Bool) (xs : List A) (a : A) → All P xs → find p xs ≡ some a → P a
  All-find P p [] a h e = absurd (cc)
  All-find P p (x ∷ xs) a h e = elim (Bool-cases (p x)) [
    | inl hit ↦ let q : x ≡ a = ground (arith, e) in subst P q h.0
    | inr miss ↦ All-find P p xs a h.1 (ground (arith, e))
  ]

  pub All-filter {κ} :
      (P : A → Type κ) (p : A → Bool) (xs : List A) → All P xs → All P (filter p xs)
  All-filter P p [] h = tt
  All-filter P p (x ∷ xs) h = elim (Bool-cases (p x)) [
    | inl hit ↦ rw hit (h.0, All-filter P p xs h.1)
    | inr miss ↦ rw miss (All-filter P p xs h.1)
  ]

module _ {ℓ} {A : Type ℓ} where
  -- a filter after a weaker one
  pub filter-filter :
      (p q : A → Bool)
      → ((x : A) → p x ≡ true → q x ≡ true)
      → (l : List A) → filter p (filter q l) ≡ filter p l
  filter-filter p q h [] = refl
  filter-filter p q h (x ∷ l) = ground (arith, h x, filter-filter p q h l)

  pub any-filter-filter :
      (p q r : A → Bool) (l : List A)
      → any p (filter q (filter r l)) ≡ true
      → any p (filter q l) ≡ true
  any-filter-filter p q r [] h = h
  any-filter-filter p q r (x ∷ l) h = ground (arith, any-filter-filter p q r l)

  -- something passes the test
  pub any-Memᴰ : (p : A → Bool) (x : A) (l : List A) → Memᴰ x l → p x ≡ true → any p l ≡ true
  any-Memᴰ p x l (Memᴰ.head {x = y} {xs = ys} e) h = ground (arith, h, e)
  any-Memᴰ p x l (Memᴰ.tail {x = y} {xs = ys} m) h = ground (arith, any-Memᴰ p x ys m h)
