-- ===== src/Prelude/Member.antt =====
-- What holds of every element of a list, carried through filters, maps, sorts and searches.
use Prim.Native.Nat.{ℕ}
use mathlib.Core.Path.{◌≡◌, refl, subst}
use mathlib.Core.Logic.{inl, inr}
use mathlib.Core.Bool.{Bool, true}
use mathlib.Core.Option.{some}
use mathlib.Core.List.{List, [], ◌∷◌, map, Memᴰ}
use native.Mathlib.Omega.{arith}
use rgb_lib.Prelude.Tests.{leb, Bool-cases}
use rgb_lib.Prelude.Lists.{All, filter, first}
use rgb_lib.Prelude.Sort.{insert_by, sort_pairs}

module _ {ℓ κ μ} {A : Type ℓ} (P : A → Type κ) (Q : A → Type μ) (f : (x : A) → P x → Q x) where
  pub All-imp : (l : List A) → All P l → All Q l
  All-imp [] h = tt
  All-imp (x ∷ l) h = (f x h.0, All-imp l h.1)

pub All-both {ℓ κ} :
    {A : Type ℓ} {P Q R : A → Type κ}
    → ((x : A) → P x → Q x → R x)
    → (l : List A) → All P l
    → All Q l
    → All R l
All-both f [] p q = tt
All-both {P} {Q} {R} f (x ∷ l) p q = (f x p.0 q.0, All-both {P = P} {Q = Q} {R = R} f l p.1 q.1)

module _ {ℓ} {A : Type ℓ} where
  pub All-Memᴰ : (l : List A) → All (λ x. Memᴰ x l) l
  All-Memᴰ [] = tt
  All-Memᴰ (x ∷ l) = (
    Memᴰ.head refl,
    All-imp (λ y. Memᴰ y l) (λ y. Memᴰ y (x ∷ l)) (λ y m. Memᴰ.tail m) l (All-Memᴰ l),
  )

module _ {ℓ κ} {A : Type ℓ} (P : A → Type κ) where
  -- the elements kept pass the test
  pub All-filter_test :
      (p : A → Bool) (l : List A) → All P l → All (λ x. P x × (p x ≡ true)) (filter p l)
  All-filter_test p [] h = tt
  All-filter_test p (x ∷ l) h = elim (Bool-cases (p x)) [
    | inl hit ↦ rw hit ((h.0, hit), All-filter_test p l h.1)
    | inr miss ↦ rw miss (All-filter_test p l h.1)
  ]

  pub All-first : (l : List A) (x : A) → All P l → first l ≡ some x → P x
  All-first [] x h e = absurd (cc)
  All-first (y ∷ l) x h e = let q : y ≡ x = ground (arith, e) in subst P q h.0

  pub All-map {ν} : {B : Type ν} (g : B → A) (l : List B) → All (λ y. P (g y)) l → All P (map g l)
  All-map g [] h = tt
  All-map g (y ∷ l) h = (h.0, All-map g l h.1)

module _ {ℓ κ} {A : Type ℓ} (P : ℕ × A → Type κ) where
  pub All-insert_by : (x : ℕ × A) (l : List (ℕ × A)) → P x → All P l → All P (insert_by x l)
  unfolding insert_by
  All-insert_by x [] p h = (p, tt)
  All-insert_by x (y ∷ l) p h = elim (Bool-cases (leb x.0 y.0)) [
    | inl before ↦ rw before (p, (h.0, h.1))
    | inr after ↦ rw after (h.0, All-insert_by x l p h.1)
  ]

  pub All-sort_pairs : (l : List (ℕ × A)) → All P l → All P (sort_pairs l)
  unfolding sort_pairs
  All-sort_pairs [] h = tt
  All-sort_pairs (x ∷ l) h = All-insert_by x (sort_pairs l) h.0 (All-sort_pairs l h.1)
