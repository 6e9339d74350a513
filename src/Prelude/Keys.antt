-- ===== src/Prelude/Keys.antt =====
-- Lists of rows in which a key stands for one row.
use Prim.Native.Nat.{ℕ}
use mathlib.Core.Path.{◌≡◌, refl, sym, ap, ◌∙◌, subst}
use mathlib.Core.Logic.{inl, inr}
use mathlib.Core.Bool.{Bool, true, false}
use mathlib.Core.Option.{some}
use mathlib.Core.List.{List, [], ◌∷◌, map, Memᴰ}
use native.Mathlib.Omega.{arith}
use rgb_lib.Prelude.Tests.{◌==◌, Bool-cases}
use rgb_lib.Prelude.Lists.{All, any, find, filter}

-- no key twice
abbrev pub DistinctIdx : List ℕ → Type 0
DistinctIdx [] = Unit
DistinctIdx (i ∷ l) = (any (λ j. j == i) l ≡ false) × DistinctIdx l

module _ {ℓ} {A : Type ℓ} (key : A → ℕ) where
  fresh-Memᴰ :
      (i : ℕ) (x : A) (l : List A)
      → any (λ j. j == i) (map key l) ≡ false
      → Memᴰ x l
      → (key x == i) ≡ false
  fresh-Memᴰ i x l h (Memᴰ.head {x = y} {xs = ys} e) = ground (arith, h, e)
  fresh-Memᴰ i x l h (Memᴰ.tail {x = y} {xs = ys} m) = fresh-Memᴰ i x ys (ground (arith, h)) m

  -- a key stands for one row
  pub one_row :
      (x y : A) (l : List A) → DistinctIdx (map key l) → Memᴰ x l → Memᴰ y l → key x ≡ key y → x ≡ y
  one_row x y l d (Memᴰ.head {x = z} {xs = zs} e) (Memᴰ.head e') k = e ∙ sym e'
  one_row x y l d (Memᴰ.head {x = z} {xs = zs} e) (Memᴰ.tail m) k =
      absurd (ground (arith, fresh-Memᴰ (key z) y zs d.0 m, k, ap key e))
  one_row x y l d (Memᴰ.tail {x = z} {xs = zs} m) (Memᴰ.head e') k =
      absurd (ground (arith, fresh-Memᴰ (key z) x zs d.0 m, k, ap key e'))
  one_row x y l d (Memᴰ.tail {x = z} {xs = zs} m) (Memᴰ.tail m') k = one_row x y zs d.1 m m' k

module _ {ℓ} {A : Type ℓ} where
  pub find-Memᴰ : (p : A → Bool) (l : List A) (x : A) → find p l ≡ some x → Memᴰ x l
  find-Memᴰ p [] x e = absurd (cc)
  find-Memᴰ p (y ∷ l) x e = elim (Bool-cases (p y)) [
    | inl hit ↦ Memᴰ.head (ground (arith, hit, e))
    | inr miss ↦ Memᴰ.tail (find-Memᴰ p l x (rw miss at e))
  ]

  pub All-lookup {κ} : (P : A → Type κ) (x : A) (l : List A) → All P l → Memᴰ x l → P x
  All-lookup P x l h (Memᴰ.head {x = y} {xs = ys} e) = subst P (sym e) h.0
  All-lookup P x l h (Memᴰ.tail {x = y} {xs = ys} m) = All-lookup P x ys h.1 m

  -- a row that passes a test
  pub any_found : (p : A → Bool) (l : List A) → any p l ≡ true → (x : A) × Memᴰ x l × (p x ≡ true)
  any_found p [] h = absurd (cc)
  any_found p (y ∷ l) h = elim (Bool-cases (p y)) [
    | inl hit ↦ (y, Memᴰ.head refl, hit)
    | inr miss ↦ let (x, m, e) = any_found p l (rw miss at h) in (x, Memᴰ.tail m, e)
  ]

module _ {ℓ} {A : Type ℓ} (key : A → ℕ) (p : A → Bool) where
  fresh-filter :
      (i : ℕ) (l : List A)
      → any (λ j. j == i) (map key l) ≡ false
      → any (λ j. j == i) (map key (filter p l)) ≡ false
  fresh-filter i [] h = h
  fresh-filter i (x ∷ l) h = elim (Bool-cases (p x)) [
    | inl hit ↦ rw hit (ground (arith, h, fresh-filter i l))
    | inr miss ↦ rw miss (fresh-filter i l (ground (arith, h)))
  ]

  pub DistinctIdx-filter :
      (l : List A) → DistinctIdx (map key l) → DistinctIdx (map key (filter p l))
  DistinctIdx-filter [] h = tt
  DistinctIdx-filter (x ∷ l) h = elim (Bool-cases (p x)) [
    | inl hit ↦ rw hit (fresh-filter (key x) l h.0, DistinctIdx-filter l h.1)
    | inr miss ↦ rw miss (DistinctIdx-filter l h.1)
  ]
