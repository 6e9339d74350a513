-- ===== src/Prelude/Ascending.antt =====
-- A sort by a numeric key puts the least first.
use Prim.Native.Nat.{ℕ, ◌≤◌}
use mathlib.Core.Path.{◌≡◌, subst}
use mathlib.Core.Logic.{inl, inr}
use mathlib.Core.Bool.{Bool, true}
use mathlib.Core.Option.{some}
use mathlib.Core.List.{List, [], ◌∷◌, map}
use native.Mathlib.Omega.{arith}
use rgb_lib.Prelude.Tests.{leb, leb→le, Bool-cases}
use rgb_lib.Prelude.Lists.{All, filter, first}
use rgb_lib.Prelude.Member.{All-imp, All-insert_by}
use rgb_lib.Prelude.Sort.{insert_by, sort_pairs}

-- each key is at most those that follow
abbrev pub Ascending {ℓ} : {A : Type ℓ} → (A → ℕ) → List A → Type ℓ
Ascending key [] = Unit
Ascending key (x ∷ xs) = All (λ y. key x ≤ key y) xs × Ascending key xs

module _ {ℓ} {A : Type ℓ} where
  All-insert_by_inv {κ} :
      (P : ℕ × A → Type κ) (x : ℕ × A) (l : List (ℕ × A)) → All P (insert_by x l) → P x × All P l
  unfolding insert_by
  All-insert_by_inv P x [] h = h
  All-insert_by_inv P x (y ∷ ys) h = elim (Bool-cases (leb x.0 y.0)) [
    | inl before ↦ rw before at h
    | inr after ↦
        let k : P y × All P (insert_by x ys) = rw after at h in
        let (p, q) = All-insert_by_inv P x ys k.1 in (p, (k.0, q))
  ]

  -- what holds of all that was sorted
  pub All-sort_pairs_inv {κ} :
      (P : ℕ × A → Type κ) (l : List (ℕ × A)) → All P (sort_pairs l) → All P l
  unfolding sort_pairs
  All-sort_pairs_inv P [] h = tt
  All-sort_pairs_inv P (x ∷ l) h =
      let (p, q) = All-insert_by_inv P x (sort_pairs l) h in (p, All-sort_pairs_inv P l q)

  insert_by-Ascending :
      (x : ℕ × A) (l : List (ℕ × A))
      → Ascending (λ (p : ℕ × A). p.0) l
      → Ascending (λ (p : ℕ × A). p.0) (insert_by x l)
  unfolding insert_by
  insert_by-Ascending x [] h = (tt, tt)
  insert_by-Ascending x (y ∷ ys) h = elim (Bool-cases (leb x.0 y.0)) [
    | inl before ↦
        let le : x.0 ≤ y.0 = leb→le x.0 y.0 before in
        rw before
          ((le, All-imp (λ z. y.0 ≤ z.0) (λ z. x.0 ≤ z.0) (λ z e. omega (arith, le, e)) ys h.0), h)
    | inr after ↦ rw after (
      All-insert_by (λ (z : ℕ × A). y.0 ≤ z.0) x ys (ground (arith, after)) h.0,
      insert_by-Ascending x ys h.1,
    )
  ]

  pub sort_pairs-Ascending : (l : List (ℕ × A)) → Ascending (λ (p : ℕ × A). p.0) (sort_pairs l)
  unfolding sort_pairs
  sort_pairs-Ascending [] = tt
  sort_pairs-Ascending (x ∷ l) = insert_by-Ascending x (sort_pairs l) (sort_pairs-Ascending l)

  -- the first that passes a test is the least that does
  pub first-filter-least :
      (key : A → ℕ) (p : A → Bool) (l : List A) (x : A)
      → Ascending key l
      → first (filter p l) ≡ some x
      → All (λ y. p y ≡ true → key x ≤ key y) l
  first-filter-least key p [] x h e = tt
  first-filter-least key p (y ∷ l) x h e = elim (Bool-cases (p y)) [
    | inl hit ↦
        let same : y ≡ x = ground (arith, hit, e) in
        subst (λ z. All (λ u. p u ≡ true → key z ≤ key u) (y ∷ l)) same
          (
            (λ _. omega arith),
            All-imp (λ u. key y ≤ key u) (λ u. p u ≡ true → key y ≤ key u) (λ u le _. le) l h.0,
          )
    | inr miss ↦ ((λ q. absurd (cc (q, miss))), first-filter-least key p l x h.1 (rw miss at e))
  ]

  -- the keys of pairs, as those of what they carry
  pub Ascending-map :
      (key : A → ℕ) (l : List (ℕ × A))
      → All (λ (p : ℕ × A). p.0 ≡ key p.1) l
      → Ascending (λ (p : ℕ × A). p.0) l
      → Ascending key (map (λ (p : ℕ × A). p.1) l)
  Ascending-map key [] k h = tt
  Ascending-map key (x ∷ l) k h = (above x l k.0 k.1 h.0, Ascending-map key l k.1 h.1)
    where
      above :
          (y : ℕ × A) (m : List (ℕ × A))
          → y.0 ≡ key y.1
          → All (λ (p : ℕ × A). p.0 ≡ key p.1) m
          → All (λ (p : ℕ × A). y.0 ≤ p.0) m
          → All (λ z. key y.1 ≤ key z) (map (λ (p : ℕ × A). p.1) m)
      above y [] e ks les = tt
      above y (z ∷ m) e ks les = (omega (arith, e, ks.0, les.0), above y m e ks.1 les.1)
