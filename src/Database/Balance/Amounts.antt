-- ===== src/Database/Balance/Amounts.antt =====
-- The amounts of allocations as unbounded sums, and what the checked sums of the code have to do
-- with them.
use rgb_lib.Prelude.{
  ℕ, String, ◌+◌, ◌<◌, ◌≡◌, refl, Bool, not, ◌&&◌, List, [], ◌∷◌, ◌++◌, map, filter, concat_map,
  if◌then◌else◌, u64_mod, arith, Bool-cases, inl, inr,
}
use rgb_lib.Assignment.{main_amount}
use rgb_lib.Result.{ok}
use rgb_lib.Database.Rows.{LocalRgbAllocation, LocalUnspent, is_asset}
use rgb_lib.Database.Joins.{allocation_settled}
use rgb_lib.Database.Balance.{sum_from, sum_where, sum_settled_from}

unfoldable pub amount_where : (LocalRgbAllocation → Bool) → List LocalRgbAllocation → ℕ
amount_where p [] = 0
amount_where p (a ∷ as') = (if p a then main_amount a.assignment else 0) + amount_where p as'

-- the amount over all allocations of some unspents
unfoldable pub amount_over : (LocalRgbAllocation → Bool) → List LocalUnspent → ℕ
amount_over p [] = 0
amount_over p (u ∷ us) = amount_where p u.rgb_allocations + amount_over p us

sum_from-amount :
    (p : LocalRgbAllocation → Bool) (acc : ℕ) (l : List LocalRgbAllocation)
    → acc + amount_where p l < u64_mod
    → sum_from acc (map (λ a. main_amount a.assignment) (filter p l)) ≡ ok (acc + amount_where p l)
unfolding sum_from amount_where
sum_from-amount p acc [] h = ground arith
sum_from-amount p acc (a ∷ l) h = elim (Bool-cases (p a)) [
  | inl hit ↦ rw hit (ground (arith, sum_from-amount p (acc + main_amount a.assignment) l))
  | inr miss ↦ rw miss (ground (arith, sum_from-amount p acc l))
]

-- A checked sum whose value fits is the sum.
pub sum_where-amount :
    (p : LocalRgbAllocation → Bool) (l : List LocalRgbAllocation)
    → amount_where p l < u64_mod
    → sum_where p l ≡ ok (amount_where p l)
unfolding sum_where
sum_where-amount p l h = ground (arith, sum_from-amount p 0 l)

pub amount_where-filter :
    (p q : LocalRgbAllocation → Bool) (l : List LocalRgbAllocation)
    → amount_where p (filter q l) ≡ amount_where (λ a. q a && p a) l
unfolding amount_where
amount_where-filter p q [] = refl
amount_where-filter p q (a ∷ l) = ground (arith, amount_where-filter p q l)

pub amount_where-append :
    (p : LocalRgbAllocation → Bool) (l m : List LocalRgbAllocation)
    → amount_where p (l ++ m) ≡ amount_where p l + amount_where p m
unfolding amount_where
amount_where-append p [] m = omega arith
amount_where-append p (a ∷ l) m = omega (arith, amount_where-append p l m)

pub amount_where-concat_map :
    (p : LocalRgbAllocation → Bool) (us : List LocalUnspent)
    → amount_where p (concat_map (λ (u : LocalUnspent). u.rgb_allocations) us) ≡ amount_over p us
unfolding amount_where amount_over
amount_where-concat_map p [] = refl
amount_where-concat_map p (u ∷ us) = omega (
  arith,
  amount_where-concat_map p us,
  amount_where-append p u.rgb_allocations (concat_map (λ (u : LocalUnspent). u.rgb_allocations) us),
)

-- The unspents that pass a test and those that do not share out an amount.
pub amount_over-split :
    (p : LocalRgbAllocation → Bool) (t : LocalUnspent → Bool) (us : List LocalUnspent)
    → amount_over p (filter t us) + amount_over p (filter (λ u. not (t u)) us) ≡ amount_over p us
unfolding amount_over
amount_over-split p t [] = refl
amount_over-split p t (u ∷ us) = ground (arith, amount_over-split p t us)

-- the allocations of an asset that count as settled
abbrev pub settled_of : String → LocalRgbAllocation → Bool
settled_of asset_id a = is_asset asset_id a.asset_id && allocation_settled a

pub sum_settled_from-amount :
    (asset_id : String) (acc : ℕ) (us : List LocalUnspent)
    → acc + amount_over (settled_of asset_id) us < u64_mod
    → sum_settled_from asset_id acc us ≡ ok (acc + amount_over (settled_of asset_id) us)
unfolding sum_settled_from amount_over
sum_settled_from-amount asset_id acc [] h = ground arith
sum_settled_from-amount asset_id acc (u ∷ us) h = ground (
  arith,
  sum_where-amount (settled_of asset_id) u.rgb_allocations,
  sum_settled_from-amount asset_id (acc + amount_where (settled_of asset_id) u.rgb_allocations) us,
)
