-- ===== src/Wallet/Selection/Fits.antt =====
-- When the rows that a selection reads fit: their amounts are u64 and so are the sums.
use mathlib.Core.List.{List, [], ◌∷◌, map}
use rgb_lib.Prelude.{
  ℕ, String, ◌+◌, ◌<◌, ◌≡◌, refl, Bool, true, false, ◌&&◌, Option, none, some, arith, ltb, all,
  parse_u64, u64_mod,
}
use rgb_lib.Assignment.{Assignment, any_assignment, main_amount, inflation_amount}
use rgb_lib.Result.{ok}
use rgb_lib.Database.Rows.{LocalRgbAllocation, LocalUnspent, is_some}
use rgb_lib.Database.Balance.{sum_from}
use rgb_lib.Wallet.Selection.Tally.{fungible_over, inflation_over, btc_over}

-- the plain sum of an amount over allocations
abbrev pub amount_sum : (Assignment → ℕ) → List LocalRgbAllocation → ℕ
amount_sum f [] = 0
amount_sum f (a ∷ l) = f a.assignment + amount_sum f l

pub is_some-eq {ℓ} : {A : Type ℓ} (o : Option A) → is_some o ≡ true → (a : A) × (o ≡ some a)
is_some-eq none h = cc
is_some-eq (some a) h = (a, refl)

pub sum_from-amount_sum :
    (f : Assignment → ℕ) (acc : ℕ) (l : List LocalRgbAllocation)
    → acc + amount_sum f l < u64_mod
    → sum_from acc (map (λ (a : LocalRgbAllocation). f a.assignment) l) ≡ ok (acc + amount_sum f l)
unfolding sum_from
sum_from-amount_sum f acc [] h = ground arith
sum_from-amount_sum f acc (a ∷ l) h = ground (arith, sum_from-amount_sum f (acc + f a.assignment) l)

-- `Assignment::Any` is never written on a coloring
abbrev pub not_any : Assignment → Bool
not_any any_assignment = false
not_any _ = true

-- a row that the selection can read: its BTC amount is a u64, and so are its sums
abbrev pub readable : LocalUnspent → Bool
readable u =
    is_some (parse_u64 u.utxo.btc_amount)
    && all (λ (a : LocalRgbAllocation). not_any a.assignment) u.rgb_allocations
    && ltb (amount_sum main_amount u.rgb_allocations) u64_mod
    && ltb (amount_sum inflation_amount u.rgb_allocations) u64_mod

pub record Fits (asset_id : String) (us : List LocalUnspent) : Type 0 where
  pub fungible : fungible_over asset_id us < u64_mod
  pub inflation : inflation_over asset_id us < u64_mod
  pub btc : btc_over us < u64_mod
  pub rows : all readable us ≡ true
