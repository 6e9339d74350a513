-- ===== src/Wallet/Selection/Tally.antt =====
-- The assignments that UTXOs hold of an asset, as unbounded sums.
use mathlib.Core.List.{List, [], ◌∷◌}
use rgb_lib.Prelude.{
  ℕ, String, ◌+◌, ◌≡◌, refl, Bool, false, ◌||◌, Option, none, some, arith, parse_u64,
}
use rgb_lib.Assignment.{
  Assignment, fungible, non_fungible, inflation_right, any_assignment, AssignmentsCollection,
  inflation_amount, is_non_fungible, is_fungible, is_inflation_right,
}
use rgb_lib.Result.{ok, >>=-eq-ok}
use rgb_lib.Collection.{add_to_assignments}
use rgb_lib.Database.Rows.{LocalRgbAllocation, LocalUnspent}
use rgb_lib.Wallet.Selection.{asset_allocations, add_all, hosts}

unfoldable pub fungible_amount : Assignment → ℕ
fungible_amount (fungible amt) = amt
fungible_amount _ = 0

unfoldable pub fungible_in : List LocalRgbAllocation → ℕ
unfolding fungible_amount
fungible_in [] = 0
fungible_in (a ∷ l) = fungible_amount a.assignment + fungible_in l

unfoldable pub inflation_in : List LocalRgbAllocation → ℕ
unfolding inflation_amount
inflation_in [] = 0
inflation_in (a ∷ l) = inflation_amount a.assignment + inflation_in l

-- the same over the allocations of an asset on some UTXOs
unfoldable pub fungible_over : String → List LocalUnspent → ℕ
fungible_over asset_id [] = 0
fungible_over asset_id (u ∷ us) =
    fungible_in (asset_allocations asset_id u) + fungible_over asset_id us

unfoldable pub inflation_over : String → List LocalUnspent → ℕ
inflation_over asset_id [] = 0
inflation_over asset_id (u ∷ us) =
    inflation_in (asset_allocations asset_id u) + inflation_over asset_id us

unfoldable pub non_fungible_over : String → List LocalUnspent → Bool
non_fungible_over asset_id [] = false
non_fungible_over asset_id (u ∷ us) =
    hosts is_non_fungible (asset_allocations asset_id u) || non_fungible_over asset_id us

-- the BTC amounts of some UTXOs
abbrev pub btc_of : Option ℕ → ℕ
btc_of none = 0
btc_of (some n) = n

unfoldable pub btc_over : List LocalUnspent → ℕ
btc_over [] = 0
btc_over (u ∷ us) = btc_of (parse_u64 u.utxo.btc_amount) + btc_over us

pub add_to_assignments-tally :
    (a : Assignment) (c c' : AssignmentsCollection)
    → add_to_assignments a c ≡ ok c'
    → (c'.fungible ≡ c.fungible + fungible_amount a)
      × (c'.non_fungible ≡ (c.non_fungible || is_non_fungible a))
      × (c'.inflation ≡ c.inflation + inflation_amount a)
unfolding add_to_assignments fungible_amount inflation_amount
add_to_assignments-tally (fungible amt) c c' h = ground arith
add_to_assignments-tally non_fungible c c' h = ground arith
add_to_assignments-tally (inflation_right amt) c c' h = ground arith
add_to_assignments-tally any_assignment c c' h = ground arith

-- What is added is exactly what the allocations hold.
pub add_all-tally :
    (l : List LocalRgbAllocation) (c c' : AssignmentsCollection)
    → add_all l c ≡ ok c'
    → (c'.fungible ≡ c.fungible + fungible_in l)
      × (c'.non_fungible ≡ (c.non_fungible || hosts is_non_fungible l))
      × (c'.inflation ≡ c.inflation + inflation_in l)
unfolding add_all fungible_in inflation_in
add_all-tally [] c c' h = ground arith
add_all-tally (a ∷ l) c c' h =
    let (m, e, f) = >>=-eq-ok (add_to_assignments a.assignment c) (add_all l) h in
    ground (arith, add_to_assignments-tally a.assignment c m e, add_all-tally l m c' f)

-- No allocation of a kind, no amount of it.
pub fungible_in-zero :
    (l : List LocalRgbAllocation) → hosts is_fungible l ≡ false → fungible_in l ≡ 0
unfolding fungible_in fungible_amount
fungible_in-zero [] h = refl
fungible_in-zero (a ∷ l) h = ground (arith, fungible_in-zero l)

pub inflation_in-zero :
    (l : List LocalRgbAllocation) → hosts is_inflation_right l ≡ false → inflation_in l ≡ 0
unfolding inflation_in inflation_amount
inflation_in-zero [] h = refl
inflation_in-zero (a ∷ l) h = ground (arith, inflation_in-zero l)
