-- ===== src/Wallet/Selection.antt =====
-- `select_rgb_inputs` of src/wallet/online.rs: which UTXOs a transfer of an asset spends.
pub mod Tally
pub mod Split
pub mod Loop
pub mod Select
pub mod Fits
pub mod Total
pub mod Order
pub mod Complete
use mathlib.Core.List.{List, [], ◌∷◌, ◌++◌, map}
use rgb_lib.Prelude.{
  ℕ, String, Bool, true, false, not, ◌&&◌, ◌||◌, filter, any, is_empty, if◌then◌else◌, ltb,
  checked_add, parse_u64,
}
use rgb_lib.Prelude.Sort.{sort_pairs}
use rgb_lib.Status.{is_settled}
use rgb_lib.Assignment.{
  AssignmentsCollection, no_assignments, main_amount, inflation_amount, is_fungible,
  is_non_fungible, is_inflation_right, Assignment,
}
use rgb_lib.Result.{Result, ok, err, insufficient_assignments, ◌>>=◌, expect, traverse}
use rgb_lib.Collection.{add_to_assignments, enough}
use rgb_lib.Database.Rows.{Outpoint, outpoint, LocalRgbAllocation, LocalUnspent, is_asset}
use rgb_lib.Database.Balance.{sum_u64}

pub record AssetSpend : Type 0 where
  pub input_outpoints : List Outpoint
  pub assignments_collected : AssignmentsCollection
  pub input_btc_amt : ℕ

-- the sums that the comparison functions take, over all allocations of a UTXO
allocation_sum : (Assignment → ℕ) → LocalUnspent → Result (ℕ × LocalUnspent)
unfolding sum_u64
allocation_sum f u =
    sum_u64 (map (λ (a : LocalRgbAllocation). f a.assignment) u.rgb_allocations) >>= λ n. ok (n, u)

-- `sort_by`: a list of one element is not compared, so no sum is taken of it
unfoldable pub sort_unspents : (Assignment → ℕ) → List LocalUnspent → Result (List LocalUnspent)
unfolding allocation_sum sort_pairs traverse
sort_unspents f [] = ok []
sort_unspents f (u ∷ []) = ok (u ∷ [])
sort_unspents f (u ∷ v ∷ us) =
    traverse (allocation_sum f) (u ∷ v ∷ us) >>= λ keyed. ok (map (λ p. p.1) (sort_pairs keyed))

-- the allocations of the asset on a UTXO that its transfer settled
abbrev pub asset_allocations : String → LocalUnspent → List LocalRgbAllocation
asset_allocations asset_id u =
    filter (λ (a : LocalRgbAllocation). is_asset asset_id a.asset_id && is_settled a.status)
      u.rgb_allocations

abbrev pub hosts : (Assignment → Bool) → List LocalRgbAllocation → Bool
hosts test = any (λ (a : LocalRgbAllocation). test a.assignment)

-- the three tests that set `needed`
abbrev pub hosts_needed :
    AssignmentsCollection → AssignmentsCollection → List LocalRgbAllocation → Bool
hosts_needed collected needed allocations =
    (ltb collected.fungible needed.fungible && hosts is_fungible allocations)
    || ((not collected.non_fungible && needed.non_fungible) && hosts is_non_fungible allocations)
    || (ltb collected.inflation needed.inflation && hosts is_inflation_right allocations)

unfoldable pub add_all :
    List LocalRgbAllocation → AssignmentsCollection → Result AssignmentsCollection
add_all [] c = ok c
add_all (a ∷ as') c = add_to_assignments a.assignment c >>= λ c'. add_all as' c'

-- a selected UTXO is added to what is collected
unfoldable pub take_input : String → LocalUnspent → AssetSpend → Result AssetSpend
take_input asset_id u s = do
  c ← add_all (asset_allocations asset_id u) s.assignments_collected
  btc ← expect (parse_u64 u.utxo.btc_amount)
  total ← expect (checked_add s.input_btc_amt btc)
  ok (record {
    input_outpoints = s.input_outpoints ++ outpoint u.utxo ∷ [];
    assignments_collected = c;
    input_btc_amt = total;
  })

-- whether the loop takes a UTXO
abbrev pub takes : String → AssignmentsCollection → AssetSpend → LocalUnspent → Bool
takes asset_id needed s u =
    not (is_empty (asset_allocations asset_id u))
    && hosts_needed s.assignments_collected needed (asset_allocations asset_id u)

unfoldable pub select_loop :
    String → AssignmentsCollection → AssetSpend → List LocalUnspent → Result AssetSpend
select_loop asset_id needed s [] = ok s
select_loop asset_id needed s (u ∷ us) =
    let skip = select_loop asset_id needed s us in
    let keep = take_input asset_id u s >>= λ s'.
    let rest = select_loop asset_id needed s' us in
    if enough s'.assignments_collected needed then ok s' else rest in
    if takes asset_id needed s u then keep else skip

abbrev pub nothing_spent : AssetSpend
nothing_spent = record {
  input_outpoints = [];
  assignments_collected = no_assignments;
  input_btc_amt = 0;
}

-- the sort by inflation rights, then by main amounts, each where it is needed
unfoldable pub order_unspents :
    AssignmentsCollection → List LocalUnspent → Result (List LocalUnspent)
order_unspents needed unspents = do
  by_inflation ←
      (if ltb 0 needed.inflation then sort_unspents inflation_amount unspents else ok unspents)
  if ltb 0 needed.fungible then sort_unspents main_amount by_inflation else ok by_inflation

unfoldable pub select_rgb_inputs :
    String → AssignmentsCollection → List LocalUnspent → Result AssetSpend
select_rgb_inputs asset_id needed unspents = do
  sorted ← order_unspents needed unspents
  s ← select_loop asset_id needed nothing_spent sorted
  if enough s.assignments_collected needed
      then ok s
      else err (insufficient_assignments asset_id s.assignments_collected)
