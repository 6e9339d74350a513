-- ===== src/Database/Balance.antt =====
-- `RgbLibDatabase::get_asset_balance` of src/database/mod.rs. Sums are u64 with overflow checks
-- (`overflow-checks` of the release profile), the pending amount is an i128.
pub mod Amounts
pub mod Free
pub mod Witness
pub mod Totals
pub mod Alike
pub mod Same
use rgb_lib.Prelude.{
  ℕ, String, Bool, true, false, not, ◌&&◌, ◌||◌, List, [], ◌∷◌, map, Option, none, some, filter,
  any, concat_map, if◌then◌else◌, ltb, checked_add, checked_sub, u64_mod,
}
use rgb_lib.Prelude.Int.{ℤ, pos, negsuc, ◌+ℤ◌, ◌-ℤ◌}
use rgb_lib.Status.{is_failed, is_pending, is_waiting_confirmations}
use rgb_lib.Assignment.{Assignment, main_amount}
use rgb_lib.Result.{Result, ok, panic, ◌>>=◌, expect}
use rgb_lib.Database.Rows.{
  RecipientTypeFull, blind, witness, DbAssetTransfer, DbBatchTransfer, DbTransfer, DbData,
  LocalRgbAllocation, LocalUnspent, is_asset,
}
use rgb_lib.Database.Joins.{allocation_settled, related_transfers, get_rgb_allocations}

-- `src/wallet/objects.rs`
pub record Balance : Type 0 where
  pub settled : ℕ
  pub future : ℕ
  pub spendable : ℕ

-- `iter().sum::<u64>()`
unfoldable pub sum_from : ℕ → List ℕ → Result ℕ
sum_from acc [] = ok acc
sum_from acc (x ∷ xs) = expect (checked_add acc x) >>= λ t. sum_from t xs

unfoldable pub sum_u64 : List ℕ → Result ℕ
unfolding sum_from
sum_u64 = sum_from 0

-- `filter(p).map(|a| a.assignment.main_amount()).sum()`
unfoldable pub sum_where : (LocalRgbAllocation → Bool) → List LocalRgbAllocation → Result ℕ
unfolding sum_u64
sum_where p allocations = sum_u64 (map (λ a. main_amount a.assignment) (filter p allocations))

-- the tests on an allocation, and on an unspent
abbrev pub pending_incoming : LocalRgbAllocation → Bool
pending_incoming a = not a.txo_spent && (a.incoming && is_pending a.status)

abbrev pub pending_outgoing : LocalRgbAllocation → Bool
pending_outgoing a = not a.incoming && is_pending a.status

abbrev pub busy : LocalRgbAllocation → Bool
busy a = (not a.incoming && not (is_failed a.status)) || (a.incoming && is_pending a.status)

abbrev pub being_spent : LocalRgbAllocation → Bool
being_spent a = not a.incoming && is_waiting_confirmations a.status

abbrev pub unspendable : LocalUnspent → Bool
unspendable u =
    (not u.utxo.spent && (any busy u.rgb_allocations || ltb 0 u.pending_blinded))
    || (u.utxo.spent && any being_spent u.rgb_allocations)

abbrev pub requested_amount : Option Assignment → ℕ
requested_amount none = 0
requested_amount (some a) = main_amount a

-- the amount of one witness receive that waits for confirmations; `none` where it is left out
abbrev pub witness_amount :
    String → DbTransfer → DbAssetTransfer → DbBatchTransfer → Result (Option ℕ)
witness_amount asset_id t a b =
    if b.incoming && is_waiting_confirmations b.status
    then (expect a.asset_id >>= λ id. ok (
        if is_asset asset_id (some id)
        then some (requested_amount t.requested_assignment)
        else none))
    else ok none

abbrev pub witness_of :
    String
    → DbTransfer
    → Option RecipientTypeFull
    → List DbAssetTransfer
    → List DbBatchTransfer
    → Result (Option ℕ)
witness_of asset_id t (some (witness v)) asset_transfers batch_transfers =
    related_transfers t asset_transfers batch_transfers >>= λ ab.
    witness_amount asset_id t ab.0 ab.1
witness_of asset_id t _ asset_transfers batch_transfers = ok none

-- `witness_pending`: the sum is taken as the transfers are read
unfoldable pub witness_pending_from : String → DbData → ℕ → List DbTransfer → Result ℕ
witness_pending_from asset_id d acc [] = ok acc
witness_pending_from asset_id d acc (t ∷ ts) =
    witness_of asset_id t t.recipient_type d.asset_transfers d.batch_transfers >>= λ w. elim w [
      | none ↦ witness_pending_from asset_id d acc ts
      | some n ↦ (expect (checked_add acc n) >>= λ acc'. witness_pending_from asset_id d acc' ts)
    ]

-- the settled amounts of the unspents given, summed for each and then together
unfoldable pub sum_settled_from : String → ℕ → List LocalUnspent → Result ℕ
unfolding sum_where
sum_settled_from asset_id acc [] = ok acc
sum_settled_from asset_id acc (u ∷ us) = do
  n ← sum_where (λ a. is_asset asset_id a.asset_id && allocation_settled a) u.rgb_allocations
  acc' ← expect (checked_add acc n)
  sum_settled_from asset_id acc' us

-- `u64::try_from` of an i128
abbrev pub to_u64 : ℤ → Option ℕ
to_u64 (pos n) = if ltb n u64_mod then some n else none
to_u64 (negsuc n) = none

-- The balance, from the allocations of every TXO.
unfoldable pub balance_of : String → DbData → List LocalUnspent → Result Balance
unfolding sum_where witness_pending_from sum_settled_from ◌+ℤ◌ ◌-ℤ◌
balance_of asset_id d txos_allocations = do
  let allocations = concat_map (λ (u : LocalUnspent). u.rgb_allocations) txos_allocations
  let ass_allocations =
      filter (λ (a : LocalRgbAllocation). is_asset asset_id a.asset_id) allocations
  settled ← sum_where allocation_settled ass_allocations
  allocations_pending_incoming ← sum_where pending_incoming ass_allocations
  witness_pending ← witness_pending_from asset_id d 0 d.transfers
  ass_pending_incoming ← expect (checked_add allocations_pending_incoming witness_pending)
  ass_pending_outgoing ← sum_where pending_outgoing ass_allocations
  let ass_pending = pos ass_pending_incoming -ℤ pos ass_pending_outgoing
  let future = pos settled +ℤ ass_pending
  unspendable_amount ← sum_settled_from asset_id 0 (filter unspendable txos_allocations)
  spendable ← expect (checked_sub settled unspendable_amount)
  future ← expect (to_u64 future)
  ok (record { settled = settled; future = future; spendable = spendable })

unfoldable pub get_asset_balance : DbData → String → Result Balance
unfolding balance_of
get_asset_balance d asset_id = do
  txos_allocations ← get_rgb_allocations d.txos d
  balance_of asset_id d txos_allocations
