-- ===== src/Examples/Wallet.antt =====
-- Runs of the wallet's operations on test data.
use mathlib.Core.List.{Memᴰ}
use rgb_lib.Prelude.{
  ℕ, ◌+◌, ◌<◌, ◌≤◌, ◌≡◌, ◌↔◌, ◌⊎◌, inl, refl, arith, true, false, not, ◌&&◌, List, [], ◌∷◌, none,
  some, parse_u64, u64_mod, is_empty, find, filter, any, ◌==◌,
}
use rgb_lib.Status.{is_failed}
use rgb_lib.Assignment.{AssignmentsCollection, main_amount, inflation_amount}
use rgb_lib.Result.{ok, err, insufficient_assignments, insufficient_allocation_slots, traverse}
use rgb_lib.Collection.{add_to_assignments, enough, change, opout_contributes, amount}
use rgb_lib.Collection.Cover.{Covers, opout_contributes-enough}
use rgb_lib.Database.Rows.{
  DbTxo, DbBatchTransfer, DbAssetTransfer, LocalUnspent, outpoint, outpoint_eq,
}
use rgb_lib.Database.Joins.{get_batch_transfer_or_fail, get_asset_transfers}
use rgb_lib.Database.Deletes.{del_coloring, del_txo, del_batch_transfer}
use rgb_lib.Prelude.Sort.{sort_pairs}
use rgb_lib.Examples.Tables.{tables, unspents, needs, txo}
use rgb_lib.Wallet.Selection.{
  AssetSpend, select_rgb_inputs, sort_unspents, add_all, take_input, select_loop, order_unspents,
}
use rgb_lib.Wallet.Selection.Tally.{
  fungible_amount, fungible_in, inflation_in, fungible_over, inflation_over, non_fungible_over,
  btc_over,
}
use rgb_lib.Wallet.Selection.Fits.{Fits}
use rgb_lib.Wallet.Selection.Select.{Selects, holdings, select-Selects, select-change}
use rgb_lib.Wallet.Selection.Complete.{select_complete, select_insufficient}
use rgb_lib.Wallet.Issue.{
  AllPositive, sum, get_total_issue_amount, get_total_inflation_amount, get_total_issue_amount-ok,
  get_total_inflation_amount-ok,
}
use rgb_lib.Wallet.Slots.{
  drop_failed, used_slots, going_out, get_available_allocations, choose, get_utxo,
}
use rgb_lib.Wallet.Slots.Least.{Chosen, get_utxo-Chosen}
use rgb_lib.Wallet.Slots.Room.{get_utxo-room}
use rgb_lib.Wallet.Slots.Total.{hosts, get_utxo_total}
use rgb_lib.Wallet.Delete.{
  del_colorings, del_txos, delete_batch_transfer, connected_assets, delete_transfers_impl,
  delete_transfers,
}
use rgb_lib.Wallet.Delete.Keeps.{Keeps}
use rgb_lib.Wallet.Delete.Outcome.{delete_transfers-Keeps}
use rgb_lib.Wallet.Delete.Removed.{delete_transfers-removed}

-- the smaller UTXO is taken first, and is not enough
abbrev spent : AssetSpend
spent = record {
  input_outpoints = outpoint (txo 1 true) ∷ outpoint (txo 2 true) ∷ [];
  assignments_collected = needs 40;
  input_btc_amt = 2000;
}

select_run : select_rgb_inputs "rgb:a" (needs 15) unspents ≡ ok spent
unfolding select_rgb_inputs order_unspents sort_unspents sort_pairs traverse select_loop take_input
    add_all add_to_assignments enough parse_u64 main_amount inflation_amount
select_run = refl

unspents_fit : Fits "rgb:a" unspents
unfolding fungible_over inflation_over btc_over fungible_in inflation_in fungible_amount
    inflation_amount main_amount parse_u64
unspents_fit = record {
  fungible = omega arith;
  inflation = omega arith;
  btc = omega arith;
  rows = refl;
}

select-Selects_example : Covers (needs 40) (needs 15) × Selects "rgb:a" spent unspents
select-Selects_example = select-Selects "rgb:a" (needs 15) unspents spent select_run

select-change_example :
    (c : AssignmentsCollection) × (change (needs 40) (needs 15) ≡ ok c)
    × (c.fungible + 15 ≡ 40)
    × (c.inflation + 0 ≡ 0)
    × (c.non_fungible ≡ false)
select-change_example = select-change "rgb:a" (needs 15) unspents spent select_run

hold_enough : enough (holdings "rgb:a" unspents) (needs 15) ≡ true
unfolding enough fungible_over inflation_over non_fungible_over fungible_in inflation_in
    fungible_amount inflation_amount
hold_enough = refl

select_complete_example :
    (spend : AssetSpend) × (select_rgb_inputs "rgb:a" (needs 15) unspents ≡ ok spend)
select_complete_example = select_complete "rgb:a" (needs 15) unspents unspents_fit hold_enough

hold_less : fungible_over "rgb:a" unspents < 50
unfolding fungible_over fungible_in fungible_amount
hold_less = omega arith

select_insufficient_example :
    (c : AssignmentsCollection) × (select_rgb_inputs "rgb:a" (needs 50) unspents
      ≡ err (insufficient_assignments "rgb:a" c))
select_insufficient_example =
    select_insufficient "rgb:a" (needs 50) unspents unspents_fit (inl hold_less)

abbrev amounts : List ℕ
amounts = 3 ∷ 4 ∷ []

get_total_issue_amount-ok_example :
    (get_total_issue_amount amounts false ≡ ok 7)
    ↔ ((is_empty amounts && not false) ≡ false)
      × AllPositive amounts
      × (sum amounts ≡ 7)
      × (7 < u64_mod)
get_total_issue_amount-ok_example = get_total_issue_amount-ok amounts false 7

get_total_inflation_amount-ok_example :
    (get_total_inflation_amount amounts 5 ≡ ok 7)
    ↔ AllPositive amounts × (sum amounts ≡ 7) × ((is_empty amounts ≡ true) ⊎ (5 + 7 < u64_mod))
get_total_inflation_amount-ok_example = get_total_inflation_amount-ok amounts 5 7

-- with five slots a UTXO with one allocation is offered, and the first excluded one is not
get_utxo_run :
    get_utxo 5 tables (outpoint (txo 1 true) ∷ []) (some unspents) false none ≡ ok (txo 2 true)
unfolding get_utxo get_available_allocations choose sort_pairs
get_utxo_run = refl

get_utxo-room_example :
    (u : LocalUnspent) × Memᴰ u unspents
    × (u.utxo ≡ txo 2 true)
    × (used_slots (drop_failed u) + 1 ≤ 5)
    × ((txo 2 true).exists ≡ true)
    × ((txo 2 true).pending_witness ≡ false)
    × (any (outpoint_eq (outpoint (txo 2 true))) (outpoint (txo 1 true) ∷ []) ≡ false)
    × (any going_out (drop_failed u).rgb_allocations ≡ false)
get_utxo-room_example =
    get_utxo-room 5 tables unspents (outpoint (txo 1 true) ∷ []) false (txo 2 true) get_utxo_run

available_run : get_available_allocations 5 unspents [] none ≡ ok unspents
unfolding get_available_allocations
available_run = refl

get_utxo_first : get_utxo 5 tables [] (some unspents) false none ≡ ok (txo 1 true)
unfolding get_utxo get_available_allocations choose sort_pairs
get_utxo_first = refl

get_utxo-Chosen_example : Chosen false unspents (txo 1 true)
get_utxo-Chosen_example =
    get_utxo-Chosen 5 tables unspents [] false none unspents (txo 1 true) available_run
      get_utxo_first

get_utxo_total_example :
    ((t : DbTxo) × (any (hosts 5 []) unspents ≡ true)
      × (get_utxo 5 tables [] (some unspents) false none ≡ ok t))
    ⊎ ((any (hosts 5 []) unspents ≡ false)
        × (get_utxo 5 tables [] (some unspents) false none ≡ err insufficient_allocation_slots))
get_utxo_total_example = get_utxo_total 5 tables unspents [] false (omega arith)

delete_transfers-Keeps_example : Keeps tables (delete_transfers (some 2) true tables).0
delete_transfers-Keeps_example = delete_transfers-Keeps (some 2) true tables

delete_run :
    delete_transfers (some 2) true tables ≡ ((delete_transfers (some 2) true tables).0, ok true)
unfolding delete_transfers delete_transfers_impl get_batch_transfer_or_fail get_asset_transfers
    delete_batch_transfer del_colorings del_txos del_coloring del_txo del_batch_transfer
delete_run = refl

delete_transfers-removed_example :
    (b : DbBatchTransfer) × (find (λ (t : DbBatchTransfer). t.idx == 2) tables.batch_transfers
      ≡ some b)
    × (is_failed b.status ≡ true)
    × ((true && connected_assets (get_asset_transfers b tables.asset_transfers)) ≡ false)
    × (true ≡ true)
    × (filter
          (λ (t : DbBatchTransfer). t.idx == b.idx)
          (delete_transfers (some 2) true tables).0.batch_transfers
        ≡ [])
    × (filter
          (λ (a : DbAssetTransfer). a.batch_transfer_idx == b.idx)
          (delete_transfers (some 2) true tables).0.asset_transfers
        ≡ [])
delete_transfers-removed_example =
    delete_transfers-removed 2 true tables (delete_transfers (some 2) true tables).0 true delete_run

-- 3 of 10 are collected, and the assignment type 4000 is that of fungible amounts
contributes_run : opout_contributes 4000 4010 4000 (amount 2) (needs 3) (needs 10) ≡ true
unfolding opout_contributes
contributes_run = refl

opout_contributes-enough_example : enough (needs 3) (needs 10) ≡ false
opout_contributes-enough_example =
    opout_contributes-enough 4000 4010 4000 (amount 2) (needs 3) (needs 10) contributes_run
