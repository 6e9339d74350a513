-- ===== src/Examples/Database.antt =====
-- Runs of the database's reads on test data.
use rgb_lib.Prelude.{
  ◌+◌, ◌<◌, ◌≡◌, refl, sym, subst, arith, true, false, List, [], ◌∷◌, none, some, map, u64_mod,
  parse_u64, All,
}
use rgb_lib.Status.{is_waiting_confirmations, failed, settled}
use rgb_lib.Assignment.{fungible, main_amount}
use rgb_lib.Result.{ok, traverse}
use rgb_lib.Database.Rows.{DbBatchTransfer, LocalUnspent}
use rgb_lib.Database.Joins.{
  get_rgb_allocations, related_transfers, coloring_allocation, get_utxo_allocations,
  pending_blinded_utxos, local_unspent, get_count,
}
use rgb_lib.Wallet.Delete.{delete_transfers}
use rgb_lib.Wallet.Delete.Sound.{Sound}
use rgb_lib.Wallet.Delete.Unchanged.{delete_transfers-balance}
use rgb_lib.Database.Linked.{AssetKnown, Linked, get_rgb_allocations_total}
use rgb_lib.Database.Balance.{get_asset_balance}
use rgb_lib.Database.Balance.Amounts.{amount_where, amount_over}
use rgb_lib.Database.Balance.Totals.{
  Covered, total_amount, expected_balance, get_asset_balance-exact, settled_amount,
}
use rgb_lib.Database.Balance.Witness.{witness_total}
use rgb_lib.Wallet.Unspents.{Unspent, LocalOutput, list_unspents}
use rgb_lib.Wallet.Unspents.Shown.{shown_over}
use rgb_lib.Wallet.Unspents.Settled.{sats_readable, list_unspents-settled}
use rgb_lib.Examples.Tables.{tables, txo, allocation, unspent, batch, asset_transfer}

-- the asset of the failed transfer is not known
unknown : AssetKnown tables (asset_transfer 2 2 none)
unknown b e h =
    let same : batch 2 failed ≡ b = ground (arith, e) in
    let wrong : is_waiting_confirmations failed ≡ true =
      subst (λ (x : DbBatchTransfer). is_waiting_confirmations x.status ≡ true) (sym same) h in
    ground (arith, wrong)

tables-Linked : Linked tables
tables-Linked = record {
  colorings = (
    (asset_transfer 1 1 (some "rgb:a"), refl),
    ((asset_transfer 1 1 (some "rgb:a"), refl), ((asset_transfer 2 2 none, refl), tt)),
  );
  transfers = ((asset_transfer 2 2 none, refl), tt);
  batches = ((batch 1 settled, refl), ((batch 2 failed, refl), tt));
  assets = ((λ b e h. ("rgb:a", refl)), (unknown, tt));
}

get_rgb_allocations_total_example :
    (us : List LocalUnspent) × (get_rgb_allocations tables.txos tables ≡ ok us)
    × (map (λ (u : LocalUnspent). u.utxo) us ≡ tables.txos)
get_rgb_allocations_total_example = get_rgb_allocations_total tables tables-Linked tables.txos

-- what is read: the failed transfer's UTXO has no asset and is not on the chain
abbrev read : List LocalUnspent
read =
    unspent 1 (allocation settled (fungible 10) ∷ [])
    ∷ unspent 2 (allocation settled (fungible 30) ∷ [])
    ∷ record {
      utxo = txo 3 false;
      rgb_allocations =
          record {
            asset_id = none;
            assignment = fungible 7;
            status = failed;
            incoming = true;
            txo_spent = false;
          }
          ∷ [];
      pending_blinded = 0;
    }
    ∷ []

read_run : get_rgb_allocations tables.txos tables ≡ ok read
unfolding get_rgb_allocations pending_blinded_utxos local_unspent get_utxo_allocations
    coloring_allocation traverse related_transfers get_count
read_run = refl

read-Covered : All (Covered "rgb:a") read
unfolding amount_where
read-Covered = (omega arith, (omega arith, (omega arith, tt)))

read_fits : total_amount "rgb:a" read + witness_total "rgb:a" tables tables.transfers < u64_mod
unfolding amount_where amount_over witness_total main_amount
read_fits = omega arith

get_asset_balance-exact_example :
    get_asset_balance tables "rgb:a"
    ≡ ok (expected_balance "rgb:a" read (witness_total "rgb:a" tables tables.transfers))
get_asset_balance-exact_example =
    get_asset_balance-exact tables "rgb:a" read tables-Linked read-Covered read_fits read_run

-- 40 are settled and can be spent
balance_run :
    expected_balance "rgb:a" read (witness_total "rgb:a" tables tables.transfers)
    ≡ record { settled = 40; future = 40; spendable = 40 }
unfolding amount_where amount_over witness_total main_amount
balance_run = refl

-- an internal unspent of the BDK wallet
abbrev vanilla : List LocalOutput
vanilla =
    record { outpoint = record { txid = "vanilla"; vout = 0 }; value = 5000; derivation_index = 3 }
    ∷ []

sats : All (λ t. sats_readable t ≡ true) tables.txos
unfolding parse_u64
sats = (refl, (refl, (refl, tt)))

list_unspents-settled_example :
    (vs : List Unspent) × (list_unspents (λ o. some 7) vanilla tables true ≡ ok vs)
    × (shown_over "rgb:a" vs ≡ settled_amount "rgb:a" read)
list_unspents-settled_example =
    list_unspents-settled (λ o. some 7) vanilla tables "rgb:a" read true sats read_run

tables-Sound : Sound tables
tables-Sound = record {
  linked = tables-Linked;
  batch_keys = (refl, (refl, tt));
  asset_keys = (refl, (refl, tt));
}

delete_transfers-balance_example :
    get_asset_balance (delete_transfers none false tables).0 "rgb:a"
    ≡ get_asset_balance tables "rgb:a"
delete_transfers-balance_example = delete_transfers-balance none false tables "rgb:a" tables-Sound
