-- ===== src/Database/Deletes.antt =====
-- The deletions of src/database/mod.rs on the tables, with the actions of the foreign keys that
-- migration/src/m20230608_071249_init_db.rs declares: a coloring restricts its asset transfer and
-- its TXO, a batch transfer cascades to its asset transfers and these to their transfers.
use rgb_lib.Prelude.{ℕ, Bool, not, filter, any, ◌==◌, if◌then◌else◌}
use rgb_lib.Result.{Result, ok, err, internal}
use rgb_lib.Database.Rows.{DbTxo, DbColoring, DbAssetTransfer, DbBatchTransfer, DbTransfer, DbData}

unfoldable pub del_coloring : ℕ → DbData → DbData
del_coloring asset_transfer_idx d = record d {
  colorings =
      filter (λ (c : DbColoring). not (c.asset_transfer_idx == asset_transfer_idx)) d.colorings;
}

unfoldable pub del_txo : ℕ → DbData → Result DbData
del_txo idx d =
    if any (λ (c : DbColoring). c.txo_idx == idx) d.colorings
    then err internal
    else ok (record d { txos = filter (λ (t : DbTxo). not (t.idx == idx)) d.txos })

-- whether a batch transfer owns the asset transfer with the given `idx`
abbrev pub owns : DbBatchTransfer → DbData → ℕ → Bool
owns b d i =
    any (λ (a : DbAssetTransfer). a.idx == i)
      (filter (λ (a : DbAssetTransfer). a.batch_transfer_idx == b.idx) d.asset_transfers)

unfoldable pub del_batch_transfer : DbBatchTransfer → DbData → Result DbData
del_batch_transfer b d =
    if any (λ (c : DbColoring). owns b d c.asset_transfer_idx) d.colorings
    then err internal
    else ok (record d {
      batch_transfers = filter (λ (t : DbBatchTransfer). not (t.idx == b.idx)) d.batch_transfers;
      asset_transfers =
          filter (λ (a : DbAssetTransfer). not (a.batch_transfer_idx == b.idx)) d.asset_transfers;
      transfers = filter (λ (t : DbTransfer). not (owns b d t.asset_transfer_idx)) d.transfers;
    })
