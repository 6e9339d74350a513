-- ===== src/Wallet/Delete.antt =====
-- `delete_transfers_impl`, `delete_batch_transfer` and `delete_transfers` of src/wallet/offline.rs.
pub mod Keeps
pub mod Batch
pub mod Outcome
pub mod Removed
pub mod Trims
pub mod Rows
pub mod Cascade
pub mod Sound
pub mod Unchanged
use rgb_lib.Prelude.{
  ℕ, Bool, true, false, not, ◌&&◌, List, [], ◌∷◌, Option, none, some, filter, find, any, ◌==◌,
  if◌then◌else◌,
}
use rgb_lib.Status.{is_failed}
use rgb_lib.Result.{Result, ok, err, panic, cannot_delete_batch_transfer, ◌>>=◌}
use rgb_lib.Database.Rows.{DbTxo, DbColoring, DbAssetTransfer, DbBatchTransfer, DbData, is_some}
use rgb_lib.Database.Joins.{get_asset_transfers, get_batch_transfer_or_fail}
use rgb_lib.Database.Deletes.{del_coloring, del_txo, del_batch_transfer}

-- `txos_to_delete.insert(idx)`
abbrev pub insert_idx : ℕ → List ℕ → List ℕ
insert_idx i l = if any (λ j. j == i) l then l else i ∷ l

-- the TXO of a coloring, if it does not exist on the chain yet
abbrev pub missing_txo : List DbTxo → DbColoring → Option DbTxo
missing_txo txos c = find (λ (t : DbTxo). not t.exists && (t.idx == c.txo_idx)) txos

abbrev pub insert_missing : Option DbTxo → List ℕ → List ℕ
insert_missing none l = l
insert_missing (some t) l = insert_idx t.idx l

abbrev pub insert_all_missing : List DbTxo → List DbColoring → List ℕ → List ℕ
insert_all_missing txos [] l = l
insert_all_missing txos (c ∷ cs) l =
    insert_all_missing txos cs (insert_missing (missing_txo txos c) l)

-- the colorings of an asset transfer
abbrev pub colorings_of : DbAssetTransfer → List DbColoring → List DbColoring
colorings_of a = filter (λ (c : DbColoring). c.asset_transfer_idx == a.idx)

-- The first loop: the colorings go, and the TXOs to delete are noted, by the tables read before.
unfoldable pub del_colorings :
    List DbColoring → List DbTxo → List DbAssetTransfer → List ℕ → DbData → DbData × List ℕ
del_colorings colorings txos [] l d = (d, l)
del_colorings colorings txos (a ∷ as') l d =
    del_colorings colorings txos as' (insert_all_missing txos (colorings_of a colorings) l)
      (del_coloring a.idx d)

-- The second loop. The order of the set is not fixed; the outcome does not depend on it.
unfoldable pub del_txos : List ℕ → DbData → Result DbData
del_txos [] d = ok d
del_txos (i ∷ l) d = del_txo i d >>= λ d'. del_txos l d'

-- `read` is the `DbData` that was read at the start, `d` the database now
unfoldable pub delete_batch_transfer :
    DbBatchTransfer → List DbAssetTransfer → DbData → DbData → Result DbData
delete_batch_transfer b asset_transfers read d = do
  let (d₁, to_delete) = del_colorings read.colorings read.txos asset_transfers [] d
  d₂ ← del_txos to_delete d₁
  del_batch_transfer b d₂

abbrev pub connected_assets : List DbAssetTransfer → Bool
connected_assets = any (λ (a : DbAssetTransfer). is_some a.asset_id)

-- the loop over all failed transfers
unfoldable pub delete_all :
    Bool → DbData → List DbBatchTransfer → Bool → DbData → Result (DbData × Bool)
delete_all no_asset_only read [] changed d = ok (d, changed)
delete_all no_asset_only read (b ∷ bs) changed d =
    let asset_transfers = get_asset_transfers b read.asset_transfers in
    let skip = delete_all no_asset_only read bs changed d in
    if no_asset_only && connected_assets asset_transfers
    then skip
    else (delete_batch_transfer b asset_transfers read d >>= λ d'.
        delete_all no_asset_only read bs true d')

unfoldable pub delete_transfers_impl : Option ℕ → Bool → DbData → Result (DbData × Bool)
delete_transfers_impl (some idx) no_asset_only d = do
  b ← get_batch_transfer_or_fail idx d.batch_transfers
  if not (is_failed b.status) then err cannot_delete_batch_transfer else do
    let asset_transfers = get_asset_transfers b d.asset_transfers
    if no_asset_only && connected_assets asset_transfers
        then err cannot_delete_batch_transfer
        else (delete_batch_transfer b asset_transfers d d >>= λ d'. ok (d', true))
delete_transfers_impl none no_asset_only d =
    delete_all no_asset_only d
      (filter (λ (b : DbBatchTransfer). is_failed b.status) d.batch_transfers) false d

-- `delete_transfers`: the transaction is committed where the call succeeds and rolled back where it
-- fails. The time of the last operation that it stores for backups is left out.
abbrev pub committed : DbData → Result (DbData × Bool) → DbData × Result Bool
committed d (ok (d', changed)) = (d', ok changed)
committed d (err e) = (d, err e)
committed d panic = (d, panic)

unfoldable pub delete_transfers : Option ℕ → Bool → DbData → DbData × Result Bool
delete_transfers batch_transfer_idx no_asset_only d =
    committed d (delete_transfers_impl batch_transfer_idx no_asset_only d)
