-- ===== src/Refresh/Validation.antt =====
-- What a consignment that passed the checks does to the database, and
-- `validate_received_consignment` of src/wallet/online.rs.
use rgb_lib.Prelude.{
  ℕ, String, Bool, true, false, not, ◌&&◌, List, [], ◌∷◌, ◌++◌, map, Option, none, some, is_empty,
  if◌then◌else◌,
}
use rgb_lib.Status.{AssetSchema, receive, waiting_safe_height}
use rgb_lib.Assignment.{Assignment}
use rgb_lib.Result.{internal}
use rgb_lib.Database.Rows.{
  RecipientTypeFull, blind, witness, DbAssetTransfer, DbBatchTransfer, DbTransfer, is_some,
}
use rgb_lib.Database.Updates.{
  update_transfer, update_asset_transfer, set_txo, set_coloring, get_txo, get_asset,
}
use rgb_lib.Action.{
  Action, map_or, pure, raise, abort, ◌>>=◌, ◌>>◌, request, writes, unwrap, succeeds,
}
use rgb_lib.Services.{Services, ValidConsignment}
use rgb_lib.Refresh.Hub.{WalletKind}
use rgb_lib.Refresh.Receiving.{
  ReceiveMode, collect_unsafe_history_txids, donation_signed_tx, set_status, refuse_consignment,
  ack_consignment,
}
use rgb_lib.Refresh.Media.{extract_attachments, fetch_and_save_attachments}
use rgb_lib.Refresh.Checks.{Checked, check_received}

module _ {S : Type 0} (env : Services S) (kind : WalletKind)
    (supported_schemas : List AssetSchema) where
  -- the media of an asset that is new to the wallet, and its contract
  unfoldable pub import_asset : ReceiveMode → AssetSchema → ValidConsignment → Action S Bool
  import_asset mode schema c = do
    known ← get_asset c.consignment.contract_id
    if is_some known then pure true else do
      saved ← fetch_and_save_attachments env (extract_attachments schema c) mode
      if not saved then pure false else do
        imported ← succeeds (env.import_contract c)
        (if imported then pure tt else abort)
        asset ← request (env.new_asset c)
        writes λ s. record s { assets = s.assets ++ asset ∷ [] }
        pure true

  -- the asset transfer of a receive of any asset takes the asset; `false` where it is refused
  unfoldable pub connect_asset :
      DbAssetTransfer → ReceiveMode → AssetSchema → ValidConsignment → Action S Bool
  connect_asset asset_transfer mode schema c =
      if is_some asset_transfer.asset_id then pure true else do
        imported ← import_asset mode schema c
        if not imported
            then pure false
            else do update_asset_transfer asset_transfer.idx c.consignment.contract_id; pure true

  -- the TXO that receives: the blinded one, or the output of the transaction
  unfoldable pub receiving_txo :
      DbTransfer → String → Option ℕ → Option RecipientTypeFull → Action S ℕ
  receiving_txo transfer txid vout (some (blind unblinded_utxo)) = do
    found ← get_txo unblinded_utxo
    txo ← unwrap found
    pure txo.idx
  receiving_txo transfer txid vout (some (witness _)) = do
    update_transfer transfer.idx (λ t. record t { recipient_type = some (witness vout) })
    v ← unwrap vout
    set_txo env.fresh_idx (record {
      txid = txid;
      vout = v;
      btc_amount = "0";
      spent = false;
      exists = false;
      pending_witness = true;
    })
  receiving_txo transfer txid vout none = raise internal

  unfoldable pub set_colorings : ℕ → ℕ → List Assignment → Action S (Unit {0})
  set_colorings txo_idx asset_transfer_idx [] = pure tt
  set_colorings txo_idx asset_transfer_idx (a ∷ as') = do
    set_coloring env.fresh_idx txo_idx asset_transfer_idx receive a
    set_colorings txo_idx asset_transfer_idx as'

  unfoldable pub accept_received :
      DbBatchTransfer
      → DbAssetTransfer
      → DbTransfer
      → String
      → String
      → Option ℕ
      → ReceiveMode
      → Checked
      → Action S (Option DbBatchTransfer)
  accept_received b asset_transfer transfer recipient_id txid vout mode c = do
    request (env.save_valid_consignment recipient_id c.valid)
    utxo_idx ← receiving_txo transfer txid vout transfer.recipient_type
    set_colorings utxo_idx asset_transfer.idx (map (λ p. p.1) c.receiving)
    if c.valid.has_warnings && not (is_empty (collect_unsafe_history_txids c.valid txid))
        then set_status env kind b (some txid) waiting_safe_height
        else ack_consignment env kind b (some txid) mode recipient_id
            (donation_signed_tx c.bundle.witness_tx)

  unfoldable pub validate_received_consignment :
      DbBatchTransfer
      → DbAssetTransfer
      → DbTransfer
      → String
      → String
      → Option ℕ
      → ReceiveMode
      → Action S (Option DbBatchTransfer)
  validate_received_consignment b asset_transfer transfer recipient_id txid vout mode = do
    checked ←
        check_received env kind supported_schemas b asset_transfer transfer recipient_id txid vout
    map_or checked (refuse_consignment env kind b none mode recipient_id) (λ c. do
      connected ← connect_asset asset_transfer mode c.schema c.valid
      if connected
          then accept_received b asset_transfer transfer recipient_id txid vout mode c
          else refuse_consignment env kind b none mode recipient_id)
