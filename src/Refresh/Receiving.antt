-- ===== src/Refresh/Receiving.antt =====
-- Incoming transfers: `refuse_consignment`, `ack_consignment`, `wait_safe_height`, `tx_height`,
-- `safe_height` and `wait_confirmations` of src/wallet/online.rs.
use rgb_lib.Prelude.{
  ℕ, String, ◌+◌, ◌-◌, Bool, true, false, not, List, [], ◌∷◌, Option, none, some, find, filter,
  is_empty, ltb, str_eq, parse_u64, if◌then◌else◌,
}
use rgb_lib.Status.{
  AssetSchema, TransferStatus, failed, waiting_confirmations, waiting_broadcast, settled, status_eq,
}
use rgb_lib.Database.Rows.{RecipientTypeFull, witness, DbAssetTransfer, DbBatchTransfer, DbData}
use rgb_lib.Database.Joins.{get_incoming_transfer}
use rgb_lib.Database.Updates.{
  update_batch_transfer, update_txo, get_txo, get_asset, update_asset,
  get_transfer_transport_endpoints_data,
}
use rgb_lib.Action.{
  Action, DbTransferEndpoint, pure, raise, abort, ◌>>=◌, ◌>>◌, ask, request, unwrap, lift,
}
use rgb_lib.Services.{
  Services, Tx, WitnessBundle, ValidConsignment, PostReply, posted, cannot_change_ack, post_failed,
}
use rgb_lib.Refresh.Hub.{WalletKind, set_hub_accept_status}
use rgb_lib.Refresh.Broadcast.{broadcast_tx, sync_wallet}
use rgb_lib.Refresh.Sending.{fail_batch}

-- `ReceiveMode`: the proxy's URL, or the paths of the media files
pub data ReceiveMode : Type 0 where
  proxy : String → ReceiveMode
  out_of_band : List String → ReceiveMode

abbrev pub last {ℓ} : {A : Type ℓ} → List A → Option A
last [] = none
last (x ∷ []) = some x
last (x ∷ y ∷ l) = last (y ∷ l)

-- `collect_unsafe_history_txids`
abbrev pub collect_unsafe_history_txids : ValidConsignment → String → List String
collect_unsafe_history_txids c exclude_txid =
    filter (λ (t : String). not (str_eq t exclude_txid)) c.unsafe_history

-- `donation_signed_tx`
abbrev pub donation_signed_tx : Option Tx → Option Tx
donation_signed_tx none = none
donation_signed_tx (some tx) = if tx.signed then some tx else none

-- of the last bundle, if it is that of the transaction
abbrev pub signed_tx_of : String → Option WitnessBundle → Option Tx
signed_tx_of txid none = none
signed_tx_of txid (some b) =
    if str_eq b.witness_id txid then donation_signed_tx b.witness_tx else none

abbrev pub is_ifa : AssetSchema → Bool
is_ifa AssetSchema.ifa = true
is_ifa _ = false

module _ {S : Type 0} (env : Services S) (kind : WalletKind) where
  abbrev pub post_reply : PostReply → Action S (Unit {0})
  post_reply posted = pure tt
  post_reply cannot_change_ack = pure tt
  post_reply (post_failed e) = raise e

  -- the ACK or NACK that the proxy is sent; none where the exchange is out of band
  unfoldable pub post_ack : ReceiveMode → String → Bool → Action S (Unit {0})
  post_ack (proxy url) recipient_id ack = do
    request (env.proxy_client url)
    reply ← ask (env.post_ack url recipient_id ack)
    post_reply reply
  post_ack (out_of_band _) recipient_id ack = pure tt

  -- `txid` is what the change of the batch transfer has set so far
  unfoldable pub set_status :
      DbBatchTransfer → Option String → TransferStatus → Action S (Option DbBatchTransfer)
  set_status b txid status = do
    b' ← update_batch_transfer env.now (record { idx = b.idx; txid = txid; status = status })
    pure (some b')

  unfoldable pub refuse_consignment :
      DbBatchTransfer → Option String → ReceiveMode → String → Action S (Option DbBatchTransfer)
  refuse_consignment b txid mode recipient_id = do
    post_ack mode recipient_id false
    set_status b txid failed

  unfoldable pub finish_ack :
      DbBatchTransfer → Option String → Option Tx → Action S (Option DbBatchTransfer)
  finish_ack b txid (some tx) = do broadcast_tx env tx; set_status b txid waiting_confirmations
  finish_ack b txid none = set_status b txid waiting_broadcast

  abbrev pub on_accept :
      DbBatchTransfer
      → Option String
      → ReceiveMode
      → String
      → Option Tx
      → Option Bool
      → Action S (Option DbBatchTransfer)
  on_accept b txid mode recipient_id signed_tx none = pure none
  on_accept b txid mode recipient_id signed_tx (some false) = fail_batch env kind b
  on_accept b txid mode recipient_id signed_tx (some true) = do
    post_ack mode recipient_id true
    finish_ack b txid signed_tx

  unfoldable pub ack_consignment :
      DbBatchTransfer
      → Option String
      → ReceiveMode
      → String
      → Option Tx
      → Action S (Option DbBatchTransfer)
  ack_consignment b txid mode recipient_id signed_tx = do
    accepted ← set_hub_accept_status env kind b.idx
    on_accept b txid mode recipient_id signed_tx accepted

  -- `get_latest_block_height()?.saturating_sub(min_confirmations) + 1`
  unfoldable pub safe_height : ℕ → Action S ℕ
  safe_height min_confirmations = do
    height ← request env.get_latest_block_height
    pure (height - min_confirmations + 1)

  -- whether every transaction is mined at the safe height or below
  abbrev pub at_height : ℕ → Option ℕ → Action S Bool → Action S Bool
  at_height safe none rest = pure false
  at_height safe (some h) rest = if ltb safe h then pure false else rest

  unfoldable pub all_safe : ℕ → List String → Action S Bool
  all_safe safe [] = pure true
  all_safe safe (t ∷ ts) = do
    height ← request (env.resolve_witness_height t)
    at_height safe height (all_safe safe ts)

  unfoldable pub history_is_safe : ℕ → List String → Action S Bool
  history_is_safe min_confirmations [] = pure true
  history_is_safe min_confirmations (t ∷ ts) = do
    safe ← safe_height min_confirmations
    all_safe safe (t ∷ ts)

  -- the proxy that the consignment came from, or out of band where there is no endpoint
  unfoldable pub receive_mode : List DbTransferEndpoint → Action S ReceiveMode
  receive_mode tte_data = if is_empty tte_data then pure (out_of_band []) else do
    used ← unwrap (find (λ (e : DbTransferEndpoint). e.used) tte_data)
    pure (proxy used.endpoint)

  unfoldable pub wait_safe_height : DbBatchTransfer → DbData → Action S (Option DbBatchTransfer)
  wait_safe_height b d = do
    (asset_transfer, transfer) ← lift (get_incoming_transfer b d.asset_transfers d.transfers)
    recipient_id ← unwrap transfer.recipient_id
    valid ← request (env.load_valid_consignment recipient_id)
    txid ← unwrap b.txid
    safe ← history_is_safe b.min_confirmations (collect_unsafe_history_txids valid txid)
    if not safe then pure none else do
      (if env.is_txid txid then pure tt else abort)
      tte_data ← get_transfer_transport_endpoints_data transfer.idx
      mode ← receive_mode tte_data
      ack_consignment b none mode recipient_id (signed_tx_of txid (last valid.consignment.bundles))

  -- a witness receive: its TXO is no longer pending
  unfoldable pub settle_witness : Bool → String → Option RecipientTypeFull → Action S (Unit {0})
  settle_witness skip_sync txid (some (witness vout)) = do
    (if skip_sync then pure tt else sync_wallet env)
    v ← unwrap vout
    found ← get_txo (record { txid = txid; vout = v })
    txo ← unwrap found
    update_txo txo.idx (λ x. record x { pending_witness = false })
  settle_witness skip_sync txid _ = pure tt

  -- an IFA asset: the known supply only grows
  unfoldable pub update_supply :
      ValidConsignment → DbAssetTransfer → AssetSchema → Action S (Unit {0})
  update_supply valid asset_transfer schema = if not (is_ifa schema) then pure tt else do
    known ← request (env.known_supply valid)
    asset_id ← unwrap asset_transfer.asset_id
    found ← get_asset asset_id
    asset ← unwrap found
    text ← unwrap asset.known_circulating_supply
    stored ← unwrap (parse_u64 text)
    if ltb stored known then update_asset asset_id (env.decimal known) else pure tt

  unfoldable pub accept_consignment : Bool → String → DbBatchTransfer → DbData → Action S (Unit {0})
  accept_consignment skip_sync txid b d = do
    (asset_transfer, transfer) ← lift (get_incoming_transfer b d.asset_transfers d.transfers)
    recipient_id ← unwrap transfer.recipient_id
    settle_witness skip_sync txid transfer.recipient_type
    valid ← request (env.load_valid_consignment recipient_id)
    request env.rgb_runtime
    request (env.accept_transfer valid)
    schema ← lift (env.schema valid.consignment)
    update_supply valid asset_transfer schema

  abbrev pub on_confirmations :
      Bool → String → DbBatchTransfer → DbData → Option ℕ → Action S (Option DbBatchTransfer)
  on_confirmations skip_sync txid b d none = pure none
  on_confirmations skip_sync txid b d (some confirmations) =
      if ltb confirmations b.min_confirmations
      then (if status_eq b.status waiting_broadcast
          then set_status b none waiting_confirmations
          else pure none)
      else ((if b.incoming then accept_consignment skip_sync txid b d else pure tt)
          >> set_status b none settled)

  unfoldable pub wait_confirmations :
      Bool → DbBatchTransfer → DbData → Action S (Option DbBatchTransfer)
  wait_confirmations skip_sync b d = do
    txid ← unwrap b.txid
    confirmations ← request (env.get_tx_confirmations txid)
    on_confirmations skip_sync txid b d confirmations
