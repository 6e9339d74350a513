-- ===== src/Refresh/Sending.antt =====
-- Outgoing transfers: `wait_ack`, `try_complete_batch` and `provide_out_of_band_ack_impl` of
-- src/wallet/online.rs.
use rgb_lib.Prelude.{
  ℕ, String, Bool, true, false, not, List, [], ◌∷◌, map, Option, none, some, find, any, all,
  is_empty, concat_map, ◌==◌, str_eq, if◌then◌else◌,
}
use rgb_lib.Prelude.Int.{ℤ, ltb_ℤ}
use rgb_lib.Status.{waiting_confirmations, is_waiting_counterparty, is_waiting_confirmations}
use rgb_lib.Result.{
  Error, multisig_transfer_status_mismatch, multisig_unexpected_data,
  cannot_provide_out_of_band_ack,
}
use rgb_lib.Database.Rows.{DbAssetTransfer, DbBatchTransfer, DbTransfer, DbData, is_some}
use rgb_lib.Database.Joins.{get_transfers, DbAssetTransferData}
use rgb_lib.Database.Updates.{
  update_batch_transfer, update_transfer, get_transfer_transport_endpoints_data,
}
use rgb_lib.Action.{
  Action, DbTransferEndpoint, pure, raise, ◌>>=◌, ◌>>◌, ask, request, reads, unwrap, map_err,
}
use rgb_lib.Services.{Services}
use rgb_lib.Refresh.Hub.{WalletKind, set_hub_accept_status, fail_batch_transfer}
use rgb_lib.Refresh.Broadcast.{broadcast_and_update_rgb}

-- `t.ack == Some(b)`
abbrev pub has_ack : Bool → DbTransfer → Bool
has_ack b t = elim t.ack [ none ↦ false | some a ↦ if b then a else not a ]

-- `expiration.unwrap_or(now) < now`
abbrev pub is_expired : ℤ → DbBatchTransfer → Bool
is_expired now b = elim b.expiration [ none ↦ false | some e ↦ ltb_ℤ e now ]

-- the transfers of a batch, one asset after the other
abbrev pub batch_transfers_of : DbBatchTransfer → DbData → List DbTransfer
batch_transfers_of b d =
    concat_map (λ (a : DbAssetTransferData). a.transfers)
      (get_transfers b d.asset_transfers d.transfers)

abbrev pub nack_error : Error → Error
nack_error multisig_transfer_status_mismatch = multisig_unexpected_data
nack_error e = e

abbrev pub acked : DbTransfer → DbTransfer
acked t = record t { ack = some true }

-- `get_transfer_data` of the tables, the last ACK included
abbrev pub reflect_ack : ℕ → DbTransfer → DbTransfer
reflect_ack i t = if t.idx == i then acked t else t

module _ {S : Type 0} (env : Services S) (kind : WalletKind) where
  abbrev pub record_ack : DbTransfer → Option Bool → Action S DbTransfer
  record_ack t none = pure t
  record_ack t (some a) = do
    update_transfer t.idx (λ x. record x { ack = some a })
    pure (record t { ack = some a })

  -- the endpoints of a transfer that is sent out of band are none
  unfoldable pub poll_endpoints : DbTransfer → List DbTransferEndpoint → Action S DbTransfer
  poll_endpoints t tte_data = if is_empty tte_data then pure t else do
    used ← unwrap (find (λ (e : DbTransferEndpoint). e.used) tte_data)
    recipient_id ← unwrap t.recipient_id
    request (env.proxy_client used.endpoint)
    ack ← request (env.get_ack used.endpoint recipient_id)
    record_ack t ack

  unfoldable pub poll_ack : DbTransfer → Action S DbTransfer
  unfolding poll_endpoints
  poll_ack t =
      if is_some t.ack
      then pure t
      else do tte_data ← get_transfer_transport_endpoints_data t.idx; poll_endpoints t tte_data

  unfoldable pub poll_acks : List DbTransfer → Action S (List DbTransfer)
  poll_acks [] = pure []
  poll_acks (t ∷ ts) = do t' ← poll_ack t; ts' ← poll_acks ts; pure (t' ∷ ts')

  unfoldable pub fail_batch : DbBatchTransfer → Action S (Option DbBatchTransfer)
  fail_batch b = do b' ← fail_batch_transfer env kind b; pure (some b')

  unfoldable pub fail_nacked : DbBatchTransfer → Action S (Option DbBatchTransfer)
  fail_nacked b = do b' ← map_err nack_error (fail_batch_transfer env kind b); pure (some b')

  -- the broadcast of the transaction that every recipient has ACKed
  unfoldable pub complete_batch : DbBatchTransfer → Action S (Option DbBatchTransfer)
  complete_batch b = do
    txid ← unwrap b.txid
    request (env.load_signed_psbt txid)
    request env.rgb_runtime
    request (env.load_fascia txid)
    broadcast_and_update_rgb env txid
    b' ←
        update_batch_transfer env.now
          (record { idx = b.idx; txid = none; status = waiting_confirmations })
    pure (some b')

  abbrev pub on_hub_reply : DbBatchTransfer → Option Bool → Action S (Option DbBatchTransfer)
  on_hub_reply b none = pure none
  on_hub_reply b (some true) = complete_batch b
  on_hub_reply b (some false) = fail_batch b

  unfoldable pub try_complete_batch :
      DbBatchTransfer → List DbTransfer → Action S (Option DbBatchTransfer)
  try_complete_batch b transfers =
      if any (has_ack false) transfers
      then fail_nacked b
      else if not (all (has_ack true) transfers)
      then pure none
      else do
        now ← ask env.now
        if is_expired now b
            then fail_batch b
            else do accepted ← set_hub_accept_status env kind b.idx; on_hub_reply b accepted

  unfoldable pub wait_ack : DbBatchTransfer → DbData → Action S (Option DbBatchTransfer)
  wait_ack b d = do transfers ← poll_acks (batch_transfers_of b d); try_complete_batch b transfers

  -- Why an out-of-band ACK is refused is not told apart. The result is whether the batch was
  -- broadcast; the entropy that is read back from a file is left out.
  abbrev pub completed : Option DbBatchTransfer → Action S Bool
  completed none = pure false
  completed (some b) =
      if is_waiting_confirmations b.status
      then (unwrap b.txid >> pure true)
      else raise cannot_provide_out_of_band_ack

  abbrev pub of_recipient : String → DbTransfer → Bool
  of_recipient recipient_id t = elim t.recipient_id [
    | none ↦ false
    | some r ↦ str_eq r recipient_id
  ]

  abbrev pub or_refuse : {A : Type 0} → Option A → Action S A
  or_refuse none = raise cannot_provide_out_of_band_ack
  or_refuse (some a) = pure a

  unfoldable pub provide_out_of_band_ack_impl : String → Action S Bool
  provide_out_of_band_ack_impl recipient_id = do
    d ← reads λ s. s.tables
    transfer ← or_refuse (find (of_recipient recipient_id) d.transfers)
    asset_transfer ←
        unwrap
          (find (λ (a : DbAssetTransfer). a.idx == transfer.asset_transfer_idx) d.asset_transfers)
    b ← unwrap (
        find (λ (b : DbBatchTransfer). b.idx == asset_transfer.batch_transfer_idx)
          d.batch_transfers)
    if b.incoming then raise cannot_provide_out_of_band_ack else do
      if not (is_waiting_counterparty b.status) then raise cannot_provide_out_of_band_ack else do
        tte_data ← get_transfer_transport_endpoints_data transfer.idx
        if not (is_empty tte_data) then raise cannot_provide_out_of_band_ack else do
          (if has_ack true transfer then pure tt else update_transfer transfer.idx acked)
          updated ← try_complete_batch b (map (reflect_ack transfer.idx) (batch_transfers_of b d))
          completed updated
