-- ===== src/Refresh/Untouched.antt =====
-- The parts of a refresh that leave the batch transfers as they are.
pub mod Incoming
pub mod Assets
use rgb_lib.Prelude.{ℕ, String, ◌≡◌, refl, Bool, true, false, Option, none, some, List, [], ◌∷◌}
use rgb_lib.Status.{AssetSchema}
use rgb_lib.Assignment.{Assignment}
use rgb_lib.Database.Rows.{
  Outpoint, DbTxo, DbBatchTransfer, DbTransfer, DbData, DbAssetTransfer, RecipientTypeFull, blind,
  witness,
}
use rgb_lib.Action.{Action, DbTransferEndpoint, DbAsset, pure, abort}
use rgb_lib.Services.{
  Services, Tx, BdkOutput, BroadcastReply, ValidConsignment, PostReply, posted, cannot_change_ack,
  post_failed, Validation, valid, invalid, resolver_error,
}
use rgb_lib.Refresh.Hub.{
  WalletKind, get_hub_fail_status, set_hub_accept_status, set_hub_fail_status,
}
use rgb_lib.Refresh.Broadcast.{
  broadcast_tx, look_up, save_output, save_outputs, update_db_colored_txos_from_bdk, sync_wallet,
  spend_inputs, broadcast_psbt, broadcast_and_update_rgb, mark_spent,
}
use rgb_lib.Refresh.Sending.{poll_endpoints, poll_ack, poll_acks, record_ack}
use rgb_lib.Refresh.Quiet.{Quiet, calls, tables, >>-Quiet, >>=-Quiet, pure-Quiet}

module _ {S : Type 0} (env : Services S) where
  pub get_hub_fail_status-Quiet :
      (kind : WalletKind) (i : ℕ) → Quiet (get_hub_fail_status env kind i)
  unfolding get_hub_fail_status
  get_hub_fail_status-Quiet WalletKind.singlesig i = search calls
  get_hub_fail_status-Quiet WalletKind.multisig i = search calls

  pub set_hub_accept_status-Quiet :
      (kind : WalletKind) (i : ℕ) → Quiet (set_hub_accept_status env kind i)
  unfolding set_hub_accept_status
  set_hub_accept_status-Quiet WalletKind.singlesig i = search calls
  set_hub_accept_status-Quiet WalletKind.multisig i = search calls

  pub set_hub_fail_status-Quiet :
      (kind : WalletKind) (i : ℕ) → Quiet (set_hub_fail_status env kind i)
  unfolding set_hub_fail_status
  set_hub_fail_status-Quiet WalletKind.singlesig i = search calls
  set_hub_fail_status-Quiet WalletKind.multisig i = search calls

  pub broadcast_tx-Quiet : (tx : Tx) → Quiet (broadcast_tx env tx)
  unfolding broadcast_tx look_up
  broadcast_tx-Quiet tx = search calls depth 9

  save_output-Quiet : (pending : List String) (o : BdkOutput) → Quiet (save_output env pending o)
  unfolding save_output
  save_output-Quiet pending o = search (calls, tables)

  save_outputs-Quiet :
      (pending : List String) (os : List BdkOutput) → Quiet (save_outputs env pending os)
  unfolding save_outputs
  save_outputs-Quiet pending [] = search calls
  save_outputs-Quiet pending (o ∷ os) =
      >>-Quiet (save_output-Quiet pending o) (save_outputs-Quiet pending os)

  update_db_colored_txos_from_bdk-Quiet : (b : Bool) → Quiet (update_db_colored_txos_from_bdk env b)
  unfolding update_db_colored_txos_from_bdk
  update_db_colored_txos_from_bdk-Quiet b = search (calls, save_outputs-Quiet)

  pub sync_wallet-Quiet : Quiet (sync_wallet env)
  unfolding sync_wallet
  sync_wallet-Quiet = search (calls, update_db_colored_txos_from_bdk-Quiet)

  mark_spent-Quiet : (o : Option DbTxo) → Quiet (mark_spent env o)
  mark_spent-Quiet none = search calls
  mark_spent-Quiet (some t) = search tables

  spend_inputs-Quiet : (is : List Outpoint) → Quiet (spend_inputs env is)
  unfolding spend_inputs
  spend_inputs-Quiet [] = search calls
  spend_inputs-Quiet (i ∷ is) =
      >>=-Quiet (search tables) (λ t. >>-Quiet (mark_spent-Quiet t) (spend_inputs-Quiet is))

  broadcast_psbt-Quiet : (txid : String) → Quiet (broadcast_psbt env txid)
  unfolding broadcast_psbt
  broadcast_psbt-Quiet txid =
      search (calls, broadcast_tx-Quiet, update_db_colored_txos_from_bdk-Quiet, spend_inputs-Quiet)
        depth 9

  pub broadcast_and_update_rgb-Quiet : (txid : String) → Quiet (broadcast_and_update_rgb env txid)
  unfolding broadcast_and_update_rgb
  broadcast_and_update_rgb-Quiet txid = search (calls, broadcast_psbt-Quiet)

  module _ (kind : WalletKind) where
    record_ack-Quiet : (t : DbTransfer) (o : Option Bool) → Quiet (record_ack env kind t o)
    record_ack-Quiet t none = search calls
    record_ack-Quiet t (some a) = search (calls, tables)

    poll_endpoints-Quiet :
        (t : DbTransfer) (l : List DbTransferEndpoint) → Quiet (poll_endpoints env kind t l)
    unfolding poll_endpoints
    poll_endpoints-Quiet t l = search (calls, record_ack-Quiet) depth 9

    poll_ack-Quiet : (t : DbTransfer) → Quiet (poll_ack env kind t)
    unfolding poll_ack
    poll_ack-Quiet t = search (calls, tables, poll_endpoints-Quiet)

    pub poll_acks-Quiet : (ts : List DbTransfer) → Quiet (poll_acks env kind ts)
    unfolding poll_acks
    poll_acks-Quiet [] = search calls
    poll_acks-Quiet (t ∷ ts) =
        >>=-Quiet (poll_ack-Quiet t) (λ t'. >>=-Quiet (poll_acks-Quiet ts) (λ ts'. pure-Quiet _))
