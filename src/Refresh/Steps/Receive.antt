-- ===== src/Refresh/Steps/Receive.antt =====
-- The changes that the validation of a received consignment makes.
use rgb_lib.Prelude.{ℕ, String, Option, none, some, List}
use rgb_lib.Status.{
  waiting_safe_height, waiting_broadcast, waiting_confirmations, failed, AssetSchema,
}
use rgb_lib.Database.Rows.{DbBatchTransfer, DbTransfer, DbData, DbAssetTransfer}
use rgb_lib.Services.{Services, ConsignmentReply}
use rgb_lib.Refresh.Hub.{WalletKind}
use rgb_lib.Refresh.Receiving.{ReceiveMode}
use rgb_lib.Refresh.Checks.{Checked}
use rgb_lib.Refresh.Validation.{accept_received, validate_received_consignment}
use rgb_lib.Refresh.Download.{save_download, download, wait_consignment}
use rgb_lib.Refresh.Quiet.{calls, tables}
use rgb_lib.Refresh.Untouched.Incoming.{
  check_received-Quiet, set_colorings-Quiet, receiving_txo-Quiet, try_endpoints-Quiet,
}
use rgb_lib.Refresh.Untouched.Assets.{connect_asset-Quiet}
use rgb_lib.Refresh.Moves.{Change, Moves, steps}
use rgb_lib.Refresh.Steps.{set_status-Moves, refuse_consignment-Moves, ack_consignment-Moves}

-- what a change of an incoming transfer may be
pub record Receives (P : Change) : Type 0 where
  pub fails : P none failed
  pub waits : (txid : String) → P (some txid) waiting_safe_height
  pub confirms : (txid : String) → P (some txid) waiting_confirmations
  pub broadcasts : (txid : String) → P (some txid) waiting_broadcast

module _ {S : Type 0} (env : Services S) (kind : WalletKind) (schemas : List AssetSchema)
    {P : Change} (p : Receives P) where
  accept_received-Moves :
      (b : DbBatchTransfer) (a : DbAssetTransfer) (t : DbTransfer) (r txid : String) (v : Option ℕ)
      (mode : ReceiveMode) (c : Checked)
      → Moves P b.idx (accept_received env kind schemas b a t r txid v mode c)
  unfolding accept_received
  accept_received-Moves b a t r txid v mode c =
      search
        (
          calls, steps, receiving_txo-Quiet, set_colorings-Quiet, set_status-Moves,
          ack_consignment-Moves, p.fails, p.waits, p.confirms, p.broadcasts,
        )
        depth 9

  validate_received_consignment-Moves :
      (b : DbBatchTransfer) (a : DbAssetTransfer) (t : DbTransfer) (r txid : String) (v : Option ℕ)
      (mode : ReceiveMode)
      → Moves P b.idx (validate_received_consignment env kind schemas b a t r txid v mode)
  unfolding validate_received_consignment
  validate_received_consignment-Moves b a t r txid v mode =
      search
        (
          steps, check_received-Quiet, connect_asset-Quiet, refuse_consignment-Moves,
          accept_received-Moves, p.fails,
        )
        depth 9

  save_download-Moves :
      (b : DbBatchTransfer) (a : DbAssetTransfer) (t : DbTransfer) (r : String)
      (found : ConsignmentReply × String)
      → Moves P b.idx (save_download env kind schemas b a t r found)
  unfolding save_download
  save_download-Moves b a t r (reply, url) =
      search (calls, steps, refuse_consignment-Moves, validate_received_consignment-Moves, p.fails)
        depth 9

  pub wait_consignment-Moves :
      (b : DbBatchTransfer) (d : DbData) → Moves P b.idx (wait_consignment env kind schemas b d)
  unfolding wait_consignment download
  wait_consignment-Moves b d =
      search
        (
          calls, tables, steps, validate_received_consignment-Moves, try_endpoints-Quiet,
          save_download-Moves,
        )
        depth 12
