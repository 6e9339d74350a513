-- ===== src/Refresh/Steps.antt =====
-- The changes of a batch transfer that the parts of a refresh make.
pub mod Receive
pub mod Complete
pub mod Life
use rgb_lib.Prelude.{
  ℕ, String, ◌≡◌, refl, subst, Bool, true, false, Option, none, some, List, [], ◌∷◌, if◌then◌else◌,
  Bool-cases, inl, ltb,
}
use rgb_lib.Status.{
  TransferStatus, initiated, waiting_counterparty, waiting_safe_height, waiting_broadcast,
  waiting_confirmations, settled, failed, AssetSchema, status_eq,
}
use rgb_lib.Result.{Error}
use rgb_lib.Database.Rows.{DbBatchTransfer, DbTransfer, DbData, DbAssetTransfer}
use rgb_lib.Action.{Action, map_or, pure, ◌>>=◌}
use rgb_lib.Services.{Services, Tx}
use rgb_lib.Refresh.Hub.{WalletKind, fail_batch_transfer}
use rgb_lib.Refresh.Sending.{
  fail_batch, fail_nacked, nack_error, complete_batch, on_hub_reply, try_complete_batch, wait_ack,
}
use rgb_lib.Refresh.Receiving.{
  ReceiveMode, set_status, refuse_consignment, finish_ack, on_accept, ack_consignment,
  wait_safe_height, on_confirmations, wait_confirmations,
}
use rgb_lib.Refresh.Checks.{Checked}
use rgb_lib.Refresh.Validation.{accept_received, validate_received_consignment}
use rgb_lib.Refresh.Download.{
  Download, validate_download, save_download, download, wait_consignment,
}
use rgb_lib.Refresh.Quiet.{Quiet, calls, tables, if-Quiet, pure-Quiet}
use rgb_lib.Refresh.Untouched.{
  set_hub_accept_status-Quiet, set_hub_fail_status-Quiet, broadcast_tx-Quiet,
  broadcast_and_update_rgb-Quiet, poll_acks-Quiet,
}
use rgb_lib.Refresh.Untouched.Incoming.{
  post_ack-Quiet, history_is_safe-Quiet, receive_mode-Quiet, accept_consignment-Quiet,
  check_received-Quiet, set_colorings-Quiet, receiving_txo-Quiet, try_endpoints-Quiet,
}
use rgb_lib.Refresh.Untouched.Assets.{connect_asset-Quiet}
use rgb_lib.Refresh.Moves.{
  Change, Moves, steps, none-Moves, raise-Moves, >>=-Moves, >>-Moves, if-Moves, update-Moves,
  nested-Moves, map_err-Moves, map_or-Moves, if_true-Moves,
}

module _ {S : Type 0} (env : Services S) (kind : WalletKind) {P : Change} where
  fails :
      (b : DbBatchTransfer)
      → P none failed
      → Moves P b.idx (fail_batch_transfer env kind b >>= λ b'. pure (some b'))
  unfolding fail_batch_transfer
  fails b p =
      nested-Moves _ _ _
        (>>-Moves (set_hub_fail_status-Quiet env kind b.idx) (update-Moves env.now none failed p))

  pub fail_batch-Moves :
      (b : DbBatchTransfer) → P none failed → Moves P b.idx (fail_batch env kind b)
  unfolding fail_batch
  fail_batch-Moves b p = fails b p

  pub fail_nacked-Moves :
      (b : DbBatchTransfer) → P none failed → Moves P b.idx (fail_nacked env kind b)
  unfolding fail_nacked
  fail_nacked-Moves b p = map_err-Moves nack_error _ _ (fails b p)

  complete_batch-Moves :
      (b : DbBatchTransfer)
      → P none waiting_confirmations
      → Moves P b.idx (complete_batch env kind b)
  unfolding complete_batch
  complete_batch-Moves b p =
      search (calls, steps, broadcast_and_update_rgb-Quiet, update-Moves) depth 9

  on_hub_reply-Moves :
      (b : DbBatchTransfer) (o : Option Bool)
      → P none failed
      → P none waiting_confirmations
      → Moves P b.idx (on_hub_reply env kind b o)
  on_hub_reply-Moves b none p q = none-Moves
  on_hub_reply-Moves b (some true) p q = complete_batch-Moves b q
  on_hub_reply-Moves b (some false) p q = fail_batch-Moves b p

  pub try_complete_batch-Moves :
      (b : DbBatchTransfer) (l : List DbTransfer)
      → P none failed
      → P none waiting_confirmations
      → Moves P b.idx (try_complete_batch env kind b l)
  unfolding try_complete_batch
  try_complete_batch-Moves b l p q =
      search
        (
          calls, steps, fail_batch-Moves, fail_nacked-Moves, set_hub_accept_status-Quiet,
          on_hub_reply-Moves,
        )
        depth 9

  pub wait_ack-Moves :
      (b : DbBatchTransfer) (d : DbData)
      → P none failed
      → P none waiting_confirmations
      → Moves P b.idx (wait_ack env kind b d)
  unfolding wait_ack
  wait_ack-Moves b d p q = search (steps, poll_acks-Quiet, try_complete_batch-Moves)

  pub set_status-Moves :
      (b : DbBatchTransfer) (txid : Option String) (s : TransferStatus)
      → P txid s
      → Moves P b.idx (set_status env kind b txid s)
  unfolding set_status
  set_status-Moves b txid s p = update-Moves env.now txid s p

  pub refuse_consignment-Moves :
      (b : DbBatchTransfer) (txid : Option String) (mode : ReceiveMode) (r : String)
      → P txid failed
      → Moves P b.idx (refuse_consignment env kind b txid mode r)
  unfolding refuse_consignment
  refuse_consignment-Moves b txid mode r p = search (steps, post_ack-Quiet, set_status-Moves)

  finish_ack-Moves :
      (b : DbBatchTransfer) (txid : Option String) (o : Option Tx)
      → P txid waiting_confirmations
      → P txid waiting_broadcast
      → Moves P b.idx (finish_ack env kind b txid o)
  unfolding finish_ack
  finish_ack-Moves b txid none p q = set_status-Moves b txid waiting_broadcast q
  finish_ack-Moves b txid (some tx) p q = search (steps, broadcast_tx-Quiet, set_status-Moves)

  on_accept-Moves :
      (b : DbBatchTransfer) (txid : Option String) (mode : ReceiveMode) (r : String) (o : Option Tx)
      (reply : Option Bool)
      → P none failed
      → P txid waiting_confirmations
      → P txid waiting_broadcast
      → Moves P b.idx (on_accept env kind b txid mode r o reply)
  on_accept-Moves b txid mode r o none f p q = none-Moves
  on_accept-Moves b txid mode r o (some false) f p q = fail_batch-Moves b f
  on_accept-Moves b txid mode r o (some true) f p q =
      search (steps, post_ack-Quiet, finish_ack-Moves)

  pub ack_consignment-Moves :
      (b : DbBatchTransfer) (txid : Option String) (mode : ReceiveMode) (r : String) (o : Option Tx)
      → P none failed
      → P txid waiting_confirmations
      → P txid waiting_broadcast
      → Moves P b.idx (ack_consignment env kind b txid mode r o)
  unfolding ack_consignment
  ack_consignment-Moves b txid mode r o f p q =
      search (steps, set_hub_accept_status-Quiet, on_accept-Moves)

  pub wait_safe_height-Moves :
      (b : DbBatchTransfer) (d : DbData)
      → P none failed
      → P none waiting_confirmations
      → P none waiting_broadcast
      → Moves P b.idx (wait_safe_height env kind b d)
  unfolding wait_safe_height
  wait_safe_height-Moves b d f p q =
      search
        (calls, tables, steps, history_is_safe-Quiet, receive_mode-Quiet, ack_consignment-Moves)
        depth 15 fits 4000

  on_confirmations-Moves :
      (skip : Bool) (txid : String) (b : DbBatchTransfer) (d : DbData) (o : Option ℕ)
      → P none settled
      → (status_eq b.status waiting_broadcast ≡ true → P none waiting_confirmations)
      → Moves P b.idx (on_confirmations env kind skip txid b d o)
  on_confirmations-Moves skip txid b d none p q = none-Moves
  on_confirmations-Moves skip txid b d (some n) p q =
      if-Moves (ltb n b.min_confirmations)
        (if_true-Moves (status_eq b.status waiting_broadcast)
          (λ h. set_status-Moves b none waiting_confirmations (q h)))
        (>>-Moves
          (if-Quiet b.incoming (accept_consignment-Quiet env kind skip txid b d) (pure-Quiet tt))
          (set_status-Moves b none settled p))

  pub wait_confirmations-Moves :
      (skip : Bool) (b : DbBatchTransfer) (d : DbData)
      → P none settled
      → (status_eq b.status waiting_broadcast ≡ true → P none waiting_confirmations)
      → Moves P b.idx (wait_confirmations env kind skip b d)
  unfolding wait_confirmations
  wait_confirmations-Moves skip b d p q = search (calls, steps, on_confirmations-Moves)
