-- ===== src/Refresh/Steps/Life.antt =====
-- The life of a batch transfer as a state machine, and `refresh_transfer` as one step of it.
use rgb_lib.Prelude.{
  String, ◌≡◌, refl, sym, subst, Bool, true, false, Option, none, some, List, ◌==◌,
}
use rgb_lib.Status.{
  TransferStatus, initiated, waiting_counterparty, waiting_safe_height, waiting_broadcast,
  waiting_confirmations, settled, failed, status_eq, AssetSchema, RefreshFilter,
}
use rgb_lib.Database.Rows.{DbBatchTransfer, DbData}
use rgb_lib.Action.{World}
use rgb_lib.Services.{Services}
use rgb_lib.Refresh.Hub.{WalletKind}
use rgb_lib.Refresh.Run.{
  wait_counterparty, requested, refresh_counterparty, by_status, refresh_transfer,
}
use rgb_lib.Refresh.Quiet.{Quiet, calls, batches}
use rgb_lib.Refresh.Untouched.{get_hub_fail_status-Quiet}
use rgb_lib.Refresh.Moves.{Change, Moved, Moves, none-Moves, >>=-Moves, if-Moves, if_cases-Moves}
use rgb_lib.Refresh.Steps.{
  fail_batch-Moves, wait_ack-Moves, wait_safe_height-Moves, wait_confirmations-Moves,
}
use rgb_lib.Refresh.Steps.Receive.{Receives, wait_consignment-Moves}

-- The steps of a transfer that a refresh may take, by whether it is incoming: the status before, the
-- TXID that is set, and the status after.
pub data Advance : Bool → TransferStatus → Option String → TransferStatus → Type 0 where
  gave_up : {incoming : Bool} → Advance incoming waiting_counterparty none failed
  acked : Advance false waiting_counterparty none waiting_confirmations
  received_unsafe :
      (txid : String) → Advance true waiting_counterparty (some txid) waiting_safe_height
  received : (txid : String) → Advance true waiting_counterparty (some txid) waiting_broadcast
  received_signed :
      (txid : String) → Advance true waiting_counterparty (some txid) waiting_confirmations
  refused : {incoming : Bool} → Advance incoming waiting_safe_height none failed
  became_safe : {incoming : Bool} → Advance incoming waiting_safe_height none waiting_broadcast
  became_safe_signed :
      {incoming : Bool} → Advance incoming waiting_safe_height none waiting_confirmations
  seen : {incoming : Bool} → Advance incoming waiting_broadcast none waiting_confirmations
  mined_at_once : {incoming : Bool} → Advance incoming waiting_broadcast none settled
  mined : {incoming : Bool} → Advance incoming waiting_confirmations none settled

-- the changes of a row that are steps
abbrev pub LegalFor : DbBatchTransfer → Change
LegalFor b = Advance b.incoming b.status

receives : Receives (Advance true waiting_counterparty)
receives = record {
  fails = gave_up;
  waits = received_unsafe;
  confirms = received_signed;
  broadcasts = received;
}

module _ {S : Type 0} (env : Services S) (kind : WalletKind) (schemas : List AssetSchema) where
  counterparty-Moves :
      (b : DbBatchTransfer) (d : DbData)
      → Moves
          (Advance b.incoming waiting_counterparty)
          b.idx
          (wait_counterparty env kind schemas b d)
  unfolding wait_counterparty
  counterparty-Moves b d =
      if_cases-Moves b.incoming
        (λ e.
          wait_consignment-Moves env kind schemas
            (subst (λ i. Receives (Advance i waiting_counterparty)) (sym e) receives) b d)
        (λ e.
          wait_ack-Moves env kind b d gave_up
            (subst (λ i. Advance i waiting_counterparty none waiting_confirmations) (sym e) acked))

  by_status-Moves :
      (s : TransferStatus) (b : DbBatchTransfer) (d : DbData) (skip : Bool)
      → b.status ≡ s
      → Moves (Advance b.incoming s) b.idx (by_status env kind schemas b d skip s)
  unfolding refresh_counterparty
  by_status-Moves waiting_counterparty b d skip e =
      >>=-Moves (get_hub_fail_status-Quiet env kind b.idx) (λ rejected.
        if-Moves rejected (fail_batch-Moves env kind b gave_up) (counterparty-Moves b d))
  by_status-Moves waiting_safe_height b d skip e =
      wait_safe_height-Moves env kind b d refused became_safe_signed became_safe
  by_status-Moves waiting_broadcast b d skip e =
      wait_confirmations-Moves env kind skip b d mined_at_once (λ h. seen)
  by_status-Moves waiting_confirmations b d skip e =
      wait_confirmations-Moves env kind skip b d mined (λ h.
        let wrong : (2 == 7) ≡ true = subst (λ s. status_eq s waiting_broadcast ≡ true) e h in
        absurd (cc))
  by_status-Moves initiated b d skip e = none-Moves
  by_status-Moves settled b d skip e = none-Moves
  by_status-Moves failed b d skip e = none-Moves

  requested-Quiet :
      (filters : List RefreshFilter) (b : DbBatchTransfer)
      → Quiet (requested env kind schemas filters b)
  requested-Quiet filters b = search calls depth 9

  pub refresh_transfer-Moves :
      (b : DbBatchTransfer) (d : DbData) (filters : List RefreshFilter) (skip : Bool)
      → Moves (LegalFor b) b.idx (refresh_transfer env kind schemas b d filters skip)
  unfolding refresh_transfer
  refresh_transfer-Moves b d filters skip =
      >>=-Moves (requested-Quiet filters b)
        (λ wanted. if-Moves wanted (by_status-Moves b.status b d skip refl) none-Moves)

  -- Whatever the clock, the indexer, the proxies, the hub and the other services answer, and however
  -- refresh_transfer ends: either the batch transfers are as they were and no transfer is returned, or
  -- the rows with the key of the transfer, and no others, take one legal step from the status that
  -- was passed, only the TXID, the status and the time of the update are written, and the row
  -- returned is the one stored.
  pub refresh_transfer-Moved :
      (b : DbBatchTransfer) (d : DbData) (filters : List RefreshFilter) (skip : Bool) (w : World S)
      → let r = refresh_transfer env kind schemas b d filters skip w in
        Moved (LegalFor b) b.idx (batches w) (r.0) (batches (r.1))
  refresh_transfer-Moved b d filters skip w = (refresh_transfer-Moves b d filters skip).moved w
