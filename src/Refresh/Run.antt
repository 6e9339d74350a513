-- ===== src/Refresh/Run.antt =====
-- The runs over the pending transfers: `wait_counterparty`, `refresh_transfer`, `refresh_impl`,
-- `refresh`, `try_fail_batch_transfer`, `fail_transfers_impl` and `fail_transfers` of
-- src/wallet/online.rs, and `fail_transfers` of src/wallet/multisig.rs.
use rgb_lib.Prelude.{
  ◌⊎◌, inl, inr, ℕ, String, Bool, true, false, not, ◌&&◌, List, [], ◌∷◌, Option, none, some, filter,
  any, ◌==◌, is_empty, if◌then◌else◌,
}
use rgb_lib.Status.{
  TransferStatus, initiated, waiting_counterparty, waiting_safe_height, waiting_broadcast,
  waiting_confirmations, settled, failed, is_waiting, is_fallible, status_eq, AssetSchema,
  RefreshFilter, refresh_status, filter_eq,
}
use rgb_lib.Result.{
  Result, ok, err, panic, Error, asset_not_found, cannot_fail_batch_transfer, min_fee_not_met,
  max_fee_exceeded,
}
use rgb_lib.Database.Rows.{DbAssetTransfer, DbBatchTransfer, DbData, is_some, is_asset}
use rgb_lib.Database.Joins.{get_asset_transfers, get_batch_transfer_or_fail}
use rgb_lib.Database.Updates.{get_asset}
use rgb_lib.Action.{
  Action, Store, World, map_or, pure, raise, ◌>>=◌, ◌>>◌, ask, request, reads, lift, unwrap,
}
use rgb_lib.Services.{Services}
use rgb_lib.Wallet.Delete.{connected_assets}
use rgb_lib.Refresh.Hub.{WalletKind, get_hub_fail_status, fail_batch_transfer}
use rgb_lib.Refresh.Broadcast.{sync_wallet}
use rgb_lib.Refresh.Sending.{fail_batch, is_expired, wait_ack}
use rgb_lib.Refresh.Receiving.{wait_safe_height, wait_confirmations}
use rgb_lib.Refresh.Download.{wait_consignment}

-- what became of a transfer: its new status, or the error
pub record RefreshedTransfer : Type 0 where
  pub updated_status : Option TransferStatus
  pub failure : Option Error

abbrev pub RefreshResult : Type 0
RefreshResult = List (ℕ × RefreshedTransfer)

-- an error that is caught; a panic is not
abbrev pub catch_error : {A : Type 0} → Result A → Result (A ⊎ Error)
catch_error (ok a) = ok (inl a)
catch_error (err e) = ok (inr e)
catch_error panic = panic

abbrev pub refreshed_of : Option DbBatchTransfer ⊎ Error → RefreshedTransfer
refreshed_of (inl none) = record { updated_status = none; failure = none }
refreshed_of (inl (some b)) = record { updated_status = some b.status; failure = none }
refreshed_of (inr e) = record { updated_status = none; failure = some e }

-- the transfers that a refresh goes through: those of the asset, if one is given, that wait
abbrev pub of_asset : Option String → List DbAssetTransfer → DbBatchTransfer → Bool
of_asset none asset_transfers b = true
of_asset (some asset_id) asset_transfers b =
    any (λ (a : DbAssetTransfer). a.batch_transfer_idx == b.idx)
      (filter (λ (a : DbAssetTransfer). is_asset asset_id a.asset_id) asset_transfers)

abbrev pub to_refresh : Option String → DbData → List DbBatchTransfer
to_refresh asset_id d =
    filter (λ (b : DbBatchTransfer). is_waiting b.status)
      (filter (of_asset asset_id d.asset_transfers) d.batch_transfers)

-- A fee that the network refuses leaves the transfer as one that did not change.
abbrev pub is_fee_error : Error → Bool
is_fee_error (min_fee_not_met txid) = true
is_fee_error (max_fee_exceeded txid) = true
is_fee_error _ = false

abbrev pub ignore_fee : {A : Type 0} → Result (Option A) → Result (Option A)
ignore_fee (ok a) = ok a
ignore_fee (err e) = if is_fee_error e then ok none else err e
ignore_fee panic = panic

pub record FailTransfersOutcome : Type 0 where
  pub transfers_changed : Bool
  pub cannot_fail : Bool

abbrev pub unfailed : FailTransfersOutcome
unfailed = record { transfers_changed = false; cannot_fail = true }

abbrev pub skips_connected : Bool → DbBatchTransfer → DbData → Bool
skips_connected no_asset_only b d =
    no_asset_only && connected_assets (get_asset_transfers b d.asset_transfers)

abbrev pub is_multisig : WalletKind → Bool
is_multisig WalletKind.singlesig = false
is_multisig WalletKind.multisig = true

-- The end of a call: the transaction is committed where the body succeeds, else rolled back. What was
-- done outside the database stays.
abbrev pub end_transaction : {S A : Type 0} → Store → Result A × World S → Result A × World S
end_transaction before (ok a, w) = (ok a, w)
end_transaction before (err e, w) = (err e, record w { store = before })
end_transaction before (panic, w) = (panic, record w { store = before })

abbrev pub in_transaction : {S A : Type 0} → Action S A → Action S A
in_transaction m w = end_transaction w.store (m w)

module _ {S : Type 0} (env : Services S) (kind : WalletKind)
    (supported_schemas : List AssetSchema) where
  unfoldable pub wait_counterparty : DbBatchTransfer → DbData → Action S (Option DbBatchTransfer)
  wait_counterparty b d =
      if b.incoming then wait_consignment env kind supported_schemas b d else wait_ack env kind b d

  -- whether the filters ask for a transfer; all are where there is no filter
  abbrev pub requested : List RefreshFilter → DbBatchTransfer → Action S Bool
  requested filter' b = if is_empty filter' then pure true else do
    status ← unwrap (refresh_status b.status)
    pure (any (filter_eq (record { status = status; incoming = b.incoming })) filter')

  unfoldable pub refresh_counterparty : DbBatchTransfer → DbData → Action S (Option DbBatchTransfer)
  refresh_counterparty b d = do
    rejected ← get_hub_fail_status env kind b.idx
    if rejected then fail_batch env kind b else wait_counterparty b d

  abbrev pub by_status :
      DbBatchTransfer → DbData → Bool → TransferStatus → Action S (Option DbBatchTransfer)
  by_status b d skip_sync waiting_counterparty = refresh_counterparty b d
  by_status b d skip_sync waiting_safe_height = wait_safe_height env kind b d
  by_status b d skip_sync waiting_broadcast = wait_confirmations env kind skip_sync b d
  by_status b d skip_sync waiting_confirmations = wait_confirmations env kind skip_sync b d
  by_status b d skip_sync initiated = pure none
  by_status b d skip_sync settled = pure none
  by_status b d skip_sync failed = pure none

  unfoldable pub refresh_transfer :
      DbBatchTransfer → DbData → List RefreshFilter → Bool → Action S (Option DbBatchTransfer)
  refresh_transfer b d filter' skip_sync = do
    wanted ← requested filter' b
    if wanted then by_status b d skip_sync b.status else pure none

  -- the error of one transfer does not end the run, and what it wrote stays
  abbrev pub catch : {A : Type 0} → Action S A → Action S (A ⊎ Error)
  catch m w = let (r, w') = m w in (catch_error r, w')

  unfoldable pub refresh_all :
      List DbBatchTransfer → DbData → List RefreshFilter → Bool → Action S RefreshResult
  refresh_all [] d filter' skip_sync = pure []
  refresh_all (b ∷ bs) d filter' skip_sync = do
    outcome ← catch (refresh_transfer b d filter' skip_sync)
    rest ← refresh_all bs d filter' skip_sync
    pure ((b.idx, refreshed_of outcome) ∷ rest)

  -- the asset transfers are those of all transfers, the batch transfers those that are gone through
  unfoldable pub refresh_impl : Option String → List RefreshFilter → Bool → Action S RefreshResult
  refresh_impl asset_id filter' skip_sync = do
    d ← reads λ s. s.tables
    refresh_all (to_refresh asset_id d) d filter' skip_sync

  abbrev pub check_asset : Option String → Action S (Unit {0})
  check_asset none = pure tt
  check_asset (some asset_id) = do
    found ← get_asset asset_id
    map_or found (raise (asset_not_found asset_id)) (λ _. pure tt)

  -- The check that the wallet is online comes before, the time of the operation that is stored for
  -- backups is left out.
  unfoldable pub refresh : Option String → List RefreshFilter → Bool → Action S RefreshResult
  refresh asset_id filter' skip_sync =
      in_transaction (do check_asset asset_id; refresh_impl asset_id filter' skip_sync)

  abbrev pub catch_fee : {A : Type 0} → Action S (Option A) → Action S (Option A)
  catch_fee m w = let (r, w') = m w in (ignore_fee r, w')

  -- whether the transfer was refreshed, so that it was not failed
  unfoldable pub try_fail_batch_transfer : DbBatchTransfer → DbData → Action S Bool
  try_fail_batch_transfer b d = do
    updated ← catch_fee (refresh_transfer b d [] true)
    if is_some updated then pure true else (fail_batch_transfer env kind b >> pure false)

  unfoldable pub fail_expired : Bool → List DbBatchTransfer → DbData → Bool → Action S Bool
  fail_expired no_asset_only [] d changed = pure changed
  fail_expired no_asset_only (b ∷ bs) d changed =
      if skips_connected no_asset_only b d
      then fail_expired no_asset_only bs d changed
      else (try_fail_batch_transfer b d >> fail_expired no_asset_only bs d true)

  -- a transfer that the counterparty may still broadcast
  abbrev pub too_early : DbBatchTransfer → Action S Bool
  too_early b =
      if status_eq b.status waiting_broadcast
      then (ask env.now >>= λ now. pure (not (is_expired now b)))
      else pure false

  unfoldable pub fail_one : DbBatchTransfer → Bool → DbData → Action S FailTransfersOutcome
  fail_one b no_asset_only d = if not (is_fallible b.status) then pure unfailed else do
    early ← too_early b
    if early then pure unfailed else if skips_connected no_asset_only b d then pure unfailed else do
      refreshed ← try_fail_batch_transfer b d
      pure (record { transfers_changed = true; cannot_fail = refreshed })

  -- all expired transfers that can fail
  unfoldable pub fail_all : Bool → DbData → Action S FailTransfersOutcome
  fail_all no_asset_only d = do
    now ← ask env.now
    changed ←
        fail_expired no_asset_only
          (filter (λ (b : DbBatchTransfer). is_expired now b && is_fallible b.status)
            d.batch_transfers)
          d false
    pure (record { transfers_changed = changed; cannot_fail = false })

  unfoldable pub fail_transfers_impl : Option ℕ → Bool → Bool → Action S FailTransfersOutcome
  fail_transfers_impl batch_transfer_idx no_asset_only skip_sync = do
    (if skip_sync then pure tt else sync_wallet env)
    d ← reads λ s. s.tables
    map_or batch_transfer_idx (fail_all no_asset_only d) (λ idx. do
      b ← lift (get_batch_transfer_or_fail idx d.batch_transfers)
      fail_one b no_asset_only d)

  abbrev pub check_cosigner : Action S (Unit {0})
  check_cosigner = if is_multisig kind then request env.check_is_cosigner else pure tt

  abbrev pub failed_outcome : FailTransfersOutcome → Action S Bool
  failed_outcome o =
      if o.cannot_fail then raise cannot_fail_batch_transfer else pure o.transfers_changed

  -- The error is raised after the transaction is committed: what a refresh found stays.
  unfoldable pub fail_transfers : Option ℕ → Bool → Bool → Action S Bool
  fail_transfers batch_transfer_idx no_asset_only skip_sync = do
    check_cosigner
    outcome ← in_transaction (fail_transfers_impl batch_transfer_idx no_asset_only skip_sync)
    failed_outcome outcome
