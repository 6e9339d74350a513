-- ===== src/Multisig/Sync.antt =====
-- `sync_with_hub` of src/wallet/multisig.rs, once the wallet is online. The
-- time of the operation that it stores for backups is left out.
use rgb_lib.Prelude.{
  ℕ, ◌+◌, Bool, true, false, ◌&&◌, List, [], Option, none, some, ltb, ◌^◌, if◌then◌else◌,
}
use rgb_lib.Status.{AssetSchema}
use rgb_lib.Result.{Result, ok, err, panic}
use rgb_lib.Action.{map_or}
use rgb_lib.Services.{Services}
use rgb_lib.Refresh.Hub.{WalletKind}
use rgb_lib.Refresh.Run.{refresh_impl}
use rgb_lib.Multisig.{
  OperationStatus, pending, approved, OperationType, send_rgb, inflation, blind_receive,
  witness_receive, burn, OperationResponse, OperationInfo,
}
use rgb_lib.Multisig.Process.{
  Wallet, Process, Hub, give, ◌>>=◌, ◌>>◌, of_result, call, in_transaction, get_last_processed,
}
use rgb_lib.Multisig.Handlers.{process_operation}

abbrev pub is_approved : OperationStatus → Bool
is_approved approved = true
is_approved _ = false

abbrev pub still_pending : OperationStatus → Bool
still_pending pending = true
still_pending _ = false

-- the operations whose approval changes transfers
abbrev pub moves_assets : OperationType → Bool
moves_assets send_rgb = true
moves_assets inflation = true
moves_assets burn = true
moves_assets witness_receive = true
moves_assets blind_receive = true
moves_assets _ = false

abbrev pub is_issue : OperationType → Bool
is_issue inflation = true
is_issue burn = true
is_issue _ = false

-- an error is dropped, and what was written is kept
abbrev pub drop_error : {S : Type 0} → Result (Unit {0}) × Wallet S → Result (Unit {0}) × Wallet S
drop_error (ok a, w) = (ok a, w)
drop_error (err e, w) = (ok tt, w)
drop_error (panic, w) = (panic, w)

module _ {S : Type 0} (env : Services S) (supported_schemas : List AssetSchema) (hub : Hub S) where
  abbrev pub refresh_transfers : Process S (Unit {0})
  refresh_transfers =
      call (refresh_impl env WalletKind.multisig supported_schemas none [] true) >>= λ r. give tt

  -- `let _ =` in front of a call without `?`
  abbrev pub ignore_error : Process S (Unit {0}) → Process S (Unit {0})
  ignore_error m w = drop_error (m w)

  unfoldable pub prepare : Process S ℕ
  prepare = in_transaction do
    call (hub.sync_wallet true)
    call (hub.sync_wallet false)
    refresh_transfers
    refresh_transfers
    get_last_processed

  unfoldable pub refresh_after : OperationResponse → Process S (Unit {0})
  refresh_after op =
      let again =
        if is_issue op.operation_type
        then give tt
        else in_transaction (ignore_error refresh_transfers) in
      if is_approved op.status && moves_assets op.operation_type
      then (in_transaction refresh_transfers >> again)
      else give tt

  unfoldable pub process_next : OperationResponse → Process S (Option OperationInfo)
  process_next op = do
    operation ← process_operation hub op
    refresh_after op
    (if still_pending op.status then give tt else call hub.clear_cache)
    give (
        some (record {
          operation_idx = op.operation_idx;
          initiator_xpub = op.initiator_xpub;
          operation = operation;
        }))

  -- an i32
  abbrev pub next_idx : ℕ → Result ℕ
  next_idx i = if ltb (i + 1) (2 ^ 31) then ok (i + 1) else panic

  unfoldable pub sync_with_hub : Process S (Option OperationInfo)
  sync_with_hub = do
    op_idx ← prepare
    next ← of_result (next_idx op_idx)
    op ← call (hub.get_operation_by_idx next)
    map_or op (give none) process_next
