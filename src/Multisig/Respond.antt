-- ===== src/Multisig/Respond.antt =====
-- `respond_to_operation` of src/wallet/multisig.rs, once the wallet is online. The time of the operation
-- that it stores for backups is left out.
use rgb_lib.Prelude.{ℕ, String, find, ◌==◌, str_eq, if◌then◌else◌}
use rgb_lib.Result.{
  ok, err, multisig_unexpected_data, multisig_user_not_cosigner, multisig_operation_not_found,
  multisig_cannot_respond_to_operation, invalid_psbt,
}
use rgb_lib.Action.{map_or}
use rgb_lib.Database.Rows.{is_some}
use rgb_lib.Multisig.{
  operation_psbt, FileMetadata, OperationResponse, OperationInfo, RespondToOperation, ack, nack,
}
use rgb_lib.Multisig.Process.{Process, Hub, give, fails, ◌>>=◌, ◌>>◌, of_result, call}
use rgb_lib.Multisig.Files.{type_is}
use rgb_lib.Multisig.Handlers.{process_operation}
use rgb_lib.Multisig.Sync.{still_pending}

module _ {S : Type 0} (hub : Hub S) where
  -- the PSBT of an answer is signed, and of the operation's transaction
  unfoldable pub check_psbt : OperationResponse → String → Process S (Unit {0})
  check_psbt op text = do
    psbt ← of_result (hub.parse_psbt text)
    signatures ← of_result (hub.signature_count psbt)
    (if signatures == 0 then fails invalid_psbt else give tt)
    file ← of_result (
        map_or (find (λ (f : FileMetadata). type_is f.type operation_psbt) op.files)
          (err multisig_unexpected_data) ok)
    path ← call (hub.get_or_download_file file)
    op_psbt ← call (hub.read_psbt path)
    if str_eq (hub.compute_txid op_psbt) (hub.compute_txid psbt)
        then give tt
        else fails invalid_psbt

  abbrev pub check_response : OperationResponse → RespondToOperation → Process S (Unit {0})
  check_response op (ack text) = check_psbt op text
  check_response op nack = give tt

  unfoldable pub check_open : OperationResponse → Process S (Unit {0})
  check_open op = do
    (if still_pending op.status then give tt else fails multisig_cannot_respond_to_operation)
    if is_some op.my_response then fails multisig_cannot_respond_to_operation else give tt

  unfoldable pub respond_to_operation : ℕ → RespondToOperation → Process S OperationInfo
  respond_to_operation operation_idx response = do
    cosigner ← call hub.is_cosigner
    (if cosigner then give tt else fails multisig_user_not_cosigner)
    found ← call (hub.get_operation_by_idx operation_idx)
    op ← of_result (map_or found (err (multisig_operation_not_found operation_idx)) ok)
    check_open op
    check_response op response
    answered ← call (hub.respond_to_operation operation_idx response)
    operation ← process_operation hub answered
    give (record {
      operation_idx = answered.operation_idx;
      initiator_xpub = answered.initiator_xpub;
      operation = operation;
    })
