-- ===== src/Multisig/Handlers.antt =====
-- `handle_operation` with its handlers, and `process_operation`, of src/wallet/multisig.rs.
use rgb_lib.Prelude.{ℕ, String, Bool, List, Option, none, some, ◌==◌, if◌then◌else◌}
use rgb_lib.Result.{multisig_unexpected_data}
use rgb_lib.Multisig.{
  operation_data, fascia, FileResponse, OperationStatus, pending, approved, discarded,
  OperationType, create_utxos, issuance, send_rgb, send_btc, inflation, blind_receive,
  witness_receive, burn, OperationResponse, MultisigVotingStatus, SendDetails, InflateDetails,
  Operation, create_utxos_to_review, create_utxos_pending, create_utxos_completed,
  create_utxos_discarded, send_btc_to_review, send_btc_pending, send_btc_completed,
  send_btc_discarded, send_to_review, send_pending, send_completed, send_discarded,
  inflation_to_review, inflation_pending, inflation_completed, inflation_discarded, burn_to_review,
  burn_pending, burn_completed, burn_discarded, issuance_completed, blind_receive_completed,
  witness_receive_completed,
}
use rgb_lib.Multisig.Process.{
  Process, OperationData, Hub, give, fails, ◌>>=◌, ◌>>◌, of_result, call, in_transaction,
}
use rgb_lib.Multisig.Files.{
  find_file, build_voting_status, extract_psbt_string, combine_psbts_from_files,
  mark_operation_as_processed, get_or_download_files,
}

-- `OperationHandler`
pub record Handler (S D : Type 0) : Type 0 where
  pub extract_details : List FileResponse → Process S D
  pub to_review : String → D → MultisigVotingStatus → Operation
  pub waits : D → MultisigVotingStatus → Operation
  pub completed : String → D → MultisigVotingStatus → Operation
  pub dropped : D → MultisigVotingStatus → Operation
  pub finalize_and_execute : String → Process S String
  pub reconstruct_transfer_directory : String → List FileResponse → Process S (Unit {0})

module _ {S : Type 0} (hub : Hub S) where
  module _ {D : Type 0} (h : Handler S D) where
    abbrev pub complete_operation : OperationResponse → List FileResponse → D → Process S Operation
    complete_operation op files details = do
      combined ← combine_psbts_from_files hub files
      psbt ← call (hub.finalize_psbt combined)
      h.reconstruct_transfer_directory (hub.compute_txid psbt) files
      txid ← in_transaction (
          h.finalize_and_execute psbt >>= λ txid.
          mark_operation_as_processed hub op.operation_idx >> give txid)
      status ← of_result (build_voting_status op op.my_response)
      give (h.completed txid details status)

    -- by the status and whether this wallet has responded
    abbrev pub by_vote_status :
        OperationStatus
        → Option Bool
        → OperationResponse
        → List FileResponse
        → D
        → Process S Operation
    by_vote_status pending none op files details = do
      psbt ← extract_psbt_string hub files
      status ← of_result (build_voting_status op none)
      give (h.to_review psbt details status)
    by_vote_status pending (some response) op files details = do
      status ← of_result (build_voting_status op (some response))
      give (h.waits details status)
    by_vote_status approved response op files details = complete_operation op files details
    by_vote_status discarded response op files details = do
      in_transaction (mark_operation_as_processed hub op.operation_idx)
      status ← of_result (build_voting_status op response)
      give (h.dropped details status)

    unfoldable pub handle_operation : OperationResponse → List FileResponse → Process S Operation
    handle_operation op files = do
      details ← h.extract_details files
      by_vote_status op.status op.my_response op files details

  abbrev pub no_directory : String → List FileResponse → Process S (Unit {0})
  no_directory txid files = give tt

  -- the transaction's own TXID
  abbrev pub ends_with : (String → Process S (Unit {0})) → String → Process S String
  ends_with end psbt = end psbt >> give (hub.compute_txid psbt)

  abbrev pub create_utxos_handler : Handler S (Unit {0})
  create_utxos_handler = record {
    extract_details = λ files. give tt;
    to_review = λ psbt d s. create_utxos_to_review psbt s;
    waits = λ d s. create_utxos_pending s;
    completed = λ txid d s. create_utxos_completed txid s;
    dropped = λ d s. create_utxos_discarded s;
    finalize_and_execute = ends_with (λ p. call (hub.create_utxos_end p));
    reconstruct_transfer_directory = no_directory;
  }

  abbrev pub send_btc_handler : Handler S (Unit {0})
  send_btc_handler = record {
    extract_details = λ files. give tt;
    to_review = λ psbt d s. send_btc_to_review psbt s;
    waits = λ d s. send_btc_pending s;
    completed = λ txid d s. send_btc_completed txid s;
    dropped = λ d s. send_btc_discarded s;
    finalize_and_execute = ends_with (λ p. call (hub.send_btc_end p));
    reconstruct_transfer_directory = no_directory;
  }

  -- the path of the fascia and the data of the operation
  unfoldable pub read_details : List FileResponse → Process S (String × OperationData)
  read_details files = do
    fascia_path ← of_result (find_file fascia files)
    path ← of_result (find_file operation_data files)
    data' ← call (hub.read_operation_data path)
    give (fascia_path, data')

  unfoldable pub send_details : List FileResponse → Process S SendDetails
  unfolding read_details
  send_details files = do
    (fascia_path, d) ← read_details files
    give (record {
      fascia_path = fascia_path;
      min_confirmations = d.min_confirmations;
      entropy = d.entropy;
      is_donation = d.donation;
    })

  -- of an inflation and of a burn, which are of one asset
  unfoldable pub inflate_details : List FileResponse → Process S InflateDetails
  unfolding read_details
  inflate_details files = do
    (fascia_path, d) ← read_details files
    if d.transfers == 1
        then give (record {
          fascia_path = fascia_path;
          min_confirmations = d.min_confirmations;
          entropy = d.entropy;
        })
        else fails multisig_unexpected_data

  abbrev pub send_rgb_handler : Handler S SendDetails
  send_rgb_handler = record {
    extract_details = send_details;
    to_review = send_to_review;
    waits = send_pending;
    completed = send_completed;
    dropped = send_discarded;
    finalize_and_execute = λ p. call (hub.send_end p);
    reconstruct_transfer_directory =
        λ txid files. call (hub.reconstruct_rgb_transfer_directory txid files);
  }

  abbrev pub inflate_handler : Handler S InflateDetails
  inflate_handler = record {
    extract_details = inflate_details;
    to_review = inflation_to_review;
    waits = inflation_pending;
    completed = inflation_completed;
    dropped = inflation_discarded;
    finalize_and_execute = λ p. call (hub.inflate_end p);
    reconstruct_transfer_directory =
        λ txid files. call (hub.reconstruct_rgb_transfer_directory txid files);
  }

  abbrev pub burn_handler : Handler S InflateDetails
  burn_handler = record {
    extract_details = inflate_details;
    to_review = burn_to_review;
    waits = burn_pending;
    completed = burn_completed;
    dropped = burn_discarded;
    finalize_and_execute = λ p. call (hub.burn_end p);
    reconstruct_transfer_directory =
        λ txid files. call (hub.reconstruct_rgb_transfer_directory txid files);
  }

  -- an operation that needs no votes: approved, and processed in one transaction
  abbrev pub auto_approved :
      OperationStatus → ℕ → Process S String → (String → Operation) → Process S Operation
  auto_approved approved operation_idx accept shown =
      in_transaction (accept >>= λ t. mark_operation_as_processed hub operation_idx >> give t)
      >>= λ t. give (shown t)
  auto_approved pending operation_idx accept shown = fails multisig_unexpected_data
  auto_approved discarded operation_idx accept shown = fails multisig_unexpected_data

  abbrev pub by_type : OperationType → OperationResponse → List FileResponse → Process S Operation
  by_type create_utxos op files = handle_operation create_utxos_handler op files
  by_type send_btc op files = handle_operation send_btc_handler op files
  by_type send_rgb op files = handle_operation send_rgb_handler op files
  by_type inflation op files = handle_operation inflate_handler op files
  by_type burn op files = handle_operation burn_handler op files
  by_type issuance op files =
      auto_approved op.status op.operation_idx (call (hub.accept_issuance_consignment files))
        issuance_completed
  by_type blind_receive op files =
      auto_approved op.status op.operation_idx (call (hub.import_receive_data files blind_receive))
        blind_receive_completed
  by_type witness_receive op files =
      auto_approved op.status op.operation_idx
        (call (hub.import_receive_data files witness_receive)) witness_receive_completed

  unfoldable pub process_operation : OperationResponse → Process S Operation
  process_operation op = do
    files ← get_or_download_files hub op.files
    by_type op.operation_type op files
