-- ===== src/Multisig/Order.antt =====
-- When the index of the last processed operation of a multisig wallet changes (`process_operation` and
-- `sync_with_hub` of src/wallet/multisig.rs): operations are processed in the order of the hub.
use rgb_lib.Prelude.{ℕ, String, Bool, true, false, List, [], ◌∷◌, Option, none, some}
use rgb_lib.Result.{multisig_unexpected_data}
use rgb_lib.Multisig.{
  response_psbt, FileMetadata, FileResponse, OperationStatus, pending, approved, discarded,
  OperationType, create_utxos, issuance, send_rgb, send_btc, inflation, blind_receive,
  witness_receive, burn, OperationResponse, Operation, issuance_completed, blind_receive_completed,
  witness_receive_completed,
}
use rgb_lib.Multisig.Process.{
  Process, MarkReply, marked, already_marked, mark_failed, Hub, give, ◌>>=◌, ◌>>◌, in_transaction,
}
use rgb_lib.Multisig.Files.{
  type_is, extract_psbt_string, combine_loop, combined_or_fails, combine_psbts_from_files,
  ignore_marked, mark_operation_as_processed, get_or_download_files,
}
use rgb_lib.Multisig.Handlers.{
  Handler, complete_operation, by_vote_status, handle_operation, create_utxos_handler,
  send_btc_handler, send_rgb_handler, inflate_handler, burn_handler, read_details, send_details,
  inflate_details, auto_approved, by_type, process_operation,
}
use rgb_lib.Multisig.Marks.{
  Keeps, Marks, keeping, >>=-Keeps, give-Keeps, call-Keeps, map_or-Keeps, if-Keeps,
  set_last_processed-Marks, fails-Marks, Keeps->>=-Marks, Marks->>=-Keeps, in_transaction-Marks,
}

-- the calls of a handler
record Passive {S D : Type 0} (h : Handler S D) : Type 0 where
  pub details : (files : List FileResponse) → Keeps (h.extract_details files)
  pub execute : (psbt : String) → Keeps (h.finalize_and_execute psbt)
  pub directory :
      (txid : String) (files : List FileResponse)
      → Keeps (h.reconstruct_transfer_directory txid files)

-- pending operations are not marked, others are
abbrev pub Handled : {S A : Type 0} → OperationStatus → ℕ → Process S A → Type 0
Handled pending i m = Keeps m
Handled approved i m = Marks i m
Handled discarded i m = Marks i m

module _ {S : Type 0} (hub : Hub S) where
  extract_psbt_string-Keeps : (l : List FileResponse) → Keeps (extract_psbt_string hub l)
  unfolding extract_psbt_string
  extract_psbt_string-Keeps l = search keeping

  combine_loop-Keeps :
      (l : List FileResponse) (psbt : Option String) (combined : Bool)
      → Keeps (combine_loop hub l psbt combined)
  unfolding combine_loop
  combine_loop-Keeps [] psbt combined = search keeping
  combine_loop-Keeps (f ∷ l) psbt combined =
      if-Keeps (type_is f.type response_psbt)
        (>>=-Keeps (search keeping) λ p.
          map_or-Keeps psbt (combine_loop-Keeps l (some p) combined) λ first.
            map_or-Keeps (hub.combine first p) (search keeping)
              λ both. combine_loop-Keeps l (some both) true)
        (combine_loop-Keeps l psbt combined)

  combined-Keeps : (r : Option String × Bool) → Keeps (combined_or_fails hub r)
  combined-Keeps (some p, true) = search keeping
  combined-Keeps (none, true) = search keeping
  combined-Keeps (some p, false) = search keeping
  combined-Keeps (none, false) = search keeping

  combine_psbts_from_files-Keeps : (l : List FileResponse) → Keeps (combine_psbts_from_files hub l)
  unfolding combine_psbts_from_files
  combine_psbts_from_files-Keeps l = >>=-Keeps (combine_loop-Keeps l none false) combined-Keeps

  ignore_marked-Keeps : (r : MarkReply) → Keeps (ignore_marked hub r)
  ignore_marked-Keeps marked = search keeping
  ignore_marked-Keeps already_marked = search keeping
  ignore_marked-Keeps (mark_failed e) = search keeping

  mark-Marks : (i : ℕ) → Marks i (mark_operation_as_processed hub i)
  unfolding mark_operation_as_processed ◌>>◌
  mark-Marks i = Keeps->>=-Marks (call-Keeps hub.is_cosigner) λ cosigner.
      Keeps->>=-Marks
        (if-Keeps cosigner (>>=-Keeps (search keeping) ignore_marked-Keeps) (search keeping))
        λ _. set_last_processed-Marks

  get_or_download_files-Keeps : (l : List FileMetadata) → Keeps (get_or_download_files hub l)
  unfolding get_or_download_files
  get_or_download_files-Keeps [] = search keeping
  get_or_download_files-Keeps (m ∷ ms) =
      >>=-Keeps (search keeping)
        λ path. >>=-Keeps (get_or_download_files-Keeps ms) λ rest. search keeping

  -- something, then the mark, in a transaction
  marked_after-Marks :
      {A : Type 0} {m : Process S A} (i : ℕ)
      → Keeps m
      → Marks i (in_transaction (m >>= λ t. mark_operation_as_processed hub i >> give t))
  unfolding ◌>>◌
  marked_after-Marks i h =
      in_transaction-Marks (Keeps->>=-Marks h λ t. Marks->>=-Keeps (mark-Marks i) λ _. give-Keeps t)

  module _ {D : Type 0} (h : Handler S D) (passive : Passive h) where
    complete_operation-Marks :
        (op : OperationResponse) (files : List FileResponse) (d : D)
        → Marks op.operation_idx (complete_operation hub h op files d)
    unfolding ◌>>◌
    complete_operation-Marks op files d =
        Keeps->>=-Marks (combine_psbts_from_files-Keeps files) λ combined.
          Keeps->>=-Marks (call-Keeps (hub.finalize_psbt combined)) λ psbt.
            Keeps->>=-Marks (passive.directory (hub.compute_txid psbt) files) λ _.
              Marks->>=-Keeps (marked_after-Marks op.operation_idx (passive.execute psbt))
                λ txid. search keeping

    by_vote_status-Handled :
        (status : OperationStatus) (response : Option Bool) (op : OperationResponse)
        (files : List FileResponse) (d : D)
        → Handled status op.operation_idx (by_vote_status hub h status response op files d)
    unfolding ◌>>◌
    by_vote_status-Handled pending none op files d =
        >>=-Keeps (extract_psbt_string-Keeps files) λ psbt. search keeping
    by_vote_status-Handled pending (some response) op files d = search keeping
    by_vote_status-Handled approved response op files d = complete_operation-Marks op files d
    by_vote_status-Handled discarded response op files d =
        Marks->>=-Keeps (in_transaction-Marks (mark-Marks op.operation_idx)) λ _. search keeping

  Handled-after :
      {A B : Type 0} (status : OperationStatus) (i : ℕ) {m : Process S A} (f : A → Process S B)
      → Keeps m
      → ((a : A) → Handled status i (f a))
      → Handled status i (m >>= f)
  Handled-after pending i f h k = >>=-Keeps h k
  Handled-after approved i f h k = Keeps->>=-Marks h k
  Handled-after discarded i f h k = Keeps->>=-Marks h k

  handle_operation-Handled :
      {D : Type 0} (h : Handler S D)
      → Passive h
      → (op : OperationResponse) (files : List FileResponse)
      → Handled op.status op.operation_idx (handle_operation hub h op files)
  unfolding handle_operation
  handle_operation-Handled h p op files =
      Handled-after op.status op.operation_idx
        (λ d. by_vote_status hub h op.status op.my_response op files d) (p.details files)
        λ d. by_vote_status-Handled h p op.status op.my_response op files d

  auto_approved-Handled :
      (status : OperationStatus) (i : ℕ) (accept : Process S String) (shown : String → Operation)
      → Keeps accept
      → Handled status i (auto_approved hub status i accept shown)
  auto_approved-Handled approved i accept shown h =
      Marks->>=-Keeps (marked_after-Marks i h) λ t. search keeping
  auto_approved-Handled pending i accept shown h = search keeping
  auto_approved-Handled discarded i accept shown h = fails-Marks multisig_unexpected_data

  create_utxos-Passive : Passive (create_utxos_handler hub)
  create_utxos-Passive = record {
    details = λ files. search keeping;
    execute = λ psbt. search keeping;
    directory = λ txid files. search keeping;
  }

  send_btc-Passive : Passive (send_btc_handler hub)
  send_btc-Passive = record {
    details = λ files. search keeping;
    execute = λ psbt. search keeping;
    directory = λ txid files. search keeping;
  }

  send_rgb-Passive : Passive (send_rgb_handler hub)
  unfolding send_details read_details
  send_rgb-Passive = record {
    details = λ files. search keeping depth 9;
    execute = λ psbt. search keeping;
    directory = λ txid files. search keeping;
  }

  inflate_details-Keeps : (files : List FileResponse) → Keeps (inflate_details hub files)
  unfolding inflate_details read_details
  inflate_details-Keeps files = search keeping depth 9

  inflate-Passive : Passive (inflate_handler hub)
  inflate-Passive = record {
    details = inflate_details-Keeps;
    execute = λ psbt. search keeping;
    directory = λ txid files. search keeping;
  }

  burn-Passive : Passive (burn_handler hub)
  burn-Passive = record {
    details = inflate_details-Keeps;
    execute = λ psbt. search keeping;
    directory = λ txid files. search keeping;
  }

  by_type-Handled :
      (type : OperationType) (op : OperationResponse) (files : List FileResponse)
      → Handled op.status op.operation_idx (by_type hub type op files)
  by_type-Handled create_utxos op files =
      handle_operation-Handled (create_utxos_handler hub) create_utxos-Passive op files
  by_type-Handled send_btc op files =
      handle_operation-Handled (send_btc_handler hub) send_btc-Passive op files
  by_type-Handled send_rgb op files =
      handle_operation-Handled (send_rgb_handler hub) send_rgb-Passive op files
  by_type-Handled inflation op files =
      handle_operation-Handled (inflate_handler hub) inflate-Passive op files
  by_type-Handled burn op files = handle_operation-Handled (burn_handler hub) burn-Passive op files
  by_type-Handled issuance op files =
      auto_approved-Handled op.status op.operation_idx _ issuance_completed
        (call-Keeps (hub.accept_issuance_consignment files))
  by_type-Handled blind_receive op files =
      auto_approved-Handled op.status op.operation_idx _ blind_receive_completed
        (call-Keeps (hub.import_receive_data files blind_receive))
  by_type-Handled witness_receive op files =
      auto_approved-Handled op.status op.operation_idx _ witness_receive_completed
        (call-Keeps (hub.import_receive_data files witness_receive))

  pub process_operation-Handled :
      (op : OperationResponse) → Handled op.status op.operation_idx (process_operation hub op)
  unfolding process_operation
  process_operation-Handled op =
      Handled-after op.status op.operation_idx (λ files. by_type hub op.operation_type op files)
        (get_or_download_files-Keeps op.files) λ files. by_type-Handled op.operation_type op files
