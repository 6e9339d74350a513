-- ===== src/Examples/Multisig.antt =====
-- Runs of a multisig wallet on test data: a hub that has an approved operation that creates UTXOs at
-- every index, which two cosigners have signed.
use rgb_lib.Prelude.{ℕ, Option, ◌≡◌, refl, sym, ap, true, false, none, some, [], ◌∷◌, ◌⊎◌}
use rgb_lib.Result.{ok, panic, ok_injective}
use rgb_lib.Multisig.{
  operation_psbt, response_psbt, approved, pending, create_utxos, OperationResponse, OperationInfo,
  create_utxos_completed, ack,
}
use rgb_lib.Multisig.Process.{Wallet, Hub, marked}
use rgb_lib.Multisig.Handlers.{process_operation}
use rgb_lib.Multisig.Sync.{prepare, sync_with_hub}
use rgb_lib.Multisig.Advance.{Advances, process_operation-Advances}
use rgb_lib.Multisig.Next.{Indexed, Turn, sync_with_hub-Turn}
use rgb_lib.Multisig.Respond.{respond_to_operation}
use rgb_lib.Multisig.Posted.{Allowed, with_post, respond_to_operation-Allowed}
use rgb_lib.Examples.Refresh.{answers, world}

abbrev operation : ℕ → OperationResponse
operation i = record {
  operation_idx = i;
  initiator_xpub = "x";
  operation_type = create_utxos;
  status = approved;
  acked_by = "x" ∷ "y" ∷ [];
  nacked_by = [];
  threshold = some 2;
  my_response = some true;
  files =
      record { file_id = "p"; type = operation_psbt }
      ∷ record { file_id = "q"; type = response_psbt }
      ∷ record { file_id = "r"; type = response_psbt }
      ∷ [];
}

abbrev hub : Hub (Unit {0})
hub = record {
  get_operation_by_idx = λ i w. (ok (some (operation i)), w);
  respond_to_operation = λ i r w. (ok (operation i), w);
  mark_operation_processed = λ i w. (ok marked, w);
  is_cosigner = λ w. (ok true, w);
  get_or_download_file = λ f w. (ok f.file_id, w);
  read_psbt = λ p w. (ok p, w);
  read_operation_data = λ p w.
      (ok (record { transfers = 1; min_confirmations = 1; entropy = 0; donation = false }), w);
  combine = λ p q. some p;
  finalize_psbt = λ p w. (ok p, w);
  compute_txid = λ p. "t";
  parse_psbt = λ p. ok p;
  signature_count = λ p. ok 1;
  reconstruct_rgb_transfer_directory = λ t fs w. (ok tt, w);
  create_utxos_end = λ p w. (ok tt, w);
  send_btc_end = λ p w. (ok tt, w);
  send_end = λ p w. (ok "t", w);
  inflate_end = λ p w. (ok "t", w);
  burn_end = λ p w. (ok "t", w);
  accept_issuance_consignment = λ fs w. (ok "a", w);
  import_receive_data = λ fs t w. (ok "d", w);
  clear_cache = λ w. (ok tt, w);
  sync_wallet = λ colored w. (ok tt, w);
}

abbrev wallet : Wallet (Unit {0})
wallet = record { world = world; last_processed = some 4 }

abbrev index_of : Option OperationResponse → ℕ
index_of none = 0
index_of (some op) = op.operation_idx

hub-Indexed : Indexed hub
hub-Indexed i op w e = sym (ap index_of (ok_injective e))

process_operation-Advances_example :
    Advances approved 5 (some 4) (process_operation hub (operation 5) wallet)
process_operation-Advances_example = process_operation-Advances hub (operation 5) wallet

processed_test : (process_operation hub (operation 5) wallet).1.last_processed ≡ some 5
unfolding process_operation rgb_lib.Multisig.Process.◌>>=◌
    rgb_lib.Multisig.Files.get_or_download_files rgb_lib.Multisig.Process.call
    rgb_lib.Multisig.Process.give rgb_lib.Multisig.Handlers.handle_operation
    rgb_lib.Multisig.Files.combine_psbts_from_files rgb_lib.Multisig.Process.◌>>◌
    rgb_lib.Multisig.Process.in_transaction rgb_lib.Multisig.Files.mark_operation_as_processed
    rgb_lib.Multisig.Process.set_last_processed rgb_lib.Multisig.Process.of_result
    rgb_lib.Multisig.Files.build_voting_status
processed_test = refl

sync_with_hub-Turn_example :
    Turn
      ((hub.get_operation_by_idx 5 (prepare answers [] hub wallet).1.world).0)
      (some 4)
      ((sync_with_hub answers [] hub wallet).0)
      ((sync_with_hub answers [] hub wallet).1)
sync_with_hub-Turn_example = sync_with_hub-Turn answers [] hub wallet hub-Indexed

-- the operation of this hub waits for the answer of this wallet
abbrev asking_hub : Hub (Unit {0})
asking_hub = record hub {
  get_operation_by_idx =
      λ i w. (ok (some (record (operation i) { status = pending; my_response = none })), w);
}

respond_to_operation-Allowed_example :
    Allowed asking_hub 5 (ack "p") world
    ⊎ (respond_to_operation (with_post asking_hub λ i r w. (panic, w)) 5 (ack "p") wallet
        ≡ respond_to_operation asking_hub 5 (ack "p") wallet)
respond_to_operation-Allowed_example =
    respond_to_operation-Allowed asking_hub (λ i r w. (panic, w)) 5 (ack "p") wallet
