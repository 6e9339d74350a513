-- ===== src/Examples/Refresh.antt =====
-- Runs of the refresh on test data: services that always answer the same, an outgoing transfer that its
-- recipient has ACKed, one that waits for a broadcast and one that is settled.
use mathlib.Core.List.{Memᴰ}
use rgb_lib.Refresh.Finished.{finished-kept}
use rgb_lib.Prelude.{inl, ◌≡◌, refl, inr, true, false, none, some, [], ◌∷◌, all}
use rgb_lib.Prelude.Int.{pos}
use rgb_lib.Status.{waiting_counterparty, waiting_broadcast, waiting_confirmations, settled, nia}
use rgb_lib.Result.{ok, err, cannot_fail_batch_transfer}
use rgb_lib.Database.Rows.{DbBatchTransfer, DbTransfer, DbTxo}
use rgb_lib.Database.Updates.{NewTxo, update_batch_transfer}
use rgb_lib.Action.{pure, raise, ask, request, reads, writes, unwrap, ◌>>=◌, ◌>>◌, World, DbAsset}
use rgb_lib.Services.{Services, accepted, posted, invalid, Tx}
use rgb_lib.Refresh.Hub.{WalletKind, set_hub_accept_status}
use rgb_lib.Refresh.Broadcast.{
  broadcast_tx, broadcast_psbt, broadcast_and_update_rgb, update_db_colored_txos_from_bdk,
  save_outputs, spend_inputs,
}
use rgb_lib.Refresh.Sending.{complete_batch, try_complete_batch, has_ack, is_expired}
use rgb_lib.Refresh.Run.{refresh_transfer, refresh, fail_transfers}
use rgb_lib.Refresh.Quiet.{batches}
use rgb_lib.Refresh.Moves.{Moved}
use rgb_lib.Refresh.Visits.{Progress}
use rgb_lib.Refresh.Steps.Life.{LegalFor, refresh_transfer-Moved}
use rgb_lib.Refresh.Steps.Complete.{try_complete_batch-safe}
use rgb_lib.Refresh.Progress.{refresh-Progress}
use rgb_lib.Refresh.Failing.{EndingFor}
use rgb_lib.Refresh.Ending.{fail_transfers-Progress}
use rgb_lib.Refresh.Unfailed.{fail_transfers-refused}

abbrev transaction : Tx
transaction = record { txid = "t1"; inputs = []; output_scripts = []; signed = false }

abbrev new_row : DbAsset
new_row = record { id = "a"; schema = nia; known_circulating_supply = none; reject_list_url = none }

abbrev pub answers : Services (Unit {0})
answers = record {
  now = λ s. (pos 100, s);
  fresh_idx = λ s. (50, s);
  get_transfer_status = λ i s. (ok none, s);
  set_transfer_status = λ i b s. (ok tt, s);
  check_is_cosigner = λ s. (ok tt, s);
  proxy_client = λ u s. (ok tt, s);
  get_ack = λ u r s. (ok (some true), s);
  post_ack = λ u r b s. (posted, s);
  get_consignment = λ u r s. (none, s);
  broadcast = λ t s. (accepted, s);
  get_tx_confirmations = λ t s. (ok (some 1), s);
  get_latest_block_height = λ s. (ok 700, s);
  resolve_witness_height = λ t s. (ok (some 600), s);
  sync_colored = λ s. (ok tt, s);
  apply_unconfirmed_tx = λ t s. (ok tt, s);
  list_output = λ s. ([], s);
  load_signed_psbt = λ t s. (ok tt, s);
  extract_tx = λ t s. (ok transaction, s);
  load_fascia = λ t s. (ok tt, s);
  consume_fascia = λ t s. (ok tt, s);
  read_consignment_meta = λ r s. (none, s);
  decode_base64 = λ t. some t;
  write_consignment = λ r b s. (ok tt, s);
  write_consignment_meta = λ r m s. (ok tt, s);
  load_consignment = λ r s. (none, s);
  save_valid_consignment = λ r c s. (ok tt, s);
  load_valid_consignment = λ r s. (err cannot_fail_batch_transfer, s);
  rgb_runtime = λ s. (ok tt, s);
  schema = λ c. ok nia;
  is_txid = λ t. true;
  validate = λ c t h s. (invalid, s);
  accept_transfer = λ c s. (ok tt, s);
  known_supply = λ c s. (ok 0, s);
  decimal = λ n. "0";
  os_asset = 4000;
  os_inflation = 4010;
  parse_opout = λ t. none;
  get_reject_list = λ u s. (ok [], s);
  import_contract = λ c s. (ok tt, s);
  new_asset = λ c s. (ok new_row, s);
  media_exists = λ d s. (true, s);
  get_media = λ u d s. (ok none, s);
  write_media = λ d b s. (ok tt, s);
  remove_media = λ d s. (ok tt, s);
  read_file = λ p s. (ok p, s);
  hash_bytes_hex = λ b. b;
  secret_seal = λ r. none;
  recipient_script = λ r. ok none;
  no_transports = λ i. false;
}

-- sent and ACKed; to be broadcast by the counterparty until 200; settled
abbrev sent : DbBatchTransfer
sent = record {
  idx = 1;
  txid = some "t1";
  status = waiting_counterparty;
  created_at = pos 0;
  updated_at = pos 0;
  expiration = some (pos 200);
  min_confirmations = 1;
  incoming = false;
}

abbrev open_receive : DbBatchTransfer
open_receive = record {
  idx = 2;
  txid = some "t2";
  status = waiting_broadcast;
  created_at = pos 0;
  updated_at = pos 0;
  expiration = some (pos 200);
  min_confirmations = 1;
  incoming = true;
}

abbrev done : DbBatchTransfer
done = record {
  idx = 3;
  txid = some "t3";
  status = settled;
  created_at = pos 0;
  updated_at = pos 0;
  expiration = none;
  min_confirmations = 1;
  incoming = true;
}

abbrev recipient : DbTransfer
recipient = record {
  idx = 11;
  asset_transfer_idx = 21;
  requested_assignment = none;
  recipient_type = none;
  recipient_id = some "r";
  ack = some true;
  invoice_string = none;
}

abbrev pub known_txo : DbTxo
known_txo = record {
  idx = 7;
  txid = "t9";
  vout = 1;
  btc_amount = "1000";
  spent = false;
  exists = false;
  pending_witness = true;
}

abbrev pub world : World (Unit {0})
world = record {
  store = record {
    tables = record {
      batch_transfers = sent ∷ open_receive ∷ done ∷ [];
      asset_transfers =
          record { idx = 21; user_driven = true; batch_transfer_idx = 1; asset_id = some "a" } ∷ [];
      transfers = recipient ∷ [];
      colorings = [];
      txos = known_txo ∷ [];
    };
    endpoints = [];
    transport_endpoints = [];
    assets = [];
    pending_witness_scripts = [];
  };
  outside = tt;
}

abbrev broadcasted : DbBatchTransfer
broadcasted = record sent { status = waiting_confirmations; updated_at = pos 100 }

-- a run that broadcasts the transfer
completes :
    (try_complete_batch answers WalletKind.singlesig sent (recipient ∷ []) world).0
    ≡ ok (some broadcasted)
unfolding try_complete_batch set_hub_accept_status complete_batch broadcast_and_update_rgb
    broadcast_psbt broadcast_tx update_db_colored_txos_from_bdk save_outputs spend_inputs
    update_batch_transfer pure raise ask request reads writes unwrap ◌>>=◌ ◌>>◌
completes = refl

refresh_transfer-Moved_example :
    let r =
      refresh_transfer answers WalletKind.singlesig [] sent world.store.tables [] true world in
    Moved (LegalFor sent) 1 (batches world) (r.0) (batches (r.1))
refresh_transfer-Moved_example =
    refresh_transfer-Moved answers WalletKind.singlesig [] sent world.store.tables [] true world

refresh-Progress_example :
    Progress LegalFor
      (batches world)
      (batches ((refresh answers WalletKind.singlesig [] none [] true world).1))
refresh-Progress_example =
    refresh-Progress answers WalletKind.singlesig [] none [] true world (refl, (refl, (refl, tt)))

fail_transfers-Progress_example :
    Progress EndingFor
      (batches world)
      (batches ((fail_transfers answers WalletKind.singlesig [] none false true world).1))
fail_transfers-Progress_example =
    fail_transfers-Progress answers WalletKind.singlesig [] none false true world
      (refl, (refl, (refl, tt)))

try_complete_batch-safe_example :
    (all (has_ack true) (recipient ∷ []) ≡ true) × (is_expired (pos 100) sent ≡ false)
try_complete_batch-safe_example =
    try_complete_batch-safe answers WalletKind.singlesig sent (recipient ∷ []) world broadcasted
      completes refl

fail_transfers-refused_example :
    let r = fail_transfers answers WalletKind.singlesig [] (some 2) false true world in
    ((r.0 ≡ err cannot_fail_batch_transfer) × (r.1.store ≡ world.store))
fail_transfers-refused_example =
    fail_transfers-refused answers [] 2 false world open_receive refl (inr (refl, refl))

abbrev seen_again : NewTxo
seen_again = record {
  txid = "t9";
  vout = 1;
  btc_amount = "0";
  spent = false;
  exists = true;
  pending_witness = false;
}

finished-kept_example :
    Memᴰ done (batches ((refresh answers WalletKind.singlesig [] none [] true world).1))
    × Memᴰ done (batches ((fail_transfers answers WalletKind.singlesig [] none false true world).1))
finished-kept_example =
    finished-kept answers WalletKind.singlesig [] world done false true none none []
      (refl, (refl, (refl, tt))) (Memᴰ.tail (Memᴰ.tail (Memᴰ.head refl))) (inl refl)
