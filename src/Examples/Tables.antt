-- ===== src/Examples/Tables.antt =====
-- Test data: a wallet with two settled UTXOs of one asset and a failed transfer on a third.
use rgb_lib.Prelude.{ℕ, String, Bool, true, false, List, [], ◌∷◌, Option, none, some}
use rgb_lib.Prelude.Int.{pos}
use rgb_lib.Status.{receive, TransferStatus, settled, failed}
use rgb_lib.Assignment.{Assignment, fungible, AssignmentsCollection}
use rgb_lib.Database.Rows.{
  DbTxo, DbColoring, DbAssetTransfer, DbBatchTransfer, DbTransfer, DbData, LocalRgbAllocation,
  LocalUnspent, blind,
}

abbrev pub txo : ℕ → Bool → DbTxo
txo i there = record {
  idx = i;
  txid = "tx";
  vout = i;
  btc_amount = "1000";
  spent = false;
  exists = there;
  pending_witness = false;
}

abbrev pub batch : ℕ → TransferStatus → DbBatchTransfer
batch i s = record {
  idx = i;
  txid = none;
  status = s;
  created_at = pos 0;
  updated_at = pos 0;
  expiration = none;
  min_confirmations = 1;
  incoming = true;
}

abbrev pub asset_transfer : ℕ → ℕ → Option String → DbAssetTransfer
asset_transfer i b asset_id = record {
  idx = i;
  user_driven = true;
  batch_transfer_idx = b;
  asset_id = asset_id;
}

abbrev pub coloring : ℕ → ℕ → ℕ → Assignment → DbColoring
coloring i t a assignment = record {
  idx = i;
  txo_idx = t;
  asset_transfer_idx = a;
  type = receive;
  assignment = assignment;
}

-- a blind receive on the UTXO 2 that failed
abbrev pub failed_receive : DbTransfer
failed_receive = record {
  idx = 1;
  asset_transfer_idx = 2;
  requested_assignment = some (fungible 5);
  recipient_type = some (blind (record { txid = "tx"; vout = 2 }));
  recipient_id = none;
  ack = none;
  invoice_string = none;
}

abbrev pub tables : DbData
tables = record {
  batch_transfers = batch 1 settled ∷ batch 2 failed ∷ [];
  asset_transfers = asset_transfer 1 1 (some "rgb:a") ∷ asset_transfer 2 2 none ∷ [];
  transfers = failed_receive ∷ [];
  colorings =
      coloring 1 1 1 (fungible 10)
      ∷ coloring 2 2 1 (fungible 30)
      ∷ coloring 3 3 2 (fungible 7)
      ∷ [];
  txos = txo 1 true ∷ txo 2 true ∷ txo 3 false ∷ [];
}

abbrev pub allocation : TransferStatus → Assignment → LocalRgbAllocation
allocation s assignment = record {
  asset_id = some "rgb:a";
  assignment = assignment;
  status = s;
  incoming = true;
  txo_spent = false;
}

abbrev pub unspent : ℕ → List LocalRgbAllocation → LocalUnspent
unspent i l = record { utxo = txo i true; rgb_allocations = l; pending_blinded = 0 }

-- the two settled UTXOs
abbrev pub unspents : List LocalUnspent
unspents =
    unspent 1 (allocation settled (fungible 10) ∷ [])
    ∷ unspent 2 (allocation settled (fungible 30) ∷ [])
    ∷ []

abbrev pub needs : ℕ → AssignmentsCollection
needs n = record { fungible = n; non_fungible = false; inflation = 0 }
