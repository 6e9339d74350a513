-- ===== src/Send/Rows.antt =====
-- The inserts of src/database/mod.rs, and `save_transfers` of src/wallet/online.rs with what it calls.
use rgb_lib.Prelude.{ℕ, String, Bool, false, [], ◌∷◌, ◌++◌, Option, none, some, find, str_eq, ◌==◌}
use rgb_lib.Status.{TransferStatus}
use rgb_lib.Assignment.{Assignment}
use rgb_lib.Result.{internal}
use rgb_lib.Database.Rows.{RecipientTypeFull, DbTxo, DbAssetTransfer, DbBatchTransfer, DbTransfer}
use rgb_lib.Database.Updates.{NewTxo, with_tables}
use rgb_lib.Action.{
  DbTransportEndpoint, Action, map_or, pure, raise, ◌>>=◌, ◌>>◌, ask, reads, writes,
}
use rgb_lib.Services.{Services}
use rgb_lib.Send.{LocalTransportEndpoint, InfoBatchTransfer}

-- the columns of a TXO that is saved before its transaction is known to the network
abbrev pub unknown_txo : String → ℕ → String → NewTxo
unknown_txo txid vout sats = record {
  txid = txid;
  vout = vout;
  btc_amount = sats;
  spent = false;
  exists = false;
  pending_witness = false;
}

-- `DbTxoActMod::from(DbTxo)`: the columns but the key
abbrev pub columns : DbTxo → NewTxo
columns t = record {
  txid = t.txid;
  vout = t.vout;
  btc_amount = t.btc_amount;
  spent = t.spent;
  exists = t.exists;
  pending_witness = t.pending_witness;
}

-- the columns of a transfer that a sender sets
pub record Requested : Type 0 where
  pub recipient_id : Option String
  pub recipient_type : Option RecipientTypeFull
  pub requested_assignment : Assignment

module _ {S : Type 0} (env : Services S) where
  unfoldable pub set_batch_transfer : String → InfoBatchTransfer → TransferStatus → Action S ℕ
  set_batch_transfer txid info status = do
    i ← ask env.fresh_idx
    let row : DbBatchTransfer = record {
      idx = i;
      txid = some txid;
      status = status;
      created_at = info.created_at;
      updated_at = info.created_at;
      expiration = info.expiration_timestamp;
      min_confirmations = info.min_confirmations;
      incoming = false;
    }
    writes (with_tables λ d. record d { batch_transfers = d.batch_transfers ++ row ∷ [] })
    pure i

  unfoldable pub set_asset_transfer : Bool → ℕ → String → Action S ℕ
  set_asset_transfer user_driven batch_transfer_idx asset_id = do
    i ← ask env.fresh_idx
    let row : DbAssetTransfer = record {
      idx = i;
      user_driven = user_driven;
      batch_transfer_idx = batch_transfer_idx;
      asset_id = some asset_id;
    }
    writes (with_tables λ d. record d { asset_transfers = d.asset_transfers ++ row ∷ [] })
    pure i

  unfoldable pub set_transfer : ℕ → Requested → Action S ℕ
  set_transfer asset_transfer_idx r = do
    i ← ask env.fresh_idx
    let row : DbTransfer = record {
      idx = i;
      asset_transfer_idx = asset_transfer_idx;
      requested_assignment = some r.requested_assignment;
      recipient_type = r.recipient_type;
      recipient_id = r.recipient_id;
      ack = none;
      invoice_string = none;
    }
    writes (with_tables λ d. record d { transfers = d.transfers ++ row ∷ [] })
    pure i

  unfoldable pub get_transport_endpoint : String → Action S (Option DbTransportEndpoint)
  get_transport_endpoint endpoint =
      reads
        λ s. find (λ (t : DbTransportEndpoint). str_eq t.endpoint endpoint) s.transport_endpoints

  unfoldable pub set_transport_endpoint : String → Action S ℕ
  set_transport_endpoint endpoint = do
    i ← ask env.fresh_idx
    writes λ s. record s {
      transport_endpoints = s.transport_endpoints ++ record { idx = i; endpoint = endpoint } ∷ [];
    }
    pure i

  -- a key that refers to no transport endpoint is refused
  unfoldable pub set_transfer_transport_endpoint : ℕ → ℕ → Bool → Action S (Unit {0})
  set_transfer_transport_endpoint transfer_idx transport_endpoint_idx used = do
    i ← ask env.fresh_idx
    found ← reads λ s.
        find (λ (t : DbTransportEndpoint). t.idx == transport_endpoint_idx) s.transport_endpoints
    map_or found (raise internal) λ t. writes λ s. record s {
      endpoints =
          s.endpoints
          ++ record { idx = i; transfer_idx = transfer_idx; used = used; endpoint = t.endpoint }
            ∷ [];
    }

  unfoldable pub save_transfer_transport_endpoint : ℕ → LocalTransportEndpoint → Action S (Unit {0})
  save_transfer_transport_endpoint transfer_idx e = do
    known ← get_transport_endpoint e.endpoint
    i ← map_or known (set_transport_endpoint e.endpoint) (λ t. pure t.idx)
    set_transfer_transport_endpoint transfer_idx i e.used
