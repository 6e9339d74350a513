-- ===== src/Database/Updates.antt =====
-- The updates and inserts of src/database/mod.rs that a refresh makes. An update writes the columns
-- that are set, to the row with the given key; it fails where there is none.
pub mod Upsert
use rgb_lib.Prelude.{
  ℕ, String, Bool, true, false, not, ◌&&◌, ◌||◌, List, [], ◌∷◌, ◌++◌, map, Option, none, some, find,
  any, filter, ◌==◌, str_eq, if◌then◌else◌,
}
use rgb_lib.Prelude.Int.{ℤ}
use rgb_lib.Status.{TransferStatus, ColoringType}
use rgb_lib.Assignment.{Assignment}
use rgb_lib.Result.{Result, ok, err, internal}
use rgb_lib.Database.Rows.{
  Outpoint, outpoint_eq, outpoint, RecipientTypeFull, DbTxo, DbColoring, DbAssetTransfer,
  DbBatchTransfer, DbTransfer, DbData,
}
use rgb_lib.Action.{
  DbTransferEndpoint, DbAsset, Store, World, Action, map_or, pure, raise, ◌>>=◌, ◌>>◌, ask, reads,
  writes,
}

-- the columns of a batch transfer that a refresh sets; each update sets the status
pub record BatchChange : Type 0 where
  pub idx : ℕ
  pub txid : Option String
  pub status : TransferStatus

abbrev pub set_or {ℓ} : {A : Type ℓ} → Option A → A → A
set_or none a = a
set_or (some b) a = b

abbrev pub set_txid : Option String → Option String → Option String
set_txid none old = old
set_txid (some t) old = some t

abbrev pub change_batch : ℤ → BatchChange → DbBatchTransfer → DbBatchTransfer
change_batch now u b =
    if b.idx == u.idx
    then record b { txid = set_txid u.txid b.txid; status = u.status; updated_at = now }
    else b

abbrev pub change_transfer : ℕ → (DbTransfer → DbTransfer) → DbTransfer → DbTransfer
change_transfer i f t = if t.idx == i then f t else t

abbrev pub change_asset_transfer : ℕ → String → DbAssetTransfer → DbAssetTransfer
change_asset_transfer i asset_id a = if a.idx == i then record a { asset_id = some asset_id } else a

abbrev pub change_endpoint : ℕ → Bool → DbTransferEndpoint → DbTransferEndpoint
change_endpoint i used e = if e.idx == i then record e { used = used } else e

abbrev pub change_txo : ℕ → (DbTxo → DbTxo) → DbTxo → DbTxo
change_txo i f t = if t.idx == i then f t else t

abbrev pub change_supply : String → String → DbAsset → DbAsset
change_supply id supply a =
    if str_eq a.id id then record a { known_circulating_supply = some supply } else a

abbrev pub with_tables : (DbData → DbData) → Store → Store
with_tables f s = record s { tables = f s.tables }

-- The columns of a TXO that is inserted.
pub record NewTxo : Type 0 where
  pub txid : String
  pub vout : ℕ
  pub btc_amount : String
  pub spent : Bool
  pub exists : Bool
  pub pending_witness : Bool

abbrev pub is_at : NewTxo → DbTxo → Bool
is_at n t = outpoint_eq (outpoint t) (record { txid = n.txid; vout = n.vout })

abbrev pub txo_of : ℕ → NewTxo → DbTxo
txo_of i n = record {
  idx = i;
  txid = n.txid;
  vout = n.vout;
  btc_amount = n.btc_amount;
  spent = n.spent;
  exists = n.exists;
  pending_witness = n.pending_witness;
}

-- `on_conflict`: `exists` is only ever set, and `btc_amount` only to what is not "0"
abbrev pub merge_txo : NewTxo → DbTxo → DbTxo
merge_txo n t = record t {
  exists = n.exists || t.exists;
  btc_amount = if str_eq n.btc_amount "0" then t.btc_amount else n.btc_amount;
}

abbrev pub upsert_txo : ℕ → NewTxo → List DbTxo → List DbTxo
upsert_txo fresh n txos =
    if any (is_at n) txos
    then map (λ t. if is_at n t then merge_txo n t else t) txos
    else txos ++ txo_of fresh n ∷ []

-- whether the statement updates a row that is there (`do_nothing` else)
abbrev pub updates : NewTxo → Bool
updates n = n.exists || not (str_eq n.btc_amount "0")

-- The key that is returned: `last_insert_id`, or that of the row that was read where nothing was
-- written.
abbrev pub stored_idx : ℕ → NewTxo → Option DbTxo → ℕ
stored_idx last_insert_id n none = last_insert_id
stored_idx last_insert_id n (some t) = if updates n then last_insert_id else t.idx

module _ {S : Type 0} where
  -- `now` is the clock
  unfoldable pub update_batch_transfer : (S → ℤ × S) → BatchChange → Action S DbBatchTransfer
  update_batch_transfer now u = do
    t ← ask now
    writes
        (with_tables λ d. record d { batch_transfers = map (change_batch t u) d.batch_transfers })
    found ← reads λ s. find (λ (b : DbBatchTransfer). b.idx == u.idx) s.tables.batch_transfers
    map_or found (raise internal) pure

  unfoldable pub update_transfer : ℕ → (DbTransfer → DbTransfer) → Action S (Unit {0})
  update_transfer i f = do
    known ← reads λ s. any (λ (t : DbTransfer). t.idx == i) s.tables.transfers
    writes (with_tables λ d. record d { transfers = map (change_transfer i f) d.transfers })
    if known then pure tt else raise internal

  unfoldable pub update_asset_transfer : ℕ → String → Action S (Unit {0})
  update_asset_transfer i asset_id = do
    known ← reads λ s. any (λ (a : DbAssetTransfer). a.idx == i) s.tables.asset_transfers
    writes (
        with_tables λ d. record d {
          asset_transfers = map (change_asset_transfer i asset_id) d.asset_transfers;
        })
    if known then pure tt else raise internal

  unfoldable pub update_txo : ℕ → (DbTxo → DbTxo) → Action S (Unit {0})
  update_txo i f = do
    known ← reads λ s. any (λ (t : DbTxo). t.idx == i) s.tables.txos
    writes (with_tables λ d. record d { txos = map (change_txo i f) d.txos })
    if known then pure tt else raise internal

  unfoldable pub set_endpoint_used : ℕ → Bool → Action S (Unit {0})
  set_endpoint_used i used = do
    known ← reads λ s. any (λ (e : DbTransferEndpoint). e.idx == i) s.endpoints
    writes λ s. record s { endpoints = map (change_endpoint i used) s.endpoints }
    if known then pure tt else raise internal

  unfoldable pub update_transfer_transport_endpoint : ℕ → Action S (Unit {0})
  unfolding set_endpoint_used
  update_transfer_transport_endpoint i = set_endpoint_used i true

  unfoldable pub update_asset : String → String → Action S (Unit {0})
  update_asset id supply = do
    known ← reads λ s. any (λ (a : DbAsset). str_eq a.id id) s.assets
    writes λ s. record s { assets = map (change_supply id supply) s.assets }
    if known then pure tt else raise internal

  -- `fresh` is the driver's `last_insert_id`: the key of the new row where one is inserted, and
  -- anything where a row is updated in place
  unfoldable pub set_txo : (S → ℕ × S) → NewTxo → Action S ℕ
  set_txo fresh n = do
    i ← ask fresh
    idx ← reads λ s. stored_idx i n (find (is_at n) s.tables.txos)
    writes (with_tables λ d. record d { txos = upsert_txo i n d.txos })
    pure idx

  unfoldable pub set_coloring :
      (S → ℕ × S) → ℕ → ℕ → ColoringType → Assignment → Action S (Unit {0})
  set_coloring fresh txo_idx asset_transfer_idx type assignment = do
    i ← ask fresh
    writes (
        with_tables λ d. record d {
          colorings =
              d.colorings
              ++ record {
                idx = i;
                txo_idx = txo_idx;
                asset_transfer_idx = asset_transfer_idx;
                type = type;
                assignment = assignment;
              }
                ∷ [];
        })

  unfoldable pub get_txo : Outpoint → Action S (Option DbTxo)
  get_txo o = reads λ s. find (λ (t : DbTxo). outpoint_eq (outpoint t) o) s.tables.txos

  unfoldable pub get_transfer_transport_endpoints_data : ℕ → Action S (List DbTransferEndpoint)
  get_transfer_transport_endpoints_data i =
      reads λ s. filter (λ (e : DbTransferEndpoint). e.transfer_idx == i) s.endpoints

  unfoldable pub get_asset : String → Action S (Option DbAsset)
  get_asset id = reads λ s. find (λ (a : DbAsset). str_eq a.id id) s.assets

  unfoldable pub del_pending_witness_script : String → Action S (Unit {0})
  del_pending_witness_script script = writes λ s. record s {
    pending_witness_scripts =
        filter (λ (x : String). not (str_eq x script)) s.pending_witness_scripts;
  }
