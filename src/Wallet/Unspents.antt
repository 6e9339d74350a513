-- ===== src/Wallet/Unspents.antt =====
-- `list_unspents_impl` of src/wallet/offline.rs, after its synchronisation, and the objects of
-- src/wallet/objects.rs that it returns.
pub mod Shown
mod Cold
pub mod Settled
use rgb_lib.Prelude.{
  ℕ, String, Bool, true, false, not, ◌&&◌, ◌||◌, List, [], ◌∷◌, ◌++◌, map, Option, none, some,
  filter, any, is_empty, ◌==◌, if◌then◌else◌, parse_u64,
}
use rgb_lib.Status.{is_waiting_confirmations}
use rgb_lib.Assignment.{Assignment}
use rgb_lib.Result.{Result, ok, panic, err, ◌>>=◌, expect, traverse}
use rgb_lib.Database.Rows.{
  Outpoint, DbTxo, outpoint, DbColoring, DbAssetTransfer, DbBatchTransfer, DbData,
  LocalRgbAllocation, LocalUnspent,
}
use rgb_lib.Database.Joins.{allocation_settled, allocation_future, get_rgb_allocations}

pub record Utxo : Type 0 where
  pub outpoint : Outpoint
  pub btc_amount : ℕ
  pub colorable : Bool
  pub exists : Bool
  pub derivation_index : Option ℕ

pub record RgbAllocation : Type 0 where
  pub asset_id : Option String
  pub assignment : Assignment
  pub settled : Bool

pub record Unspent : Type 0 where
  pub utxo : Utxo
  pub rgb_allocations : List RgbAllocation
  pub pending_blinded : ℕ

-- the fields of a BDK output that the code reads
pub record LocalOutput : Type 0 where
  pub outpoint : Outpoint
  pub value : ℕ
  pub derivation_index : ℕ

-- `RgbAllocation::from`
abbrev pub rgb_allocation : LocalRgbAllocation → RgbAllocation
rgb_allocation a = record {
  asset_id = a.asset_id;
  assignment = a.assignment;
  settled = allocation_settled a;
}

-- `Utxo::from(DbTxo)`
unfoldable pub utxo_of_txo : DbTxo → Result Utxo
utxo_of_txo t = do
  sats ← expect (parse_u64 t.btc_amount)
  ok (record {
    outpoint = outpoint t;
    btc_amount = sats;
    colorable = true;
    exists = t.exists;
    derivation_index = none;
  })

-- `Unspent::from(LocalUnspent)`
unfoldable pub unspent_of_local : LocalUnspent → Result Unspent
unspent_of_local u = do
  utxo ← utxo_of_txo u.utxo
  ok (record {
    utxo = utxo;
    rgb_allocations = map rgb_allocation u.rgb_allocations;
    pending_blinded = u.pending_blinded;
  })

-- `Unspent::from(LocalOutput)`
abbrev pub unspent_of_output : LocalOutput → Unspent
unspent_of_output o = record {
  utxo = record {
    outpoint = o.outpoint;
    btc_amount = o.value;
    colorable = false;
    exists = true;
    derivation_index = some o.derivation_index;
  };
  rgb_allocations = [];
  pending_blinded = 0;
}

abbrev pub contains : List ℕ → ℕ → Bool
contains l i = any (λ j. j == i) l

abbrev pub spent_txos_ids : DbData → List ℕ
spent_txos_ids d = map (λ t. t.idx) (filter (λ (t : DbTxo). t.spent) d.txos)

abbrev pub waiting_confs_batch_transfer_ids : DbData → List ℕ
waiting_confs_batch_transfer_ids d =
    map (λ t. t.idx)
      (filter (λ (t : DbBatchTransfer). is_waiting_confirmations t.status) d.batch_transfers)

abbrev pub waiting_confs_transfer_ids : DbData → List ℕ
waiting_confs_transfer_ids d =
    map (λ t. t.idx)
      (filter
        (λ (t : DbAssetTransfer).
          contains (waiting_confs_batch_transfer_ids d) t.batch_transfer_idx)
        d.asset_transfers)

abbrev pub almost_spent_txos_ids : DbData → List ℕ
almost_spent_txos_ids d =
    map (λ c. c.txo_idx)
      (filter
        (λ (c : DbColoring).
          contains (waiting_confs_transfer_ids d) c.asset_transfer_idx
          && contains (spent_txos_ids d) c.txo_idx)
        d.colorings)

abbrev pub allocation_txos : DbData → List DbTxo
allocation_txos d =
    filter (λ (t : DbTxo). not t.spent || contains (almost_spent_txos_ids d) t.idx) d.txos

-- the two `retain` of the allocations and of the TXOs
abbrev pub retain_visible : LocalUnspent → LocalUnspent
retain_visible u = record u {
  rgb_allocations =
      filter (λ (a : LocalRgbAllocation). allocation_settled a || allocation_future a)
        u.rgb_allocations;
}

abbrev pub visible_unspents : List LocalUnspent → List LocalUnspent
visible_unspents us =
    filter (λ (u : LocalUnspent). not (is_empty u.rgb_allocations && u.utxo.spent))
      (map retain_visible us)

abbrev pub retain_settled : Unspent → Unspent
retain_settled u = record u {
  rgb_allocations = filter (λ (a : RgbAllocation). a.settled) u.rgb_allocations;
}

-- `derivation_index` is the external index that the BDK wallet knows of an outpoint, `internal` are
-- its internal unspents.
module _ (derivation_index : Outpoint → Option ℕ) (internal : List LocalOutput) where
  abbrev pub with_index : Unspent → Unspent
  with_index u = elim (derivation_index u.utxo.outpoint) [
    | some i ↦ record u { utxo = record u.utxo { derivation_index = some i } }
    | none ↦ u
  ]

  unfoldable pub list_unspents : DbData → Bool → Result (List Unspent)
  list_unspents d settled_only = do
    txos_allocations ← get_rgb_allocations (allocation_txos d) d
    unspents ← traverse unspent_of_local (visible_unspents txos_allocations)
    let shown = if settled_only then map retain_settled unspents else unspents
    ok (map with_index shown ++ map unspent_of_output internal)
