-- ===== src/Wallet/Delete/Sound.antt =====
-- Tables in order (the foreign keys of migration/src/, and primary keys), and that each step of a
-- deletion of failed transfers keeps them so, with the same balances.
use mathlib.Core.List.{Memᴰ}
use rgb_lib.Prelude.{
  ℕ, String, ◌≡◌, sym, ap, ◌∙◌, subst, true, not, List, [], ◌∷◌, some, map, filter, find, any, All,
  All-filter, All-find, find-true, ◌==◌, arith, Bool-cases, inl, inr, ==_iff,
}
use rgb_lib.Prelude.Keys.{
  DistinctIdx, one_row, find-Memᴰ, All-lookup, any_found, DistinctIdx-filter,
}
use rgb_lib.Prelude.Member.{All-imp, All-Memᴰ, All-filter_test}
use rgb_lib.Status.{is_failed}
use rgb_lib.Result.{ok, err, internal, ok_injective}
use rgb_lib.Database.Rows.{DbColoring, DbAssetTransfer, DbBatchTransfer, DbData}
use rgb_lib.Database.Deletes.{del_coloring, del_txo, del_batch_transfer, owns}
use rgb_lib.Database.Linked.{Linked}
use rgb_lib.Database.Balance.{get_asset_balance}
use rgb_lib.Database.Balance.Same.{get_asset_balance-same}
use rgb_lib.Wallet.Delete.Trims.{
  FailedBatch, FailedAsset, del_coloring-Linked, del_coloring-same, del_txo-same,
}
use rgb_lib.Wallet.Delete.Cascade.{del_batch_transfer-same}
use rgb_lib.Wallet.Delete.Rows.{find-batches_left}

-- linked tables, with the primary keys of batch and asset transfers
pub record Sound (d : DbData) : Type 0 where
  pub linked : Linked d
  pub batch_keys : DistinctIdx (map (λ (b : DbBatchTransfer). b.idx) d.batch_transfers)
  pub asset_keys : DistinctIdx (map (λ (a : DbAssetTransfer). a.idx) d.asset_transfers)

-- `d'` is `d` after a part of a deletion
pub record Trims (d d' : DbData) : Type 0 where
  pub sound : Sound d'
  pub balance : (asset_id : String) → get_asset_balance d asset_id ≡ get_asset_balance d' asset_id
  pub batches :
      (i : ℕ) (b : DbBatchTransfer)
      → find (λ (t : DbBatchTransfer). t.idx == i) d'.batch_transfers ≡ some b
      → find (λ (t : DbBatchTransfer). t.idx == i) d.batch_transfers ≡ some b
  pub assets : All (λ a. Memᴰ a d.asset_transfers) d'.asset_transfers

del_txo-rows :
    (i : ℕ) (d d' : DbData)
    → del_txo i d ≡ ok d'
    → (d'.batch_transfers ≡ d.batch_transfers) × (d'.asset_transfers ≡ d.asset_transfers)
unfolding del_txo
del_txo-rows i d d' e = elim (Bool-cases (any (λ (c : DbColoring). c.txo_idx == i) d.colorings)) [
  | inl used ↦ let bad : err internal ≡ ok d' = rw used at e in absurd (cc)
  | inr unused ↦
      let same = ok_injective (rw unused at e) in
      (
        sym (ap (λ (x : DbData). x.batch_transfers) same),
        sym (ap (λ (x : DbData). x.asset_transfers) same),
      )
]

del_batch_transfer-rows :
    (b : DbBatchTransfer) (d d' : DbData)
    → del_batch_transfer b d ≡ ok d'
    → (d'.batch_transfers
        ≡ filter (λ (t : DbBatchTransfer). not (t.idx == b.idx)) d.batch_transfers)
      × (d'.asset_transfers
          ≡ filter (λ (a : DbAssetTransfer). not (a.batch_transfer_idx == b.idx)) d.asset_transfers)
unfolding del_batch_transfer
del_batch_transfer-rows b d d' e =
    elim (Bool-cases (any (λ (c : DbColoring). owns b d c.asset_transfer_idx) d.colorings)) [
      | inl used ↦ let bad : err internal ≡ ok d' = rw used at e in absurd (cc)
      | inr unused ↦
          let same = ok_injective (rw unused at e) in
          (
            sym (ap (λ (x : DbData). x.batch_transfers) same),
            sym (ap (λ (x : DbData). x.asset_transfers) same),
          )
    ]

All_units : (l : List DbBatchTransfer) → All (λ (t : DbBatchTransfer). Unit {0}) l
All_units [] = tt
All_units (t ∷ l) = (tt, All_units l)

-- what is found among the rows left was found before
found_before :
    (i k : ℕ) (l : List DbBatchTransfer) (b : DbBatchTransfer)
    → find
        (λ (t : DbBatchTransfer). t.idx == i)
        (filter (λ (t : DbBatchTransfer). not (t.idx == k)) l)
      ≡ some b
    → find (λ (t : DbBatchTransfer). t.idx == i) l ≡ some b
found_before i k l b e = elim (Bool-cases (i == k)) [
  | inr other' ↦ sym (find-batches_left i k l other') ∙ e
  | inl same ↦
      let rows = filter (λ (t : DbBatchTransfer). not (t.idx == k)) l in
      let at : (b.idx == i) ≡ true = find-true (λ (t : DbBatchTransfer). t.idx == i) rows b e in
      let (u, left) =
        All-find _ _ rows b
          (All-filter_test (λ (t : DbBatchTransfer). Unit {0})
            (λ (t : DbBatchTransfer). not (t.idx == k)) l (All_units l))
          e in
      absurd (ground (arith, at, left, same))
]

module _ (d : DbData) (sound : Sound d) where
  pub FailedBatch-row :
      (b : DbBatchTransfer)
      → Memᴰ b d.batch_transfers
      → is_failed b.status ≡ true
      → FailedBatch d b.idx
  FailedBatch-row b m f k e =
      let at : (k.idx == b.idx) ≡ true = find-true _ d.batch_transfers k e in
      let same : k ≡ b =
        one_row (λ (t : DbBatchTransfer). t.idx) k b d.batch_transfers sound.batch_keys
          (find-Memᴰ _ d.batch_transfers k e) m (ground (arith, at)) in
      subst (λ (t : DbBatchTransfer). is_failed t.status ≡ true) (sym same) f

  pub FailedAsset-row :
      (a : DbAssetTransfer)
      → Memᴰ a d.asset_transfers
      → FailedBatch d a.batch_transfer_idx
      → FailedAsset d a.idx
  FailedAsset-row a m f =
      All-imp (λ x. Memᴰ x d.asset_transfers)
        (λ (x : DbAssetTransfer). x.idx ≡ a.idx → FailedBatch d x.batch_transfer_idx)
        (λ x mx e.
          subst (λ (y : DbAssetTransfer). FailedBatch d y.batch_transfer_idx)
            (sym (
              one_row (λ (t : DbAssetTransfer). t.idx) x a d.asset_transfers sound.asset_keys mx m
                e))
            f)
        d.asset_transfers (All-Memᴰ d.asset_transfers)

  module _ (d' : DbData) (t : Trims d d') where
    FailedBatch-Trims : (i : ℕ) → FailedBatch d i → FailedBatch d' i
    FailedBatch-Trims i f b e = f b (t.batches i b e)

    FailedAsset-Trims : (i : ℕ) → FailedAsset d i → FailedAsset d' i
    FailedAsset-Trims i f =
        All-imp (λ a. Memᴰ a d.asset_transfers)
          (λ (a : DbAssetTransfer). a.idx ≡ i → FailedBatch d' a.batch_transfer_idx)
          (λ a m e. FailedBatch-Trims a.batch_transfer_idx (
            All-lookup (λ (a : DbAssetTransfer). a.idx ≡ i → FailedBatch d a.batch_transfer_idx) a
              d.asset_transfers f m e))
          d'.asset_transfers t.assets

    pub del_coloring-Trims : (i : ℕ) → FailedAsset d i → Trims d (del_coloring i d')
    unfolding del_coloring
    del_coloring-Trims i f = record {
      sound = record {
        linked = del_coloring-Linked d' t.sound.linked i;
        batch_keys = t.sound.batch_keys;
        asset_keys = t.sound.asset_keys;
      };
      balance = λ asset_id.
          t.balance asset_id
          ∙ get_asset_balance-same d' (del_coloring i d') (λ x. true) t.sound.linked
              (del_coloring-Linked d' t.sound.linked i)
              (del_coloring-same d' t.sound.linked i (FailedAsset-Trims i f)) asset_id;
      batches = t.batches;
      assets = t.assets;
    }

    pub del_txo-Trims : (i : ℕ) (d'' : DbData) → del_txo i d' ≡ ok d'' → Trims d d''
    del_txo-Trims i d'' e =
        let (linked', same) = del_txo-same d' t.sound.linked i d'' e in
        let (eb, ea) = del_txo-rows i d' d'' e in
        record {
          sound = record {
            linked = linked';
            batch_keys =
                subst (λ l. DistinctIdx (map (λ (b : DbBatchTransfer). b.idx) l)) (sym eb)
                  t.sound.batch_keys;
            asset_keys =
                subst (λ l. DistinctIdx (map (λ (a : DbAssetTransfer). a.idx) l)) (sym ea)
                  t.sound.asset_keys;
          };
          balance = λ asset_id.
              t.balance asset_id
              ∙ get_asset_balance-same d' d'' (λ x. not (x.idx == i)) t.sound.linked linked' same
                  asset_id;
          batches =
              λ j b g. t.batches j b (ap (find (λ (x : DbBatchTransfer). x.idx == j)) (sym eb) ∙ g);
          assets = subst (All (λ a. Memᴰ a d.asset_transfers)) (sym ea) t.assets;
        }

    -- an asset transfer that is still owned was owned
    owns-Trims :
        (b : DbBatchTransfer) (i : ℕ) → FailedBatch d b.idx → owns b d' i ≡ true → FailedAsset d' i
    owns-Trims b i f own =
        let (a, m, at) = any_found _ _ own in
        let (row, of_b) =
          All-lookup
            (λ (a : DbAssetTransfer).
              Memᴰ a d.asset_transfers × ((a.batch_transfer_idx == b.idx) ≡ true))
            a _
            (All-filter_test (λ a. Memᴰ a d.asset_transfers)
              (λ (a : DbAssetTransfer). a.batch_transfer_idx == b.idx) d'.asset_transfers t.assets)
            m in
        FailedAsset-Trims i (
          subst (FailedAsset d) ((==_iff a.idx i).0 at) (
            FailedAsset-row a row
              (subst (FailedBatch d) (sym ((==_iff a.batch_transfer_idx b.idx).0 of_b)) f)))

    pub del_batch_transfer-Trims :
        (b : DbBatchTransfer) (d'' : DbData)
        → FailedBatch d b.idx
        → del_batch_transfer b d' ≡ ok d''
        → Trims d d''
    del_batch_transfer-Trims b d'' f e =
        let (linked', same) =
          del_batch_transfer-same d' t.sound.linked b (FailedBatch-Trims b.idx f)
            (λ i own. owns-Trims b i f own) d'' e in
        let (eb, ea) = del_batch_transfer-rows b d' d'' e in
        record {
          sound = record {
            linked = linked';
            batch_keys =
                subst (λ l. DistinctIdx (map (λ (b : DbBatchTransfer). b.idx) l)) (sym eb)
                  (DistinctIdx-filter _ _ d'.batch_transfers t.sound.batch_keys);
            asset_keys =
                subst (λ l. DistinctIdx (map (λ (a : DbAssetTransfer). a.idx) l)) (sym ea)
                  (DistinctIdx-filter _ _ d'.asset_transfers t.sound.asset_keys);
          };
          balance = λ asset_id.
              t.balance asset_id
              ∙ get_asset_balance-same d' d'' (λ x. true) t.sound.linked linked' same asset_id;
          batches = λ j k g. t.batches j k (
              found_before j b.idx d'.batch_transfers k
                (ap (find (λ (x : DbBatchTransfer). x.idx == j)) (sym eb) ∙ g));
          assets =
              subst (All (λ a. Memᴰ a d.asset_transfers)) (sym ea)
                (All-filter (λ a. Memᴰ a d.asset_transfers) _ d'.asset_transfers t.assets);
        }
