-- ===== src/Wallet/Delete/Unchanged.antt =====
-- `delete_transfers` of src/wallet/offline.rs, from tables in order, leaves tables in order with the
-- same balances.
use mathlib.Core.List.{Memᴰ}
use rgb_lib.Prelude.{
  ℕ, String, ◌≡◌, refl, sym, subst, Bool, true, false, ◌&&◌, List, [], ◌∷◌, Option, none, some, All,
  ◌==◌, Bool-cases, inl, inr, ==_iff,
}
use rgb_lib.Prelude.Keys.{find-Memᴰ}
use rgb_lib.Prelude.Member.{All-imp, All-Memᴰ, All-filter_test}
use rgb_lib.Status.{is_failed}
use rgb_lib.Result.{Result, ok, err, >>=-eq-ok, ok_injective}
use rgb_lib.Database.Rows.{DbAssetTransfer, DbBatchTransfer, DbData}
use rgb_lib.Database.Joins.{get_asset_transfers}
use rgb_lib.Database.Deletes.{del_coloring, del_txo, del_batch_transfer}
use rgb_lib.Database.Balance.{get_asset_balance}
use rgb_lib.Wallet.Delete.{
  del_colorings, del_txos, delete_batch_transfer, connected_assets, delete_all,
  delete_transfers_impl, delete_transfers, committed,
}
use rgb_lib.Wallet.Delete.Outcome.{single}
use rgb_lib.Wallet.Delete.Trims.{FailedBatch, FailedAsset}
use rgb_lib.Wallet.Delete.Sound.{
  Sound, Trims, FailedBatch-row, FailedAsset-row, del_coloring-Trims, del_txo-Trims,
  del_batch_transfer-Trims,
}

module _ (d : DbData) (sound : Sound d) where
  del_colorings-Trims :
      (as' : List DbAssetTransfer) (l : List ℕ) (d' : DbData)
      → All (λ (a : DbAssetTransfer). FailedAsset d a.idx) as'
      → Trims d d'
      → Trims d (del_colorings d.colorings d.txos as' l d').0
  unfolding del_colorings
  del_colorings-Trims [] l d' f t = t
  del_colorings-Trims (a ∷ as') l d' f t =
      del_colorings-Trims as' _ (del_coloring a.idx d') f.1
        (del_coloring-Trims d sound d' t a.idx f.0)

  del_txos-Trims :
      (l : List ℕ) (d' d'' : DbData) → Trims d d' → del_txos l d' ≡ ok d'' → Trims d d''
  unfolding del_txos
  del_txos-Trims [] d' d'' t e = subst (Trims d) (ok_injective e) t
  del_txos-Trims (i ∷ l) d' d'' t e =
      let (m, em, g) = >>=-eq-ok (del_txo i d') (del_txos l) e in
      del_txos-Trims l m d'' (del_txo-Trims d sound d' t i m em) g

  owned-FailedAsset :
      (b : DbBatchTransfer)
      → FailedBatch d b.idx
      → All (λ (a : DbAssetTransfer). FailedAsset d a.idx) (get_asset_transfers b d.asset_transfers)
  unfolding get_asset_transfers
  owned-FailedAsset b f =
      All-imp
        (λ (a : DbAssetTransfer).
          Memᴰ a d.asset_transfers × ((a.batch_transfer_idx == b.idx) ≡ true))
        (λ (a : DbAssetTransfer). FailedAsset d a.idx)
        (λ a h.
          FailedAsset-row d sound a h.0
            (subst (FailedBatch d) (sym ((==_iff a.batch_transfer_idx b.idx).0 h.1)) f))
        _
        (All-filter_test (λ a. Memᴰ a d.asset_transfers)
          (λ (a : DbAssetTransfer). a.batch_transfer_idx == b.idx) d.asset_transfers
          (All-Memᴰ d.asset_transfers))

  delete_batch_transfer-Trims :
      (b : DbBatchTransfer) (d' d'' : DbData)
      → FailedBatch d b.idx
      → Trims d d'
      → delete_batch_transfer b (get_asset_transfers b d.asset_transfers) d d' ≡ ok d''
      → Trims d d''
  unfolding delete_batch_transfer
  delete_batch_transfer-Trims b d' d'' f t e =
      let as' = get_asset_transfers b d.asset_transfers in
      let start = del_colorings d.colorings d.txos as' [] d' in
      let (m, em, g) = >>=-eq-ok (del_txos start.1 start.0) (del_batch_transfer b) e in
      del_batch_transfer-Trims d sound m
        (del_txos-Trims start.1 start.0 m (del_colorings-Trims as' [] d' (owned-FailedAsset b f) t)
          em)
        b d'' f g

  delete_all-Trims :
      (no_asset_only : Bool) (bs : List DbBatchTransfer) (changed : Bool) (d' : DbData)
      (r : DbData × Bool)
      → All (λ (b : DbBatchTransfer). FailedBatch d b.idx) bs
      → Trims d d'
      → delete_all no_asset_only d bs changed d' ≡ ok r
      → Trims d r.0
  unfolding delete_all
  delete_all-Trims no_asset_only [] changed d' r f t e =
      subst (λ (p : DbData × Bool). Trims d p.0) (ok_injective e) t
  delete_all-Trims no_asset_only (b ∷ bs) changed d' r f t e =
      elim (Bool-cases
        (no_asset_only && connected_assets (get_asset_transfers b d.asset_transfers))) [
          | inl skipped ↦ delete_all-Trims no_asset_only bs changed d' r f.1 t (rw skipped at e)
          | inr taken ↦
              let (m, em, g) =
                >>=-eq-ok (delete_batch_transfer b (get_asset_transfers b d.asset_transfers) d d')
                  (delete_all no_asset_only d bs true) (rw taken at e) in
              delete_all-Trims no_asset_only bs true m r f.1
                (delete_batch_transfer-Trims b d' m f.0 t em) g
        ]

  start-Trims : Trims d d
  start-Trims = record {
    sound = sound;
    balance = λ asset_id. refl;
    batches = λ i b e. e;
    assets = All-Memᴰ d.asset_transfers;
  }

  impl-Trims :
      (i : Option ℕ) (no_asset_only : Bool) (r : DbData × Bool)
      → delete_transfers_impl i no_asset_only d ≡ ok r
      → Trims d r.0
  unfolding delete_transfers_impl
  impl-Trims none no_asset_only r e =
      delete_all-Trims no_asset_only _ false d r
        (All-imp (λ (b : DbBatchTransfer). Memᴰ b d.batch_transfers × (is_failed b.status ≡ true))
          (λ (b : DbBatchTransfer). FailedBatch d b.idx) (λ b h. FailedBatch-row d sound b h.0 h.1)
          _
          (All-filter_test (λ b. Memᴰ b d.batch_transfers)
            (λ (b : DbBatchTransfer). is_failed b.status) d.batch_transfers
            (All-Memᴰ d.batch_transfers)))
        start-Trims e
  impl-Trims (some idx) no_asset_only r e =
      let s = single idx no_asset_only d r e in
      delete_batch_transfer-Trims s.batch d r.0
        (FailedBatch-row d sound s.batch (find-Memᴰ _ d.batch_transfers s.batch s.found) s.failed)
        start-Trims s.done

  committed-Trims :
      (m : Result (DbData × Bool))
      → ((r : DbData × Bool) → m ≡ ok r → Trims d r.0)
      → Trims d (committed d m).0
  committed-Trims (ok r) h = h r refl
  committed-Trims (err x) h = start-Trims
  committed-Trims Result.panic h = start-Trims

  delete_transfers-Trims :
      (i : Option ℕ) (no_asset_only : Bool) → Trims d (delete_transfers i no_asset_only d).0
  unfolding delete_transfers
  delete_transfers-Trims i no_asset_only =
      committed-Trims (delete_transfers_impl i no_asset_only d) (impl-Trims i no_asset_only)

-- Over linked tables with distinct keys of the batch transfers and of the asset transfers, a deletion
-- of failed transfers changes no balance: whatever it is asked for and however it ends, for every asset
-- get_asset_balance gives the same outcome before and after, be it a balance or the panic of a sum
-- that does not fit.
pub delete_transfers-balance :
    (batch_transfer_idx : Option ℕ) (no_asset_only : Bool) (d : DbData) (asset_id : String)
    → Sound d
    → get_asset_balance (delete_transfers batch_transfer_idx no_asset_only d).0 asset_id
      ≡ get_asset_balance d asset_id
delete_transfers-balance i no_asset_only d asset_id sound =
    sym ((delete_transfers-Trims d sound i no_asset_only).balance asset_id)
