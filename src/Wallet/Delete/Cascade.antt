-- ===== src/Wallet/Delete/Cascade.antt =====
-- What `del_batch_transfer` of src/database/mod.rs, of a failed batch transfer, does to the references
-- between the tables and to the allocations.
use rgb_lib.Prelude.{
  ℕ, String, ◌≡◌, refl, sym, ap, ◌∙◌, subst, true, false, not, [], Option, none, some, filter, find,
  any, All, All-filter, All-find, find-true, ◌==◌, arith, Bool-cases, Option-cases, inl, inr,
}
use rgb_lib.Status.{is_failed}
use rgb_lib.Result.{ok, err, internal, ok_injective}
use rgb_lib.Database.Rows.{
  RecipientTypeFull, blind, witness, DbTxo, DbColoring, DbAssetTransfer, DbBatchTransfer,
  DbTransfer, DbData,
}
use rgb_lib.Database.Joins.{
  related_transfers, coloring_allocation, get_utxo_allocations, pending_blind_of,
}
use rgb_lib.Database.Deletes.{del_batch_transfer, owns}
use rgb_lib.Database.Linked.{Linked, HasAssetTransfer, HasBatchTransfer, AssetKnown, find-flip}
use rgb_lib.Database.Balance.{witness_of}
use rgb_lib.Database.Balance.Alike.{alive}
use rgb_lib.Database.Balance.Same.{allocations_of, SameAllocations}
use rgb_lib.Prelude.Member.{All-both, All-imp, All-filter_test}
use rgb_lib.Wallet.Delete.Trims.{FailedBatch, FailedAsset, filter_all, witness_pending_from-filter}
use rgb_lib.Wallet.Delete.Rows.{
  batches_left, assets_left, find-batches_left, find-assets_left, found_foreign, none_passes,
  traverse-same, pending_blinded_utxos-filter,
}

module _ (d : DbData) (linked : Linked d) (b : DbBatchTransfer) (failed : FailedBatch d b.idx)
    (owned : (i : ℕ) → owns b d i ≡ true → FailedAsset d i) where
  abbrev left : DbData
  left = record d {
    batch_transfers = batches_left b.idx d.batch_transfers;
    asset_transfers = assets_left b.idx d.asset_transfers;
    transfers = filter (λ (t : DbTransfer). not (owns b d t.asset_transfer_idx)) d.transfers;
  }

  -- what belongs to another batch transfer is still found
  asset_left : (i : ℕ) → owns b d i ≡ false → HasAssetTransfer d i → HasAssetTransfer left i
  asset_left i n (a, e) = (a, find-assets_left i b.idx d.asset_transfers n ∙ e)

  batch_found :
      (j : ℕ)
      → (j == b.idx) ≡ false
      → find (λ (t : DbBatchTransfer). t.idx == j) left.batch_transfers
        ≡ find (λ (t : DbBatchTransfer). t.idx == j) d.batch_transfers
  batch_found j n = find-batches_left j b.idx d.batch_transfers n

  related_left :
      (t : DbTransfer)
      → owns b d t.asset_transfer_idx ≡ false
      → related_transfers t d.asset_transfers d.batch_transfers
        ≡ related_transfers t left.asset_transfers left.batch_transfers
  unfolding related_transfers
  related_left t n =
      elim (Option-cases
        (find (λ (a : DbAssetTransfer). a.idx == t.asset_transfer_idx) d.asset_transfers)) [
          | inl e ↦ rw (find-assets_left t.asset_transfer_idx b.idx d.asset_transfers n, e) refl
          | inr (a, e) ↦
              rw
                (
                  find-assets_left t.asset_transfer_idx b.idx d.asset_transfers n,
                  e,
                  batch_found a.batch_transfer_idx
                      (found_foreign t.asset_transfer_idx b.idx d.asset_transfers a n e),
                )
                refl
        ]

  coloring_left :
      (x : DbTxo) (c : DbColoring)
      → owns b d c.asset_transfer_idx ≡ false
      → coloring_allocation x d.asset_transfers d.batch_transfers c
        ≡ coloring_allocation x left.asset_transfers left.batch_transfers c
  unfolding coloring_allocation
  coloring_left x c n =
      elim (Option-cases
        (find (λ (a : DbAssetTransfer). a.idx == c.asset_transfer_idx) d.asset_transfers)) [
          | inl e ↦ rw (find-assets_left c.asset_transfer_idx b.idx d.asset_transfers n, e) refl
          | inr (a, e) ↦
              rw
                (
                  find-assets_left c.asset_transfer_idx b.idx d.asset_transfers n,
                  e,
                  find-flip a.batch_transfer_idx left.batch_transfers,
                  batch_found a.batch_transfer_idx
                      (found_foreign c.asset_transfer_idx b.idx d.asset_transfers a n e),
                  find-flip a.batch_transfer_idx d.batch_transfers,
                )
                refl
        ]

  -- the transfers of the batch transfer that goes have failed
  related_failed :
      (t : DbTransfer)
      → HasAssetTransfer d t.asset_transfer_idx
      → owns b d t.asset_transfer_idx ≡ true
      → (a : DbAssetTransfer) × (k : DbBatchTransfer) × (related_transfers t d.asset_transfers
            d.batch_transfers
          ≡ ok (a, k))
        × (is_failed k.status ≡ true)
  unfolding related_transfers
  related_failed t (a, e) own =
      let (k, ek) =
        All-find (λ (a : DbAssetTransfer). HasBatchTransfer d a.batch_transfer_idx) _ _ a
          linked.batches e in
      let at : (a.idx == t.asset_transfer_idx) ≡ true = find-true _ d.asset_transfers a e in
      (
        a,
        k,
        rw (e, ek) refl,
        All-find _ _ d.asset_transfers a (owned t.asset_transfer_idx own) e (ground (arith, at)) k
            ek,
      )

  no_pending_blind :
      (t : DbTransfer) (r : Option RecipientTypeFull)
      → HasAssetTransfer d t.asset_transfer_idx
      → owns b d t.asset_transfer_idx ≡ true
      → pending_blind_of t r d.asset_transfers d.batch_transfers ≡ ok none
  no_pending_blind t none h own = refl
  no_pending_blind t (some (witness v)) h own = refl
  no_pending_blind t (some (blind u)) h own =
      let (a, k, e, f) = related_failed t h own in rw e (ground (arith, f))

  no_witness :
      (asset_id : String) (t : DbTransfer) (r : Option RecipientTypeFull)
      → HasAssetTransfer d t.asset_transfer_idx
      → owns b d t.asset_transfer_idx ≡ true
      → witness_of asset_id t r d.asset_transfers d.batch_transfers ≡ ok none
  no_witness asset_id t none h own = refl
  no_witness asset_id t (some (blind u)) h own = refl
  no_witness asset_id t (some (witness v)) h own =
      let (a, k, e, f) = related_failed t h own in rw e (ground (arith, f))

  pending_blind_left :
      (t : DbTransfer) (r : Option RecipientTypeFull)
      → owns b d t.asset_transfer_idx ≡ false
      → pending_blind_of t r d.asset_transfers d.batch_transfers
        ≡ pending_blind_of t r left.asset_transfers left.batch_transfers
  pending_blind_left t none n = refl
  pending_blind_left t (some (witness v)) n = refl
  pending_blind_left t (some (blind u)) n = rw (related_left t n) refl

  witness_left :
      (asset_id : String) (t : DbTransfer) (r : Option RecipientTypeFull)
      → owns b d t.asset_transfer_idx ≡ false
      → witness_of asset_id t r d.asset_transfers d.batch_transfers
        ≡ witness_of asset_id t r left.asset_transfers left.batch_transfers
  witness_left asset_id t none n = refl
  witness_left asset_id t (some (blind u)) n = refl
  witness_left asset_id t (some (witness v)) n = rw (related_left t n) refl

  module _
      (unused : All (λ (c : DbColoring). owns b d c.asset_transfer_idx ≡ false) d.colorings) where
    left-Linked : Linked left
    left-Linked = record {
      colorings =
          All-both (λ c n h. asset_left c.asset_transfer_idx n h) d.colorings unused
            linked.colorings;
      transfers =
          All-imp _ _
            (λ (t : DbTransfer) h. asset_left t.asset_transfer_idx (ground (arith, h.1)) h.0) _
            (All-filter_test _ (λ (t : DbTransfer). not (owns b d t.asset_transfer_idx)) d.transfers
              linked.transfers);
      batches =
          All-imp _ _
            (λ (a : DbAssetTransfer) h.
              (h.0.0, batch_found a.batch_transfer_idx (ground (arith, h.1)) ∙ h.0.1))
            _
            (All-filter_test (λ (a : DbAssetTransfer). HasBatchTransfer d a.batch_transfer_idx)
              (λ (a : DbAssetTransfer). not (a.batch_transfer_idx == b.idx)) d.asset_transfers
              linked.batches);
      assets =
          All-imp
            (λ (a : DbAssetTransfer). AssetKnown d a × (not (a.batch_transfer_idx == b.idx) ≡ true))
            (AssetKnown left)
            (λ (a : DbAssetTransfer) h k e w.
              h.0 k (sym (batch_found a.batch_transfer_idx (ground (arith, h.1))) ∙ e) w)
            _
            (All-filter_test (AssetKnown d)
              (λ (a : DbAssetTransfer). not (a.batch_transfer_idx == b.idx)) d.asset_transfers
              linked.assets);
    }

    allocations_left : (x : DbTxo) → allocations_of d x ≡ allocations_of left x
    unfolding get_utxo_allocations
    allocations_left x = traverse-same _ _ _ (
        All-filter _ (λ (c : DbColoring). c.txo_idx == x.idx) d.colorings
          (All-imp _ _ (λ c n. coloring_left x c n) d.colorings unused))

    left-same : SameAllocations d left (λ t. true)
    left-same = record {
      txos = filter_all d.txos;
      counts = sym (
          pending_blinded_utxos-filter d left _ d.transfers []
            (λ t h. pending_blind_left t t.recipient_type (ground (arith, h)))
            (All-imp _
              (λ (t : DbTransfer).
                not (owns b d t.asset_transfer_idx) ≡ false
                → pending_blind_of t t.recipient_type d.asset_transfers d.batch_transfers ≡ ok none)
              (λ (t : DbTransfer) h g. no_pending_blind t t.recipient_type h (ground (arith, g)))
              d.transfers linked.transfers));
      kept = λ t l l' h e e'. ap (filter alive) (ok_injective (sym e ∙ allocations_left t ∙ e'));
      dropped = λ t l h e. absurd (cc);
      witness = λ asset_id.
          witness_pending_from-filter asset_id d left _ 0 d.transfers
            (λ t h. witness_left asset_id t t.recipient_type (ground (arith, h)))
            (All-imp _
              (λ (t : DbTransfer).
                not (owns b d t.asset_transfer_idx) ≡ false
                → witness_of asset_id t t.recipient_type d.asset_transfers d.batch_transfers
                  ≡ ok none)
              (λ (t : DbTransfer) h g. no_witness asset_id t t.recipient_type h (ground (arith, g)))
              d.transfers linked.transfers);
    }

  pub del_batch_transfer-same :
      (d' : DbData) → del_batch_transfer b d ≡ ok d' → Linked d' × SameAllocations d d' (λ t. true)
  unfolding del_batch_transfer
  del_batch_transfer-same d' e =
      elim (Bool-cases (any (λ (c : DbColoring). owns b d c.asset_transfer_idx) d.colorings)) [
        | inl used ↦ let bad : err internal ≡ ok d' = rw used at e in absurd (cc)
        | inr unused ↦
            let free = none_passes _ d.colorings unused in
            subst (λ x. Linked x × SameAllocations d x (λ t. true)) (ok_injective (rw unused at e))
              (left-Linked free, left-same free)
      ]
