-- ===== src/Wallet/Delete/Removed.antt =====
-- What a deletion by key removes.
use rgb_lib.Prelude.{
  ℕ, ◌≡◌, refl, subst, Bool, true, false, not, ◌&&◌, List, [], ◌∷◌, some, filter, find, any, ◌==◌,
  arith, Bool-cases, inl, inr,
}
use rgb_lib.Status.{is_failed}
use rgb_lib.Result.{Result, ok, err, panic, >>=-eq-ok, internal, ok_injective}
use rgb_lib.Database.Rows.{DbColoring, DbAssetTransfer, DbBatchTransfer, DbData}
use rgb_lib.Database.Joins.{get_asset_transfers}
use rgb_lib.Database.Deletes.{del_batch_transfer, owns}
use rgb_lib.Wallet.Delete.{
  del_colorings, del_txos, delete_batch_transfer, connected_assets, delete_transfers, committed,
}
use rgb_lib.Wallet.Delete.Outcome.{single}

filter_none {ℓ} :
    {A : Type ℓ} (p : A → Bool) (l : List A) → filter p (filter (λ x. not (p x)) l) ≡ []
filter_none p [] = refl
filter_none p (x ∷ l) = elim (Bool-cases (p x)) [
  | inl t ↦ rw t (filter_none p l)
  | inr f ↦ ground (arith, f, filter_none p l)
]

removed :
    (b : DbBatchTransfer) (d d' : DbData)
    → del_batch_transfer b d ≡ ok d'
    → (filter (λ (t : DbBatchTransfer). t.idx == b.idx) d'.batch_transfers ≡ [])
      × (filter (λ (a : DbAssetTransfer). a.batch_transfer_idx == b.idx) d'.asset_transfers ≡ [])
unfolding del_batch_transfer
removed b d d' e =
    elim (Bool-cases (any (λ (c : DbColoring). owns b d c.asset_transfer_idx) d.colorings)) [
      | inl used ↦ let bad : err internal ≡ ok d' = rw used at e in cc
      | inr unused ↦
          subst
            (λ (x : DbData).
              (filter (λ (t : DbBatchTransfer). t.idx == b.idx) x.batch_transfers ≡ [])
              × (filter (λ (a : DbAssetTransfer). a.batch_transfer_idx == b.idx) x.asset_transfers
                  ≡ []))
            (ok_injective (rw unused at e))
            (filter_none _ d.batch_transfers, filter_none _ d.asset_transfers)
    ]

ended :
    (b : DbBatchTransfer) (d d' : DbData)
    → delete_batch_transfer b (get_asset_transfers b d.asset_transfers) d d ≡ ok d'
    → (filter (λ (t : DbBatchTransfer). t.idx == b.idx) d'.batch_transfers ≡ [])
      × (filter (λ (a : DbAssetTransfer). a.batch_transfer_idx == b.idx) d'.asset_transfers ≡ [])
unfolding delete_batch_transfer
ended b d d' h =
    let start = del_colorings d.colorings d.txos (get_asset_transfers b d.asset_transfers) [] d in
    let (m, em, g) = >>=-eq-ok (del_txos start.1 start.0) (del_batch_transfer b) h in
    removed b m d' g

committed-ok :
    (d : DbData) (m : Result (DbData × Bool)) (d' : DbData) (c : Bool)
    → committed d m ≡ (d', ok c)
    → m ≡ ok (d', c)
committed-ok d (ok (x, b)) d' c e = ground (arith, e)
committed-ok d (err x) d' c e = ground (arith, e)
committed-ok d panic d' c e = ground (arith, e)

-- A deletion by key that succeeds reports a change, was of a failed batch transfer, one without a
-- connected asset where only such are wanted, and leaves neither a batch transfer with its key nor
-- an asset transfer of it.
pub delete_transfers-removed :
    (idx : ℕ) (no_asset_only : Bool) (d d' : DbData) (c : Bool)
    → delete_transfers (some idx) no_asset_only d ≡ (d', ok c)
    → (b : DbBatchTransfer) × (find (λ (t : DbBatchTransfer). t.idx == idx) d.batch_transfers
        ≡ some b)
      × (is_failed b.status ≡ true)
      × ((no_asset_only && connected_assets (get_asset_transfers b d.asset_transfers)) ≡ false)
      × (c ≡ true)
      × (filter (λ (t : DbBatchTransfer). t.idx == b.idx) d'.batch_transfers ≡ [])
      × (filter (λ (a : DbAssetTransfer). a.batch_transfer_idx == b.idx) d'.asset_transfers ≡ [])
unfolding delete_transfers
delete_transfers-removed idx no_asset_only d d' c e =
    let s = single idx no_asset_only d (d', c) (committed-ok d _ d' c e) in
    let gone = ended s.batch d d' s.done in
    (s.batch, s.found, s.failed, s.free, s.changed, gone.0, gone.1)
