-- ===== src/Wallet/Delete/Batch.antt =====
-- What the deletion of one failed batch transfer leaves as it was.
use mathlib.Core.List.{Memᴰ}
use rgb_lib.Prelude.{
  ℕ, ◌≡◌, refl, subst, true, not, ◌&&◌, List, [], ◌∷◌, Option, none, some, filter, any, All, ◌==◌,
  arith, Bool-cases, inl, inr, any-Memᴰ, ==_iff,
}
use rgb_lib.Prelude.Member.{All-imp, All-Memᴰ}
use rgb_lib.Result.{ok, >>=-eq-ok, ok_injective}
use rgb_lib.Database.Rows.{DbTxo, DbColoring, DbAssetTransfer, DbBatchTransfer, DbData}
use rgb_lib.Database.Joins.{get_asset_transfers}
use rgb_lib.Database.Deletes.{del_coloring, del_txo, del_batch_transfer}
use rgb_lib.Wallet.Delete.{
  insert_idx, insert_missing, missing_txo, insert_all_missing, colorings_of, del_colorings,
  del_txos, delete_batch_transfer,
}
use rgb_lib.Wallet.Delete.Keeps.{
  failed_batch, failed_asset, unseen_txo, Keeps, del_coloring-Keeps, del_txo-Keeps, owned-failed,
  del_batch_transfer-Keeps,
}

module _ (d : DbData) where
  -- the batch transfer and its asset transfers, as they were read
  del_colorings-Keeps :
      (as' : List DbAssetTransfer) (l : List ℕ) (d' : DbData)
      → All (λ (a : DbAssetTransfer). failed_asset d a.idx ≡ true) as'
      → Keeps d d'
      → Keeps d (del_colorings d.colorings d.txos as' l d').0
  unfolding del_colorings
  del_colorings-Keeps [] l d' f k = k
  del_colorings-Keeps (a ∷ as') l d' f k =
      del_colorings-Keeps as' _ (del_coloring a.idx d') f.1 (del_coloring-Keeps d a.idx d' f.0 k)

  insert_idx-unseen :
      (i : ℕ) (l : List ℕ)
      → unseen_txo d i ≡ true
      → All (λ j. unseen_txo d j ≡ true) l
      → All (λ j. unseen_txo d j ≡ true) (insert_idx i l)
  insert_idx-unseen i l u h = elim (Bool-cases (any (λ j. j == i) l)) [
    | inl there ↦ rw there h
    | inr fresh ↦ rw fresh (u, h)
  ]

  found-unseen :
      (c : DbColoring) (o : Option DbTxo)
      → missing_txo d.txos c ≡ o
      → (l : List ℕ) → All (λ j. unseen_txo d j ≡ true) l
      → All (λ j. unseen_txo d j ≡ true) (insert_missing o l)
  found-unseen c none e l h = h
  found-unseen c (some t) e l h = insert_idx-unseen t.idx l (unseen d.txos e) h
    where
      unseen :
          (txos : List DbTxo)
          → missing_txo txos c ≡ some t
          → any (λ (x : DbTxo). (x.idx == t.idx) && not x.exists) txos ≡ true
      unseen [] e = cc
      unseen (x ∷ txos) e = elim (Bool-cases (not x.exists && (x.idx == c.txo_idx))) [
        | inl hit ↦ ground (arith, hit, e)
        | inr miss ↦ ground (arith, unseen txos (rw miss at e))
      ]

  insert_all_missing-unseen :
      (cs : List DbColoring) (l : List ℕ)
      → All (λ j. unseen_txo d j ≡ true) l
      → All (λ j. unseen_txo d j ≡ true) (insert_all_missing d.txos cs l)
  insert_all_missing-unseen [] l h = h
  insert_all_missing-unseen (c ∷ cs) l h =
      insert_all_missing-unseen cs _ (found-unseen c (missing_txo d.txos c) refl l h)

  del_colorings-unseen :
      (as' : List DbAssetTransfer) (l : List ℕ) (d' : DbData)
      → All (λ j. unseen_txo d j ≡ true) l
      → All (λ j. unseen_txo d j ≡ true) (del_colorings d.colorings d.txos as' l d').1
  unfolding del_colorings
  del_colorings-unseen [] l d' h = h
  del_colorings-unseen (a ∷ as') l d' h =
      del_colorings-unseen as' _ (del_coloring a.idx d')
        (insert_all_missing-unseen (colorings_of a d.colorings) l h)

  del_txos-Keeps :
      (l : List ℕ) (d' d'' : DbData)
      → All (λ j. unseen_txo d j ≡ true) l
      → Keeps d d'
      → del_txos l d' ≡ ok d''
      → Keeps d d''
  unfolding del_txos
  del_txos-Keeps [] d' d'' u k e = subst (Keeps d) (ok_injective e) k
  del_txos-Keeps (i ∷ l) d' d'' u k e =
      let (m, em, f) = >>=-eq-ok (del_txo i d') (del_txos l) e in
      del_txos-Keeps l m d'' u.1 (del_txo-Keeps d i d' m u.0 k em) f

  owned_assets-failed :
      (b : DbBatchTransfer)
      → failed_batch d b.idx ≡ true
      → All
          (λ (a : DbAssetTransfer). failed_asset d a.idx ≡ true)
          (get_asset_transfers b d.asset_transfers)
  unfolding get_asset_transfers
  owned_assets-failed b f =
      let l = filter (λ (a : DbAssetTransfer). a.batch_transfer_idx == b.idx) d.asset_transfers in
      All-imp (λ a. Memᴰ a l) (λ a. failed_asset d a.idx ≡ true)
        (λ a m.
          owned-failed d b a.idx f (
            any-Memᴰ (λ (x : DbAssetTransfer). x.idx == a.idx) a l m ((==_iff a.idx a.idx).1 refl)))
        l (All-Memᴰ l)

  pub delete_batch_transfer-Keeps :
      (b : DbBatchTransfer) (d' d'' : DbData)
      → failed_batch d b.idx ≡ true
      → Keeps d d'
      → delete_batch_transfer b (get_asset_transfers b d.asset_transfers) d d' ≡ ok d''
      → Keeps d d''
  unfolding delete_batch_transfer
  delete_batch_transfer-Keeps b d' d'' f k e =
      let as' = get_asset_transfers b d.asset_transfers in
      let (m, em, g) =
        >>=-eq-ok
          (del_txos (del_colorings d.colorings d.txos as' [] d').1
            (del_colorings d.colorings d.txos as' [] d').0)
          (del_batch_transfer b) e in
      del_batch_transfer-Keeps d b m d'' f
        (del_txos-Keeps _ _ m (del_colorings-unseen as' [] d' tt)
          (del_colorings-Keeps as' [] d' (owned_assets-failed b f) k) em)
        g
