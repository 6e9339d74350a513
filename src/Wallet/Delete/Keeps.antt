-- ===== src/Wallet/Delete/Keeps.antt =====
-- What each step of a deletion of failed transfers leaves as it was.
use rgb_lib.Prelude.{
  ℕ, ◌≡◌, refl, sym, subst, ◌∙◌, Bool, true, not, ◌&&◌, List, [], ◌∷◌, filter, any, ◌==◌, arith,
  Bool-cases, inl, inr, filter-filter, any-filter-filter, ==_iff,
}
use rgb_lib.Status.{is_failed}
use rgb_lib.Result.{ok, err, internal, ok_injective}
use rgb_lib.Database.Rows.{DbTxo, DbColoring, DbAssetTransfer, DbBatchTransfer, DbTransfer, DbData}
use rgb_lib.Database.Deletes.{del_coloring, del_txo, del_batch_transfer, owns}

-- Keys of the database `d`: of a failed batch transfer, of an asset transfer that one owns, of a TXO
-- that does not exist on the chain yet.
abbrev pub failed_batch : DbData → ℕ → Bool
failed_batch d i =
    any (λ (b : DbBatchTransfer). (b.idx == i) && is_failed b.status) d.batch_transfers

abbrev pub failed_asset : DbData → ℕ → Bool
failed_asset d i =
    any (λ (a : DbAssetTransfer). (a.idx == i) && failed_batch d a.batch_transfer_idx)
      d.asset_transfers

abbrev pub unseen_txo : DbData → ℕ → Bool
unseen_txo d i = any (λ (t : DbTxo). (t.idx == i) && not t.exists) d.txos

-- `d'` still has all that is not about a failed transfer: the batch transfers, asset transfers,
-- transfers and colorings, and the TXOs that exist.
pub record Keeps (d d' : DbData) : Type 0 where
  pub batch_transfers :
      filter (λ (b : DbBatchTransfer). not (failed_batch d b.idx)) d'.batch_transfers
      ≡ filter (λ (b : DbBatchTransfer). not (failed_batch d b.idx)) d.batch_transfers
  pub asset_transfers :
      filter (λ (a : DbAssetTransfer). not (failed_batch d a.batch_transfer_idx)) d'.asset_transfers
      ≡ filter
          (λ (a : DbAssetTransfer). not (failed_batch d a.batch_transfer_idx))
          d.asset_transfers
  pub transfers :
      filter (λ (t : DbTransfer). not (failed_asset d t.asset_transfer_idx)) d'.transfers
      ≡ filter (λ (t : DbTransfer). not (failed_asset d t.asset_transfer_idx)) d.transfers
  pub colorings :
      filter (λ (c : DbColoring). not (failed_asset d c.asset_transfer_idx)) d'.colorings
      ≡ filter (λ (c : DbColoring). not (failed_asset d c.asset_transfer_idx)) d.colorings
  pub txos :
      filter (λ (t : DbTxo). not (unseen_txo d t.idx)) d'.txos
      ≡ filter (λ (t : DbTxo). not (unseen_txo d t.idx)) d.txos
  -- no asset transfer is new
  pub owned : (b : DbBatchTransfer) (i : ℕ) → owns b d' i ≡ true → owns b d i ≡ true

pub Keeps-refl : (d : DbData) → Keeps d d
Keeps-refl d = record {
  batch_transfers = refl;
  asset_transfers = refl;
  transfers = refl;
  colorings = refl;
  txos = refl;
  owned = λ b i h. h;
}

-- a key that has a property differs from one that lacks it
differs : (p : ℕ → Bool) (i j : ℕ) → p i ≡ true → not (p j) ≡ true → not (j == i) ≡ true
differs p i j h k = elim (Bool-cases (j == i)) [
  | inl same ↦ cc (subst (λ n. p n ≡ true) (sym ((==_iff j i).0 same)) h)
  | inr other' ↦ rw other'
]

module _ (d : DbData) where
  pub del_coloring-Keeps :
      (i : ℕ) (d' : DbData) → failed_asset d i ≡ true → Keeps d d' → Keeps d (del_coloring i d')
  unfolding del_coloring
  del_coloring-Keeps i d' f k = record {
    batch_transfers = k.batch_transfers;
    asset_transfers = k.asset_transfers;
    transfers = k.transfers;
    colorings =
        filter-filter _ _ (λ c h. differs (failed_asset d) i c.asset_transfer_idx f h) d'.colorings
        ∙ k.colorings;
    txos = k.txos;
    owned = k.owned;
  }

  pub del_txo-Keeps :
      (i : ℕ) (d' d'' : DbData)
      → unseen_txo d i ≡ true
      → Keeps d d'
      → del_txo i d' ≡ ok d''
      → Keeps d d''
  unfolding del_txo
  del_txo-Keeps i d' d'' f k e =
      elim (Bool-cases (any (λ (c : DbColoring). c.txo_idx == i) d'.colorings)) [
        | inl used ↦ let bad : err internal ≡ ok d'' = rw used at e in cc
        | inr unused ↦ subst (Keeps d) (ok_injective (rw unused at e)) (record {
          batch_transfers = k.batch_transfers;
          asset_transfers = k.asset_transfers;
          transfers = k.transfers;
          colorings = k.colorings;
          txos = filter-filter _ _ (λ t h. differs (unseen_txo d) i t.idx f h) d'.txos ∙ k.txos;
          owned = k.owned;
        })
      ]

  pub owned-failed :
      (b : DbBatchTransfer) (i : ℕ)
      → failed_batch d b.idx ≡ true
      → owns b d i ≡ true
      → failed_asset d i ≡ true
  owned-failed b i f h = go d.asset_transfers h
    where
      go :
          (l : List DbAssetTransfer)
          → any
              (λ (a : DbAssetTransfer). a.idx == i)
              (filter (λ (a : DbAssetTransfer). a.batch_transfer_idx == b.idx) l)
            ≡ true
          → any (λ (a : DbAssetTransfer). (a.idx == i) && failed_batch d a.batch_transfer_idx) l
            ≡ true
      go [] h = h
      go (a ∷ l) h = elim (Bool-cases (a.batch_transfer_idx == b.idx)) [
        | inl mine ↦
            let fails = subst (λ n. failed_batch d n ≡ true) (sym ((==_iff _ _).0 mine)) f in
            ground (arith, fails, mine, h, go l)
        | inr other' ↦ ground (arith, go l (rw other' at h))
      ]

  pub del_batch_transfer-Keeps :
      (b : DbBatchTransfer) (d' d'' : DbData)
      → failed_batch d b.idx ≡ true
      → Keeps d d'
      → del_batch_transfer b d' ≡ ok d''
      → Keeps d d''
  unfolding del_batch_transfer
  del_batch_transfer-Keeps b d' d'' f k e =
      elim (Bool-cases (any (λ (c : DbColoring). owns b d' c.asset_transfer_idx) d'.colorings)) [
        | inl used ↦ let bad : err internal ≡ ok d'' = rw used at e in cc
        | inr unused ↦ subst (Keeps d) (ok_injective (rw unused at e)) (record {
          batch_transfers =
              filter-filter _ _ (λ t h. differs (failed_batch d) b.idx t.idx f h) d'.batch_transfers
              ∙ k.batch_transfers;
          asset_transfers =
              filter-filter _ _ (λ a h. differs (failed_batch d) b.idx a.batch_transfer_idx f h)
                d'.asset_transfers
              ∙ k.asset_transfers;
          transfers = filter-filter _ _ (λ t h. not_owned t h) d'.transfers ∙ k.transfers;
          colorings = k.colorings;
          txos = k.txos;
          owned = λ c i h. k.owned c i (owns-shrinks c i h);
        })
      ]
    where
      not_owned :
          (t : DbTransfer)
          → not (failed_asset d t.asset_transfer_idx) ≡ true
          → not (owns b d' t.asset_transfer_idx) ≡ true
      not_owned t h = elim (Bool-cases (owns b d' t.asset_transfer_idx)) [
        | inl own ↦ cc (h, owned-failed b t.asset_transfer_idx f (k.owned b _ own))
        | inr free ↦ rw free
      ]

      owns-shrinks :
          (c : DbBatchTransfer) (i : ℕ)
          → any
              (λ (a : DbAssetTransfer). a.idx == i)
              (filter
                (λ (a : DbAssetTransfer). a.batch_transfer_idx == c.idx)
                (filter
                  (λ (a : DbAssetTransfer). not (a.batch_transfer_idx == b.idx))
                  d'.asset_transfers))
            ≡ true
          → owns c d' i ≡ true
      owns-shrinks c i h = any-filter-filter _ _ _ d'.asset_transfers h
