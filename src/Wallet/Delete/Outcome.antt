-- ===== src/Wallet/Delete/Outcome.antt =====
-- What `delete_transfers` leaves as it was.
use rgb_lib.Prelude.{
  ℕ, ◌≡◌, refl, ap, sym, subst, ◌∙◌, Bool, true, false, ◌&&◌, List, [], ◌∷◌, Option, none, some,
  filter, find, any, All, ◌==◌, arith, Bool-cases, inl, inr, ◌⊎◌, any-Memᴰ, ==_iff,
}
use rgb_lib.Prelude.Member.{All-imp, All-Memᴰ, All-filter_test}
use rgb_lib.Status.{is_failed}
use rgb_lib.Result.{
  Result, Error, ok, err, panic, >>=-eq-ok, cannot_delete_batch_transfer, batch_transfer_not_found,
  ok_injective,
}
use rgb_lib.Database.Rows.{DbBatchTransfer, DbData}
use rgb_lib.Database.Joins.{get_asset_transfers, get_batch_transfer_or_fail}
use rgb_lib.Wallet.Delete.{
  delete_batch_transfer, connected_assets, delete_all, delete_transfers_impl, delete_transfers,
}
use rgb_lib.Wallet.Delete.Keeps.{failed_batch, Keeps, Keeps-refl}
use rgb_lib.Wallet.Delete.Batch.{delete_batch_transfer-Keeps}

-- the failed batch transfers of the database are failed by their keys
failed_keys :
    (d : DbData)
    → All
        (λ (b : DbBatchTransfer). failed_batch d b.idx ≡ true)
        (filter (λ (b : DbBatchTransfer). is_failed b.status) d.batch_transfers)
failed_keys d =
    All-imp _ (λ (b : DbBatchTransfer). failed_batch d b.idx ≡ true)
      (λ b h. any-Memᴰ _ b d.batch_transfers h.0 (rw ((==_iff b.idx b.idx).1 refl, h.1))) _
      (All-filter_test _ (λ (b : DbBatchTransfer). is_failed b.status) d.batch_transfers
        (All-Memᴰ d.batch_transfers))

found_key :
    (d : DbData) (idx : ℕ) (b : DbBatchTransfer)
    → find (λ (t : DbBatchTransfer). t.idx == idx) d.batch_transfers ≡ some b
    → is_failed b.status ≡ true
    → failed_batch d b.idx ≡ true
found_key d idx b e f = go d.batch_transfers e
  where
    go :
        (l : List DbBatchTransfer)
        → find (λ (t : DbBatchTransfer). t.idx == idx) l ≡ some b
        → any (λ (t : DbBatchTransfer). (t.idx == b.idx) && is_failed t.status) l ≡ true
    go [] h = cc
    go (t ∷ l) h = elim (Bool-cases (t.idx == idx)) [
      | inl hit ↦
          let same : t ≡ b = ground (arith, hit, h) in
          let own : ((t.idx == b.idx) && is_failed t.status) ≡ true =
            subst (λ x. ((x.idx == b.idx) && is_failed x.status) ≡ true) (sym same)
              (rw ((==_iff b.idx b.idx).1 refl, f)) in
          rw own
      | inr miss ↦ ground (arith, go l (rw miss at h))
    ]

delete_all-Keeps :
    (no_asset_only : Bool) (d : DbData) (bs : List DbBatchTransfer) (changed : Bool) (d' : DbData)
    (r : DbData × Bool)
    → All (λ (b : DbBatchTransfer). failed_batch d b.idx ≡ true) bs
    → Keeps d d'
    → delete_all no_asset_only d bs changed d' ≡ ok r
    → Keeps d r.0
unfolding delete_all
delete_all-Keeps no_asset_only d [] changed d' r f k e = subst (λ p. Keeps d p.0) (ok_injective e) k
delete_all-Keeps no_asset_only d (b ∷ bs) changed d' r f k e =
    elim (Bool-cases
      (no_asset_only && connected_assets (get_asset_transfers b d.asset_transfers))) [
        | inl connected ↦ delete_all-Keeps no_asset_only d bs changed d' r f.1 k (rw connected at e)
        | inr free ↦
            let (m, em, g) =
              >>=-eq-ok (delete_batch_transfer b (get_asset_transfers b d.asset_transfers) d d')
                (delete_all no_asset_only d bs true) (rw free at e) in
            delete_all-Keeps no_asset_only d bs true m r f.1
              (delete_batch_transfer-Keeps d b d' m f.0 k em) g
      ]

-- what a deletion by key that succeeds has gone through
pub record Single (idx : ℕ) (no_asset_only : Bool) (d : DbData) (r : DbData × Bool) : Type 0 where
  pub batch : DbBatchTransfer
  pub found : find (λ (t : DbBatchTransfer). t.idx == idx) d.batch_transfers ≡ some batch
  pub failed : is_failed batch.status ≡ true
  pub free :
      (no_asset_only && connected_assets (get_asset_transfers batch d.asset_transfers)) ≡ false
  pub done : delete_batch_transfer batch (get_asset_transfers batch d.asset_transfers) d d ≡ ok r.0
  pub changed : r.1 ≡ true

got_batch :
    (idx : ℕ) (l : List DbBatchTransfer) (b : DbBatchTransfer)
    → get_batch_transfer_or_fail idx l ≡ ok b
    → find (λ (t : DbBatchTransfer). t.idx == idx) l ≡ some b
unfolding get_batch_transfer_or_fail
got_batch idx l b e = go (find (λ (t : DbBatchTransfer). t.idx == idx) l) e
  where
    go :
        (o : Option DbBatchTransfer)
        → (elim o [ some x ↦ ok x | none ↦ err (batch_transfer_not_found idx) ]) ≡ ok b
        → o ≡ some b
    go none h = ground (arith, h)
    go (some x) h = ap some (ok_injective h)

pub single :
    (idx : ℕ) (no_asset_only : Bool) (d : DbData) (r : DbData × Bool)
    → delete_transfers_impl (some idx) no_asset_only d ≡ ok r
    → Single idx no_asset_only d r
unfolding delete_transfers_impl
single idx no_asset_only d r e =
    let (b, eb, f) = >>=-eq-ok (get_batch_transfer_or_fail idx d.batch_transfers) _ e in
    elim (Bool-cases (is_failed b.status)) [
      | inr live ↦ let bad : err cannot_delete_batch_transfer ≡ ok r = rw live at f in cc
      | inl dead ↦
          elim (Bool-cases
            (no_asset_only && connected_assets (get_asset_transfers b d.asset_transfers))) [
              | inl used ↦
                  let bad : err cannot_delete_batch_transfer ≡ ok r = rw (dead, used) at f in cc
              | inr free ↦
                  let (m, em, g) =
                    >>=-eq-ok
                      (delete_batch_transfer b (get_asset_transfers b d.asset_transfers) d d)
                      (λ d'. ok (d', true)) (rw (dead, free) at f) in
                  record {
                    batch = b;
                    found = got_batch idx d.batch_transfers b eb;
                    failed = dead;
                    free = free;
                    done = em ∙ ap ok (ap (λ (p : DbData × Bool). p.0) (ok_injective g));
                    changed = sym (ap (λ (p : DbData × Bool). p.1) (ok_injective g));
                  }
            ]
    ]

Result-cases {ℓ} :
    {A : Type ℓ} (r : Result A)
    → ((a : A) × (r ≡ ok a)) ⊎ (((e : Error) × (r ≡ err e)) ⊎ (r ≡ panic))
Result-cases (ok a) = inl (a, refl)
Result-cases (err e) = inr (inl (e, refl))
Result-cases panic = inr (inr refl)

impl-Keeps :
    (i : Option ℕ) (no_asset_only : Bool) (d : DbData) (r : DbData × Bool)
    → delete_transfers_impl i no_asset_only d ≡ ok r
    → Keeps d r.0
unfolding delete_transfers_impl
impl-Keeps none no_asset_only d r e =
    delete_all-Keeps no_asset_only d _ false d r (failed_keys d) (Keeps-refl d) e
impl-Keeps (some idx) no_asset_only d r e =
    let s = single idx no_asset_only d r e in
    delete_batch_transfer-Keeps d s.batch d r.0 (found_key d idx s.batch s.found s.failed)
      (Keeps-refl d) s.done

-- Whatever `delete_transfers` is asked for and however it ends, the database keeps every batch
-- transfer that has not failed, the asset transfers, transfers and colorings of these, in their
-- order and unchanged, and every TXO that exists.
pub delete_transfers-Keeps :
    (batch_transfer_idx : Option ℕ) (no_asset_only : Bool) (d : DbData)
    → Keeps d (delete_transfers batch_transfer_idx no_asset_only d).0
unfolding delete_transfers
delete_transfers-Keeps i no_asset_only d =
    elim (Result-cases (delete_transfers_impl i no_asset_only d)) [
      | inl (r, e) ↦ rw e (impl-Keeps i no_asset_only d r e)
      | inr (inl (x, e)) ↦ rw e (Keeps-refl d)
      | inr (inr e) ↦ rw e (Keeps-refl d)
    ]
