-- ===== src/Wallet/Delete/Rows.antt =====
-- What is found in the rows that the deletion of a batch transfer leaves.
use rgb_lib.Prelude.{
  ℕ, ◌≡◌, refl, subst, Bool, true, false, not, List, [], ◌∷◌, none, some, filter, find, any, All,
  ◌==◌, arith, Bool-cases, inl, inr,
}
use rgb_lib.Result.{Result, ok, traverse, ◌>>=◌}
use rgb_lib.Database.Rows.{Outpoint, DbAssetTransfer, DbBatchTransfer, DbTransfer, DbData}
use rgb_lib.Database.Joins.{pending_blind_of, pending_blinded_utxos, count_pending}

-- the rows that the deletion of the batch transfer with a key leaves
abbrev pub batches_left : ℕ → List DbBatchTransfer → List DbBatchTransfer
batches_left k = filter (λ (t : DbBatchTransfer). not (t.idx == k))

abbrev pub assets_left : ℕ → List DbAssetTransfer → List DbAssetTransfer
assets_left k = filter (λ (a : DbAssetTransfer). not (a.batch_transfer_idx == k))

pub find-batches_left :
    (j k : ℕ) (l : List DbBatchTransfer)
    → (j == k) ≡ false
    → find (λ (t : DbBatchTransfer). t.idx == j) (batches_left k l)
      ≡ find (λ (t : DbBatchTransfer). t.idx == j) l
find-batches_left j k [] h = refl
find-batches_left j k (t ∷ l) h = ground (arith, h, find-batches_left j k l h)

pub find-assets_left :
    (i k : ℕ) (l : List DbAssetTransfer)
    → any
        (λ (a : DbAssetTransfer). a.idx == i)
        (filter (λ (a : DbAssetTransfer). a.batch_transfer_idx == k) l)
      ≡ false
    → find (λ (a : DbAssetTransfer). a.idx == i) (assets_left k l)
      ≡ find (λ (a : DbAssetTransfer). a.idx == i) l
find-assets_left i k [] h = refl
find-assets_left i k (a ∷ l) h = elim (Bool-cases (a.batch_transfer_idx == k)) [
  | inl own ↦
      rw own (ground (arith, rw own at h, find-assets_left i k l (ground (arith, rw own at h))))
  | inr foreign' ↦ rw foreign' (ground (arith, find-assets_left i k l (rw foreign' at h)))
]

-- what is found for a key that the batch transfer does not own is of another batch transfer
pub found_foreign :
    (i k : ℕ) (l : List DbAssetTransfer) (a : DbAssetTransfer)
    → any
        (λ (a : DbAssetTransfer). a.idx == i)
        (filter (λ (a : DbAssetTransfer). a.batch_transfer_idx == k) l)
      ≡ false
    → find (λ (a : DbAssetTransfer). a.idx == i) l ≡ some a
    → (a.batch_transfer_idx == k) ≡ false
found_foreign i k [] a h e = absurd (cc)
found_foreign i k (x ∷ l) a h e = elim (Bool-cases (x.idx == i)) [
  | inl hit ↦
      let same : x ≡ a = ground (arith, hit, e) in
      subst (λ (y : DbAssetTransfer). (y.batch_transfer_idx == k) ≡ false) same
        (ground (arith, hit, h))
  | inr miss ↦ found_foreign i k l a (ground (arith, miss, h)) (rw miss at e)
]

pub none_passes {ℓ} :
    {A : Type ℓ} (p : A → Bool) (l : List A) → any p l ≡ false → All (λ x. p x ≡ false) l
none_passes p [] h = tt
none_passes p (x ∷ l) h = (ground (arith, h), none_passes p l (ground (arith, h)))

pub traverse-same {ℓ κ} :
    {A : Type ℓ} {B : Type κ} (f g : A → Result B) (l : List A)
    → All (λ x. f x ≡ g x) l
    → traverse f l ≡ traverse g l
unfolding traverse
traverse-same f g [] h = refl
traverse-same f g (x ∷ l) h = rw (h.0, traverse-same f g l h.1) refl

-- transfers that are no pending blind receives may go
pub pending_blinded_utxos-filter :
    (d d' : DbData) (keep : DbTransfer → Bool) (ts : List DbTransfer) (acc : List (Outpoint × ℕ))
    → ((t : DbTransfer)
        → keep t ≡ true
        → pending_blind_of t t.recipient_type d.asset_transfers d.batch_transfers
          ≡ pending_blind_of t t.recipient_type d'.asset_transfers d'.batch_transfers)
    → All
        (λ (t : DbTransfer).
          keep t ≡ false
          → pending_blind_of t t.recipient_type d.asset_transfers d.batch_transfers ≡ ok none)
        ts
    → pending_blinded_utxos d.asset_transfers d.batch_transfers ts acc
      ≡ pending_blinded_utxos d'.asset_transfers d'.batch_transfers (filter keep ts) acc
unfolding pending_blinded_utxos
pending_blinded_utxos-filter d d' keep [] acc same none' = refl
pending_blinded_utxos-filter d d' keep (t ∷ ts) acc same none' = elim (Bool-cases (keep t)) [
  | inl hit ↦ rw hit (
      rw (same t hit) λ i.
        pending_blind_of t t.recipient_type d'.asset_transfers d'.batch_transfers >>= λ u.
        pending_blinded_utxos-filter d d' keep ts (count_pending u acc) same none'.1 i)
  | inr miss ↦ rw (miss, none'.0 miss) (pending_blinded_utxos-filter d d' keep ts acc same none'.1)
]
