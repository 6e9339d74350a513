-- ===== src/Database/Linked.antt =====
-- Referential integrity of the tables, as the foreign keys of migration/src/ demand it, and that the
-- asset of a transfer that waits for confirmations is known; the joins of src/database/mod.rs then
-- meet no panic.
use rgb_lib.Prelude.{
  ℕ, String, ◌≡◌, refl, ap, true, Option, none, some, List, [], ◌∷◌, map, find, filter, All,
  All-find, All-filter, ◌==◌, arith,
}
use rgb_lib.Status.{is_waiting_confirmations}
use rgb_lib.Result.{Result, ok, traverse}
use rgb_lib.Database.Rows.{
  Outpoint, RecipientTypeFull, blind, witness, DbTxo, outpoint, DbColoring, DbAssetTransfer,
  DbBatchTransfer, DbTransfer, DbData, LocalRgbAllocation, LocalUnspent,
}
use rgb_lib.Database.Joins.{
  related_transfers, coloring_allocation, get_utxo_allocations, pending_blinded_utxos,
  local_unspent, get_rgb_allocations, get_count, pending_blind_of, count_pending, blind_utxo,
  allocation_of,
}

-- an asset transfer, a batch transfer with the given `idx`
abbrev pub HasAssetTransfer : DbData → ℕ → Type 0
HasAssetTransfer d i =
    (a : DbAssetTransfer) × (find (λ (t : DbAssetTransfer). t.idx == i) d.asset_transfers ≡ some a)

abbrev pub HasBatchTransfer : DbData → ℕ → Type 0
HasBatchTransfer d i =
    (b : DbBatchTransfer) × (find (λ (t : DbBatchTransfer). t.idx == i) d.batch_transfers ≡ some b)

-- The asset of a transfer that waits for confirmations is known.
abbrev pub AssetKnown : DbData → DbAssetTransfer → Type 0
AssetKnown d a =
    (b : DbBatchTransfer)
    → find (λ (t : DbBatchTransfer). t.idx == a.batch_transfer_idx) d.batch_transfers ≡ some b
    → is_waiting_confirmations b.status ≡ true
    → (id : String) × (a.asset_id ≡ some id)

pub record Linked (d : DbData) : Type 0 where
  pub colorings : All (λ (c : DbColoring). HasAssetTransfer d c.asset_transfer_idx) d.colorings
  pub transfers : All (λ (t : DbTransfer). HasAssetTransfer d t.asset_transfer_idx) d.transfers
  pub batches :
      All (λ (a : DbAssetTransfer). HasBatchTransfer d a.batch_transfer_idx) d.asset_transfers
  pub assets : All (AssetKnown d) d.asset_transfers

pub find-flip :
    (i : ℕ) (l : List DbBatchTransfer)
    → find (λ (b : DbBatchTransfer). i == b.idx) l ≡ find (λ (b : DbBatchTransfer). b.idx == i) l
find-flip i [] = refl
find-flip i (b ∷ l) = ground (arith, find-flip i l)

pub traverse_total {ℓ κ μ} :
    {A : Type ℓ} {B : Type κ} (P : A → Type μ) (f : A → Result B)
    → ((x : A) → P x → (y : B) × (f x ≡ ok y))
    → (xs : List A) → All P xs
    → (ys : List B) × (traverse f xs ≡ ok ys)
unfolding traverse
traverse_total P f h [] p = ([], refl)
traverse_total P f h (x ∷ xs) p =
    let (y, e) = h x p.0 in let (ys, es) = traverse_total P f h xs p.1 in (y ∷ ys, rw (e, es))

module _ (d : DbData) (linked : Linked d) where
  pub related_transfers_total :
      (t : DbTransfer)
      → HasAssetTransfer d t.asset_transfer_idx
      → (a : DbAssetTransfer) × (b : DbBatchTransfer) × (related_transfers t d.asset_transfers
            d.batch_transfers
          ≡ ok (a, b))
        × (is_waiting_confirmations b.status ≡ true → (id : String) × (a.asset_id ≡ some id))
  unfolding related_transfers
  related_transfers_total t (a, ea) =
      let (b, eb) =
        All-find (λ (a : DbAssetTransfer). HasBatchTransfer d a.batch_transfer_idx) _ _ a
          linked.batches ea in
      (a, b, rw (ea, eb), All-find (AssetKnown d) _ _ a linked.assets ea b eb)

  coloring_allocation_total :
      (txo : DbTxo) (c : DbColoring)
      → HasAssetTransfer d c.asset_transfer_idx
      → (l : LocalRgbAllocation) × (coloring_allocation txo d.asset_transfers d.batch_transfers c
          ≡ ok l)
  unfolding coloring_allocation
  coloring_allocation_total txo c (a, ea) =
      let (b, eb) =
        All-find (λ (a : DbAssetTransfer). HasBatchTransfer d a.batch_transfer_idx) _ _ a
          linked.batches ea in
      (allocation_of txo c a b, rw (ea, find-flip a.batch_transfer_idx d.batch_transfers, eb))

  get_utxo_allocations_total :
      (txo : DbTxo)
      → (l : List LocalRgbAllocation) × (get_utxo_allocations txo d.colorings d.asset_transfers
            d.batch_transfers
          ≡ ok l)
  unfolding get_utxo_allocations
  get_utxo_allocations_total txo =
      traverse_total (λ (c : DbColoring). HasAssetTransfer d c.asset_transfer_idx)
        (coloring_allocation txo d.asset_transfers d.batch_transfers)
        (coloring_allocation_total txo)
        (filter (λ (c : DbColoring). c.txo_idx == txo.idx) d.colorings)
        (All-filter _ _ d.colorings linked.colorings)

  pending_blind_total :
      (t : DbTransfer) (r : Option RecipientTypeFull)
      → HasAssetTransfer d t.asset_transfer_idx
      → (u : Option Outpoint) × (pending_blind_of t r d.asset_transfers d.batch_transfers ≡ ok u)
  pending_blind_total t (some (blind u)) h =
      let (a, b, e, k) = related_transfers_total t h in (blind_utxo t b u, rw e)
  pending_blind_total t (some (witness v)) h = (none, refl)
  pending_blind_total t none h = (none, refl)

  pending_blinded_total :
      (ts : List DbTransfer) (acc : List (Outpoint × ℕ))
      → All (λ (t : DbTransfer). HasAssetTransfer d t.asset_transfer_idx) ts
      → (m : List (Outpoint × ℕ)) × (pending_blinded_utxos d.asset_transfers d.batch_transfers ts
            acc
          ≡ ok m)
  unfolding pending_blinded_utxos
  pending_blinded_total [] acc h = (acc, refl)
  pending_blinded_total (t ∷ ts) acc h =
      let (u, e) = pending_blind_total t t.recipient_type h.0 in
      let (m, em) = pending_blinded_total ts (count_pending u acc) h.1 in (m, rw e em)

  local_unspents_total :
      (counts : List (Outpoint × ℕ)) (txos : List DbTxo)
      → (us : List LocalUnspent) × (traverse (local_unspent d counts) txos ≡ ok us)
        × (map (λ (u : LocalUnspent). u.utxo) us ≡ txos)
  unfolding traverse local_unspent
  local_unspents_total counts [] = ([], refl, refl)
  local_unspents_total counts (t ∷ ts) =
      let (l, e) = get_utxo_allocations_total t in
      let (us, es, em) = local_unspents_total counts ts in
      let u : LocalUnspent = record {
        utxo = t;
        rgb_allocations = l;
        pending_blinded = get_count (outpoint t) counts;
      } in
      (u ∷ us, rw (e, es), ap (λ r. t ∷ r) em)

  -- Over linked tables the allocations of any TXOs are read without a panic: one entry for each TXO,
  -- in the order given.
  pub get_rgb_allocations_total :
      (txos : List DbTxo)
      → (us : List LocalUnspent) × (get_rgb_allocations txos d ≡ ok us)
        × (map (λ (u : LocalUnspent). u.utxo) us ≡ txos)
  unfolding get_rgb_allocations
  get_rgb_allocations_total txos =
      let (m, e) = pending_blinded_total d.transfers [] linked.transfers in
      let (us, es, em) = local_unspents_total m txos in (us, rw e es, em)
