-- ===== src/Database/Joins.antt =====
-- How rows are put together: the methods of the row types in src/database/mod.rs, and
-- `get_rgb_allocations`.
use rgb_lib.Prelude.{
  ℕ, suc, Bool, not, ◌&&◌, ◌||◌, List, [], ◌∷◌, Option, none, some, filter, find, first, any, ◌==◌,
  if◌then◌else◌,
}
use rgb_lib.Status.{
  receive, issue, change, coloring_repr, is_failed, is_settled, is_waiting_confirmations,
  is_waiting_counterparty,
}
use rgb_lib.Result.{Result, ok, err, batch_transfer_not_found, ◌>>=◌, expect, traverse}
use rgb_lib.Database.Rows.{
  Outpoint, outpoint_eq, blind, DbTxo, outpoint, DbColoring, DbAssetTransfer, DbBatchTransfer,
  DbTransfer, DbData, LocalRgbAllocation, LocalUnspent, RecipientTypeFull,
}

-- `DbBatchTransfer::get_asset_transfers`
unfoldable pub get_asset_transfers : DbBatchTransfer → List DbAssetTransfer → List DbAssetTransfer
get_asset_transfers b = filter (λ t. t.batch_transfer_idx == b.idx)

pub record DbAssetTransferData : Type 0 where
  pub asset_transfer : DbAssetTransfer
  pub transfers : List DbTransfer

-- the loop of `DbBatchTransfer::get_transfers`
abbrev collect_transfers : List DbTransfer → List DbAssetTransfer → List DbAssetTransferData
collect_transfers transfers [] = []
collect_transfers transfers (a ∷ as') =
    record { asset_transfer = a; transfers = filter (λ t. a.idx == t.asset_transfer_idx) transfers }
    ∷ collect_transfers transfers as'

-- `DbBatchTransfer::get_transfers`
unfoldable pub get_transfers :
    DbBatchTransfer → List DbAssetTransfer → List DbTransfer → List DbAssetTransferData
unfolding get_asset_transfers
get_transfers b asset_transfers transfers =
    collect_transfers transfers (get_asset_transfers b asset_transfers)

-- `DbBatchTransfer::get_incoming_transfer`
unfoldable pub get_incoming_transfer :
    DbBatchTransfer → List DbAssetTransfer → List DbTransfer → Result (DbAssetTransfer × DbTransfer)
unfolding get_transfers
get_incoming_transfer b asset_transfers transfers = do
  atd ← expect (first (get_transfers b asset_transfers transfers))
  transfer ← expect (first atd.transfers)
  ok (atd.asset_transfer, transfer)

-- `DbColoring::incoming`
abbrev pub coloring_incoming : DbColoring → Bool
coloring_incoming c =
    any (λ t. coloring_repr c.type == coloring_repr t) (receive ∷ change ∷ issue ∷ [])

-- `DbTransfer::related_transfers`
unfoldable pub related_transfers :
    DbTransfer
    → List DbAssetTransfer
    → List DbBatchTransfer
    → Result (DbAssetTransfer × DbBatchTransfer)
related_transfers t asset_transfers batch_transfers = do
  a ← expect (find (λ a. a.idx == t.asset_transfer_idx) asset_transfers)
  b ← expect (find (λ b. b.idx == a.batch_transfer_idx) batch_transfers)
  ok (a, b)

-- the allocation that a coloring of `txo` stands for
abbrev pub allocation_of :
    DbTxo → DbColoring → DbAssetTransfer → DbBatchTransfer → LocalRgbAllocation
allocation_of txo c a b = record {
  asset_id = a.asset_id;
  assignment = c.assignment;
  status = b.status;
  incoming = coloring_incoming c;
  txo_spent = txo.spent;
}

unfoldable pub coloring_allocation :
    DbTxo → List DbAssetTransfer → List DbBatchTransfer → DbColoring → Result LocalRgbAllocation
coloring_allocation txo asset_transfers batch_transfers c = do
  a ← expect (find (λ a. a.idx == c.asset_transfer_idx) asset_transfers)
  b ← expect (find (λ b. a.batch_transfer_idx == b.idx) batch_transfers)
  ok (allocation_of txo c a b)

-- `DbTxo::get_utxo_allocations`
unfoldable pub get_utxo_allocations :
    DbTxo
    → List DbColoring
    → List DbAssetTransfer
    → List DbBatchTransfer
    → Result (List LocalRgbAllocation)
unfolding coloring_allocation traverse
get_utxo_allocations txo colorings asset_transfers batch_transfers =
    traverse (coloring_allocation txo asset_transfers batch_transfers)
      (filter (λ c. c.txo_idx == txo.idx) colorings)

-- `LocalRgbAllocation::settled`
abbrev pub allocation_settled : LocalRgbAllocation → Bool
allocation_settled a =
    not (is_failed a.status)
    && ((not a.txo_spent && (a.incoming && is_settled a.status))
        || (a.txo_spent && (not a.incoming && is_waiting_confirmations a.status)))

-- `LocalRgbAllocation::future`
abbrev pub allocation_future : LocalRgbAllocation → Bool
allocation_future a =
    not a.txo_spent && (a.incoming && (not (is_failed a.status) && not (allocation_settled a)))

-- `*acc.entry(utxo).or_insert(0) += 1`
unfoldable pub count_entry : Outpoint → List (Outpoint × ℕ) → List (Outpoint × ℕ)
count_entry u [] = (u, 1) ∷ []
count_entry u ((v, n) ∷ m) = if outpoint_eq v u then (v, suc n) ∷ m else (v, n) ∷ count_entry u m

-- `*pending_blinded_utxos.get(&outpoint).unwrap_or(&0)`
unfoldable pub get_count : Outpoint → List (Outpoint × ℕ) → ℕ
get_count u [] = 0
get_count u ((v, n) ∷ m) = if outpoint_eq v u then n else get_count u m

-- the unblinded UTXO of a transfer that is a pending blind receive
abbrev pub blind_utxo : DbTransfer → DbBatchTransfer → Outpoint → Option Outpoint
blind_utxo t b u = if b.incoming && is_waiting_counterparty b.status then some u else none

abbrev pub pending_blind_of :
    DbTransfer
    → Option RecipientTypeFull
    → List DbAssetTransfer
    → List DbBatchTransfer
    → Result (Option Outpoint)
pending_blind_of t (some (blind u)) asset_transfers batch_transfers = do
  (a, b) ← related_transfers t asset_transfers batch_transfers
  ok (blind_utxo t b u)
pending_blind_of t _ asset_transfers batch_transfers = ok none

abbrev pub count_pending : Option Outpoint → List (Outpoint × ℕ) → List (Outpoint × ℕ)
count_pending none acc = acc
count_pending (some u) acc = count_entry u acc

-- the counts of the pending blind receives, by UTXO
unfoldable pub pending_blinded_utxos :
    List DbAssetTransfer
    → List DbBatchTransfer
    → List DbTransfer
    → List (Outpoint × ℕ)
    → Result (List (Outpoint × ℕ))
pending_blinded_utxos asset_transfers batch_transfers [] acc = ok acc
pending_blinded_utxos asset_transfers batch_transfers (t ∷ ts) acc =
    pending_blind_of t t.recipient_type asset_transfers batch_transfers >>= λ u.
    pending_blinded_utxos asset_transfers batch_transfers ts (count_pending u acc)

unfoldable pub local_unspent : DbData → List (Outpoint × ℕ) → DbTxo → Result LocalUnspent
unfolding get_utxo_allocations
local_unspent d counts t = do
  allocations ← get_utxo_allocations t d.colorings d.asset_transfers d.batch_transfers
  ok (record {
    utxo = t;
    rgb_allocations = allocations;
    pending_blinded = get_count (outpoint t) counts;
  })

-- `RgbLibDatabase::get_rgb_allocations`, over the tables `d` (those passed, or read from the
-- database) and the TXOs asked for
unfoldable pub get_rgb_allocations : List DbTxo → DbData → Result (List LocalUnspent)
unfolding pending_blinded_utxos local_unspent traverse
get_rgb_allocations utxos d = do
  counts ← pending_blinded_utxos d.asset_transfers d.batch_transfers d.transfers []
  traverse (local_unspent d counts) utxos

-- `RgbLibDatabase::get_unspent_txos`: all TXOs of the database where none are given
unfoldable pub get_unspent_txos : DbData → List DbTxo → List DbTxo
get_unspent_txos d [] = filter (λ t. not t.spent) d.txos
get_unspent_txos d (t ∷ ts) = filter (λ t'. not t'.spent) (t ∷ ts)

unfoldable pub get_batch_transfer_or_fail : ℕ → List DbBatchTransfer → Result DbBatchTransfer
get_batch_transfer_or_fail idx batch_transfers =
    elim (find (λ (t : DbBatchTransfer). t.idx == idx) batch_transfers) [
      | some b ↦ ok b
      | none ↦ err (batch_transfer_not_found idx)
    ]
