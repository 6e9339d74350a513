-- ===== src/Wallet/Slots.antt =====
-- Which UTXOs can take a new RGB allocation: `get_available_allocations` and `get_utxo` of
-- src/wallet/offline.rs.
pub mod Room
pub mod Total
pub mod Least
use rgb_lib.Prelude.{
  ℕ, suc, ◌+◌, ◌≡◌, Bool, true, false, not, ◌&&◌, ◌||◌, List, [], ◌∷◌, map, Option, none, some,
  filter, any, all, first, length, is_empty, ltb, leb, if◌then◌else◌, checked_sub,
}
use rgb_lib.Prelude.Sort.{sort_pairs}
use rgb_lib.Status.{is_failed, is_initiated, is_waiting_counterparty}
use rgb_lib.Result.{Result, ok, err, insufficient_allocation_slots, ◌>>=◌, expect}
use rgb_lib.Database.Rows.{
  Outpoint, outpoint_eq, DbTxo, outpoint, DbData, LocalRgbAllocation, LocalUnspent,
}
use rgb_lib.Database.Joins.{allocation_future, get_rgb_allocations, get_unspent_txos}

-- `u.rgb_allocations.retain(|a| !a.status.failed())`
abbrev pub drop_failed : LocalUnspent → LocalUnspent
drop_failed u = record u {
  rgb_allocations = filter (λ (a : LocalRgbAllocation). not (is_failed a.status)) u.rgb_allocations;
}

-- the number of allocations, settled and to come; both fit in a u32
abbrev pub used_slots : LocalUnspent → ℕ
used_slots u = length u.rgb_allocations + u.pending_blinded

abbrev pub going_out : LocalRgbAllocation → Bool
going_out a = not a.incoming && (is_initiated a.status || is_waiting_counterparty a.status)

abbrev pub has_slot : ℕ → LocalUnspent → Bool
has_slot max_allocs u = leb (used_slots u) max_allocs && not (any going_out u.rgb_allocations)

-- `max_per_utxo` is the wallet's `max_allocations_per_utxo`
unfoldable pub get_available_allocations :
    ℕ → List LocalUnspent → List Outpoint → Option ℕ → Result (List LocalUnspent)
get_available_allocations max_per_utxo unspents exclude_utxos max_allocations = do
  max_allocs ← elim max_allocations [ some m ↦ ok m | none ↦ expect (checked_sub max_per_utxo 1) ]
  ok (
      filter (has_slot max_allocs) (
        filter (λ (u : LocalUnspent). not (any (outpoint_eq (outpoint u.utxo)) exclude_utxos))
          (filter (λ (u : LocalUnspent). not u.utxo.pending_witness)
            (filter (λ (u : LocalUnspent). u.utxo.exists) (map drop_failed unspents)))))

-- `sort_by_key`
abbrev pub by_used_slots : List LocalUnspent → List LocalUnspent
by_used_slots us = map (λ p. p.1) (sort_pairs (map (λ u. (used_slots u, u)) us))

abbrev pub suits : Bool → LocalUnspent → Bool
suits pending_operation u =
    if pending_operation
    then any allocation_future u.rgb_allocations
    else all (λ a. not (allocation_future a)) u.rgb_allocations

abbrev pub other_or : LocalUnspent → Option LocalUnspent → DbTxo
other_or selected none = selected.utxo
other_or selected (some other) = other.utxo

-- the UTXO chosen from the sorted ones
unfoldable pub choose : Bool → List LocalUnspent → Result DbTxo
choose pending_operation [] = err insufficient_allocation_slots
choose pending_operation (selected ∷ rest) =
    if ltb 1 (length (selected ∷ rest)) && not (is_empty selected.rgb_allocations)
    then ok (other_or selected (first (filter (suits pending_operation) (selected ∷ rest))))
    else ok selected.utxo

-- `unspents` are those passed, if any; else the unspent TXOs of the database are read
unfoldable pub get_utxo :
    ℕ → DbData → List Outpoint → Option (List LocalUnspent) → Bool → Option ℕ → Result DbTxo
get_utxo max_per_utxo d exclude_utxos unspents pending_operation max_allocations = do
  us ← elim unspents [ some us ↦ ok us | none ↦ get_rgb_allocations (get_unspent_txos d []) d ]
  allocatable ← get_available_allocations max_per_utxo us exclude_utxos max_allocations
  choose pending_operation (by_used_slots allocatable)
