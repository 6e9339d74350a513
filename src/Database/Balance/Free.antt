-- ===== src/Database/Balance/Free.antt =====
-- The unspents that are not `unspendable`, described without their exceptions.
use rgb_lib.Prelude.{
  ◌≡◌, refl, Bool, not, ◌&&◌, ◌||◌, List, [], ◌∷◌, filter, any, all, ◌==◌, if◌then◌else◌, arith,
}
use rgb_lib.Status.{is_failed, is_settled, is_waiting_confirmations}
use rgb_lib.Database.Rows.{LocalRgbAllocation, LocalUnspent}
use rgb_lib.Database.Balance.{busy, being_spent, unspendable}

-- nothing is going on with an unspent: each of its allocations failed or came in and settled, and no
-- blind receive is pending on it
abbrev at_rest : LocalRgbAllocation → Bool
at_rest a = is_failed a.status || (a.incoming && is_settled a.status)

abbrev not_confirming : LocalRgbAllocation → Bool
not_confirming a = a.incoming || not (is_waiting_confirmations a.status)

abbrev pub free : LocalUnspent → Bool
free u =
    if u.utxo.spent
    then all not_confirming u.rgb_allocations
    else all at_rest u.rgb_allocations && (u.pending_blinded == 0)

busy-at_rest : (l : List LocalRgbAllocation) → any busy l ≡ not (all at_rest l)
busy-at_rest [] = refl
busy-at_rest (a ∷ l) = ground (arith, busy-at_rest l)

being_spent-not_confirming :
    (l : List LocalRgbAllocation) → any being_spent l ≡ not (all not_confirming l)
being_spent-not_confirming [] = refl
being_spent-not_confirming (a ∷ l) = ground (arith, being_spent-not_confirming l)

free-unspendable : (u : LocalUnspent) → not (unspendable u) ≡ free u
free-unspendable u =
    rw (busy-at_rest u.rgb_allocations, being_spent-not_confirming u.rgb_allocations) (ground arith)

pub filter-free : (us : List LocalUnspent) → filter (λ u. not (unspendable u)) us ≡ filter free us
filter-free [] = refl
filter-free (u ∷ us) = rw (free-unspendable u, filter-free us)
