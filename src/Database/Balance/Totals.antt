-- ===== src/Database/Balance/Totals.antt =====
-- What `get_asset_balance` returns, in unbounded sums over the unspents, and that it returns.
use rgb_lib.Prelude.{
  ℕ, String, ◌+◌, ◌-◌, ◌≤◌, ◌<◌, ◌≡◌, Bool, true, not, ◌&&◌, List, [], ◌∷◌, filter, concat_map,
  u64_mod, checked_add, checked_sub, arith, All,
}
use rgb_lib.Prelude.Int.{pos, ◌+ℤ◌, ◌-ℤ◌}
use rgb_lib.Result.{ok, ◌>>=◌, expect}
use rgb_lib.Database.Rows.{DbData, LocalRgbAllocation, LocalUnspent, is_asset}
use rgb_lib.Database.Joins.{allocation_settled, get_rgb_allocations}
use rgb_lib.Database.Linked.{Linked}
use rgb_lib.Database.Balance.{
  Balance, to_u64, sum_where, pending_incoming, pending_outgoing, unspendable, balance_of,
  get_asset_balance,
}
use rgb_lib.Database.Balance.Amounts.{
  amount_where, amount_over, sum_where-amount, amount_where-filter, amount_where-concat_map,
  amount_over-split, settled_of, sum_settled_from-amount,
}
use rgb_lib.Database.Balance.Free.{free, filter-free}
use rgb_lib.Database.Balance.Witness.{witness_total, witness_pending_from-total}

-- the allocations of an asset that pass a test
abbrev pub in_asset : String → (LocalRgbAllocation → Bool) → LocalRgbAllocation → Bool
in_asset asset_id p a = is_asset asset_id a.asset_id && p a

-- a selection from the allocations of the asset, over all unspents
sum_where-in_asset :
    (asset_id : String) (p : LocalRgbAllocation → Bool) (us : List LocalUnspent)
    → amount_over (in_asset asset_id p) us < u64_mod
    → sum_where p (
        filter
          (λ (a : LocalRgbAllocation). is_asset asset_id a.asset_id)
          (concat_map (λ (u : LocalUnspent). u.rgb_allocations) us))
      ≡ ok (amount_over (in_asset asset_id p) us)
sum_where-in_asset asset_id p us h =
    let l = concat_map (λ (u : LocalUnspent). u.rgb_allocations) us in
    let e = amount_where-filter p (λ (a : LocalRgbAllocation). is_asset asset_id a.asset_id) l in
    let e' = amount_where-concat_map (in_asset asset_id p) us in
    ground (
      arith,
      e,
      e',
      sum_where-amount p (filter (λ (a : LocalRgbAllocation). is_asset asset_id a.asset_id) l),
    )

-- the amounts of the asset over the unspents, by what is counted
abbrev pub settled_amount : String → List LocalUnspent → ℕ
settled_amount asset_id us = amount_over (in_asset asset_id allocation_settled) us

abbrev pub incoming_amount : String → List LocalUnspent → ℕ
incoming_amount asset_id us = amount_over (in_asset asset_id pending_incoming) us

abbrev pub outgoing_amount : String → List LocalUnspent → ℕ
outgoing_amount asset_id us = amount_over (in_asset asset_id pending_outgoing) us

abbrev pub total_amount : String → List LocalUnspent → ℕ
total_amount asset_id us = amount_over (in_asset asset_id (λ a. true)) us

-- An unspent gives out no more of the asset than it holds or is about to hold.
abbrev pub Covered : String → LocalUnspent → Type 0
Covered asset_id u =
    amount_where (in_asset asset_id pending_outgoing) u.rgb_allocations
    ≤ amount_where (in_asset asset_id allocation_settled) u.rgb_allocations
      + amount_where (in_asset asset_id pending_incoming) u.rgb_allocations

parts-le-total_where :
    (asset_id : String) (l : List LocalRgbAllocation)
    → (amount_where (in_asset asset_id allocation_settled) l
          + amount_where (in_asset asset_id pending_incoming) l
        ≤ amount_where (in_asset asset_id (λ a. true)) l)
      × (amount_where (in_asset asset_id pending_outgoing) l
          ≤ amount_where (in_asset asset_id (λ a. true)) l)
unfolding amount_where
parts-le-total_where asset_id [] = omega arith
parts-le-total_where asset_id (a ∷ l) = ground (arith, parts-le-total_where asset_id l)

parts-le-total :
    (asset_id : String) (us : List LocalUnspent)
    → (settled_amount asset_id us + incoming_amount asset_id us ≤ total_amount asset_id us)
      × (outgoing_amount asset_id us ≤ total_amount asset_id us)
unfolding amount_over
parts-le-total asset_id [] = omega arith
parts-le-total asset_id (u ∷ us) =
    omega (arith, parts-le-total_where asset_id u.rgb_allocations, parts-le-total asset_id us)

outgoing-le :
    (asset_id : String) (us : List LocalUnspent)
    → All (Covered asset_id) us
    → outgoing_amount asset_id us ≤ settled_amount asset_id us + incoming_amount asset_id us
unfolding amount_over
outgoing-le asset_id [] h = omega arith
outgoing-le asset_id (u ∷ us) h = omega (arith, h.0, outgoing-le asset_id us h.1)

-- the balance, in unbounded sums
abbrev pub expected_balance : String → List LocalUnspent → ℕ → Balance
expected_balance asset_id us witness_amt = record {
  settled = settled_amount asset_id us;
  future =
      settled_amount asset_id us
      + incoming_amount asset_id us
      + witness_amt
      - outgoing_amount asset_id us;
  spendable = settled_amount asset_id (filter free us);
}

-- the end of the computation, on the sums
balance_end :
    (s i w o n f : ℕ)
    → s + i + w < u64_mod
    → o ≤ s + i
    → n + f ≡ s
    → (expect (checked_add i (0 + w)) >>= λ inc. ok (0 + n) >>= λ un.
        expect (checked_sub s un) >>= λ sp. expect (to_u64 (pos s +ℤ (pos inc -ℤ pos o))) >>= λ fu.
        ok (let b : Balance = record { settled = s; future = fu; spendable = sp } in b))
      ≡ ok (record { settled = s; future = s + i + w - o; spendable = f })
unfolding ◌+ℤ◌ ◌-ℤ◌
balance_end s i w o n f h k e = ground arith

module _ (d : DbData) (asset_id : String) (us : List LocalUnspent) (linked : Linked d)
    (covered : All (Covered asset_id) us)
    (fits : total_amount asset_id us + witness_total asset_id d d.transfers < u64_mod) where
  balance_of-exact :
      balance_of asset_id d us
      ≡ ok (expected_balance asset_id us (witness_total asset_id d d.transfers))
  unfolding balance_of
  balance_of-exact =
      let le = parts-le-total asset_id us in
      let cov = outgoing-le asset_id us covered in
      let split = amount_over-split (settled_of asset_id) unspendable us in
      rw
        (
          sum_where-in_asset asset_id allocation_settled us (omega arith),
          sum_where-in_asset asset_id pending_incoming us (omega arith),
          witness_pending_from-total asset_id d 0 d.transfers linked linked.transfers (omega arith),
          sum_where-in_asset asset_id pending_outgoing us (omega arith),
          sum_settled_from-amount asset_id 0 (filter unspendable us) (omega arith),
          ← filter-free us,
        )
        (balance_end (settled_amount asset_id us) (incoming_amount asset_id us)
          (witness_total asset_id d d.transfers) (outgoing_amount asset_id us)
          (settled_amount asset_id (filter unspendable us))
          (settled_amount asset_id (filter (λ u. not (unspendable u)) us)) (omega arith) cov split)

  -- Over linked tables, where no unspent gives out more of the asset than it has and the amounts of
  -- the asset fit in a u64, the balance is returned, with no panic. Settled is the sum of the
  -- settled allocations. Spendable is that sum over the unspents at rest only: those with no
  -- pending blind receive whose allocations all failed or came in and settled or, if spent, those
  -- with no outgoing allocation that waits for confirmations. Future is settled plus pending
  -- incoming plus the witness receives that wait for confirmations, less pending outgoing.
  pub get_asset_balance-exact :
      get_rgb_allocations d.txos d ≡ ok us
      → get_asset_balance d asset_id
        ≡ ok (expected_balance asset_id us (witness_total asset_id d d.transfers))
  unfolding get_asset_balance
  get_asset_balance-exact e = rw e balance_of-exact
