-- ===== src/Wallet/Unspents/Cold.antt =====
-- A spent TXO that `list_unspents` leaves out has no settled allocation.
use rgb_lib.Prelude.{
  ℕ, String, ◌≡◌, refl, ap, sym, subst, ◌∙◌, Bool, true, false, ◌&&◌, List, [], ◌∷◌, map, some,
  filter, find, find-true, ◌==◌, ==_iff, arith, Bool-cases, inl, inr,
}
use rgb_lib.Status.{is_waiting_confirmations}
use rgb_lib.Result.{expect-eq-ok, ok, >>=-eq-ok, expect, traverse}
use rgb_lib.Database.Rows.{
  Outpoint, DbTxo, DbColoring, DbAssetTransfer, DbBatchTransfer, DbData, LocalRgbAllocation,
  LocalUnspent,
}
use rgb_lib.Database.Joins.{
  allocation_settled, coloring_allocation, get_utxo_allocations, local_unspent,
}
use rgb_lib.Database.Balance.Amounts.{amount_where}
use rgb_lib.Database.Balance.Totals.{in_asset}
use rgb_lib.Wallet.Unspents.{
  contains, spent_txos_ids, waiting_confs_batch_transfer_ids, waiting_confs_transfer_ids,
  almost_spent_txos_ids,
}

any-map-filter {ℓ} :
    {A : Type ℓ} (key : A → ℕ) (p : A → Bool) (x : A) (q : A → Bool) (l : List A)
    → find q l ≡ some x
    → p x ≡ true
    → contains (map key (filter p l)) (key x) ≡ true
any-map-filter key p x q [] h px = cc
any-map-filter key p x q (y ∷ l) h px = elim (Bool-cases (q y)) [
  | inl hit ↦
      let same : y ≡ x = ground (arith, hit, h) in
      let py : p y ≡ true = subst (λ z. p z ≡ true) (sym same) px in
      let own : (key y == key x) ≡ true = (==_iff (key y) (key x)).1 (ap key same) in rw (py, own)
  | inr miss ↦
      let ih = any-map-filter key p x q l (rw miss at h) px in
      elim (Bool-cases (p y)) [ inl py ↦ rw (py, ih) (ground arith) | inr py ↦ rw (py, ih) ]
]

-- a key that no row of a filtered list has
absent_tail {ℓ} :
    {A : Type ℓ} (key : A → ℕ) (p : A → Bool) (i : ℕ) (x : A) (l : List A)
    → contains (map key (filter p (x ∷ l))) i ≡ false
    → (contains (map key (filter p l)) i ≡ false) × (p x ≡ true → (key x == i) ≡ false)
absent_tail key p i x l h = elim (Bool-cases (p x)) [
  | inl px ↦ (ground (arith, h, px), λ _. ground (arith, h, px))
  | inr px ↦ (rw px at h, λ q. absurd (cc (px, q)))
]

module _ (d : DbData) (asset_id : String) (t : DbTxo) (spent : t.spent ≡ true)
    (known : contains (spent_txos_ids d) t.idx ≡ true)
    (cold : contains (almost_spent_txos_ids d) t.idx ≡ false) where
  -- the asset transfer of an allocation that waits for confirmations is noted
  waits :
      (c : DbColoring) (l : LocalRgbAllocation)
      → coloring_allocation t d.asset_transfers d.batch_transfers c ≡ ok l
      → allocation_settled l ≡ true
      → contains (waiting_confs_transfer_ids d) c.asset_transfer_idx ≡ true
  unfolding coloring_allocation
  waits c l e h =
      let (a, ea, f) =
        >>=-eq-ok
          (expect (find (λ (a : DbAssetTransfer). a.idx == c.asset_transfer_idx) d.asset_transfers))
          _ e in
      let (b, eb, g) =
        >>=-eq-ok
          (expect (find (λ (b : DbBatchTransfer). a.batch_transfer_idx == b.idx) d.batch_transfers))
          _ f in
      let fa =
        expect-eq-ok
          (find (λ (a : DbAssetTransfer). a.idx == c.asset_transfer_idx) d.asset_transfers) ea in
      let fb =
        expect-eq-ok
          (find (λ (b : DbBatchTransfer). a.batch_transfer_idx == b.idx) d.batch_transfers) eb in
      let waiting : is_waiting_confirmations b.status ≡ true = ground (arith, g, h, spent) in
      let batch =
        any-map-filter (λ (x : DbBatchTransfer). x.idx)
          (λ (x : DbBatchTransfer). is_waiting_confirmations x.status) b
          (λ (x : DbBatchTransfer). a.batch_transfer_idx == x.idx) d.batch_transfers fb waiting in
      let b_key : a.batch_transfer_idx ≡ b.idx = (==_iff _ _).0 (
        find-true (λ (x : DbBatchTransfer). a.batch_transfer_idx == x.idx) d.batch_transfers b
          fb) in
      let a_key : a.idx ≡ c.asset_transfer_idx = (==_iff _ _).0 (
        find-true (λ (x : DbAssetTransfer). x.idx == c.asset_transfer_idx) d.asset_transfers a
          fa) in
      subst (λ i. contains (waiting_confs_transfer_ids d) i ≡ true) a_key
        (any-map-filter (λ (x : DbAssetTransfer). x.idx)
          (λ (x : DbAssetTransfer).
            contains (waiting_confs_batch_transfer_ids d) x.batch_transfer_idx)
          a (λ (x : DbAssetTransfer). x.idx == c.asset_transfer_idx) d.asset_transfers fa
          (subst (λ i. contains (waiting_confs_batch_transfer_ids d) i ≡ true) (sym b_key) batch))

  -- a spent TXO that no outgoing transfer still spends has nothing settled
  nothing_settled :
      (cs : List DbColoring)
      → contains
          (map
            (λ (c : DbColoring). c.txo_idx)
            (filter
              (λ (c : DbColoring).
                contains (waiting_confs_transfer_ids d) c.asset_transfer_idx
                && contains (spent_txos_ids d) c.txo_idx)
              cs))
          t.idx
        ≡ false
      → (ls : List LocalRgbAllocation)
      → traverse
          (coloring_allocation t d.asset_transfers d.batch_transfers)
          (filter (λ (c : DbColoring). c.txo_idx == t.idx) cs)
        ≡ ok ls
      → amount_where (in_asset asset_id allocation_settled) ls ≡ 0
  unfolding traverse amount_where
  nothing_settled [] n ls e =
      let same : [] ≡ ls = ground (arith, e) in
      subst (λ l. amount_where (in_asset asset_id allocation_settled) l ≡ 0) same refl
  nothing_settled (c ∷ cs) n ls e =
      let noted : DbColoring → Bool = λ c.
        contains (waiting_confs_transfer_ids d) c.asset_transfer_idx
        && contains (spent_txos_ids d) c.txo_idx in
      let (n', absent) = absent_tail (λ (c : DbColoring). c.txo_idx) noted t.idx c cs n in
      elim (Bool-cases (c.txo_idx == t.idx)) [
        | inr other' ↦ nothing_settled cs n' ls (rw other' at e)
        | inl here ↦
            let (l, el, f) =
              >>=-eq-ok (coloring_allocation t d.asset_transfers d.batch_transfers c) _
                (rw here at e) in
            let (ls', els, r) =
              >>=-eq-ok
                (traverse (coloring_allocation t d.asset_transfers d.batch_transfers)
                  (filter (λ (c : DbColoring). c.txo_idx == t.idx) cs))
                (λ ys. ok (l ∷ ys)) f in
            let whole : l ∷ ls' ≡ ls = ground (arith, r) in
            let rest = nothing_settled cs n' ls' els in
            let none' : amount_where (in_asset asset_id allocation_settled) (l ∷ ls') ≡ 0 =
              elim (Bool-cases (allocation_settled l)) [
                | inr cool ↦ rw cool (ground (arith, rest))
                | inl hot ↦
                    let spends : contains (spent_txos_ids d) c.txo_idx ≡ true =
                      subst (λ i. contains (spent_txos_ids d) i ≡ true) (sym ((==_iff _ _).0 here))
                        known in
                    let wait = waits c l el hot in
                    let both : noted c ≡ true = rw (wait, spends) in
                    let clash : true ≡ false = sym here ∙ absent both in absurd (cc clash)
              ] in
            subst (λ x. amount_where (in_asset asset_id allocation_settled) x ≡ 0) whole none'
      ]

  pub local_unspent-settled :
      (counts : List (Outpoint × ℕ)) (u : LocalUnspent)
      → local_unspent d counts t ≡ ok u
      → amount_where (in_asset asset_id allocation_settled) u.rgb_allocations ≡ 0
  unfolding local_unspent get_utxo_allocations
  local_unspent-settled counts u e =
      let (l, el, f) =
        >>=-eq-ok (get_utxo_allocations t d.colorings d.asset_transfers d.batch_transfers) _ e in
      let same : l ≡ u.rgb_allocations = ground (arith, f) in
      subst (λ x. amount_where (in_asset asset_id allocation_settled) x ≡ 0) same
        (nothing_settled d.colorings cold l el)
