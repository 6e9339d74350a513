-- ===== src/Wallet/Slots/Total.antt =====
-- `get_utxo` of src/wallet/offline.rs finds a UTXO exactly where one has room.
use rgb_lib.Prelude.{
  ℕ, ◌≡◌, ap, Bool, not, ◌&&◌, List, [], ◌∷◌, map, none, some, ◌∙◌, filter, first, length, is_empty,
  ltb, Bool-cases, inl, inr, ◌⊎◌, refl, true, false, any, leb, ◌-◌, ◌<◌, arith,
}
use rgb_lib.Prelude.Sort.{sort_pairs, insert_by-cons}
use rgb_lib.Result.{ok, err, insufficient_allocation_slots}
use rgb_lib.Database.Rows.{Outpoint, outpoint, outpoint_eq, DbTxo, DbData, LocalUnspent}
use rgb_lib.Wallet.Slots.{
  drop_failed, used_slots, going_out, has_slot, get_available_allocations, by_used_slots, suits,
  other_or, choose, get_utxo,
}

sorted-cons :
    (v : LocalUnspent) (l : List LocalUnspent)
    → (s : LocalUnspent) × (r : List LocalUnspent) × (by_used_slots (v ∷ l) ≡ s ∷ r)
unfolding sort_pairs
sorted-cons v l =
    let (y, r, e) =
      insert_by-cons (used_slots v, v) (sort_pairs (map (λ u. (used_slots u, u)) l)) in
    (y.1, map (λ p. p.1) r, ap (map (λ p. p.1)) e)

choose-some :
    (pending_operation : Bool) (s : LocalUnspent) (rest : List LocalUnspent)
    → (t : DbTxo) × (choose pending_operation (s ∷ rest) ≡ ok t)
unfolding choose
choose-some pending_operation s rest =
    elim (Bool-cases (ltb 1 (length (s ∷ rest)) && not (is_empty s.rgb_allocations))) [
      | inl search' ↦ (other_or s (first (filter (suits pending_operation) (s ∷ rest))), rw search')
      | inr plain ↦ (s.utxo, rw plain)
    ]

module _ (max_per_utxo : ℕ) (d : DbData) (us : List LocalUnspent) (exclude : List Outpoint)
    (pending_operation : Bool) where
  no_slot :
      get_available_allocations max_per_utxo us exclude none ≡ ok []
      → get_utxo max_per_utxo d exclude (some us) pending_operation none
        ≡ err insufficient_allocation_slots
  unfolding get_utxo choose sort_pairs
  no_slot e = rw e

  some_slot :
      (v : LocalUnspent) (l : List LocalUnspent)
      → get_available_allocations max_per_utxo us exclude none ≡ ok (v ∷ l)
      → (t : DbTxo) × (get_utxo max_per_utxo d exclude (some us) pending_operation none ≡ ok t)
  unfolding get_utxo
  some_slot v l e =
      let (s, r, es) = sorted-cons v l in
      let (t, et) = choose-some pending_operation s r in (t, rw e (rw es et))

-- An unspent that can take one more allocation: it exists, does not wait for its witness, is not
-- excluded, and, without its failed allocations, has a free slot and gives nothing out that is
-- initiated or waits for its counterparty.
abbrev pub hosts : ℕ → List Outpoint → LocalUnspent → Bool
hosts max_per_utxo exclude u =
    u.utxo.exists
    && (not u.utxo.pending_witness
        && (not (any (outpoint_eq (outpoint u.utxo)) exclude)
            && (ltb (used_slots (drop_failed u)) max_per_utxo
                && not (any going_out (drop_failed u).rgb_allocations))))

module _ {A : Type 0} where
  filter_empty : (p : A → Bool) (l : List A) → is_empty (filter p l) ≡ not (any p l)
  filter_empty p [] = refl
  filter_empty p (x ∷ l) = ground (arith, filter_empty p l)

  any-filter : (p q : A → Bool) (l : List A) → any p (filter q l) ≡ any (λ x. q x && p x) l
  any-filter p q [] = refl
  any-filter p q (x ∷ l) = ground (arith, any-filter p q l)

  any_same :
      (p q : A → Bool) (f : A → A)
      → ((x : A) → p (f x) ≡ q x)
      → (l : List A) → any p (map f l) ≡ any q l
  any_same p q f h [] = refl
  any_same p q f h (x ∷ l) = rw (h x, any_same p q f h l) refl

module _ (max_per_utxo : ℕ) (exclude : List Outpoint) where
  abbrev kept : List LocalUnspent → List LocalUnspent
  kept us = filter (has_slot (max_per_utxo - 1)) (
      filter (λ (u : LocalUnspent). not (any (outpoint_eq (outpoint u.utxo)) exclude))
        (filter (λ (u : LocalUnspent). not u.utxo.pending_witness)
          (filter (λ (u : LocalUnspent). u.utxo.exists) (map drop_failed us))))

  slot_left : (n : ℕ) → 0 < max_per_utxo → leb n (max_per_utxo - 1) ≡ ltb n max_per_utxo
  slot_left n h = ground (arith, h)

  kept-hosts :
      (us : List LocalUnspent)
      → 0 < max_per_utxo
      → is_empty (kept us) ≡ not (any (hosts max_per_utxo exclude) us)
  kept-hosts us h =
      let exists = λ (u : LocalUnspent). u.utxo.exists in
      let seen = λ (u : LocalUnspent). not u.utxo.pending_witness in
      let included = λ (u : LocalUnspent). not (any (outpoint_eq (outpoint u.utxo)) exclude) in
      let slot = has_slot (max_per_utxo - 1) in
      let l = map drop_failed us in
      filter_empty slot (filter included (filter seen (filter exists l)))
      ∙ ap not (
          any-filter slot included (filter seen (filter exists l))
          ∙ any-filter (λ u. included u && slot u) seen (filter exists l)
          ∙ any-filter (λ u. seen u && (included u && slot u)) exists l
          ∙ any_same (λ u. exists u && (seen u && (included u && slot u)))
              (hosts max_per_utxo exclude) drop_failed
              (λ u. rw (slot_left (used_slots (drop_failed u)) h) refl) us)

  available_kept :
      (us : List LocalUnspent)
      → 0 < max_per_utxo
      → get_available_allocations max_per_utxo us exclude none ≡ ok (kept us)
  unfolding get_available_allocations
  available_kept us h =
      let some_slot : leb 1 max_per_utxo ≡ true = ground (arith, h) in rw some_slot refl

-- Given unspents and with the wallet's own limit, which is not 0, get_utxo returns a UTXO where one of
-- the unspents can take one more allocation, and fails with InsufficientAllocationSlots where none can.
pub get_utxo_total :
    (max_per_utxo : ℕ) (d : DbData) (us : List LocalUnspent) (exclude : List Outpoint)
    (pending_operation : Bool)
    → 0 < max_per_utxo
    → ((t : DbTxo) × (any (hosts max_per_utxo exclude) us ≡ true)
        × (get_utxo max_per_utxo d exclude (some us) pending_operation none ≡ ok t))
      ⊎ ((any (hosts max_per_utxo exclude) us ≡ false)
          × (get_utxo max_per_utxo d exclude (some us) pending_operation none
              ≡ err insufficient_allocation_slots))
get_utxo_total max_per_utxo d us exclude pending_operation h =
    outcome (kept max_per_utxo exclude us) (kept-hosts max_per_utxo exclude us h)
      (available_kept max_per_utxo exclude us h)
  where
    outcome :
        (l : List LocalUnspent)
        → is_empty l ≡ not (any (hosts max_per_utxo exclude) us)
        → get_available_allocations max_per_utxo us exclude none ≡ ok l
        → ((t : DbTxo) × (any (hosts max_per_utxo exclude) us ≡ true)
            × (get_utxo max_per_utxo d exclude (some us) pending_operation none ≡ ok t))
          ⊎ ((any (hosts max_per_utxo exclude) us ≡ false)
              × (get_utxo max_per_utxo d exclude (some us) pending_operation none
                  ≡ err insufficient_allocation_slots))
    outcome [] e a = inr (ground (arith, e), no_slot max_per_utxo d us exclude pending_operation a)
    outcome (v ∷ l) e a =
        let (t, r) = some_slot max_per_utxo d us exclude pending_operation v l a in
        inl (t, ground (arith, e), r)
