-- ===== src/Wallet/Slots/Room.antt =====
-- The UTXO that `get_utxo` returns has room for one more allocation.
use mathlib.Core.List.{Memᴰ}
use rgb_lib.Prelude.{
  ℕ, ◌+◌, ◌-◌, ◌≤◌, ◌<◌, ◌≡◌, refl, ap, sym, subst, ◌∙◌, Bool, true, false, not, ◌&&◌, List, [],
  ◌∷◌, map, none, some, filter, any, first, All, All-filter, arith, length, is_empty, ltb,
  Bool-cases, inl, inr, checked_sub, Option-cases,
}
use rgb_lib.Prelude.Member.{All-imp, All-Memᴰ, All-filter_test, All-first, All-map, All-sort_pairs}
use rgb_lib.Prelude.Sort.{sort_pairs}
use rgb_lib.Result.{ok, >>=-eq-ok, ok_injective, expect}
use rgb_lib.Database.Rows.{Outpoint, outpoint_eq, DbTxo, outpoint, DbData, LocalUnspent}
use rgb_lib.Wallet.Slots.{
  drop_failed, used_slots, going_out, has_slot, get_available_allocations, by_used_slots, suits,
  choose, get_utxo,
}

-- One of the unspents offered, without its failed allocations, that passes all tests.
pub record Available (limit : ℕ) (us : List LocalUnspent) (exclude : List Outpoint)
    (v : LocalUnspent) : Type 0 where
  pub origin : LocalUnspent
  pub offered : Memᴰ origin us
  pub live : v ≡ drop_failed origin
  pub exists : v.utxo.exists ≡ true
  pub witnessed : v.utxo.pending_witness ≡ false
  pub included : any (outpoint_eq (outpoint v.utxo)) exclude ≡ false
  pub room : used_slots v ≤ limit
  pub stays : any going_out v.rgb_allocations ≡ false

module _ (us : List LocalUnspent) (exclude : List Outpoint) (limit : ℕ) where
  -- the four filters, over the unspents without their failed allocations
  pub filters-Available : All (Available limit us exclude) (
      filter (has_slot limit) (
        filter
          (λ (u : LocalUnspent). not (any (outpoint_eq (outpoint u.utxo)) exclude))
          (filter
            (λ (u : LocalUnspent). not u.utxo.pending_witness)
            (filter (λ (u : LocalUnspent). u.utxo.exists) (map drop_failed us)))))
  filters-Available =
      let Origin : LocalUnspent → Type 0 =
        λ v. (u : LocalUnspent) × Memᴰ u us × (v ≡ drop_failed u) in
      let origins = All-map Origin drop_failed us (
        All-imp (λ u. Memᴰ u us) (λ u. Origin (drop_failed u)) (λ u m. (u, m, refl)) us
          (All-Memᴰ us)) in
      All-imp _ (Available limit us exclude)
        (λ v h. record {
          origin = h.0.0.0.0.0;
          offered = h.0.0.0.0.1;
          live = h.0.0.0.0.2;
          exists = h.0.0.0.1;
          witnessed = ground (arith, h.0.0.1);
          included = ground (arith, h.0.1);
          room = ground (arith, h.1);
          stays = ground (arith, h.1);
        })
        _
        (All-filter_test _ (has_slot limit) _
          (All-filter_test _ _ _ (All-filter_test _ _ _ (All-filter_test Origin _ _ origins))))

  by_used_slots-Available :
      (l : List LocalUnspent)
      → All (Available limit us exclude) l
      → All (Available limit us exclude) (by_used_slots l)
  by_used_slots-Available l h =
      All-map (Available limit us exclude) (λ (p : ℕ × LocalUnspent). p.1)
        (sort_pairs (map (λ u. (used_slots u, u)) l))
        (All-sort_pairs (λ (p : ℕ × LocalUnspent). Available limit us exclude p.1)
          (map (λ u. (used_slots u, u)) l)
          (All-map (λ (p : ℕ × LocalUnspent). Available limit us exclude p.1)
            (λ (u : LocalUnspent). (used_slots u, u)) l h))

  choose-Available :
      (pending_operation : Bool) (l : List LocalUnspent) (t : DbTxo)
      → All (Available limit us exclude) l
      → choose pending_operation l ≡ ok t
      → (v : LocalUnspent) × Available limit us exclude v × (v.utxo ≡ t)
  unfolding choose
  choose-Available pending_operation [] t h e = cc
  choose-Available pending_operation (s ∷ rest) t h e =
      elim (Bool-cases (ltb 1 (length (s ∷ rest)) && not (is_empty s.rgb_allocations))) [
        | inl search' ↦ elim (Option-cases (first (filter (suits pending_operation) (s ∷ rest)))) [
          | inl none' ↦ (s, h.0, ground (arith, e))
          | inr (v, found) ↦ (
            v,
            All-first (Available limit us exclude) _ v
                (All-filter _ (suits pending_operation) (s ∷ rest) h) found,
            ground (arith, e, found),
          )
        ]
        | inr plain ↦ (s, h.0, ground (arith, e))
      ]

module _ (max_per_utxo : ℕ) (d : DbData) (us : List LocalUnspent) (exclude : List Outpoint)
    (pending_operation : Bool) where
  available :
      (l : List LocalUnspent)
      → get_available_allocations max_per_utxo us exclude none ≡ ok l
      → (0 < max_per_utxo) × All (Available (max_per_utxo - 1) us exclude) l
  unfolding get_available_allocations
  available l e =
      let (m, em, f) = >>=-eq-ok (expect (checked_sub max_per_utxo 1)) _ e in
      let pos : 0 < max_per_utxo = ground (arith, em) in
      let is_limit : max_per_utxo - 1 ≡ m = ground (arith, em) in
      (
        pos,
        subst (λ k. All (Available k us exclude) l) (sym is_limit)
            (subst (All (Available m us exclude)) (ok_injective f)
              (filters-Available us exclude m)),
      )

  -- Given unspents and with the wallet's own limit, the UTXO returned is one of the unspents offered that exists, does
  -- not wait for its witness, is not excluded and has no allocation of an outgoing transfer that is
  -- initiated or waits for its counterparty; with one more allocation its allocations that have
  -- not failed and its pending blind receives are still at most `max_allocations_per_utxo`.
  pub get_utxo-room :
      (t : DbTxo)
      → get_utxo max_per_utxo d exclude (some us) pending_operation none ≡ ok t
      → (u : LocalUnspent) × Memᴰ u us
        × (u.utxo ≡ t)
        × (used_slots (drop_failed u) + 1 ≤ max_per_utxo)
        × (t.exists ≡ true)
        × (t.pending_witness ≡ false)
        × (any (outpoint_eq (outpoint t)) exclude ≡ false)
        × (any going_out (drop_failed u).rgb_allocations ≡ false)
  unfolding get_utxo
  get_utxo-room t e =
      let (l, el, f) = >>=-eq-ok (get_available_allocations max_per_utxo us exclude none) _ e in
      let (pos, h) = available l el in
      let (v, a, ev) =
        choose-Available us exclude (max_per_utxo - 1) pending_operation (by_used_slots l) t
          (by_used_slots-Available us exclude (max_per_utxo - 1) l h) f in
      (
        a.origin,
        a.offered,
        ap (λ w. w.utxo) (sym a.live) ∙ ev,
        subst (λ w. used_slots w + 1 ≤ max_per_utxo) a.live (omega (arith, pos, a.room)),
        subst (λ w. w.exists ≡ true) ev a.exists,
        subst (λ w. w.pending_witness ≡ false) ev a.witnessed,
        subst (λ w. any (outpoint_eq (outpoint w)) exclude ≡ false) ev a.included,
        subst (λ w. any going_out w.rgb_allocations ≡ false) a.live a.stays,
      )
