-- ===== src/Wallet/Slots/Least.antt =====
-- Which of the UTXOs with room `get_utxo` of src/wallet/offline.rs returns.
use mathlib.Core.List.{Memᴰ}
use rgb_lib.Prelude.{
  ℕ, ◌+◌, &&_true, ◌≤◌, ◌<◌, ◌≡◌, refl, Bool, true, not, ◌&&◌, List, [], ◌∷◌, map, Option, some,
  filter, first, All, arith, length, is_empty, ltb, Bool-cases, Option-cases, inl, inr, ◌⊎◌,
}
use rgb_lib.Prelude.Member.{All-imp, All-Memᴰ, All-first, All-map, All-filter_test, All-sort_pairs}
use rgb_lib.Prelude.Keys.{All-lookup}
use rgb_lib.Prelude.Sort.{sort_pairs}
use rgb_lib.Prelude.Ascending.{
  Ascending, All-sort_pairs_inv, sort_pairs-Ascending, first-filter-least, Ascending-map,
}
use rgb_lib.Result.{ok}
use rgb_lib.Database.Rows.{Outpoint, DbTxo, DbData, LocalRgbAllocation, LocalUnspent}
use rgb_lib.Wallet.Slots.{
  used_slots, get_available_allocations, by_used_slots, suits, choose, get_utxo,
}

-- The least used of all, or else the least used that suits, where all are in use.
pub record Chosen (pending_operation : Bool) (l : List LocalUnspent) (t : DbTxo) : Type 0 where
  pub unspent : LocalUnspent
  pub among : Memᴰ unspent l
  pub utxo : unspent.utxo ≡ t
  pub least :
      All (λ (u : LocalUnspent). used_slots unspent ≤ used_slots u) l
      ⊎ (All (λ (u : LocalUnspent). 0 < used_slots u) l
          × (suits pending_operation unspent ≡ true)
          × All
              (λ (u : LocalUnspent).
                suits pending_operation u ≡ true → used_slots unspent ≤ used_slots u)
              l)

abbrev paired : List LocalUnspent → List (ℕ × LocalUnspent)
paired l = map (λ u. (used_slots u, u)) l

by_used_slots-Ascending : (l : List LocalUnspent) → Ascending used_slots (by_used_slots l)
by_used_slots-Ascending l =
    let Keyed : ℕ × LocalUnspent → Type 0 = λ p. p.0 ≡ used_slots p.1 in
    Ascending-map used_slots (sort_pairs (paired l))
      (All-sort_pairs Keyed (paired l) (
        All-map Keyed (λ u. (used_slots u, u)) l
          (All-imp (λ u. Memᴰ u l) (λ u. Keyed (used_slots u, u)) (λ u m. refl) l (All-Memᴰ l))))
      (sort_pairs-Ascending (paired l))

All-map_inv {ℓ κ} :
    {A : Type ℓ} {B : Type κ} (P : A → Type 0) (g : B → A) (l : List B)
    → All P (map g l)
    → All (λ y. P (g y)) l
All-map_inv P g [] h = tt
All-map_inv P g (y ∷ l) h = (h.0, All-map_inv P g l h.1)

-- what holds of the sorted ones holds of all, and the other way round
unsorted : (P : LocalUnspent → Type 0) (l : List LocalUnspent) → All P (by_used_slots l) → All P l
unsorted P l h =
    All-map_inv (λ (p : ℕ × LocalUnspent). P p.1) (λ u. (used_slots u, u)) l
      (All-sort_pairs_inv (λ (p : ℕ × LocalUnspent). P p.1) (paired l)
        (All-map_inv P (λ (p : ℕ × LocalUnspent). p.1) (sort_pairs (paired l)) h))

sorted : (P : LocalUnspent → Type 0) (l : List LocalUnspent) → All P l → All P (by_used_slots l)
sorted P l h =
    All-map P (λ (p : ℕ × LocalUnspent). p.1) (sort_pairs (paired l))
      (All-sort_pairs (λ (p : ℕ × LocalUnspent). P p.1) (paired l)
        (All-map (λ (p : ℕ × LocalUnspent). P p.1) (λ u. (used_slots u, u)) l h))

in_use : (l : List LocalRgbAllocation) (n : ℕ) → not (is_empty l) ≡ true → 0 < length l + n
in_use [] n h = absurd (cc)
in_use (a ∷ l) n h = omega arith

choose-Chosen :
    (pending_operation : Bool) (l : List LocalUnspent) (t : DbTxo)
    → Ascending used_slots l
    → choose pending_operation l ≡ ok t
    → Chosen pending_operation l t
unfolding choose
choose-Chosen pending_operation [] t h e = absurd (cc)
choose-Chosen pending_operation (s ∷ rest) t h e =
    let all_least : All (λ (u : LocalUnspent). used_slots s ≤ used_slots u) (s ∷ rest) =
      (omega arith, h.0) in
    elim (Bool-cases (ltb 1 (length (s ∷ rest)) && not (is_empty s.rgb_allocations))) [
      | inr plain ↦ record {
        unspent = s;
        among = Memᴰ.head refl;
        utxo = ground (arith, e, plain);
        least = inl all_least;
      }
      | inl search' ↦ elim (Option-cases (first (filter (suits pending_operation) (s ∷ rest)))) [
        | inl none' ↦ record {
          unspent = s;
          among = Memᴰ.head refl;
          utxo = ground (arith, e, search', none');
          least = inl all_least;
        }
        | inr (v, found) ↦
            let fit =
              All-first
                (λ (u : LocalUnspent). Memᴰ u (s ∷ rest) × (suits pending_operation u ≡ true)) _ v
                (All-filter_test (λ u. Memᴰ u (s ∷ rest)) (suits pending_operation) (s ∷ rest)
                  (All-Memᴰ (s ∷ rest)))
                found in
            let used : 0 < used_slots s =
              in_use s.rgb_allocations s.pending_blinded
                (&&_true {a = ltb 1 (length (s ∷ rest))} search').1 in
            record {
              unspent = v;
              among = fit.0;
              utxo = ground (arith, e, search', found);
              least = inr (
                All-imp (λ (u : LocalUnspent). used_slots s ≤ used_slots u)
                    (λ (u : LocalUnspent). 0 < used_slots u) (λ u le. omega (arith, used, le))
                    (s ∷ rest) all_least,
                fit.1,
                first-filter-least used_slots (suits pending_operation) (s ∷ rest) v h found,
              );
            }
      ]
    ]

-- The UTXO that get_utxo returns is one of those with room. It is the least used of them, or none of
-- them is unused and it is the least used of those that suit: those with an allocation to come for a
-- pending operation, those without one else.
pub get_utxo-Chosen :
    (max_per_utxo : ℕ) (d : DbData) (us : List LocalUnspent) (exclude : List Outpoint)
    (pending_operation : Bool) (limit : Option ℕ) (l : List LocalUnspent) (t : DbTxo)
    → get_available_allocations max_per_utxo us exclude limit ≡ ok l
    → get_utxo max_per_utxo d exclude (some us) pending_operation limit ≡ ok t
    → Chosen pending_operation l t
unfolding get_utxo
get_utxo-Chosen max_per_utxo d us exclude pending_operation limit l t el e =
    let c =
      choose-Chosen pending_operation (by_used_slots l) t (by_used_slots-Ascending l)
        (rw el at e) in
    record {
      unspent = c.unspent;
      among =
          All-lookup (λ u. Memᴰ u l) c.unspent (by_used_slots l)
            (sorted (λ u. Memᴰ u l) l (All-Memᴰ l)) c.among;
      utxo = c.utxo;
      least = elim c.least [
        | inl a ↦ inl (unsorted (λ (u : LocalUnspent). used_slots c.unspent ≤ used_slots u) l a)
        | inr (a, fits, b) ↦ inr (
          unsorted (λ (u : LocalUnspent). 0 < used_slots u) l a,
          fits,
          unsorted
              (λ (u : LocalUnspent).
                suits pending_operation u ≡ true → used_slots c.unspent ≤ used_slots u)
              l b,
        )
      ];
    }
