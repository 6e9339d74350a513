-- ===== src/Send/Fee/Enough.antt =====
-- `try_prepare_psbt` of src/wallet/online.rs ends, and it adds only UTXOs without allocations.
use mathlib.Core.List.{Memᴰ, append_assoc, append-nil}
use rgb_lib.Prelude.{
  ℕ, zero, suc, ◌≤◌, ◌<◌, ◌≡◌, refl, sym, ap, ◌∙◌, subst, Bool, true, false, not, ◌||◌, List, [],
  ◌∷◌, ◌++◌, Option, none, some, filter, any, length, All, arith, eq_iff, ==_iff, parse_u64,
}
use rgb_lib.Prelude.Member.{All-map, All-sort_pairs}
use rgb_lib.Prelude.Sort.{sort_pairs}
use rgb_lib.Result.{Result, ok, err, panic, ok_or, internal, traverse, >>=-eq-ok, ok_injective}
use rgb_lib.Database.Rows.{Outpoint, outpoint, outpoint_eq, LocalUnspent}
use rgb_lib.Wallet.Slots.{get_available_allocations, drop_failed, used_slots}
use rgb_lib.Wallet.Slots.Room.{Available, filters-Available}
use rgb_lib.Send.Fee.{
  PsbtReply, prepared, insufficient_bitcoins, refused, with_amount, last_of, free_utxo, add_free,
  after_reply, try_prepare_psbt,
}

outpoint_eq_refl : (o : Outpoint) → outpoint_eq o o ≡ true
outpoint_eq_refl o = rw ((eq_iff o.txid o.txid).1 refl) ((==_iff o.vout o.vout).1 refl)

-- the UTXOs that are not used yet
abbrev unused : List Outpoint → LocalUnspent → Bool
unused used u = not (any (outpoint_eq (outpoint u.utxo)) used)

pub unused_count : List LocalUnspent → List Outpoint → ℕ
unused_count us used = length (filter (unused used) us)

count-length : (us : List LocalUnspent) (used : List Outpoint) → unused_count us used ≤ length us
unfolding unused_count
count-length [] used = omega arith
count-length (u ∷ us) used = ground (arith, count-length us used)

any-more :
    (o p : Outpoint) (used : List Outpoint)
    → any (outpoint_eq o) (used ++ p ∷ []) ≡ (any (outpoint_eq o) used || outpoint_eq o p)
any-more o p [] = ground arith
any-more o p (q ∷ used) = ground (arith, any-more o p used)

count-le :
    (us : List LocalUnspent) (used : List Outpoint) (o : Outpoint)
    → unused_count us (used ++ o ∷ []) ≤ unused_count us used
unfolding unused_count
count-le [] used o = omega arith
count-le (u ∷ us) used o = ground (arith, count-le us used o, any-more (outpoint u.utxo) o used)

count-lt :
    (used : List Outpoint) (u : LocalUnspent) (us : List LocalUnspent)
    → Memᴰ u us
    → any (outpoint_eq (outpoint u.utxo)) used ≡ false
    → unused_count us (used ++ outpoint u.utxo ∷ []) < unused_count us used
unfolding unused_count
count-lt used u us (Memᴰ.head {x = y} {xs = ys} e) new =
    subst
      (λ (x : LocalUnspent).
        unused_count (x ∷ ys) (used ++ outpoint u.utxo ∷ []) < unused_count (x ∷ ys) used)
      e
      (ground (
        arith,
        count-le ys used (outpoint u.utxo),
        any-more (outpoint u.utxo) (outpoint u.utxo) used,
        outpoint_eq_refl (outpoint u.utxo),
        new,
      ))
count-lt used u us (Memᴰ.tail {x = y} {xs = ys} m) new =
    ground (arith, count-lt used u ys m new, any-more (outpoint y.utxo) (outpoint u.utxo) used)

traverse-with_amount :
    (P : LocalUnspent → Type 0) (l : List LocalUnspent) (keyed : List (ℕ × LocalUnspent))
    → All P l
    → traverse with_amount l ≡ ok keyed
    → All (λ (p : ℕ × LocalUnspent). P (p.1)) keyed
unfolding traverse
traverse-with_amount P [] keyed h e =
    subst (All (λ (p : ℕ × LocalUnspent). P (p.1))) (ok_injective e) tt
traverse-with_amount P (u ∷ l) keyed h e =
    let (k, ek, e1) = >>=-eq-ok (with_amount u) _ e in
    let (ks, es, e2) = >>=-eq-ok (traverse with_amount l) _ e1 in
    let (n, en, e3) = >>=-eq-ok (ok_or (parse_u64 u.utxo.btc_amount) internal) _ ek in
    subst (All (λ (p : ℕ × LocalUnspent). P (p.1))) (ok_injective e2) (
      subst (λ (p : ℕ × LocalUnspent). P (p.1)) (ok_injective e3) h.0,
      traverse-with_amount P l ks h.1 es,
    )

All-last_of :
    {A : Type 0} (P : A → Type 0) (l : List A) (x : A) → All P l → last_of l ≡ some x → P x
All-last_of P [] x h e = absurd (cc)
All-last_of P (y ∷ []) x h e = let q : y ≡ x = cc in subst P q h.0
All-last_of P (y ∷ z ∷ l) x h e = All-last_of P (z ∷ l) x h.1 e

without_allocations :
    (max_per_utxo : ℕ) (us : List LocalUnspent) (used : List Outpoint) (l : List LocalUnspent)
    → get_available_allocations max_per_utxo us used (some 0) ≡ ok l
    → All (Available 0 us used) l
unfolding get_available_allocations
without_allocations max_per_utxo us used l e =
    subst (All (Available 0 us used)) (ok_injective e) (filters-Available us used 0)

pub free_utxo-Available :
    (max_per_utxo : ℕ) (us : List LocalUnspent) (used : List Outpoint) (v : LocalUnspent)
    → free_utxo max_per_utxo us used ≡ ok (some v)
    → Available 0 us used v
unfolding free_utxo
free_utxo-Available max_per_utxo us used v h =
    let (free, ef, h1) = >>=-eq-ok (get_available_allocations max_per_utxo us used (some 0)) _ h in
    let (keyed, ek, h2) = >>=-eq-ok (traverse with_amount free) _ h1 in
    let P = Available 0 us used in
    let all = without_allocations max_per_utxo us used free ef in
    let ks = traverse-with_amount P free keyed all ek in
    All-last_of P _ v
      (All-map P (λ (p : ℕ × LocalUnspent). p.1) (sort_pairs keyed)
        (All-sort_pairs (λ (p : ℕ × LocalUnspent). P (p.1)) keyed ks))
      (ok_injective h2)

module _ {S P : Type 0} (max_per_utxo : ℕ) (prepare : List Outpoint → S → PsbtReply P × S)
    (us : List LocalUnspent) where
  -- a UTXO that may pay: one of those offered, not an input yet, without allocations
  abbrev pub Pays : List Outpoint → Outpoint → Type 0
  Pays inputs o =
      (u : LocalUnspent) × Memᴰ u us
      × (outpoint u.utxo ≡ o)
      × (used_slots (drop_failed u) ≡ 0)
      × (any (outpoint_eq o) inputs ≡ false)

  -- how the loop ends from the inputs it began with
  pub record Ends (inputs : List Outpoint) (r : Result P × List Outpoint × S) : Type 0 where
    pub added : List Outpoint
    pub only_added : r.1 ≡ inputs ++ added
    pub pay : All (Pays inputs) added
    pub made : (p : P) → r.0 ≡ ok p → (s : S) × ((prepare (r.1) s).0 ≡ prepared p)

  any-shorter :
      (o p : Outpoint) (inputs : List Outpoint)
      → any (outpoint_eq o) (inputs ++ p ∷ []) ≡ false
      → any (outpoint_eq o) inputs ≡ false
  any-shorter o p inputs h = ground (arith, h, any-more o p inputs)

  Pays-shorter :
      (inputs : List Outpoint) (p : Outpoint) (l : List Outpoint)
      → All (Pays (inputs ++ p ∷ [])) l
      → All (Pays inputs) l
  Pays-shorter inputs p [] h = tt
  Pays-shorter inputs p (o ∷ l) ((u, m, e, n, new), h) =
      ((u, m, e, n, any-shorter o p inputs new), Pays-shorter inputs p l h)

  Ended : List Outpoint → Option (Result P × List Outpoint × S) → Type 0
  Ended inputs o = (r : Result P × List Outpoint × S) × (o ≡ some r) × Ends inputs r

  stops :
      (inputs : List Outpoint) (r : Result P) (s : S)
      → ((p : P) → r ≡ ok p → (s : S) × ((prepare inputs s).0 ≡ prepared p))
      → Ended inputs (some (r, inputs, s))
  unfolding Ended
  stops inputs r s h = (
    (r, inputs, s),
    refl,
    record { added = []; only_added = sym (append-nil inputs); pay = tt; made = h },
  )

  goes_on :
      (inputs : List Outpoint) (v : LocalUnspent) (o : Option (Result P × List Outpoint × S))
      → Available 0 us inputs v
      → Ended (inputs ++ outpoint v.utxo ∷ []) o
      → Ended inputs o
  unfolding Ended
  goes_on inputs v o a (r, e, h) =
      let live : drop_failed a.origin ≡ v = sym a.live in
      (
        r,
        e,
        record {
          added = outpoint v.utxo ∷ h.added;
          only_added = h.only_added ∙ append_assoc inputs (outpoint v.utxo ∷ []) h.added;
          pay = (
            (
              a.origin,
              a.offered,
              ap (λ (x : LocalUnspent). outpoint x.utxo) live,
              subst (λ (x : LocalUnspent). used_slots x ≡ 0) (sym live) (omega (arith, a.room)),
              a.included,
            ),
            Pays-shorter inputs (outpoint v.utxo) h.added h.pay,
          );
          made = h.made;
        },
      )

  add_free-Ended :
      (inputs : List Outpoint) (s : S) (free : Result (Option LocalUnspent))
      (again : List Outpoint → Option (Result P × List Outpoint × S))
      → ((v : LocalUnspent) → free ≡ ok (some v) → Available 0 us inputs v)
      → ((v : LocalUnspent)
          → Available 0 us inputs v
          → Ended (inputs ++ outpoint v.utxo ∷ []) (again (inputs ++ outpoint v.utxo ∷ [])))
      → Ended inputs (add_free max_per_utxo prepare us free inputs s again)
  add_free-Ended inputs s (ok (some v)) again h k =
      let a = h v refl in goes_on inputs v (again (inputs ++ outpoint v.utxo ∷ [])) a (k v a)
  add_free-Ended inputs s (ok none) again h k = stops inputs _ s λ p e. absurd (cc)
  add_free-Ended inputs s (err e) again h k = stops inputs _ s λ p q. absurd (cc)
  add_free-Ended inputs s panic again h k = stops inputs _ s λ p e. absurd (cc)

  reply-Ended :
      (inputs : List Outpoint) (s s' : S) (reply : PsbtReply P)
      (again : List Outpoint → Option (Result P × List Outpoint × S))
      → (prepare inputs s).0 ≡ reply
      → ((v : LocalUnspent)
          → Available 0 us inputs v
          → Ended (inputs ++ outpoint v.utxo ∷ []) (again (inputs ++ outpoint v.utxo ∷ [])))
      → Ended inputs (after_reply max_per_utxo prepare us reply inputs s' again)
  reply-Ended inputs s s' (prepared p) again e k =
      stops inputs (ok p) s'
        λ q h. (s, subst (λ x. (prepare inputs s).0 ≡ prepared x) (ok_injective h) e)
  reply-Ended inputs s s' (refused x) again e k = stops inputs (err x) s' λ p h. absurd (cc)
  reply-Ended inputs s s' insufficient_bitcoins again e k =
      add_free-Ended inputs s' (free_utxo max_per_utxo us inputs) again
        (free_utxo-Available max_per_utxo us inputs) k

  loop-Ended :
      (fuel : ℕ) (inputs : List Outpoint) (s : S)
      → unused_count us inputs < fuel
      → Ended inputs (try_prepare_psbt max_per_utxo prepare us fuel inputs s)
  unfolding try_prepare_psbt
  loop-Ended zero inputs s h = absurd (omega (arith, h))
  loop-Ended (suc fuel) inputs s h =
      reply-Ended inputs s ((prepare inputs s).1) ((prepare inputs s).0)
        (λ more. try_prepare_psbt max_per_utxo prepare us fuel more ((prepare inputs s).1)) refl
        λ v a.
          let more = inputs ++ outpoint v.utxo ∷ [] in
          loop-Ended fuel more ((prepare inputs s).1) (fewer v a)
    where
      fewer :
          (v : LocalUnspent)
          → Available 0 us inputs v
          → unused_count us (inputs ++ outpoint v.utxo ∷ []) < fuel
      fewer v a =
          let same : outpoint a.origin.utxo ≡ outpoint v.utxo =
            sym (ap (λ (x : LocalUnspent). outpoint x.utxo) a.live) in
          let new : any (outpoint_eq (outpoint a.origin.utxo)) inputs ≡ false =
            subst (λ x. any (outpoint_eq x) inputs ≡ false) (sym same) a.included in
          let less : unused_count us (inputs ++ outpoint v.utxo ∷ []) < unused_count us inputs =
            subst (λ x. unused_count us (inputs ++ x ∷ []) < unused_count us inputs) same
              (count-lt inputs a.origin us a.offered new) in
          omega (arith, h, less)

-- With more fuel than there are unspents offered, the loop of `try_prepare_psbt` ends, whatever BDK
-- answers. Each input that it added is one of the unspents offered that was no input before and that
-- has no allocation that has not failed and no pending blind receive, and where it returns a
-- transaction, BDK made that transaction for the inputs returned.
pub try_prepare_psbt-Ends :
    {S P : Type 0} (max_per_utxo : ℕ) (prepare : List Outpoint → S → PsbtReply P × S)
    (us : List LocalUnspent) (fuel : ℕ) (inputs : List Outpoint) (s : S)
    → length us < fuel
    → (r : Result P × List Outpoint × S) × (try_prepare_psbt max_per_utxo prepare us fuel inputs s
        ≡ some r)
      × Ends max_per_utxo prepare us inputs r
unfolding Ended
try_prepare_psbt-Ends max_per_utxo prepare us fuel inputs s h =
    loop-Ended max_per_utxo prepare us fuel inputs s (omega (arith, h, count-length us inputs))
