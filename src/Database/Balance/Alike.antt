-- ===== src/Database/Balance/Alike.antt =====
-- Two readings of the unspents that differ only in what has failed give the same balance.
use rgb_lib.Prelude.{
  ℕ, String, ◌+◌, ◌<◌, ◌≡◌, refl, sym, ap, ◌∙◌, Bool, true, not, ◌&&◌, List, [], ◌∷◌, ◌++◌, map,
  filter, filter-filter, ltb→lt, any, concat_map, ltb, u64_mod, checked_add, arith, Bool-cases, inl,
  inr,
}
use rgb_lib.Status.{is_failed}
use rgb_lib.Result.{Result, ok, ◌>>=◌, expect}
use rgb_lib.Database.Rows.{DbData, LocalRgbAllocation, LocalUnspent, is_asset}
use rgb_lib.Database.Joins.{allocation_settled}
use rgb_lib.Database.Balance.{
  sum_u64, sum_from, sum_where, busy, being_spent, unspendable, pending_incoming, pending_outgoing,
  witness_pending_from, sum_settled_from, balance_of,
}

-- an allocation of a transfer that has not failed
abbrev pub alive : LocalRgbAllocation → Bool
alive a = not (is_failed a.status)

abbrev pub SameLive : List LocalRgbAllocation → List LocalRgbAllocation → Type 0
SameLive l l' = filter alive l ≡ filter alive l'

-- the same unspents but for allocations that failed, and for unspents that have no others
pub data Alike : List LocalUnspent → List LocalUnspent → Type 0 where
  nothing : Alike [] []
  both :
      {u u' : LocalUnspent} {us us' : List LocalUnspent}
      → u'.utxo ≡ u.utxo
      → u'.pending_blinded ≡ u.pending_blinded
      → SameLive u.rgb_allocations u'.rgb_allocations
      → Alike us us'
      → Alike (u ∷ us) (u' ∷ us')
  gone :
      {u : LocalUnspent} {us us' : List LocalUnspent}
      → filter alive u.rgb_allocations ≡ []
      → Alike us us'
      → Alike (u ∷ us) us'

module _ (p q : LocalRgbAllocation → Bool)
    (only : (a : LocalRgbAllocation) → p a ≡ true → alive a ≡ true) where
  filter-alive :
      (l : List LocalRgbAllocation) → filter p (filter q l) ≡ filter p (filter q (filter alive l))
  filter-alive [] = refl
  filter-alive (a ∷ l) = ground (arith, only a, filter-alive l)

  filter-SameLive :
      (l l' : List LocalRgbAllocation)
      → SameLive l l'
      → filter p (filter q l) ≡ filter p (filter q l')
  filter-SameLive l l' e =
      filter-alive l ∙ ap (λ m. filter p (filter q m)) e ∙ sym (filter-alive l')

  filter-append :
      (l m : List LocalRgbAllocation)
      → filter p (filter q (l ++ m)) ≡ filter p (filter q l) ++ filter p (filter q m)
  filter-append [] m = refl
  filter-append (a ∷ l) m = ground (arith, filter-append l m)

  filter-Alike :
      (us us' : List LocalUnspent)
      → Alike us us'
      → filter p (filter q (concat_map (λ (u : LocalUnspent). u.rgb_allocations) us))
        ≡ filter p (filter q (concat_map (λ (u : LocalUnspent). u.rgb_allocations) us'))
  filter-Alike us us' nothing = refl
  filter-Alike (u ∷ us) (u' ∷ us') (both t n e h) = rw (
    filter-append u.rgb_allocations (concat_map (λ (u : LocalUnspent). u.rgb_allocations) us),
    filter-append u'.rgb_allocations (concat_map (λ (u : LocalUnspent). u.rgb_allocations) us'),
    filter-SameLive u.rgb_allocations u'.rgb_allocations e,
    filter-Alike us us' h,
  )
  filter-Alike (u ∷ us) us' (gone e h) = rw (
    filter-append u.rgb_allocations (concat_map (λ (u : LocalUnspent). u.rgb_allocations) us),
    filter-SameLive u.rgb_allocations [] e,
    filter-Alike us us' h,
  )

any-busy : (l : List LocalRgbAllocation) → any busy l ≡ any busy (filter alive l)
any-busy [] = refl
any-busy (a ∷ l) = ground (arith, any-busy l)

any-being_spent :
    (l : List LocalRgbAllocation) → any being_spent l ≡ any being_spent (filter alive l)
any-being_spent [] = refl
any-being_spent (a ∷ l) = ground (arith, any-being_spent l)

unspendable-same :
    (u u' : LocalUnspent)
    → u'.utxo ≡ u.utxo
    → u'.pending_blinded ≡ u.pending_blinded
    → SameLive u.rgb_allocations u'.rgb_allocations
    → unspendable u' ≡ unspendable u
unspendable-same u u' t n e =
    let busy_same : any busy u'.rgb_allocations ≡ any busy u.rgb_allocations =
      any-busy u'.rgb_allocations ∙ ap (any busy) (sym e) ∙ sym (any-busy u.rgb_allocations) in
    let spent_same : any being_spent u'.rgb_allocations ≡ any being_spent u.rgb_allocations =
      any-being_spent u'.rgb_allocations
      ∙ ap (any being_spent) (sym e)
      ∙ sym (any-being_spent u.rgb_allocations) in
    rw (busy_same, spent_same, n, t) refl

-- one more settled amount
add_then :
    (r : Result ℕ) (acc : ℕ) (f g : ℕ → Result ℕ)
    → ((t : ℕ) → t < u64_mod → f t ≡ g t)
    → (r >>= λ n. expect (checked_add acc n) >>= f) ≡ (r >>= λ n. expect (checked_add acc n) >>= g)
add_then (ok n) acc f g h = elim (Bool-cases (ltb (acc + n) u64_mod)) [
  | inl fits ↦ rw fits (h (acc + n) (ltb→lt _ _ fits))
  | inr over ↦ rw over refl
]
add_then (Result.err x) acc f g h = refl
add_then Result.panic acc f g h = refl

module _ (asset_id : String) where
  abbrev settled_here : LocalRgbAllocation → Bool
  settled_here a = is_asset asset_id a.asset_id && allocation_settled a

  settled_here-alive : (a : LocalRgbAllocation) → settled_here a ≡ true → alive a ≡ true
  settled_here-alive a h = ground (arith, h)

  settled-SameLive :
      (l l' : List LocalRgbAllocation)
      → SameLive l l'
      → sum_where settled_here l ≡ sum_where settled_here l'
  unfolding sum_where
  settled-SameLive l l' e =
      ap
        (λ m.
          sum_u64 (map (λ (a : LocalRgbAllocation). rgb_lib.Assignment.main_amount a.assignment) m))
        (sym (filter-filter settled_here alive settled_here-alive l)
          ∙ ap (filter settled_here) e
          ∙ filter-filter settled_here alive settled_here-alive l')

  add_nothing :
      (u : LocalUnspent) (acc : ℕ) (us : List LocalUnspent)
      → filter alive u.rgb_allocations ≡ []
      → acc < u64_mod
      → sum_settled_from asset_id acc (u ∷ us) ≡ sum_settled_from asset_id acc us
  unfolding sum_settled_from sum_where sum_u64 sum_from
  add_nothing u acc us e h = rw (settled-SameLive u.rgb_allocations [] e) (ground (arith, h))

  sum_settled-Alike :
      (acc : ℕ) (us us' : List LocalUnspent)
      → Alike us us'
      → acc < u64_mod
      → sum_settled_from asset_id acc (filter unspendable us)
        ≡ sum_settled_from asset_id acc (filter unspendable us')
  unfolding sum_settled_from
  sum_settled-Alike acc us us' nothing h = refl
  sum_settled-Alike acc (u ∷ us) (u' ∷ us') (both t n e r) h = elim (Bool-cases (unspendable u)) [
    | inl busy_here ↦
        rw (unspendable-same u u' t n e, busy_here)
          (rw (settled-SameLive u.rgb_allocations u'.rgb_allocations e) (
            add_then (sum_where settled_here u'.rgb_allocations) acc _ _
              λ x fits. sum_settled-Alike x us us' r fits))
    | inr free_here ↦ rw (unspendable-same u u' t n e, free_here) (sum_settled-Alike acc us us' r h)
  ]
  sum_settled-Alike acc (u ∷ us) us' (gone e r) h = elim (Bool-cases (unspendable u)) [
    | inl busy_here ↦
        rw busy_here
          (add_nothing u acc (filter unspendable us) e h ∙ sum_settled-Alike acc us us' r h)
    | inr free_here ↦ rw free_here (sum_settled-Alike acc us us' r h)
  ]

  pub balance_of-Alike :
      (d d' : DbData) (us us' : List LocalUnspent)
      → Alike us us'
      → witness_pending_from asset_id d 0 d.transfers
        ≡ witness_pending_from asset_id d' 0 d'.transfers
      → balance_of asset_id d us ≡ balance_of asset_id d' us'
  unfolding balance_of sum_where
  balance_of-Alike d d' us us' r w =
      let in_asset = λ (a : LocalRgbAllocation). is_asset asset_id a.asset_id in
      rw (
        filter-Alike allocation_settled in_asset (λ a h. ground (arith, h)) us us' r,
        filter-Alike pending_incoming in_asset (λ a h. ground (arith, h)) us us' r,
        filter-Alike pending_outgoing in_asset (λ a h. ground (arith, h)) us us' r,
        sum_settled-Alike 0 us us' r (omega arith),
        w,
      )
