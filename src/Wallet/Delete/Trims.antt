-- ===== src/Wallet/Delete/Trims.antt =====
-- What `del_coloring` and `del_txo` of src/database/mod.rs, as a deletion of failed transfers calls
-- them, do to the references between the tables and to the allocations.
use rgb_lib.Prelude.{
  ℕ, String, ◌≡◌, refl, sym, ap, ◌∙◌, subst, Bool, true, false, not, List, [], ◌∷◌, Option, none,
  some, filter, checked_add, find, any, All, All-filter, All-find, find-true, ◌==◌, arith,
  Bool-cases, inl, inr, if◌then◌else◌,
}
use rgb_lib.Status.{is_failed}
use rgb_lib.Result.{
  Result, ok, err, internal, traverse, ◌>>=◌, >>=-eq-ok, ok_injective, expect, expect-eq-ok,
}
use rgb_lib.Database.Rows.{
  DbTxo, DbColoring, DbAssetTransfer, DbBatchTransfer, DbTransfer, DbData, LocalRgbAllocation,
}
use rgb_lib.Database.Joins.{coloring_allocation, get_utxo_allocations}
use rgb_lib.Database.Deletes.{del_coloring, del_txo}
use rgb_lib.Database.Linked.{Linked, find-flip}
use rgb_lib.Database.Balance.{witness_of, witness_pending_from}
use rgb_lib.Database.Balance.Alike.{alive, SameLive}
use rgb_lib.Database.Balance.Same.{allocations_of, SameAllocations, traverse_cons}

-- keys of failed batch transfers, and of asset transfers of such
abbrev pub FailedBatch : DbData → ℕ → Type 0
FailedBatch d i =
    (b : DbBatchTransfer)
    → find (λ (t : DbBatchTransfer). t.idx == i) d.batch_transfers ≡ some b
    → is_failed b.status ≡ true

abbrev pub FailedAsset : DbData → ℕ → Type 0
FailedAsset d i =
    All (λ (a : DbAssetTransfer). a.idx ≡ i → FailedBatch d a.batch_transfer_idx) d.asset_transfers

pub filter_all {ℓ} : {A : Type ℓ} (l : List A) → l ≡ filter (λ x. true) l
filter_all [] = refl
filter_all (x ∷ l) = ap (λ m. x ∷ m) (filter_all l)

All_vacuous :
    (P : DbTransfer → Type 0) (l : List DbTransfer) → All (λ (t : DbTransfer). true ≡ false → P t) l
All_vacuous P [] = tt
All_vacuous P (t ∷ l) = ((λ e. absurd (cc)), All_vacuous P l)

-- one more amount, where there is one
maybe_add :
    (r : Result (Option ℕ)) (acc : ℕ) (f g : ℕ → Result ℕ)
    → ((x : ℕ) → f x ≡ g x)
    → (r >>= λ w. elim w [ none ↦ f acc | some n ↦ (expect (checked_add acc n) >>= f) ])
      ≡ (r >>= λ w. elim w [ none ↦ g acc | some n ↦ (expect (checked_add acc n) >>= g) ])
maybe_add r acc f g h i =
    r >>= λ w. elim w [ none ↦ h acc i | some n ↦ (expect (checked_add acc n) >>= λ x. h x i) ]

-- transfers that add nothing to the witness receives may go
pub witness_pending_from-filter :
    (asset_id : String) (d d' : DbData) (keep : DbTransfer → Bool) (acc : ℕ) (ts : List DbTransfer)
    → ((t : DbTransfer)
        → keep t ≡ true
        → witness_of asset_id t t.recipient_type d.asset_transfers d.batch_transfers
          ≡ witness_of asset_id t t.recipient_type d'.asset_transfers d'.batch_transfers)
    → All
        (λ (t : DbTransfer).
          keep t ≡ false
          → witness_of asset_id t t.recipient_type d.asset_transfers d.batch_transfers ≡ ok none)
        ts
    → witness_pending_from asset_id d acc ts ≡ witness_pending_from asset_id d' acc (filter keep ts)
unfolding witness_pending_from
witness_pending_from-filter asset_id d d' keep acc [] same none' = refl
witness_pending_from-filter asset_id d d' keep acc (t ∷ ts) same none' =
    elim (Bool-cases (keep t)) [
      | inl hit ↦ rw hit (
          rw (same t hit) (
            maybe_add (witness_of asset_id t t.recipient_type d'.asset_transfers d'.batch_transfers)
              acc _ _ λ x. witness_pending_from-filter asset_id d d' keep x ts same none'.1))
      | inr miss ↦
          rw (miss, none'.0 miss)
            (witness_pending_from-filter asset_id d d' keep acc ts same none'.1)
    ]

filter_none : (p : DbColoring → Bool) (l : List DbColoring) → any p l ≡ false → filter p l ≡ []
filter_none p [] h = refl
filter_none p (c ∷ l) h = ground (arith, h, filter_none p l)

no_colorings :
    (d : DbData) (i : ℕ) (t : DbTxo) (l : List LocalRgbAllocation)
    → any (λ (c : DbColoring). c.txo_idx == i) d.colorings ≡ false
    → not (t.idx == i) ≡ false
    → allocations_of d t ≡ ok l
    → filter alive l ≡ []
unfolding get_utxo_allocations traverse
no_colorings d i t l n h e =
    let at : i ≡ t.idx = ground (arith, h) in
    let unused : any (λ (c : DbColoring). c.txo_idx == t.idx) d.colorings ≡ false =
      subst (λ j. any (λ (c : DbColoring). c.txo_idx == j) d.colorings ≡ false) at n in
    ap (filter alive) (sym (ok_injective (rw (filter_none _ d.colorings unused) at e)))

-- the status of an allocation that is read is that of the batch transfer found
module _ (d : DbData) (t : DbTxo) where
  abbrev allocation : DbColoring → Result LocalRgbAllocation
  allocation = coloring_allocation t d.asset_transfers d.batch_transfers

  allocation_failed :
      (i : ℕ) (c : DbColoring) (l : LocalRgbAllocation)
      → FailedAsset d i
      → not (c.asset_transfer_idx == i) ≡ false
      → allocation c ≡ ok l
      → alive l ≡ false
  unfolding coloring_allocation
  allocation_failed i c l f q e =
      let (a, ea, g) =
        >>=-eq-ok (expect (find (λ a. a.idx == c.asset_transfer_idx) d.asset_transfers)) _ e in
      let (b, eb, k) =
        >>=-eq-ok (expect (find (λ b. a.batch_transfer_idx == b.idx) d.batch_transfers)) _ g in
      let found = expect-eq-ok _ ea in
      let batch = sym (find-flip a.batch_transfer_idx d.batch_transfers) ∙ expect-eq-ok _ eb in
      let at : (a.idx == c.asset_transfer_idx) ≡ true = find-true _ d.asset_transfers a found in
      let failed = All-find _ _ d.asset_transfers a f found (ground (arith, at, q)) b batch in
      ap alive (sym (ok_injective k)) ∙ ap not failed

traverse-SameLive :
    (f : DbColoring → Result LocalRgbAllocation) (p q : DbColoring → Bool) (cs : List DbColoring)
    (l l' : List LocalRgbAllocation)
    → ((c : DbColoring) (a : LocalRgbAllocation) → q c ≡ false → f c ≡ ok a → alive a ≡ false)
    → traverse f (filter p cs) ≡ ok l
    → traverse f (filter p (filter q cs)) ≡ ok l'
    → SameLive l l'
traverse-SameLive f p q [] l l' h e e' = ap (filter alive) (ok_injective (sym e ∙ e'))
traverse-SameLive f p q (c ∷ cs) l l' h e e' = elim (Bool-cases (p c)) [
  | inr miss ↦ traverse-SameLive f p q cs l l' h (rw miss at e) (passed (q c) miss e')
  | inl hit ↦
      let (a, as', ea, eas, same) = traverse_cons f c (filter p cs) l (rw hit at e) in
      elim (Bool-cases (q c)) [
        | inl stays ↦
            let (a', as'', ea', eas', same') =
              traverse_cons f c (filter p (filter q cs)) l' (rw (stays, hit) at e') in
            let first : a ≡ a' = ok_injective (sym ea ∙ ea') in
            let rest = traverse-SameLive f p q cs as' as'' h eas eas' in
            let both : filter alive (a ∷ as') ≡ filter alive (a' ∷ as'') =
              rw first (rw rest refl) in
            sym (ap (filter alive) same) ∙ both ∙ ap (filter alive) same'
        | inr goes ↦
            let dead : filter alive (a ∷ as') ≡ filter alive as' = rw (h c a goes ea) refl in
            sym (ap (filter alive) same)
            ∙ dead
            ∙ traverse-SameLive f p q cs as' l' h eas (rw goes at e')
      ]
]
  where
    passed :
        (b : Bool)
        → p c ≡ false
        → traverse f (filter p (if b then c ∷ filter q cs else filter q cs)) ≡ ok l'
        → traverse f (filter p (filter q cs)) ≡ ok l'
    passed true m k = rw m at k
    passed false m k = k

module _ (d : DbData) (linked : Linked d) where
  pub del_coloring-Linked : (i : ℕ) → Linked (del_coloring i d)
  unfolding del_coloring
  del_coloring-Linked i = record {
    colorings = All-filter _ _ d.colorings linked.colorings;
    transfers = linked.transfers;
    batches = linked.batches;
    assets = linked.assets;
  }

  witness_alone :
      (d' : DbData) (asset_id : String)
      → d'.transfers ≡ d.transfers
      → d'.asset_transfers ≡ d.asset_transfers
      → d'.batch_transfers ≡ d.batch_transfers
      → witness_pending_from asset_id d 0 d.transfers
        ≡ witness_pending_from asset_id d' 0 d'.transfers
  witness_alone d' asset_id t a b =
      witness_pending_from-filter asset_id d d' (λ t. true) 0 d.transfers
        (λ x h. sym (
          ap (λ l. witness_of asset_id x x.recipient_type l d'.batch_transfers) a
          ∙ ap (λ l. witness_of asset_id x x.recipient_type d.asset_transfers l) b))
        (All_vacuous _ d.transfers)
      ∙ ap (witness_pending_from asset_id d' 0) (sym (filter_all d.transfers) ∙ sym t)

  -- the colorings of a failed asset transfer go
  pub del_coloring-same :
      (i : ℕ) → FailedAsset d i → SameAllocations d (del_coloring i d) (λ t. true)
  unfolding del_coloring get_utxo_allocations
  del_coloring-same i f = record {
    txos = filter_all d.txos;
    counts = refl;
    kept = λ t l l' h e e'.
        traverse-SameLive (allocation d t) (λ c. c.txo_idx == t.idx)
          (λ c. not (c.asset_transfer_idx == i)) d.colorings l l'
          (λ c a q g. allocation_failed d t i c a f q g) e e';
    dropped = λ t l h e. absurd (cc);
    witness = λ asset_id. witness_alone (del_coloring i d) asset_id refl refl refl;
  }

  -- a TXO without colorings goes
  pub del_txo-same :
      (i : ℕ) (d' : DbData)
      → del_txo i d ≡ ok d'
      → Linked d' × SameAllocations d d' (λ t. not (t.idx == i))
  unfolding del_txo
  del_txo-same i d' e = elim (Bool-cases (any (λ (c : DbColoring). c.txo_idx == i) d.colorings)) [
    | inl used ↦ let bad : err internal ≡ ok d' = rw used at e in absurd (cc)
    | inr unused ↦
        subst (λ x. Linked x × SameAllocations d x (λ t. not (t.idx == i)))
          (ok_injective (rw unused at e))
          (
            record {
              colorings = linked.colorings;
              transfers = linked.transfers;
              batches = linked.batches;
              assets = linked.assets;
            },
            record {
              txos = refl;
              counts = refl;
              kept = λ t l l' h g g'. ap (filter alive) (ok_injective (sym g ∙ g'));
              dropped = λ t l h g. no_colorings d i t l unused h g;
              witness = λ asset_id. witness_alone _ asset_id refl refl refl;
            },
          )
  ]
