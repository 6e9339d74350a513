-- ===== src/Send/Grows.antt =====
-- What a call that saves rows does to the tables, whether it returns or fails: rows are only added, and
-- each refers to a row that is there.
use mathlib.Core.List.{append_assoc, append-nil}
use rgb_lib.Prelude.{
  ℕ, ◌≡◌, refl, sym, ap, ◌∙◌, subst, Bool, true, List, [], ◌∷◌, ◌++◌, some, find, All, inl, inr,
  Bool-cases, arith,
}
use rgb_lib.Prelude.Member.{All-imp}
use rgb_lib.Result.{Result, ok, err, panic}
use rgb_lib.Status.{is_waiting_confirmations}
use rgb_lib.Database.Rows.{DbColoring, DbAssetTransfer, DbBatchTransfer, DbTransfer, DbData}
use rgb_lib.Database.Linked.{HasAssetTransfer, HasBatchTransfer, AssetKnown, Linked}
use rgb_lib.Action.{Action, Store, World, continue_with, pure, ◌>>=◌}
use rgb_lib.Refresh.Quiet.{Leaves}
use rgb_lib.Prelude.Member.{All-both}

-- the tables but the TXOs
abbrev pub rows : Store → DbData
rows s = record s.tables { txos = [] }

abbrev pub Longer : {A : Type 0} → List A → List A → Type 0
Longer {A} xs ys = (l : List A) × (ys ≡ xs ++ l)

pub record Extends (d d' : DbData) : Type 0 where
  pub batch_transfers : Longer d.batch_transfers d'.batch_transfers
  pub asset_transfers : Longer d.asset_transfers d'.asset_transfers
  pub transfers : Longer d.transfers d'.transfers
  pub colorings : Longer d.colorings d'.colorings

abbrev pub no_more : {A : Type 0} (xs : List A) → Longer xs xs
no_more xs = ([], sym (append-nil xs))

pub Longer-trans : {A : Type 0} (xs ys zs : List A) → Longer xs ys → Longer ys zs → Longer xs zs
Longer-trans xs ys zs (l, e) (k, f) = (l ++ k, f ∙ ap (λ t. t ++ k) e ∙ append_assoc xs l k)

pub Extends-refl : (d : DbData) → Extends d d
Extends-refl d = record {
  batch_transfers = no_more d.batch_transfers;
  asset_transfers = no_more d.asset_transfers;
  transfers = no_more d.transfers;
  colorings = no_more d.colorings;
}

pub Extends-trans : (a b c : DbData) → Extends a b → Extends b c → Extends a c
Extends-trans a b c h k = record {
  batch_transfers = Longer-trans _ _ _ h.batch_transfers k.batch_transfers;
  asset_transfers = Longer-trans _ _ _ h.asset_transfers k.asset_transfers;
  transfers = Longer-trans _ _ _ h.transfers k.transfers;
  colorings = Longer-trans _ _ _ h.colorings k.colorings;
}

pub find-append :
    {A : Type 0} (p : A → Bool) (xs l : List A) (a : A)
    → find p xs ≡ some a
    → find p (xs ++ l) ≡ some a
find-append p [] l a h = absurd (cc)
find-append p (x ∷ xs) l a h = ground (arith, h, find-append p xs l a)

pub find-last :
    {A : Type 0} (p : A → Bool) (xs : List A) (a : A)
    → p a ≡ true
    → (b : A) × (find p (xs ++ a ∷ []) ≡ some b)
find-last p [] a h = (a, rw h)
find-last p (x ∷ xs) a h = elim (Bool-cases (p x)) [
  | inl hit ↦ (x, rw hit)
  | inr miss ↦ let (b, e) = find-last p xs a h in (b, rw miss e)
]

pub find-longer :
    {A : Type 0} (p : A → Bool) (xs ys : List A) (a : A)
    → Longer xs ys
    → find p xs ≡ some a
    → find p ys ≡ some a
find-longer p xs ys a (l, e) h = rw e (find-append p xs l a h)

All-append : {A : Type 0} (P : A → Type 0) (xs ys : List A) → All P xs → All P ys → All P (xs ++ ys)
All-append P [] ys h k = k
All-append P (x ∷ xs) ys h k = (h.0, All-append P xs ys h.1 k)

All-grow :
    {A : Type 0} (P Q : A → Type 0) (xs ys : List A) (longer : Longer xs ys)
    → ((x : A) → P x → Q x)
    → All P xs
    → All Q (longer.0)
    → All Q ys
All-grow P Q xs ys (l, e) f h k = subst (All Q) (sym e) (All-append Q xs l (All-imp P Q f xs h) k)

module _ (d d' : DbData) (e : Extends d d') where
  pub HasAssetTransfer-grow : (i : ℕ) → HasAssetTransfer d i → HasAssetTransfer d' i
  HasAssetTransfer-grow i (a, h) = (a, find-longer _ _ _ a e.asset_transfers h)

  pub HasBatchTransfer-grow : (i : ℕ) → HasBatchTransfer d i → HasBatchTransfer d' i
  HasBatchTransfer-grow i (b, h) = (b, find-longer _ _ _ b e.batch_transfers h)

  AssetKnown-grow :
      (a : DbAssetTransfer)
      → HasBatchTransfer d a.batch_transfer_idx × AssetKnown d a
      → AssetKnown d' a
  AssetKnown-grow a ((b, h), known) b' found waiting =
      let same : b ≡ b' = some_same (sym (find-longer _ _ _ b e.batch_transfers h) ∙ found) in
      known b h (
        subst (λ (x : DbBatchTransfer). is_waiting_confirmations x.status ≡ true) (sym same)
          waiting)
    where
      some_same : {x y : DbBatchTransfer} → some x ≡ some y → x ≡ y
      some_same q = cc

  -- tables that grow stay linked when what is added is
  pub Linked-grow :
      Linked d
      → All (λ (c : DbColoring). HasAssetTransfer d' c.asset_transfer_idx) (e.colorings.0)
      → All (λ (t : DbTransfer). HasAssetTransfer d' t.asset_transfer_idx) (e.transfers.0)
      → All
          (λ (a : DbAssetTransfer). HasBatchTransfer d' a.batch_transfer_idx)
          (e.asset_transfers.0)
      → All (AssetKnown d') (e.asset_transfers.0)
      → Linked d'
  Linked-grow h c t b k = record {
    colorings =
        All-grow _ _ _ _ e.colorings (λ x. HasAssetTransfer-grow x.asset_transfer_idx) h.colorings
          c;
    transfers =
        All-grow _ _ _ _ e.transfers (λ x. HasAssetTransfer-grow x.asset_transfer_idx) h.transfers
          t;
    batches =
        All-grow _ _ _ _ e.asset_transfers (λ x. HasBatchTransfer-grow x.batch_transfer_idx)
          h.batches b;
    assets =
        All-grow _ _ _ _ e.asset_transfers AssetKnown-grow
          (All-both {P = λ a. HasBatchTransfer d a.batch_transfer_idx} {Q = AssetKnown d}
            (λ x p q. (p, q)) d.asset_transfers h.batches h.assets)
          k;
  }

-- the tables after a call from the tables `d`, and what its result says of them
pub record After {A : Type 0} (d : DbData) (Q : A → DbData → Type 0) (r : Result A) (d' : DbData)
    : Type 0 where
  pub grown : Extends d d'
  pub linked : Linked d'
  pub result : (a : A) → r ≡ ok a → Q a d'

-- run on linked tables `d`, the call only adds rows, and `Q` holds where it returns
pub record At {S A : Type 0} (d : DbData) (m : Action S A) (Q : A → DbData → Type 0) : Type 0 where
  pub after :
      (w : World S) → rows (w.store) ≡ d → Linked d → After d Q ((m w).0) (rows ((m w).1.store))

module _ {S A B : Type 0} {d : DbData} {Q : A → DbData → Type 0} {R : B → DbData → Type 0} where
  continue-After :
      (r : Result A) (w : World S) (f : A → Action S B)
      → After d Q r (rows (w.store))
      → ((a : A) (d1 : DbData) → Extends d d1 → Q a d1 → At d1 (f a) R)
      → After d R ((continue_with (r, w) f).0) (rows ((continue_with (r, w) f).1.store))
  continue-After (ok a) w f h k =
      let next = (k a _ h.grown (h.result a refl)).after w refl h.linked in
      record {
        grown = Extends-trans _ _ _ h.grown next.grown;
        linked = next.linked;
        result = next.result;
      }
  continue-After (err e) w f h k = record { grown = h.grown; linked = h.linked; result = λ b q. cc }
  continue-After panic w f h k = record { grown = h.grown; linked = h.linked; result = λ b q. cc }

  pub >>=-At :
      {m : Action S A} {f : A → Action S B}
      → At d m Q
      → ((a : A) (d1 : DbData) → Extends d d1 → Q a d1 → At d1 (f a) R)
      → At d (m >>= f) R
  unfolding ◌>>=◌
  >>=-At {m} {f} h k = record {
    after = λ w e l. continue-After ((m w).0) ((m w).1) f (h.after w e l) k;
  }

-- a call that leaves these tables alone
pub Leaves-At :
    {S A : Type 0} (d : DbData) {m : Action S A} → Leaves rows m → At d m (λ _ d'. d' ≡ d)
Leaves-At d {m} h = record {
  after = λ w e l.
      rw (h.same w, e) (record { grown = Extends-refl d; linked = l; result = λ a q. refl });
}

-- from what holds at the tables of every world
pub at_tables :
    {S A : Type 0} {m : Action S A} (P : DbData → Type 0) (Q : DbData → A → DbData → Type 0)
    → ((w : World S)
        → P (rows (w.store))
        → Linked (rows (w.store))
        → After (rows (w.store)) (Q (rows (w.store))) ((m w).0) (rows ((m w).1.store)))
    → (d : DbData) → P d
    → At d m (Q d)
at_tables {m} P Q h d p = record {
  after = λ w e l.
      subst (λ x. After x (Q x) ((m w).0) (rows ((m w).1.store))) e
        (h w (subst P (sym e) p) (subst Linked (sym e) l));
}

module _ {S A : Type 0} {d : DbData} {Q R : A → DbData → Type 0} where
  pub At-imp :
      {m : Action S A}
      → At d m Q
      → ((a : A) (d' : DbData) → Extends d d' → Q a d' → R a d')
      → At d m R
  At-imp {m} h f = record {
    after = λ w e l.
        let r = h.after w e l in
        record { grown = r.grown; linked = r.linked; result = λ a q. f a _ r.grown (r.result a q) };
  }

module _ {S A B : Type 0} {d : DbData} {R : B → DbData → Type 0} where
  -- first a call that leaves these tables alone
  pub Leaves->>= :
      {m : Action S A} {f : A → Action S B}
      → Leaves rows m
      → ((a : A) → At d (f a) R)
      → At d (m >>= f) R
  Leaves->>= {f} h k = >>=-At (Leaves-At d h) λ a d1 g e. subst (λ x. At x (f a) R) (sym e) (k a)

pub pure-At :
    {S A : Type 0} (d : DbData) (a : A) → At d (pure {S = S} a) (λ b d'. (b ≡ a) × (d' ≡ d))
unfolding pure
pure-At d a = record {
  after = λ w e l. rw e (record { grown = Extends-refl d; linked = l; result = λ b q. (cc, refl) });
}

-- no reference is to a TXO
pub Linked-rows : (s : Store) → Linked s.tables → Linked (rows s)
Linked-rows s h = record {
  colorings = h.colorings;
  transfers = h.transfers;
  batches = h.batches;
  assets = h.assets;
}
