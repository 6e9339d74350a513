-- ===== src/Send/Inserts.antt =====
-- The inserts of src/Send/Rows, on linked tables: what each adds, and that the tables stay linked.
use mathlib.Core.List.{append_assoc, append-nil, Memᴰ}
use rgb_lib.Prelude.{
  ℕ, String, ◌≡◌, refl, sym, ap, ◌∙◌, subst, Bool, true, false, List, [], ◌∷◌, ◌++◌, some, find,
  any, eq_iff, inl, inr, Bool-cases, arith,
}
use rgb_lib.Status.{ColoringType, TransferStatus}
use rgb_lib.Assignment.{Assignment}
use rgb_lib.Database.Rows.{DbColoring, DbAssetTransfer, DbBatchTransfer, DbData}
use rgb_lib.Database.Linked.{HasAssetTransfer, HasBatchTransfer}
use rgb_lib.Database.Updates.{set_coloring}
use rgb_lib.Action.{Action, ◌>>=◌, ◌>>◌, ask, writes, pure, abort}
use rgb_lib.Refresh.Quiet.{pure-Quiet}
use rgb_lib.Services.{Services}
use rgb_lib.Send.{InfoBatchTransfer}
use rgb_lib.Send.Save.{is_sent_by}
use rgb_lib.Send.Rows.{set_batch_transfer, set_asset_transfer, set_transfer, Requested}
use rgb_lib.Send.Grows.{
  rows, no_more, Extends, Extends-refl, Leaves-At, At-imp, >>=-At, find-last, Linked-grow, At,
  at_tables,
}

-- what a coloring is to say
pub record Entry : Type 0 where
  pub asset_id : String
  pub type : ColoringType
  pub assignment : Assignment

-- an asset transfer of the batch transfer `b`, with the key `i`
abbrev pub HasRow : DbData → ℕ → ℕ → String → Type 0
HasRow d b i id =
    (a : DbAssetTransfer) × Memᴰ a d.asset_transfers
    × (a.idx ≡ i)
    × (a.asset_id ≡ some id)
    × (a.batch_transfer_idx ≡ b)

abbrev pub Booked : DbData → ℕ → DbColoring → Entry → Type 0
Booked d b c e =
    (c.type ≡ e.type) × (c.assignment ≡ e.assignment) × HasRow d b c.asset_transfer_idx e.asset_id

abbrev pub AllBooked : DbData → ℕ → List DbColoring → List Entry → Type 0
AllBooked d b [] [] = Unit
AllBooked d b [] (e ∷ es) = ⊥
AllBooked d b (c ∷ cs) [] = ⊥
AllBooked d b (c ∷ cs) (e ∷ es) = Booked d b c e × AllBooked d b cs es

-- the colorings added are those that the entries say, in order
abbrev pub Books : DbData → ℕ → List Entry → DbData → Type 0
Books d b es d' = (l : List DbColoring) × (d'.colorings ≡ d.colorings ++ l) × AllBooked d' b l es

Memᴰ-append : {A : Type 0} (a : A) (xs l : List A) → Memᴰ a xs → Memᴰ a (xs ++ l)
Memᴰ-append a xs l (Memᴰ.head e) = Memᴰ.head e
Memᴰ-append a xs l (Memᴰ.tail {xs = ys} m) = Memᴰ.tail (Memᴰ-append a ys l m)

pub Memᴰ-last : {A : Type 0} (a : A) (xs : List A) → Memᴰ a (xs ++ a ∷ [])
Memᴰ-last a [] = Memᴰ.head refl
Memᴰ-last a (x ∷ xs) = Memᴰ.tail (Memᴰ-last a xs)

pub find-Memᴰ :
    {A : Type 0} (p : A → Bool) (a : A) (xs : List A)
    → Memᴰ a xs
    → p a ≡ true
    → (b : A) × (find p xs ≡ some b)
find-Memᴰ p a xs (Memᴰ.head {x = y} {xs = ys} e) h = (y, ground (arith, e, h))
find-Memᴰ p a xs (Memᴰ.tail {x = y} {xs = ys} m) h = elim (Bool-cases (p y)) [
  | inl hit ↦ (y, rw hit)
  | inr miss ↦ let (b, e) = find-Memᴰ p a ys m h in (b, rw miss e)
]

pub HasRow-grow :
    (d d' : DbData) → Extends d d' → (b i : ℕ) (id : String) → HasRow d b i id → HasRow d' b i id
HasRow-grow d d' e b i id (a, m, h, q, o) =
    let (l, r) = e.asset_transfers in (a, subst (Memᴰ a) (sym r) (Memᴰ-append a _ l m), h, q, o)

pub HasRow-HasAssetTransfer :
    (d : DbData) (b i : ℕ) (id : String) → HasRow d b i id → HasAssetTransfer d i
HasRow-HasAssetTransfer d b i id (a, m, e, _, _) = find-Memᴰ _ a _ m (ground (arith, e))

AllBooked-grow :
    (d d' : DbData)
    → Extends d d'
    → (b : ℕ) (l : List DbColoring) (es : List Entry) → AllBooked d b l es
    → AllBooked d' b l es
AllBooked-grow d d' g b [] [] h = tt
AllBooked-grow d d' g b [] (e ∷ es) h = elim h [ ]
AllBooked-grow d d' g b (c ∷ cs) [] h = elim h [ ]
AllBooked-grow d d' g b (c ∷ cs) (e ∷ es) ((p, q, r), h) = (
  (p, q, HasRow-grow d d' g b c.asset_transfer_idx e.asset_id r),
  AllBooked-grow d d' g b cs es h,
)

AllBooked-append :
    (d : DbData) (b : ℕ) (l k : List DbColoring) (es fs : List Entry)
    → AllBooked d b l es
    → AllBooked d b k fs
    → AllBooked d b (l ++ k) (es ++ fs)
AllBooked-append d b [] k [] fs h q = q
AllBooked-append d b [] k (e ∷ es) fs h q = elim h [ ]
AllBooked-append d b (c ∷ cs) k [] fs h q = elim h [ ]
AllBooked-append d b (c ∷ cs) k (e ∷ es) fs h q = (h.0, AllBooked-append d b cs k es fs h.1 q)

pub Books-nil : (d : DbData) (b : ℕ) (d' : DbData) → d'.colorings ≡ d.colorings → Books d b [] d'
Books-nil d b d' e = ([], e ∙ sym (append-nil d.colorings), tt)

pub Books-trans :
    (d d1 d2 : DbData) (b : ℕ) (es fs : List Entry)
    → Books d b es d1
    → Extends d1 d2
    → Books d1 b fs d2
    → Books d b (es ++ fs) d2
Books-trans d d1 d2 b es fs (l, e, h) g (k, q, j) = (
  l ++ k,
  q ∙ ap (λ t. t ++ k) e ∙ append_assoc d.colorings l k,
  AllBooked-append d2 b l k es fs (AllBooked-grow d1 d2 g b l es h) j,
)

-- a batch transfer of the transaction that the wallet sent is there
abbrev pub IsSaved : String → DbData → Type 0
IsSaved txid d = any (is_sent_by txid) d.batch_transfers ≡ true

any-append : {A : Type 0} (p : A → Bool) (xs l : List A) → any p xs ≡ true → any p (xs ++ l) ≡ true
any-append p [] l h = absurd (cc)
any-append p (x ∷ xs) l h = ground (arith, h, any-append p xs l)

any-last :
    {A : Type 0} (p : A → Bool) (xs : List A) (a : A) → p a ≡ true → any p (xs ++ a ∷ []) ≡ true
any-last p [] a h = ground (arith, h)
any-last p (x ∷ xs) a h = ground (arith, any-last p xs a h)

pub IsSaved-grow : (txid : String) (d d' : DbData) → Extends d d' → IsSaved txid d → IsSaved txid d'
IsSaved-grow txid d d' g h =
    let (l, e) = g.batch_transfers in rw e (any-append (is_sent_by txid) d.batch_transfers l h)

module _ {S : Type 0} (env : Services S) where
  pub set_coloring-At :
      (d : DbData) (b : ℕ) (id : String) (t i : ℕ) (type : ColoringType) (a : Assignment)
      → HasRow d b i id
      → At d
          (set_coloring env.fresh_idx t i type a)
          λ _. Books d b (record { asset_id = id; type = type; assignment = a } ∷ [])
  unfolding set_coloring ◌>>=◌ ◌>>◌ ask writes
  set_coloring-At d b id t i type a =
      at_tables {m = set_coloring env.fresh_idx t i type a} (λ d. HasRow d b i id)
        (λ d _. Books d b (record { asset_id = id; type = type; assignment = a } ∷ []))
        (λ w row l.
          let new : DbColoring = record {
            idx = (env.fresh_idx w.outside).0;
            txo_idx = t;
            asset_transfer_idx = i;
            type = type;
            assignment = a;
          } in
          let d0 = rows (w.store) in
          let d1 = rows ((set_coloring env.fresh_idx t i type a w).1.store) in
          let g : Extends d0 d1 = record {
            batch_transfers = no_more _;
            asset_transfers = no_more _;
            transfers = no_more _;
            colorings = (new ∷ [], refl);
          } in
          record {
            grown = g;
            linked = Linked-grow d0 d1 g l (HasRow-HasAssetTransfer d0 b i id row, tt) tt tt tt;
            result = λ _ _. (new ∷ [], refl, ((refl, refl, row), tt));
          })
        d

  pub set_transfer-At :
      (d : DbData) (b i : ℕ) (id : String) (r : Requested)
      → HasRow d b i id
      → At d (set_transfer env i r) λ _. Books d b []
  unfolding set_transfer ◌>>=◌ ◌>>◌ ask writes pure
  set_transfer-At d b i id r =
      at_tables {m = set_transfer env i r} (λ d. HasRow d b i id) (λ d _. Books d b [])
        (λ w row l.
          let d0 = rows (w.store) in
          let d1 = rows ((set_transfer env i r w).1.store) in
          let g : Extends d0 d1 = record {
            batch_transfers = no_more _;
            asset_transfers = no_more _;
            transfers = (_, refl);
            colorings = no_more _;
          } in
          record {
            grown = g;
            linked = Linked-grow d0 d1 g l tt (HasRow-HasAssetTransfer d0 b i id row, tt) tt tt;
            result = λ _ _. Books-nil d0 b d1 refl;
          })
        d

  pub set_asset_transfer-At :
      (d : DbData) (user_driven : Bool) (b : ℕ) (id : String)
      → HasBatchTransfer d b
      → At d (set_asset_transfer env user_driven b id) λ i d'. Books d b [] d' × HasRow d' b i id
  unfolding set_asset_transfer ◌>>=◌ ◌>>◌ ask writes pure
  set_asset_transfer-At d user_driven b id =
      at_tables {m = set_asset_transfer env user_driven b id} (λ d. HasBatchTransfer d b)
        (λ d i d'. Books d b [] d' × HasRow d' b i id)
        (λ w has l.
          let new : DbAssetTransfer = record {
            idx = (env.fresh_idx w.outside).0;
            user_driven = user_driven;
            batch_transfer_idx = b;
            asset_id = some id;
          } in
          let d0 = rows (w.store) in
          let d1 = rows ((set_asset_transfer env user_driven b id w).1.store) in
          let g : Extends d0 d1 = record {
            batch_transfers = no_more _;
            asset_transfers = (new ∷ [], refl);
            transfers = no_more _;
            colorings = no_more _;
          } in
          record {
            grown = g;
            linked = Linked-grow d0 d1 g l tt tt (has, tt) ((λ _ _ _. (id, refl)), tt);
            result = λ i q.
                (Books-nil d0 b d1 refl, (new, Memᴰ-last new d0.asset_transfers, cc, refl, refl));
          })
        d

  pub set_batch_transfer-At :
      (d : DbData) (txid : String) (info : InfoBatchTransfer) (status : TransferStatus)
      → At d
          (set_batch_transfer env txid info status)
          λ b d'. Books d b [] d' × HasBatchTransfer d' b × IsSaved txid d'
  unfolding set_batch_transfer ◌>>=◌ ◌>>◌ ask writes pure
  set_batch_transfer-At d txid info status =
      at_tables {m = set_batch_transfer env txid info status} (λ _. Unit)
        (λ d b d'. Books d b [] d' × HasBatchTransfer d' b × IsSaved txid d')
        (λ w _ l.
          let new : DbBatchTransfer = record {
            idx = (env.fresh_idx w.outside).0;
            txid = some txid;
            status = status;
            created_at = info.created_at;
            updated_at = info.created_at;
            expiration = info.expiration_timestamp;
            min_confirmations = info.min_confirmations;
            incoming = false;
          } in
          let d0 = rows (w.store) in
          let d1 = rows ((set_batch_transfer env txid info status w).1.store) in
          let g : Extends d0 d1 = record {
            batch_transfers = (new ∷ [], refl);
            asset_transfers = no_more _;
            transfers = no_more _;
            colorings = no_more _;
          } in
          record {
            grown = g;
            linked = Linked-grow d0 d1 g l tt tt tt tt;
            result = λ b q. (
              Books-nil d0 b d1 refl,
              find-last _ (w.store.tables.batch_transfers) new (ground (arith, q)),
              any-last (is_sent_by txid) (w.store.tables.batch_transfers) new
                  (rw ((eq_iff txid txid).1 refl) refl),
            );
          })
        d tt

-- two calls that add colorings, one after the other
pub >>=-Books :
    {S A B : Type 0} {d : DbData} {b : ℕ} {es fs : List Entry} {m : Action S A} {f : A → Action S B}
    → At d m (λ _. Books d b es)
    → ((a : A) (d1 : DbData) → Extends d d1 → At d1 (f a) (λ _. Books d1 b fs))
    → At d (m >>= f) (λ _. Books d b (es ++ fs))
>>=-Books {d} {b} {es} {fs} h k =
    >>=-At h λ a d1 g q. At-imp (k a d1 g) λ c d2 g' q'. Books-trans d d1 d2 b es fs q g' q'

pub pure-Books :
    {S A : Type 0} (d : DbData) (b : ℕ) (a : A) → At d (pure {S = S} a) (λ _. Books d b [])
pure-Books d b a =
    At-imp (Leaves-At d (pure-Quiet a))
      λ _ d' g e. Books-nil d b d' (ap (λ (x : DbData). x.colorings) e)

pub abort-Books :
    {S A : Type 0} (d : DbData) (b : ℕ) (es : List Entry)
    → At d (abort {S = S} {A = A}) (λ _. Books d b es)
unfolding abort
abort-Books d b es = record {
  after = λ w e l. record {
    grown = rw e (Extends-refl d);
    linked = rw e l;
    result = λ a q. absurd (cc);
  };
}
