-- ===== src/Refresh/Visits/Once.antt =====
-- The invariant of a run over the rows `bs` of a table: those still to be visited are as they were.
use rgb_lib.Prelude.{
  ◌≡◌, refl, sym, subst, ap, ◌∙◌, ◌⊎◌, inl, inr, Bool, true, false, List, [], ◌∷◌, map, ◌==◌,
  ==_iff, if◌then◌else◌, arith, Bool-cases, All,
}
use rgb_lib.Prelude.Member.{All-imp}
use rgb_lib.Result.{Result, ok, err, panic}
use rgb_lib.Database.Rows.{DbBatchTransfer}
use rgb_lib.Database.Updates.{change_batch, set_txid}
use rgb_lib.Action.{Action, World, ◌>>=◌, continue_with}
use rgb_lib.Refresh.Quiet.{Quiet, batches}
use rgb_lib.Refresh.Moves.{Change, change_of}
use rgb_lib.Prelude.Member.{All-both}
use rgb_lib.Refresh.Visits.{Write, Visits, Stepped, Progress, has_key, IsOnly}

module _ (legal : DbBatchTransfer → Change) where
  -- the row `x` is now `y`
  abbrev pub Kept : List DbBatchTransfer → DbBatchTransfer → DbBatchTransfer → Type 0
  Kept bs x y = (y ≡ x) ⊎ ((has_key x.idx bs ≡ false) × Stepped legal x y)

  pub record Pending (start bs now : List DbBatchTransfer) : Type 0 where
    pub step : DbBatchTransfer → DbBatchTransfer
    pub rows : now ≡ map step start
    pub kept : All (λ x. Kept bs x (step x)) start

  map-map :
      (f g : DbBatchTransfer → DbBatchTransfer) (l : List DbBatchTransfer)
      → map f (map g l) ≡ map (λ x. f (g x)) l
  map-map f g [] = refl
  map-map f g (x ∷ l) = ap (λ r. f (g x) ∷ r) (map-map f g l)

  weaken :
      (b : DbBatchTransfer) (bs : List DbBatchTransfer) (x y : DbBatchTransfer)
      → Kept (b ∷ bs) x y
      → Kept bs x y
  weaken b bs x y (inl e) = inl e
  weaken b bs x y (inr h) = inr (ground (arith, h.0), h.1)

  pub Pending-weaken :
      {start now : List DbBatchTransfer} (b : DbBatchTransfer) (bs : List DbBatchTransfer)
      → Pending start (b ∷ bs) now
      → Pending start bs now
  Pending-weaken {start} b bs p = record {
    step = p.step;
    rows = p.rows;
    kept =
        All-imp (λ x. Kept (b ∷ bs) x (p.step x)) (λ x. Kept bs x (p.step x))
          (λ x. weaken b bs x (p.step x)) start p.kept;
  }

  pub Pending-end :
      {start now : List DbBatchTransfer} (bs : List DbBatchTransfer)
      → Pending start bs now
      → Pending start [] now
  Pending-end [] p = p
  Pending-end (b ∷ bs) p = Pending-end bs (Pending-weaken b bs p)

  module _ (b : DbBatchTransfer) {before after : List DbBatchTransfer}
      (w : Write (legal b) b.idx before after) where
    abbrev write : DbBatchTransfer → DbBatchTransfer
    write = change_batch w.now (change_of b.idx w.txid w.status)

    write_hit :
        (y : DbBatchTransfer)
        → (y.idx == b.idx) ≡ true
        → write y
          ≡ record y { txid = set_txid w.txid y.txid; status = w.status; updated_at = w.now }
    write_hit y h = rw h refl

    write_miss : (y : DbBatchTransfer) → (y.idx == b.idx) ≡ false → write y ≡ y
    write_miss y h = rw h refl

    -- a row under the write to `b`
    Kept-write :
        (bs : List DbBatchTransfer) (x y : DbBatchTransfer)
        → has_key b.idx bs ≡ false
        → (x.idx ≡ b.idx → x ≡ b)
        → Kept (b ∷ bs) x y
        → Kept bs x (write y)
    Kept-write bs x y fresh only (inl e) = elim (Bool-cases (x.idx == b.idx)) [
      | inl hit ↦
          let same : x ≡ b = only ((==_iff x.idx b.idx).0 hit) in
          let self : Kept bs b (write b) = inr (
            fresh,
            record {
              now = w.now;
              txid = w.txid;
              status = w.status;
              allowed = w.allowed;
              changed = write_hit b ((==_iff b.idx b.idx).1 refl);
            },
          ) in
          subst (λ z. Kept bs z (write y)) (sym same)
            (subst (λ z. Kept bs b (write z)) (sym (e ∙ same)) self)
      | inr miss ↦ inl (
          write_miss y (subst (λ (z : DbBatchTransfer). (z.idx == b.idx) ≡ false) (sym e) miss) ∙ e)
    ]
    Kept-write bs x y fresh only (inr h) =
        let key : y.idx ≡ x.idx = ap (λ (z : DbBatchTransfer). z.idx) h.1.changed in
        let other : (y.idx == b.idx) ≡ false = grind (arith, h.0, key) in
        inr (ground (arith, h.0), subst (λ z. Stepped legal x z) (sym (write_miss y other)) h.1)

    pub Pending-write :
        (bs start : List DbBatchTransfer)
        → has_key b.idx bs ≡ false
        → IsOnly start b
        → Pending start (b ∷ bs) before
        → Pending start bs after
    Pending-write bs start fresh only p = record {
      step = λ x. write (p.step x);
      rows = w.changed ∙ (ap (map write) p.rows ∙ map-map write p.step start);
      kept =
          All-both {P = λ x. x.idx ≡ b.idx → x ≡ b} {Q = λ x. Kept (b ∷ bs) x (p.step x)}
            {R = λ x. Kept bs x (write (p.step x))} (λ x o k. Kept-write bs x (p.step x) fresh o k)
            start only p.kept;
    }

  -- a run that goes on from a table where the rows `bs` are still to be visited
  pub record Runs {S A : Type 0} (start bs : List DbBatchTransfer) (m : Action S A) : Type 0 where
    pub ran : (w : World S) → Pending start bs (batches w) → Pending start [] (batches ((m w).1))

  pub Quiet-Runs :
      {S A : Type 0} (start bs : List DbBatchTransfer) {m : Action S A} → Quiet m → Runs start bs m
  Quiet-Runs start bs q = record {
    ran = λ w p. Pending-end bs (subst (Pending start bs) (sym (q.same w)) p);
  }

  continue-ran :
      {S A B : Type 0} (start bs : List DbBatchTransfer) (r : Result A) (w : World S)
      (f : A → Action S B)
      → ((a : A) → Runs start bs (f a))
      → Pending start bs (batches w)
      → Pending start [] (batches ((continue_with (r, w) f).1))
  continue-ran start bs (ok a) w f q p = (q a).ran w p
  continue-ran start bs (err e) w f q p = Pending-end bs p
  continue-ran start bs panic w f q p = Pending-end bs p

  pub >>=-Runs :
      {S A B : Type 0} (start : List DbBatchTransfer) (b : DbBatchTransfer)
      (bs : List DbBatchTransfer) (m : Action S A) (f : A → Action S B)
      → has_key b.idx bs ≡ false
      → IsOnly start b
      → Visits (legal b) b.idx m
      → ((a : A) → Runs start bs (f a))
      → Runs start (b ∷ bs) (m >>= f)
  unfolding ◌>>=◌
  >>=-Runs start b bs m f fresh only v q = record {
    ran = λ w p. continue-ran start bs ((m w).0) ((m w).1) f q (elim (v.visited w) [
      | inl e ↦ subst (Pending start bs) (sym e) (Pending-weaken b bs p)
      | inr wr ↦ Pending-write b wr bs start fresh only p
    ]);
  }

  continue-ends :
      {S A B : Type 0} (start : List DbBatchTransfer) (r : Result A) (w : World S)
      (f : A → Action S B)
      → ((a : A) → Quiet (f a))
      → Pending start [] (batches w)
      → Pending start [] (batches ((continue_with (r, w) f).1))
  continue-ends start (ok a) w f q p = subst (Pending start []) (sym ((q a).same w)) p
  continue-ends start (err e) w f q p = p
  continue-ends start panic w f q p = p

  pub Runs-then :
      {S A B : Type 0} (start bs : List DbBatchTransfer) (m : Action S A) (f : A → Action S B)
      → Runs start bs m
      → ((a : A) → Quiet (f a))
      → Runs start bs (m >>= f)
  unfolding ◌>>=◌
  Runs-then start bs m f h q = record {
    ran = λ w p. continue-ends start ((m w).0) ((m w).1) f q (h.ran w p);
  }

  pub Runs-skip :
      {S A : Type 0} (start : List DbBatchTransfer) (b : DbBatchTransfer)
      (bs : List DbBatchTransfer) (m : Action S A)
      → Runs start bs m
      → Runs start (b ∷ bs) m
  Runs-skip start b bs m h = record { ran = λ w p. h.ran w (Pending-weaken b bs p) }

  pub Runs-after :
      {S A B : Type 0} (start bs : List DbBatchTransfer) {m : Action S A} {f : A → Action S B}
      → Quiet m
      → ((a : A) → Runs start bs (f a))
      → Runs start bs (m >>= f)
  unfolding ◌>>=◌
  Runs-after start bs {m} {f} h q = record {
    ran = λ w p.
        continue-ran start bs ((m w).0) ((m w).1) f q (subst (Pending start bs) (sym (h.same w)) p);
  }

  pub if-Runs :
      {S A : Type 0} (start bs : List DbBatchTransfer) (c : Bool) {m k : Action S A}
      → Runs start bs m
      → Runs start bs k
      → Runs start bs (if c then m else k)
  if-Runs start bs true hm hk = hm
  if-Runs start bs false hm hk = hk

  pub Pending-start : (start bs : List DbBatchTransfer) → Pending start bs start
  Pending-start start bs = record { step = λ x. x; rows = map-id start; kept = same bs start }
    where
      map-id : (l : List DbBatchTransfer) → l ≡ map (λ x. x) l
      map-id [] = refl
      map-id (x ∷ l) = ap (λ r. x ∷ r) (map-id l)

      same : (bs l : List DbBatchTransfer) → All (λ x. Kept bs x x) l
      same bs [] = tt
      same bs (x ∷ l) = (inl refl, same bs l)

  pub Pending-Progress :
      {start now : List DbBatchTransfer} → Pending start [] now → Progress legal start now
  Pending-Progress {start} p = record {
    step = p.step;
    rows = p.rows;
    legal_steps =
        All-imp (λ x. Kept [] x (p.step x)) (λ x. (p.step x ≡ x) ⊎ Stepped legal x (p.step x))
          (λ x k. drop_key x (p.step x) k) start p.kept;
  }
    where
      drop_key : (x y : DbBatchTransfer) → Kept [] x y → (y ≡ x) ⊎ Stepped legal x y
      drop_key x y (inl e) = inl e
      drop_key x y (inr h) = inr h.1
