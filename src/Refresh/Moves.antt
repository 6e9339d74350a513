-- ===== src/Refresh/Moves.antt =====
-- Calls that change at most one batch transfer, as their last step, and tell what they changed.
use rgb_lib.Prelude.{
  ℕ, String, ◌≡◌, refl, subst, ◌∙◌, ◌⊎◌, inl, inr, Bool, true, false, Option, none, some, List, [],
  ◌∷◌, map, find, ◌==◌, if◌then◌else◌, arith, Bool-cases,
}
use rgb_lib.Prelude.Int.{ℤ}
use rgb_lib.Status.{TransferStatus}
use rgb_lib.Result.{Result, Error, ok, err, panic, internal}
use rgb_lib.Database.Rows.{DbBatchTransfer}
use rgb_lib.Database.Updates.{BatchChange, with_tables, change_batch, update_batch_transfer}
use rgb_lib.Action.{
  Action, World, map_or, pure, raise, abort, ◌>>=◌, ◌>>◌, ask, reads, writes, map_err,
  continue_with, map_err_result,
}
use rgb_lib.Refresh.Quiet.{Quiet, batches}

-- a change of the batch transfer `i`
abbrev pub change_of : ℕ → Option String → TransferStatus → BatchChange
change_of i txid status = record { idx = i; txid = txid; status = status }

-- that no row is returned
abbrev pub IsNothing : Result (Option DbBatchTransfer) → Type 0
IsNothing (ok none) = Unit
IsNothing (ok (some b)) = ⊥
IsNothing (err e) = Unit
IsNothing panic = Unit

abbrev pub Change : Type 1
Change = Option String → TransferStatus → Type 0

-- a change by `P` was made, and the row is returned as it is now
pub record Move (P : Change) (i : ℕ) (before : List DbBatchTransfer)
    (r : Result (Option DbBatchTransfer)) (after : List DbBatchTransfer) : Type 0 where
  pub now : ℤ
  pub txid : Option String
  pub status : TransferStatus
  pub allowed : P txid status
  pub changed : after ≡ map (change_batch now (change_of i txid status)) before
  pub row : DbBatchTransfer
  pub returned : r ≡ ok (some row)
  pub found : find (λ (b : DbBatchTransfer). b.idx == i) after ≡ some row

abbrev pub Moved :
    Change
    → ℕ
    → List DbBatchTransfer
    → Result (Option DbBatchTransfer)
    → List DbBatchTransfer
    → Type 0
Moved P i before r after = ((after ≡ before) × IsNothing r) ⊎ Move P i before r after

pub record Moves {S : Type 0} (P : Change) (i : ℕ) (m : Action S (Option DbBatchTransfer))
    : Type 0 where
  pub moved : (w : World S) → Moved P i (batches w) ((m w).0) (batches ((m w).1))

-- a row that is not found in the changed table is not in the table
find-change_none :
    (now : ℤ) (u : BatchChange) (l : List DbBatchTransfer)
    → find (λ (b : DbBatchTransfer). b.idx == u.idx) (map (change_batch now u) l) ≡ none
    → map (change_batch now u) l ≡ l
find-change_none now u [] h = refl
find-change_none now u (b ∷ l) h = elim (Bool-cases (b.idx == u.idx)) [
  | inl hit ↦ absurd (ground (arith, hit, h))
  | inr miss ↦ ground (arith, miss, h, find-change_none now u l)
]

-- the world after an update
abbrev after_update : {S : Type 0} → (S → ℤ × S) → BatchChange → World S → World S
after_update now u w = record {
  store =
      with_tables
        (λ d. record d {
          batch_transfers = map (change_batch ((now w.outside).0) u) d.batch_transfers;
        })
        w.store;
  outside = (now w.outside).1;
}

-- how an update ends: with the row, or with an error where there is none
abbrev answer : {S : Type 0} → Option DbBatchTransfer → Action S DbBatchTransfer
answer o = map_or o (raise internal) pure

module _ {S : Type 0} {P : Change} {i : ℕ} where
  pub none-Moves : Moves {S = S} P i (pure none)
  unfolding pure
  none-Moves = record { moved = λ w. inl (refl, tt) }

  pub raise-Moves : (e : Error) → Moves {S = S} P i (raise e)
  unfolding raise
  raise-Moves e = record { moved = λ w. inl (refl, tt) }

  pub abort-Moves : Moves {S = S} P i abort
  unfolding abort
  abort-Moves = record { moved = λ w. inl (refl, tt) }

  continue-Moved :
      {A : Type 0} (r : Result A) (w w' : World S) (f : A → Action S (Option DbBatchTransfer))
      → batches w' ≡ batches w
      → ((a : A) → Moves P i (f a))
      → Moved P i (batches w) ((continue_with (r, w') f).0) (batches ((continue_with (r, w') f).1))
  continue-Moved (ok a) w w' f h q =
      subst (λ l. Moved P i l ((f a w').0) (batches ((f a w').1))) h ((q a).moved w')
  continue-Moved (err e) w w' f h q = inl (h, tt)
  continue-Moved panic w w' f h q = inl (h, tt)

  pub >>=-Moves :
      {A : Type 0} {m : Action S A} {f : A → Action S (Option DbBatchTransfer)}
      → Quiet m
      → ((a : A) → Moves P i (f a))
      → Moves P i (m >>= f)
  unfolding ◌>>=◌
  >>=-Moves {A} {m} {f} qm qf = record {
    moved = λ w. continue-Moved ((m w).0) w ((m w).1) f (qm.same w) qf;
  }

  pub >>-Moves :
      {A : Type 0} {m : Action S A} {k : Action S (Option DbBatchTransfer)}
      → Quiet m
      → Moves P i k
      → Moves P i (m >> k)
  unfolding ◌>>◌
  >>-Moves qm qk = >>=-Moves qm (λ _. qk)

  pub if-Moves :
      (c : Bool) {m k : Action S (Option DbBatchTransfer)}
      → Moves P i m
      → Moves P i k
      → Moves P i (if c then m else k)
  if-Moves true qm qk = qm
  if-Moves false qm qk = qk

  answer-Moved :
      (now : ℤ) (txid : Option String) (status : TransferStatus) (before : List DbBatchTransfer)
      (w : World S) (o : Option DbBatchTransfer)
      → P txid status
      → batches w ≡ map (change_batch now (change_of i txid status)) before
      → find (λ (b : DbBatchTransfer). b.idx == i) (batches w) ≡ o
      → Moved P i before
          (((answer o >>= λ b. pure (some b)) w).0)
          (batches (((answer o >>= λ b. pure (some b)) w).1))
  unfolding ◌>>=◌ pure raise
  answer-Moved now txid status before w (some b) p changed found = inr (record {
    now = now;
    txid = txid;
    status = status;
    allowed = p;
    changed = changed;
    row = b;
    returned = refl;
    found = found;
  })
  answer-Moved now txid status before w none p changed found = inl (
    changed
        ∙ find-change_none now (change_of i txid status) before
            (subst (λ l. find (λ (b : DbBatchTransfer). b.idx == i) l ≡ none) changed found),
    tt,
  )

  pub map_or-Moves :
      {A : Type 0} (o : Option A) {m : Action S (Option DbBatchTransfer)}
      {f : A → Action S (Option DbBatchTransfer)}
      → Moves P i m
      → ((a : A) → Moves P i (f a))
      → Moves P i (map_or o m f)
  map_or-Moves none qm qf = qm
  map_or-Moves (some a) qm qf = qf a

  pub if_true-Moves :
      (c : Bool) {m : Action S (Option DbBatchTransfer)}
      → (c ≡ true → Moves P i m)
      → Moves P i (if c then m else pure none)
  if_true-Moves true qm = qm refl
  if_true-Moves false qm = none-Moves

  pub if_cases-Moves :
      (c : Bool) {m k : Action S (Option DbBatchTransfer)}
      → (c ≡ true → Moves P i m)
      → (c ≡ false → Moves P i k)
      → Moves P i (if c then m else k)
  if_cases-Moves true qm qk = qm refl
  if_cases-Moves false qm qk = qk refl

  pub update-Moves :
      (now : S → ℤ × S) (txid : Option String) (status : TransferStatus)
      → P txid status
      → Moves P i (update_batch_transfer now (change_of i txid status) >>= λ b. pure (some b))
  unfolding update_batch_transfer ◌>>=◌ ◌>>◌ ask reads writes
  update-Moves now txid status p = record {
    moved = λ w.
        answer-Moved ((now w.outside).0) txid status (batches w)
          (after_update now (change_of i txid status) w)
          (find (λ (b : DbBatchTransfer). b.idx == i)
            (batches (after_update now (change_of i txid status) w)))
          p refl refl;
  }

  -- a bind on the left, and a call whose error is renamed
  nested-Moved :
      {A B : Type 0} (before : List DbBatchTransfer) (r : Result A) (w : World S) (k : Action S B)
      (f : B → Action S (Option DbBatchTransfer))
      → Moved P i before
          ((continue_with (r, w) (λ _. k >>= f)).0)
          (batches ((continue_with (r, w) (λ _. k >>= f)).1))
      → Moved P i before
          ((continue_with (continue_with (r, w) (λ _. k)) f).0)
          (batches ((continue_with (continue_with (r, w) (λ _. k)) f).1))
  unfolding ◌>>=◌
  nested-Moved before (ok a) w k f h = h
  nested-Moved before (err e) w k f h = h
  nested-Moved before panic w k f h = h

  pub nested-Moves :
      {A B : Type 0} (m : Action S A) (k : Action S B) (f : B → Action S (Option DbBatchTransfer))
      → Moves P i (m >> (k >>= f))
      → Moves P i ((m >> k) >>= f)
  unfolding ◌>>=◌ ◌>>◌
  nested-Moves m k f h = record {
    moved = λ w. nested-Moved (batches w) ((m w).0) ((m w).1) k f (h.moved w);
  }

  renamed-Moved :
      {A : Type 0} (before : List DbBatchTransfer) (g : Error → Error) (r : Result A) (w : World S)
      (f : A → Action S (Option DbBatchTransfer))
      → Moved P i before ((continue_with (r, w) f).0) (batches ((continue_with (r, w) f).1))
      → Moved P i before
          ((continue_with (map_err_result g r, w) f).0)
          (batches ((continue_with (map_err_result g r, w) f).1))
  renamed-Moved before g (ok a) w f h = h
  renamed-Moved before g (err e) w f (inl h) = inl h
  renamed-Moved before g (err e) w f (inr h) = cc
  renamed-Moved before g panic w f h = h

  pub map_err-Moves :
      {A : Type 0} (g : Error → Error) (m : Action S A) (f : A → Action S (Option DbBatchTransfer))
      → Moves P i (m >>= f)
      → Moves P i (map_err g m >>= f)
  unfolding ◌>>=◌ map_err
  map_err-Moves g m f h = record {
    moved = λ w. renamed-Moved (batches w) g ((m w).0) ((m w).1) f (h.moved w);
  }

pub ruleset steps =
    (map_or-Moves, none-Moves, raise-Moves, abort-Moves, >>=-Moves, >>-Moves, if-Moves)
