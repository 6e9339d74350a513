-- ===== src/Multisig/Marks.antt =====
-- Calls on a multisig wallet (src/wallet/multisig.rs) that leave the index of the last processed
-- operation, and calls that set it.
use rgb_lib.Prelude.{
  ℕ, ◌≡◌, refl, ◌∙◌, ◌⊎◌, inl, inr, Bool, true, false, Option, none, some, if◌then◌else◌,
}
use rgb_lib.Result.{Result, Error, ok, err, panic}
use rgb_lib.Action.{Action, map_or}
use rgb_lib.Multisig.Process.{
  Wallet, Process, follow, end_transaction, give, fails, ◌>>=◌, ◌>>◌, of_result, call,
  in_transaction, set_last_processed,
}

-- a call that leaves the index as it is, whatever its outcome
pub record Keeps {S A : Type 0} (m : Process S A) : Type 0 where
  pub same : (w : Wallet S) → (m w).1.last_processed ≡ w.last_processed

-- a call that, where it returns, has set the index, and that otherwise may have
pub record Marks {S A : Type 0} (i : ℕ) (m : Process S A) : Type 0 where
  pub marks : (w : Wallet S) (a : A) → (m w).0 ≡ ok a → (m w).1.last_processed ≡ some i
  pub either :
      (w : Wallet S)
      → ((m w).1.last_processed ≡ w.last_processed) ⊎ ((m w).1.last_processed ≡ some i)

module _ {S : Type 0} where
  pub give-Keeps : {A : Type 0} (a : A) → Keeps (give {S = S} a)
  unfolding give
  give-Keeps a = record { same = λ w. refl }

  pub fails-Keeps : {A : Type 0} (e : Error) → Keeps (fails {S = S} {A = A} e)
  unfolding fails
  fails-Keeps e = record { same = λ w. refl }

  pub of_result-Keeps : {A : Type 0} (r : Result A) → Keeps (of_result {S = S} r)
  unfolding of_result
  of_result-Keeps r = record { same = λ w. refl }

  pub call-Keeps : {A : Type 0} (m : Action S A) → Keeps (call m)
  unfolding call
  call-Keeps m = record { same = λ w. refl }

  follow-same :
      {A B : Type 0} (r : Result A) (w w' : Wallet S) (f : A → Process S B)
      → w'.last_processed ≡ w.last_processed
      → ((a : A) → Keeps (f a))
      → (follow (r, w') f).1.last_processed ≡ w.last_processed
  follow-same (ok a) w w' f h q = (q a).same w' ∙ h
  follow-same (err e) w w' f h q = h
  follow-same panic w w' f h q = h

  pub >>=-Keeps :
      {A B : Type 0} {m : Process S A} {f : A → Process S B}
      → Keeps m
      → ((a : A) → Keeps (f a))
      → Keeps (m >>= f)
  unfolding ◌>>=◌
  >>=-Keeps {A} {B} {m} {f} h q = record {
    same = λ w. follow-same ((m w).0) w ((m w).1) f (h.same w) q;
  }

  pub >>-Keeps :
      {A B : Type 0} {m : Process S A} {k : Process S B} → Keeps m → Keeps k → Keeps (m >> k)
  unfolding ◌>>◌
  >>-Keeps h q = >>=-Keeps h λ _. q

  pub if-Keeps :
      {A : Type 0} (c : Bool) {m k : Process S A} → Keeps m → Keeps k → Keeps (if c then m else k)
  if-Keeps true h q = h
  if-Keeps false h q = q

  pub map_or-Keeps :
      {A B : Type 0} (o : Option A) {m : Process S B} {f : A → Process S B}
      → Keeps m
      → ((a : A) → Keeps (f a))
      → Keeps (map_or o m f)
  map_or-Keeps none h q = h
  map_or-Keeps (some a) h q = q a

  ended-same :
      {A : Type 0} (r : Result A) (w w' : Wallet S)
      → w'.last_processed ≡ w.last_processed
      → (end_transaction w (r, w')).1.last_processed ≡ w.last_processed
  ended-same (ok a) w w' h = h
  ended-same (err e) w w' h = refl
  ended-same panic w w' h = refl

  pub in_transaction-Keeps : {A : Type 0} {m : Process S A} → Keeps m → Keeps (in_transaction m)
  unfolding in_transaction
  in_transaction-Keeps {A} {m} h = record {
    same = λ w. ended-same ((m w).0) w ((m w).1) (h.same w);
  }

pub ruleset keeping = (
  give-Keeps, fails-Keeps, of_result-Keeps, call-Keeps, >>=-Keeps, >>-Keeps, if-Keeps, map_or-Keeps,
  in_transaction-Keeps,
)

module _ {S : Type 0} {i : ℕ} where
  pub set_last_processed-Marks : Marks i (set_last_processed {S = S} i)
  unfolding set_last_processed
  set_last_processed-Marks = record { marks = λ w a h. refl; either = λ w. inr refl }

  pub fails-Marks : {A : Type 0} (e : Error) → Marks i (fails {S = S} {A = A} e)
  unfolding fails
  fails-Marks e = record { marks = λ w a h. absurd (cc); either = λ w. inl refl }

  -- first a call that leaves the index
  follow-Marks :
      {A B : Type 0} (r : Result A) (w w' : Wallet S) (f : A → Process S B)
      → w'.last_processed ≡ w.last_processed
      → ((a : A) → Marks i (f a))
      → ((b : B) → (follow (r, w') f).0 ≡ ok b → (follow (r, w') f).1.last_processed ≡ some i)
        × (((follow (r, w') f).1.last_processed ≡ w.last_processed)
            ⊎ ((follow (r, w') f).1.last_processed ≡ some i))
  follow-Marks (ok a) w w' f h q = ((q a).marks w', moved ((q a).either w'))
    where
      moved :
          {x : Option ℕ}
          → (x ≡ w'.last_processed) ⊎ (x ≡ some i)
          → (x ≡ w.last_processed) ⊎ (x ≡ some i)
      moved (inl e) = inl (e ∙ h)
      moved (inr e) = inr e
  follow-Marks (err e) w w' f h q = ((λ b x. absurd (cc)), inl h)
  follow-Marks panic w w' f h q = ((λ b x. absurd (cc)), inl h)

  pub Keeps->>=-Marks :
      {A B : Type 0} {m : Process S A} {f : A → Process S B}
      → Keeps m
      → ((a : A) → Marks i (f a))
      → Marks i (m >>= f)
  unfolding ◌>>=◌
  Keeps->>=-Marks {A} {B} {m} {f} h q = record {
    marks = λ w. (follow-Marks ((m w).0) w ((m w).1) f (h.same w) q).0;
    either = λ w. (follow-Marks ((m w).0) w ((m w).1) f (h.same w) q).1;
  }

  -- afterwards calls that leave it
  Marks-follow :
      {A B : Type 0} (r : Result A) (w w' : Wallet S) (f : A → Process S B)
      → ((a : A) → r ≡ ok a → w'.last_processed ≡ some i)
      → (w'.last_processed ≡ w.last_processed) ⊎ (w'.last_processed ≡ some i)
      → ((a : A) → Keeps (f a))
      → ((b : B) → (follow (r, w') f).0 ≡ ok b → (follow (r, w') f).1.last_processed ≡ some i)
        × (((follow (r, w') f).1.last_processed ≡ w.last_processed)
            ⊎ ((follow (r, w') f).1.last_processed ≡ some i))
  Marks-follow (ok a) w w' f h e q = let set = (q a).same w' ∙ h a refl in ((λ b x. set), inr set)
  Marks-follow (err x) w w' f h e q = ((λ b y. absurd (cc)), e)
  Marks-follow panic w w' f h e q = ((λ b y. absurd (cc)), e)

  pub Marks->>=-Keeps :
      {A B : Type 0} {m : Process S A} {f : A → Process S B}
      → Marks i m
      → ((a : A) → Keeps (f a))
      → Marks i (m >>= f)
  unfolding ◌>>=◌
  Marks->>=-Keeps {A} {B} {m} {f} h q = record {
    marks = λ w. (Marks-follow ((m w).0) w ((m w).1) f (h.marks w) (h.either w) q).0;
    either = λ w. (Marks-follow ((m w).0) w ((m w).1) f (h.marks w) (h.either w) q).1;
  }

  ended-Marks :
      {A : Type 0} (r : Result A) (w w' : Wallet S)
      → ((a : A) → r ≡ ok a → w'.last_processed ≡ some i)
      → ((a : A)
          → (end_transaction w (r, w')).0 ≡ ok a
          → (end_transaction w (r, w')).1.last_processed ≡ some i)
        × (((end_transaction w (r, w')).1.last_processed ≡ w.last_processed)
            ⊎ ((end_transaction w (r, w')).1.last_processed ≡ some i))
  ended-Marks (ok a) w w' h = (h, inr (h a refl))
  ended-Marks (err e) w w' h = ((λ b x. absurd (cc)), inl refl)
  ended-Marks panic w w' h = ((λ b x. absurd (cc)), inl refl)

  pub in_transaction-Marks : {A : Type 0} {m : Process S A} → Marks i m → Marks i (in_transaction m)
  unfolding in_transaction
  in_transaction-Marks {A} {m} h = record {
    marks = λ w. (ended-Marks ((m w).0) w ((m w).1) (h.marks w)).0;
    either = λ w. (ended-Marks ((m w).0) w ((m w).1) (h.marks w)).1;
  }
