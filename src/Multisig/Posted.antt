-- ===== src/Multisig/Posted.antt =====
-- What `respond_to_operation` of src/wallet/multisig.rs has checked where it posts a response.
use rgb_lib.Prelude.{
  ℕ, String, ◌≡◌, ◌∙◌, refl, sym, subst, ap, ◌⊎◌, inl, inr, Bool, true, false, Option, none, some,
  find, ◌==◌, str_eq, if◌then◌else◌,
}
use rgb_lib.Result.{Result, Error, ok, err, panic, ok_injective, invalid_psbt}
use rgb_lib.Action.{World, Action, map_or}
use rgb_lib.Database.Rows.{is_some}
use rgb_lib.Multisig.{
  FileMetadata, OperationStatus, pending, approved, discarded, OperationResponse,
  RespondToOperation, ack, nack, operation_psbt,
}
use rgb_lib.Multisig.Process.{
  Wallet, Process, Hub, follow, give, fails, ◌>>=◌, ◌>>◌, of_result, call,
}
use rgb_lib.Multisig.Files.{type_is}
use rgb_lib.Multisig.Sync.{still_pending}
use rgb_lib.Multisig.Respond.{check_psbt, check_response, check_open, respond_to_operation}

-- A PSBT that is signed and of the transaction of the PSBT that the operation lists, as it is fetched
-- and read from the world `w`.
pub record Signed {S : Type 0} (hub : Hub S) (op : OperationResponse) (text : String) (w : World S)
    : Type 0 where
  pub psbt : String
  pub signatures : ℕ
  pub parsed : hub.parse_psbt text ≡ ok psbt
  pub counted : hub.signature_count psbt ≡ ok signatures
  pub some_signature : (signatures == 0) ≡ false
  pub file : FileMetadata
  pub listed : find (λ (f : FileMetadata). type_is f.type operation_psbt) op.files ≡ some file
  pub path : String
  pub fetched : (hub.get_or_download_file file w).0 ≡ ok path
  pub op_psbt : String
  pub read : (hub.read_psbt path ((hub.get_or_download_file file w).1)).0 ≡ ok op_psbt
  pub same_transaction : str_eq (hub.compute_txid op_psbt) (hub.compute_txid psbt) ≡ true

abbrev pub SignedFor :
    {S : Type 0} → Hub S → OperationResponse → RespondToOperation → World S → Type 0
SignedFor hub op (ack text) w = Signed hub op text w
SignedFor hub op nack w = Unit {0}

-- what allows a response
pub record Allowed {S : Type 0} (hub : Hub S) (idx : ℕ) (response : RespondToOperation)
    (w : World S) : Type 0 where
  pub op : OperationResponse
  pub cosigner : (hub.is_cosigner w).0 ≡ ok true
  pub found : (hub.get_operation_by_idx idx ((hub.is_cosigner w).1)).0 ≡ ok (some op)
  pub is_open : op.status ≡ pending
  pub unanswered : op.my_response ≡ none
  pub signed : SignedFor hub op response ((hub.get_operation_by_idx idx ((hub.is_cosigner w).1)).1)

abbrev pub with_post :
    {S : Type 0} → Hub S → (ℕ → RespondToOperation → Action S OperationResponse) → Hub S
with_post hub post = record hub { respond_to_operation = post }

still_pending-true : (s : OperationStatus) → still_pending s ≡ true → s ≡ pending
still_pending-true pending h = refl
still_pending-true approved h = absurd (cc)
still_pending-true discarded h = absurd (cc)

is_some-false : {A : Type 0} (o : Option A) → is_some o ≡ false → o ≡ none
is_some-false none h = refl
is_some-false (some a) h = absurd (cc)

map_or-ok :
    {A : Type 0} (o : Option A) (e : Error) (a : A) → map_or o (err e) ok ≡ ok a → o ≡ some a
map_or-ok none e a h = absurd (cc)
map_or-ok (some b) e a h = ap some (ok_injective h)

module _ {S : Type 0} where
  -- a call that returns has gone through its first part
  follow-ok :
      {A B : Type 0} (r : Result A) (w : Wallet S) (f : A → Process S B) (b : B)
      → (follow (r, w) f).0 ≡ ok b
      → (a : A) × (r ≡ ok a) × ((f a w).0 ≡ ok b)
  follow-ok (ok a) w f b e = (a, refl, e)
  follow-ok (err x) w f b e = absurd (cc)
  follow-ok panic w f b e = absurd (cc)

  >>=-ok :
      {A B : Type 0} (m : Process S A) (f : A → Process S B) {w : Wallet S} {b : B}
      → ((m >>= f) w).0 ≡ ok b
      → (a : A) × ((m w).0 ≡ ok a) × ((f a ((m w).1)).0 ≡ ok b)
  unfolding ◌>>=◌
  >>=-ok m f {w} {b} h = follow-ok ((m w).0) ((m w).1) f b h

  follow_same :
      {A B P : Type 0} (r : Result A) (w : Wallet S) (f g : A → Process S B)
      → ((a : A) → r ≡ ok a → P ⊎ (f a w ≡ g a w))
      → P ⊎ (follow (r, w) f ≡ follow (r, w) g)
  follow_same (ok a) w f g h = h a refl
  follow_same (err x) w f g h = inr refl
  follow_same panic w f g h = inr refl

  -- two calls that go the same way up to where something is reached
  >>=_same :
      {A B P : Type 0} (m m' : Process S A) (f g : A → Process S B) {w : Wallet S}
      → m w ≡ m' w
      → ((a : A) → (m' w).0 ≡ ok a → P ⊎ (f a ((m' w).1) ≡ g a ((m' w).1)))
      → P ⊎ ((m >>= f) w ≡ (m' >>= g) w)
  unfolding ◌>>=◌
  >>=_same {P = P} m m' f g {w = w} e h =
      subst (λ x. P ⊎ (follow x f ≡ follow (m' w) g)) (sym e)
        (follow_same ((m' w).0) ((m' w).1) f g h)

  guard-ok :
      (b : Bool) (e : Error) (w : Wallet S) (a : Unit {0})
      → ((if b then fails e else give {S = S} tt) w).0 ≡ ok a
      → b ≡ false
  unfolding give fails
  guard-ok true e w a h = absurd (cc)
  guard-ok false e w a h = refl

  test-ok :
      (b : Bool) (e : Error) (w : Wallet S) (a : Unit {0})
      → ((if b then give {S = S} tt else fails e) w).0 ≡ ok a
      → b ≡ true
  unfolding give fails
  test-ok true e w a h = refl
  test-ok false e w a h = absurd (cc)

  test_same :
      (b : Bool) (e : Error) (w : Wallet S) → ((if b then give {S = S} tt else fails e) w).1 ≡ w
  unfolding give fails
  test_same true e w = refl
  test_same false e w = refl

  guard_same :
      (b : Bool) (e : Error) (w : Wallet S) → ((if b then fails e else give {S = S} tt) w).1 ≡ w
  unfolding give fails
  guard_same true e w = refl
  guard_same false e w = refl

  tests_same :
      (b c : Bool) (e e' : Error) (w : Wallet S)
      → (((if b then give {S = S} tt else fails e) >> (if c then fails e' else give tt)) w).1 ≡ w
  unfolding ◌>>=◌ ◌>>◌ give fails
  tests_same true true e e' w = refl
  tests_same true false e e' w = refl
  tests_same false c e e' w = refl

  module _ (hub : Hub S) where
    check_open_same : (op : OperationResponse) (w : Wallet S) → (check_open hub op w).1 ≡ w
    unfolding check_open
    check_open_same op w = tests_same (still_pending op.status) (is_some op.my_response) _ _ w

    check_open-ok :
        (op : OperationResponse) (w : Wallet S) (a : Unit {0})
        → (check_open hub op w).0 ≡ ok a
        → (op.status ≡ pending) × (op.my_response ≡ none)
    unfolding check_open ◌>>◌
    check_open-ok op w a h =
        let (b, first, second) = >>=-ok _ _ h in
        (
          still_pending-true op.status (test-ok _ _ w b first),
          is_some-false op.my_response (guard-ok _ _ _ a second),
        )

    check_psbt-ok :
        (op : OperationResponse) (text : String) (w : Wallet S) (a : Unit {0})
        → (check_psbt hub op text w).0 ≡ ok a
        → Signed hub op text w.world
    unfolding check_psbt ◌>>◌ of_result call
    check_psbt-ok op text w a h =
        let (psbt, parsed, h1) = >>=-ok _ _ h in
        let (n, counted, h2) = >>=-ok _ _ h1 in
        let (u, tested, h3) = >>=-ok _ _ h2 in
        let (file, listed, h4) = >>=-ok _ _ h3 in
        let (path, at, h5) = >>=-ok _ _ h4 in
        let (op_psbt, read, h6) = >>=-ok _ _ h5 in
        let (fetched, got) =
          subst
            (λ (w' : Wallet S).
              ((hub.get_or_download_file file w'.world).0 ≡ ok path)
              × ((hub.read_psbt path ((hub.get_or_download_file file w'.world).1)).0 ≡ ok op_psbt))
            (guard_same (n == 0) invalid_psbt w) (at, read) in
        record {
          psbt = psbt;
          signatures = n;
          parsed = parsed;
          counted = counted;
          some_signature = guard-ok _ _ _ u tested;
          file = file;
          listed = map_or-ok _ _ _ listed;
          path = path;
          fetched = fetched;
          op_psbt = op_psbt;
          read = got;
          same_transaction = test-ok _ _ _ a h6;
        }

    check_response-ok :
        (op : OperationResponse) (response : RespondToOperation) (w : Wallet S) (a : Unit {0})
        → (check_response hub op response w).0 ≡ ok a
        → SignedFor hub op response w.world
    check_response-ok op (ack text) w a h = check_psbt-ok op text w a h
    check_response-ok op nack w a h = tt

    check_response_alone :
        (op : OperationResponse) (response : RespondToOperation) (w : Wallet S)
        (post : ℕ → RespondToOperation → Action S OperationResponse)
        → check_response (with_post hub post) op response w ≡ check_response hub op response w
    unfolding check_psbt
    check_response_alone op (ack text) w post = refl
    check_response_alone op nack w post = refl

-- Unless the wallet is a cosigner, the hub has an operation with the index, which is pending and not
-- answered by this wallet, and a PSBT that is sent along parses, is signed and is of the transaction
-- of the PSBT that is fetched for the first PSBT file of the operation, respond_to_operation posts
-- nothing: whatever the hub would do with a response, the outcome is the same.
pub respond_to_operation-Allowed :
    {S : Type 0} (hub : Hub S) (post : ℕ → RespondToOperation → Action S OperationResponse)
    (idx : ℕ) (response : RespondToOperation) (w : Wallet S)
    → Allowed hub idx response w.world
      ⊎ (respond_to_operation (with_post hub post) idx response w
          ≡ respond_to_operation hub idx response w)
unfolding respond_to_operation ◌>>◌ call of_result check_open
respond_to_operation-Allowed {S} hub post idx response w = >>=_same _ _ _ _ refl λ c asked.
    >>=_same _ _ _ _ refl λ u member. >>=_same _ _ _ _ refl λ o answer.
      >>=_same _ _ _ _ refl λ op found. >>=_same _ _ _ _ refl λ v opened.
        >>=_same _ _ _ _ (check_response_alone hub op response _ post) λ x checked.
          let (is_open, unanswered) = check_open-ok hub op _ v opened in
          inl (record {
            op = op;
            cosigner = asked ∙ ap ok (test-ok c _ _ u member);
            found =
                subst (λ (w' : Wallet S). (hub.get_operation_by_idx idx w'.world).0 ≡ ok (some op))
                  (test_same c _ _) (answer ∙ ap ok (map_or-ok o _ op found));
            is_open = is_open;
            unanswered = unanswered;
            signed =
                subst
                  (λ (w' : Wallet S).
                    SignedFor hub op response ((hub.get_operation_by_idx idx w'.world).1))
                  (test_same c _ _)
                  (subst (λ (w' : Wallet S). SignedFor hub op response w'.world)
                    (check_open_same hub op _) (check_response-ok hub op response _ x checked));
          })
