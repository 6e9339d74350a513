-- ===== src/Multisig/Advance.antt =====
-- What `process_operation` of src/wallet/multisig.rs, and what a synchronisation does with an operation
-- of the hub, does to the index of the last processed operation.
use rgb_lib.Prelude.{ℕ, ◌≡◌, refl, ◌∙◌, subst, ◌⊎◌, inl, ◌&&◌, List, Option, some}
use rgb_lib.Status.{AssetSchema}
use rgb_lib.Result.{Result, ok, err, panic, ok_injective}
use rgb_lib.Services.{Services}
use rgb_lib.Multisig.{
  OperationStatus, pending, approved, discarded, OperationResponse, OperationInfo,
}
use rgb_lib.Multisig.Process.{Wallet, Process, Hub, follow, give, ◌>>=◌, ◌>>◌}
use rgb_lib.Multisig.Handlers.{process_operation}
use rgb_lib.Multisig.Sync.{
  is_approved, is_issue, moves_assets, drop_error, refresh_transfers, ignore_error, refresh_after,
  process_next,
}
use rgb_lib.Multisig.Marks.{
  Keeps, keeping, >>=-Keeps, give-Keeps, if-Keeps, >>-Keeps, in_transaction-Keeps, Marks->>=-Keeps,
}
use rgb_lib.Multisig.Order.{Handled, process_operation-Handled}

-- the index after an operation with this status and index
abbrev pub index_after : OperationStatus → ℕ → Option ℕ → Option ℕ
index_after pending i last = last
index_after approved i last = some i
index_after discarded i last = some i

-- what a call that handles an operation does to the index
abbrev pub Advances : {S A : Type 0} → OperationStatus → ℕ → Option ℕ → Result A × Wallet S → Type 0
Advances {A} status i last o =
    ((a : A) → o.0 ≡ ok a → o.1.last_processed ≡ index_after status i last)
    × ((o.1.last_processed ≡ last) ⊎ (o.1.last_processed ≡ index_after status i last))

pub Handled-Advances :
    {S A : Type 0} (status : OperationStatus) (i : ℕ) (m : Process S A) (w : Wallet S)
    → Handled status i m
    → Advances status i w.last_processed (m w)
Handled-Advances pending i m w h = ((λ a e. h.same w), inl (h.same w))
Handled-Advances approved i m w h = (h.marks w, h.either w)
Handled-Advances discarded i m w h = (h.marks w, h.either w)

-- Where `process_operation` returns, the index of the last processed operation is that of the
-- operation, if it was approved or discarded, and as it was, if it is pending; where it does not
-- return, the index is one of these two.
pub process_operation-Advances :
    {S : Type 0} (hub : Hub S) (op : OperationResponse) (w : Wallet S)
    → Advances op.status op.operation_idx w.last_processed (process_operation hub op w)
process_operation-Advances hub op w =
    Handled-Advances op.status op.operation_idx (process_operation hub op) w
      (process_operation-Handled hub op)

Handled-then :
    {S A B : Type 0} (status : OperationStatus) (i : ℕ) (m : Process S A) (f : A → Process S B)
    → Handled status i m
    → ((a : A) → Keeps (f a))
    → Handled status i (m >>= f)
Handled-then pending i m f h k = >>=-Keeps h k
Handled-then approved i m f h k = Marks->>=-Keeps h k
Handled-then discarded i m f h k = Marks->>=-Keeps h k

abbrev pub ShownAs : ℕ → Option OperationInfo → Type 0
ShownAs i o = (info : OperationInfo) × (o ≡ some info) × (info.operation_idx ≡ i)

module _ {S : Type 0} where
  -- what a call returns where it returns
  abbrev pub Yields : {A : Type 0} → (A → Type 0) → Process S A → Type 0
  Yields {A} P m = (w : Wallet S) (a : A) → (m w).0 ≡ ok a → P a

  follow-Yields :
      {A B : Type 0} (P : B → Type 0) (r : Result A) (w : Wallet S) (f : A → Process S B) (b : B)
      → ((a : A) → Yields P (f a))
      → (follow (r, w) f).0 ≡ ok b
      → P b
  follow-Yields P (ok a) w f b h e = h a w b e
  follow-Yields P (err x) w f b h e = absurd (cc)
  follow-Yields P panic w f b h e = absurd (cc)

  >>=-Yields :
      {A B : Type 0} (P : B → Type 0) (m : Process S A) (f : A → Process S B)
      → ((a : A) → Yields P (f a))
      → Yields P (m >>= f)
  unfolding ◌>>=◌
  >>=-Yields P m f h w b e = follow-Yields P ((m w).0) ((m w).1) f b h e

  give-Yields : {A : Type 0} (P : A → Type 0) (a : A) → P a → Yields P (give a)
  unfolding give
  give-Yields P a p w b e = subst P (ok_injective e) p

module _ {S : Type 0} (env : Services S) (schemas : List AssetSchema) (hub : Hub S) where
  pub refresh_transfers-Keeps : Keeps (refresh_transfers env schemas hub)
  refresh_transfers-Keeps = search keeping

  ignored-same :
      (r : Result (Unit {0})) (w : Wallet S)
      → (drop_error (r, w)).1.last_processed ≡ w.last_processed
  ignored-same (ok a) w = refl
  ignored-same (err e) w = refl
  ignored-same panic w = refl

  ignore_error-Keeps : (m : Process S (Unit {0})) → Keeps m → Keeps (ignore_error env schemas hub m)
  ignore_error-Keeps m h = record { same = λ w. ignored-same ((m w).0) ((m w).1) ∙ h.same w }

  refresh_after-Keeps : (op : OperationResponse) → Keeps (refresh_after env schemas hub op)
  unfolding refresh_after
  refresh_after-Keeps op =
      if-Keeps (is_approved op.status && moves_assets op.operation_type)
        (>>-Keeps (in_transaction-Keeps refresh_transfers-Keeps) (
          if-Keeps (is_issue op.operation_type) (give-Keeps tt)
            (in_transaction-Keeps (ignore_error-Keeps _ refresh_transfers-Keeps))))
        (give-Keeps tt)

  pub process_next-Handled :
      (op : OperationResponse)
      → Handled op.status op.operation_idx (process_next env schemas hub op)
  unfolding process_next
  process_next-Handled op =
      Handled-then op.status op.operation_idx (process_operation hub op) _
        (process_operation-Handled hub op)
        λ operation. >>-Keeps (refresh_after-Keeps op) (search keeping)

  pub process_next-Yields :
      (op : OperationResponse) → Yields (ShownAs op.operation_idx) (process_next env schemas hub op)
  unfolding process_next ◌>>◌
  process_next-Yields op =
      >>=-Yields (ShownAs op.operation_idx) (process_operation hub op) _ λ operation.
        >>=-Yields (ShownAs op.operation_idx) (refresh_after env schemas hub op) _ λ _.
          >>=-Yields (ShownAs op.operation_idx) _ _
            λ _. give-Yields (ShownAs op.operation_idx) _ (_, refl, refl)
