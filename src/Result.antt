-- ===== src/Result.antt =====
-- The outcome of a call: a value, an error of src/error.rs, or a panic (`expect`, `unwrap`, an
-- overflow under `overflow-checks`). The errors are those that the modelled code raises or tells
-- apart; `other` stands for those that it only passes on.
use rgb_lib.Prelude.{ℕ, String, ◌≡◌, refl, Option, none, some, List, [], ◌∷◌}
use rgb_lib.Assignment.{AssignmentsCollection}

pub data Error : Type 0 where
  asset_not_found : String → Error
  batch_transfer_not_found : ℕ → Error
  cannot_combine_psbts : Error
  cannot_delete_batch_transfer : Error
  cannot_fail_batch_transfer : Error
  cannot_provide_out_of_band_ack : Error
  failed_broadcast : Error
  insufficient_allocation_slots : Error
  insufficient_assignments : String → AssignmentsCollection → Error
  internal : Error
  invalid_psbt : Error
  invalid_amount_zero : Error
  max_fee_exceeded : String → Error
  min_fee_not_met : String → Error
  multisig_cannot_respond_to_operation : Error
  multisig_operation_not_found : ℕ → Error
  multisig_transfer_status_mismatch : Error
  multisig_unexpected_data : Error
  multisig_user_not_cosigner : Error
  network : Error
  no_consignment : Error
  no_issuance_amounts : Error
  too_high_inflation_amounts : Error
  too_high_issuance_amounts : Error
  other : ℕ → Error

pub data Result {ℓ} (Value : Type ℓ) : Type ℓ where
  panic : Result Value
  err : Error → Result Value
  ok : Value → Result Value

-- `expect`, `unwrap` on an option
abbrev pub expect {ℓ} : {Value : Type ℓ} → Option Value → Result Value
expect none = panic
expect (some v) = ok v

-- `ok_or`
abbrev pub ok_or {ℓ} : {Value : Type ℓ} → Option Value → Error → Result Value
ok_or none reason = err reason
ok_or (some v) reason = ok v

-- `?` and a panic both end the call
infixl 5 ◌>>=◌
abbrev pub ◌>>=◌ {ℓ ℓ'} :
    {Value : Type ℓ} {Next : Type ℓ'} → Result Value → (Value → Result Next) → Result Next
panic >>= next = panic
err reason >>= next = err reason
ok v >>= next = next v

-- `iter().map(f).collect()`, in order, up to the first failure
unfoldable pub traverse {ℓ κ} :
    {A : Type ℓ} {B : Type κ} → (A → Result B) → List A → Result (List B)
traverse f [] = ok []
traverse f (x ∷ xs) = f x >>= λ y. traverse f xs >>= λ ys. ok (y ∷ ys)

-- a call that returns has passed each of its steps
pub >>=-eq-ok {ℓ ℓ'} :
    {Value : Type ℓ} {Next : Type ℓ'} (call : Result Value) (next : Value → Result Next) {n : Next}
    → (call >>= next) ≡ ok n
    → (v : Value) × (call ≡ ok v) × (next v ≡ ok n)
>>=-eq-ok panic next returned = cc
>>=-eq-ok (err reason) next returned = cc
>>=-eq-ok (ok v) next returned = (v, refl, returned)

pub ok_injective {ℓ} : {Value : Type ℓ} {v w : Value} → ok v ≡ ok w → v ≡ w
ok_injective h = cc

-- `expect` that returns had a value
pub expect-eq-ok {ℓ} : {A : Type ℓ} (o : Option A) {a : A} → expect o ≡ ok a → o ≡ some a
expect-eq-ok none h = absurd (cc)
expect-eq-ok (some x) h = cc
