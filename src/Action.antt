-- ===== src/Action.antt =====
-- A call inside a database transaction: it reads and writes the tables and asks the services, and it
-- keeps what it wrote when it fails. `outside` is the state of all that is not the database; what a
-- service does with it is a parameter.
use rgb_lib.Prelude.{ℕ, String, Bool, true, false, List, Option, none, some}
use rgb_lib.Status.{AssetSchema}
use rgb_lib.Result.{Result, Error, ok, err, panic}
use rgb_lib.Database.Rows.{DbData}

-- a row of `transfer_transport_endpoint` with the `transport_endpoint` that it refers to
pub record DbTransferEndpoint : Type 0 where
  pub idx : ℕ
  pub transfer_idx : ℕ
  pub used : Bool
  pub endpoint : String

pub record DbTransportEndpoint : Type 0 where
  pub idx : ℕ
  pub endpoint : String

-- the columns of a row of `asset` that the modelled code reads
pub record DbAsset : Type 0 where
  pub id : String
  pub schema : AssetSchema
  pub known_circulating_supply : Option String
  pub reject_list_url : Option String

pub record Store : Type 0 where
  pub tables : DbData
  pub endpoints : List DbTransferEndpoint
  pub transport_endpoints : List DbTransportEndpoint
  pub assets : List DbAsset
  pub pending_witness_scripts : List String

pub record World (S : Type 0) : Type 0 where
  pub store : Store
  pub outside : S

abbrev pub Action : Type 0 → Type 0 → Type 0
Action S A = World S → Result A × World S

-- `map_or`, and a match on an option
abbrev pub map_or {ℓ κ} : {A : Type ℓ} {B : Type κ} → Option A → B → (A → B) → B
map_or none b f = b
map_or (some a) b f = f a

-- `is_ok`
abbrev pub is_ok : {A : Type 0} → Result A → Result Bool
is_ok (ok a) = ok true
is_ok (err e) = ok false
is_ok panic = panic

abbrev pub map_err_result : {A : Type 0} → (Error → Error) → Result A → Result A
map_err_result f (ok a) = ok a
map_err_result f (err e) = err (f e)
map_err_result f panic = panic

module _ {S : Type 0} where
  unfoldable pub pure : {A : Type 0} → A → Action S A
  pure a w = (ok a, w)

  unfoldable pub raise : {A : Type 0} → Error → Action S A
  raise e w = (err e, w)

  -- `expect`, `unwrap` or `unreachable!` that is reached
  unfoldable pub abort : {A : Type 0} → Action S A
  abort w = (panic, w)

  abbrev pub continue_with :
      {A B : Type 0} → Result A × World S → (A → Action S B) → Result B × World S
  continue_with (ok a, w) f = f a w
  continue_with (err e, w) f = (err e, w)
  continue_with (panic, w) f = (panic, w)

  infixl 5 ◌>>=◌ ◌>>◌
  unfoldable pub ◌>>=◌ : {A B : Type 0} → Action S A → (A → Action S B) → Action S B
  ◌>>=◌ m f w = continue_with (m w) f

  unfoldable pub ◌>>◌ : {A B : Type 0} → Action S A → Action S B → Action S B
  m >> k = m >>= λ _. k

  -- a service that always answers, and one that may fail
  unfoldable pub ask : {A : Type 0} → (S → A × S) → Action S A
  ask f w = let (a, s) = f w.outside in (ok a, record w { outside = s })

  unfoldable pub request : {A : Type 0} → (S → Result A × S) → Action S A
  request f w = let (r, s) = f w.outside in (r, record w { outside = s })

  unfoldable pub reads : {A : Type 0} → (Store → A) → Action S A
  reads f w = (ok (f w.store), w)

  unfoldable pub writes : (Store → Store) → Action S (Unit {0})
  writes f w = (ok tt, record w { store = f w.store })

  unfoldable pub map_err : {A : Type 0} → (Error → Error) → Action S A → Action S A
  map_err f m w = let (r, w') = m w in (map_err_result f r, w')

  unfoldable pub lift : {A : Type 0} → Result A → Action S A
  lift r w = (r, w)

  unfoldable pub unwrap : {A : Type 0} → Option A → Action S A
  unwrap none = abort
  unwrap (some a) = pure a

  unfoldable pub succeeds : {A : Type 0} → (S → Result A × S) → Action S Bool
  succeeds f = request λ s. let (r, s') = f s in (is_ok r, s')
