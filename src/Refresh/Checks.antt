-- ===== src/Refresh/Checks.antt =====
-- The checks of a received consignment, up to its reject list: the first part of
-- `validate_received_consignment` of src/wallet/online.rs, `receive_matcher` of src/wallet/objects.rs
-- and `uses_out_of_band_exchange` of src/database/mod.rs.
use rgb_lib.Prelude.{
  ℕ, zero, suc, String, Bool, true, false, not, ◌&&◌, List, [], ◌∷◌, map, Option, none, some, any,
  is_empty, ◌==◌, str_eq, if◌then◌else◌,
}
use rgb_lib.Status.{AssetSchema, nia, uda, cfa, ifa}
use rgb_lib.Result.{network}
use rgb_lib.Database.Rows.{
  RecipientTypeFull, blind, witness, DbAssetTransfer, DbBatchTransfer, DbTransfer,
}
use rgb_lib.Database.Updates.{get_asset}
use rgb_lib.Action.{Action, map_or, DbAsset, pure, raise, ◌>>=◌, ◌>>◌, ask, request, unwrap, lift}
use rgb_lib.Services.{
  Services, Tx, WitnessBundle, Consignment, ValidConsignment, Validation, valid, invalid,
  resolver_error,
}
use rgb_lib.Refresh.Hub.{WalletKind}
use rgb_lib.Refresh.Assignments.{Received, assignments_for_bundle}
use rgb_lib.Refresh.Rejects.{reject_and_allow, check_dag}
use rgb_lib.Refresh.Receiving.{last, is_ifa, safe_height}

-- `ReceiveMatcher`: a blinded seal, or the script of a witness output
pub data ReceiveMatcher : Type 0 where
  blind_seal : String → ReceiveMatcher
  witness_script : String → ReceiveMatcher

abbrev schema_repr : AssetSchema → ℕ
schema_repr nia = 0
schema_repr uda = 1
schema_repr cfa = 2
schema_repr ifa = 3

abbrev pub supports_schema : List AssetSchema → AssetSchema → Bool
supports_schema supported s = any (λ t. schema_repr t == schema_repr s) supported

-- whether the transfer is connected to another asset than the one received
abbrev pub other_asset : Option String → String → Bool
other_asset none received = false
other_asset (some asset_id) received = not (str_eq asset_id received)

-- the last bundle, if it is that of the transaction
abbrev pub anchored_bundle : String → Option WitnessBundle → Option WitnessBundle
anchored_bundle txid none = none
anchored_bundle txid (some b) = if str_eq b.witness_id txid then some b else none

-- `tx.output.get(vout)`
abbrev pub get {ℓ} : {A : Type ℓ} → List A → ℕ → Option A
get [] n = none
get (x ∷ l) zero = some x
get (x ∷ l) (suc n) = get l n

-- whether the output that the sender names pays the script
abbrev pub script_paid : String → Option ℕ → Option Tx → Bool
script_paid script none tx = false
script_paid script (some vout) none = false
script_paid script (some vout) (some tx) = elim (get tx.output_scripts vout) [
  | none ↦ false
  | some s ↦ str_eq s script
]

-- what `assignments_for_bundle` looks for, or `none` where the witness output is not that of the
-- recipient
abbrev pub known_concealed : ReceiveMatcher → Option ℕ → Option Tx → Option (Option String)
known_concealed (blind_seal seal) vout tx = some (some seal)
known_concealed (witness_script script) vout tx =
    if script_paid script vout tx then some none else none

-- A consignment that was found good, and what it pays. A step of the checks gives `none` where the
-- code refuses the consignment.
pub record Checked : Type 0 where
  pub valid : ValidConsignment
  pub schema : AssetSchema
  pub bundle : WitnessBundle
  pub receiving : Received

module _ {S : Type 0} (env : Services S) (kind : WalletKind)
    (supported_schemas : List AssetSchema) where
  infixl 5 ◌>>?◌
  abbrev pub ◌>>?◌ :
      {A B : Type 0} → Action S (Option A) → (A → Action S (Option B)) → Action S (Option B)
  m >>? f = m >>= λ found. map_or found (pure none) f

  abbrev pub uses_out_of_band_exchange : DbTransfer → Bool
  uses_out_of_band_exchange t = elim t.invoice_string [
    | none ↦ false
    | some s ↦ env.no_transports s
  ]

  abbrev pub matcher_of : String → RecipientTypeFull → Action S ReceiveMatcher
  matcher_of recipient_id (blind _) = do
    seal ← unwrap (env.secret_seal recipient_id)
    pure (blind_seal seal)
  matcher_of recipient_id (witness _) = do
    found ← lift (env.recipient_script recipient_id)
    script ← unwrap found
    pure (witness_script script)

  unfoldable pub receive_matcher : DbTransfer → Action S ReceiveMatcher
  receive_matcher t = do
    recipient_id ← unwrap t.recipient_id
    type ← unwrap t.recipient_type
    matcher_of recipient_id type

  -- the checks before the validation: the file, the schema, the asset and the TXID
  unfoldable pub load_received :
      DbAssetTransfer → String → String → Action S (Option (Consignment × AssetSchema))
  load_received asset_transfer recipient_id txid = do
    request env.rgb_runtime
    ask (env.load_consignment recipient_id) >>? λ consignment. do
      schema ← lift (env.schema consignment)
      pure (
          if supports_schema supported_schemas schema
            && (not (other_asset asset_transfer.asset_id consignment.contract_id)
                && env.is_txid txid)
          then some (consignment, schema)
          else none)

  abbrev pub validated : Validation → Action S (Option ValidConsignment)
  validated (valid c) = pure (some c)
  validated invalid = pure none
  validated resolver_error = raise network

  -- what the last bundle pays the recipient
  unfoldable pub find_receiving :
      DbTransfer → String → Option ℕ → Consignment → Action S (Option (WitnessBundle × Received))
  find_receiving transfer txid vout consignment =
      pure (anchored_bundle txid (last consignment.bundles)) >>? λ bundle. do
        matcher ← receive_matcher transfer
        pure (known_concealed matcher vout bundle.witness_tx) >>? λ known.
            (let receiving =
                assignments_for_bundle env.os_asset env.os_inflation vout known bundle in
              pure (if is_empty receiving then none else some (bundle, receiving)))

  abbrev pub url_of : Option DbAsset → ValidConsignment → Option String
  url_of (some asset) c = asset.reject_list_url
  url_of none c = c.reject_list_url

  unfoldable pub check_rejects : Option String → ValidConsignment → Received → Action S Bool
  check_rejects none c receiving = pure true
  check_rejects (some url) c receiving = do
    lines ← request (env.get_reject_list url)
    (let (reject_opouts, allow_opouts) = reject_and_allow env.parse_opout lines in
        do
          to_reject ← lift (check_dag c.dag reject_opouts allow_opouts (map (λ p. p.0) receiving))
          pure (is_empty to_reject))

  -- whether an IFA consignment is free of outputs that the issuer rejects
  unfoldable pub passes_reject_list : AssetSchema → ValidConsignment → Received → Action S Bool
  passes_reject_list schema c receiving = if not (is_ifa schema) then pure true else do
    asset ← get_asset c.consignment.contract_id
    check_rejects (url_of asset c) c receiving

  unfoldable pub check_received :
      DbBatchTransfer
      → DbAssetTransfer
      → DbTransfer
      → String
      → String
      → Option ℕ
      → Action S (Option Checked)
  check_received b asset_transfer transfer recipient_id txid vout =
      load_received asset_transfer recipient_id txid >>? λ loaded. do
        safe ← safe_height env kind b.min_confirmations
        answer ← ask (env.validate (loaded.0) txid safe)
        validated answer >>? λ c. find_receiving transfer txid vout (loaded.0) >>? λ found. do
          passes ← passes_reject_list (loaded.1) c (found.1)
          pure (
              if passes
              then some
                  (record { valid = c; schema = loaded.1; bundle = found.0; receiving = found.1 })
              else none)
