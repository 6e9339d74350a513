-- ===== src/Services.antt =====
-- What the wallet asks of others: the clock, the indexer, the RGB proxy, the multisig hub, the BDK
-- wallet, the file system and the RGB library. Each is a parameter, a function on the state `S` of all
-- that is outside the database; an answer may depend on all that happened before.
use rgb_lib.Prelude.{ℕ, String, Bool, List, Option}
use rgb_lib.Prelude.Int.{ℤ}
use rgb_lib.Status.{AssetSchema}
use rgb_lib.Result.{Result, Error}
use rgb_lib.Database.Rows.{Outpoint}
use rgb_lib.Action.{DbAsset}

-- a Bitcoin transaction: what the code reads of it
pub record Tx : Type 0 where
  pub txid : String
  pub inputs : List Outpoint
  pub output_scripts : List String
  -- every input has a witness or a script, and there is one
  pub signed : Bool

-- the indexer's answer to a broadcast; `message` is the text of its error
pub data BroadcastReply : Type 0 where
  accepted : BroadcastReply
  rejected_electrum : String → BroadcastReply
  rejected_esplora : String → BroadcastReply
  rejected_otherwise : BroadcastReply

-- the proxy's answer to an ACK or a NACK
pub data PostReply : Type 0 where
  posted : PostReply
  cannot_change_ack : PostReply
  post_failed : Error → PostReply

pub record ConsignmentReply : Type 0 where
  pub consignment : String
  pub txid : String
  pub vout : Option ℕ

-- `ReceivedConsignmentMeta`
pub record ConsignmentMeta : Type 0 where
  pub txid : String
  pub vout : Option ℕ

-- an output of the BDK wallet
pub record BdkOutput : Type 0 where
  pub outpoint : Outpoint
  pub sats : String
  pub script : String
  pub external : Bool
  pub is_spent : Bool

-- Outputs of a state transition, as the RGB library shows them. A seal is its text.
pub data Assign : Type 0 where
  confidential : String → Assign
  revealed_witness : ℕ → Assign
  revealed_elsewhere : Assign

pub record FungibleAssign : Type 0 where
  pub assign : Assign
  pub amount : ℕ

pub record TypedAssigns : Type 0 where
  pub ass_type : ℕ
  pub fungible : List FungibleAssign
  pub structured : List Assign

pub record KnownTransition : Type 0 where
  pub opid : String
  pub assignments : List TypedAssigns

pub record WitnessBundle : Type 0 where
  pub witness_id : String
  pub known_transitions : List KnownTransition
  pub witness_tx : Option Tx

pub record Opout : Type 0 where
  pub op : String
  pub ty : ℕ
  pub index : ℕ

-- The graph of the outputs that a consignment builds on: where an output stands in it, which output
-- stands at a node, and the parents of a node.
pub record OpoutsDag : Type 0 where
  pub index : Opout → Option ℕ
  pub label : ℕ → Opout
  pub parents : ℕ → List ℕ
  pub size : ℕ

-- a consignment file, and one that was validated
pub record Consignment : Type 0 where
  pub contract_id : String
  pub bundles : List WitnessBundle

pub record ValidConsignment : Type 0 where
  pub consignment : Consignment
  -- the validity is `Warnings`
  pub has_warnings : Bool
  -- the TXIDs of all `UnsafeHistory` warnings, in the order in which they are gone through
  pub unsafe_history : List String
  -- of an IFA contract
  pub reject_list_url : Option String
  -- digests: of the media of the contract terms, of the token, of its attachments
  pub terms_media : Option String
  pub token_media : Option String
  pub token_attachments : List String
  pub dag : OpoutsDag

pub data Validation : Type 0 where
  valid : ValidConsignment → Validation
  invalid : Validation
  resolver_error : Validation

abbrev pub Ask : Type 0 → Type 0 → Type 0
Ask S A = S → A × S

abbrev pub Request : Type 0 → Type 0 → Type 0
Request S A = S → Result A × S

pub record Services (S : Type 0) : Type 0 where
  pub now : Ask S ℤ
  -- the key of a new row
  pub fresh_idx : Ask S ℕ
  -- the hub: a transfer's `accepted` status if it has one, setting it, and `check_is_cosigner`
  pub get_transfer_status : ℕ → Request S (Option Bool)
  pub set_transfer_status : ℕ → Bool → Request S (Unit {0})
  pub check_is_cosigner : Request S (Unit {0})
  -- the proxy, by its URL and a recipient ID
  pub proxy_client : String → Request S (Unit {0})
  pub get_ack : String → String → Request S (Option Bool)
  pub post_ack : String → String → Bool → Ask S PostReply
  -- `none` for an error of the call
  pub get_consignment : String → String → Ask S (Option (Option ConsignmentReply))
  -- the indexer and the resolver
  pub broadcast : Tx → Ask S BroadcastReply
  pub get_tx_confirmations : String → Request S (Option ℕ)
  pub get_latest_block_height : Request S ℕ
  pub resolve_witness_height : String → Request S (Option ℕ)
  -- the BDK wallet
  pub sync_colored : Request S (Unit {0})
  pub apply_unconfirmed_tx : Tx → Request S (Unit {0})
  pub list_output : Ask S (List BdkOutput)
  -- files of an outgoing transfer, by its TXID
  pub load_signed_psbt : String → Request S (Unit {0})
  pub extract_tx : String → Request S Tx
  pub load_fascia : String → Request S (Unit {0})
  pub consume_fascia : String → Request S (Unit {0})
  -- files of a receive, by its recipient ID; base64; saving and loading
  pub read_consignment_meta : String → Ask S (Option ConsignmentMeta)
  pub decode_base64 : String → Option String
  pub write_consignment : String → String → Request S (Unit {0})
  pub write_consignment_meta : String → ConsignmentMeta → Request S (Unit {0})
  pub load_consignment : String → Ask S (Option Consignment)
  pub save_valid_consignment : String → ValidConsignment → Request S (Unit {0})
  pub load_valid_consignment : String → Request S ValidConsignment
  -- the RGB library
  pub rgb_runtime : Request S (Unit {0})
  pub schema : Consignment → Result AssetSchema
  pub is_txid : String → Bool
  pub validate : Consignment → String → ℕ → Ask S Validation
  pub accept_transfer : ValidConsignment → Request S (Unit {0})
  pub known_supply : ValidConsignment → Request S ℕ
  pub decimal : ℕ → String
  pub os_asset : ℕ
  pub os_inflation : ℕ
  pub parse_opout : String → Option Opout
  pub get_reject_list : String → Request S (List String)
  pub import_contract : ValidConsignment → Request S (Unit {0})
  -- `extract_asset_data`: the row of a new asset
  pub new_asset : ValidConsignment → Request S DbAsset
  -- media files, by their digests, and any other file
  pub media_exists : String → Ask S Bool
  pub get_media : String → String → Request S (Option String)
  pub write_media : String → String → Request S (Unit {0})
  pub remove_media : String → Request S (Unit {0})
  pub read_file : String → Request S String
  pub hash_bytes_hex : String → String
  -- the secret seal of a blinded recipient ID, the script of a witness recipient ID
  pub secret_seal : String → Option String
  pub recipient_script : String → Result (Option String)
  -- whether an invoice reads and names no transport
  pub no_transports : String → Bool
