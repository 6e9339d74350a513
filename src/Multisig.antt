-- ===== src/Multisig.antt =====
-- Operations of a multisig wallet, as the hub gives them (src/api/multisig_hub.rs) and as they are
-- shown (src/wallet/multisig.rs).
pub mod Process
pub mod Files
pub mod Handlers
pub mod Sync
pub mod Marks
pub mod Order
pub mod Advance
pub mod Next
pub mod Respond
pub mod Posted
use rgb_lib.Prelude.{ℕ, String, Bool, Option, List}

pub data FileType : Type 0 where
  consignment media operation_data operation_psbt response_psbt fascia : FileType

pub record FileMetadata : Type 0 where
  pub file_id : String
  pub type : FileType

pub record FileResponse : Type 0 where
  pub type : FileType
  pub filepath : String

pub data OperationStatus : Type 0 where
  pending approved discarded : OperationStatus

pub data OperationType : Type 0 where
  create_utxos issuance send_rgb send_btc inflation blind_receive witness_receive burn :
      OperationType

-- the fields that the processing reads
pub record OperationResponse : Type 0 where
  pub operation_idx : ℕ
  pub initiator_xpub : String
  pub operation_type : OperationType
  pub status : OperationStatus
  pub acked_by : List String
  pub nacked_by : List String
  pub threshold : Option ℕ
  pub my_response : Option Bool
  pub files : List FileMetadata

pub record MultisigVotingStatus : Type 0 where
  pub acked_by : List String
  pub nacked_by : List String
  pub threshold : ℕ
  pub my_response : Option Bool

pub record SendDetails : Type 0 where
  pub fascia_path : String
  pub min_confirmations : ℕ
  pub entropy : ℕ
  pub is_donation : Bool

-- of an inflation and of a burn
pub record InflateDetails : Type 0 where
  pub fascia_path : String
  pub min_confirmations : ℕ
  pub entropy : ℕ

-- `ReceiveData` is its text
pub data Operation : Type 0 where
  create_utxos_to_review : String → MultisigVotingStatus → Operation
  create_utxos_pending : MultisigVotingStatus → Operation
  create_utxos_completed : String → MultisigVotingStatus → Operation
  create_utxos_discarded : MultisigVotingStatus → Operation
  send_btc_to_review : String → MultisigVotingStatus → Operation
  send_btc_pending : MultisigVotingStatus → Operation
  send_btc_completed : String → MultisigVotingStatus → Operation
  send_btc_discarded : MultisigVotingStatus → Operation
  send_to_review : String → SendDetails → MultisigVotingStatus → Operation
  send_pending : SendDetails → MultisigVotingStatus → Operation
  send_completed : String → SendDetails → MultisigVotingStatus → Operation
  send_discarded : SendDetails → MultisigVotingStatus → Operation
  inflation_to_review : String → InflateDetails → MultisigVotingStatus → Operation
  inflation_pending : InflateDetails → MultisigVotingStatus → Operation
  inflation_completed : String → InflateDetails → MultisigVotingStatus → Operation
  inflation_discarded : InflateDetails → MultisigVotingStatus → Operation
  burn_to_review : String → InflateDetails → MultisigVotingStatus → Operation
  burn_pending : InflateDetails → MultisigVotingStatus → Operation
  burn_completed : String → InflateDetails → MultisigVotingStatus → Operation
  burn_discarded : InflateDetails → MultisigVotingStatus → Operation
  issuance_completed : String → Operation
  blind_receive_completed : String → Operation
  witness_receive_completed : String → Operation

pub record OperationInfo : Type 0 where
  pub operation_idx : ℕ
  pub initiator_xpub : String
  pub operation : Operation

pub data RespondToOperation : Type 0 where
  ack : String → RespondToOperation
  nack : RespondToOperation
