-- ===== src/Send.antt =====
-- What an operation that sends has prepared (src/wallet/objects.rs), and its rows
-- (src/wallet/online.rs).
pub mod Rows
pub mod Save
pub mod Grows
pub mod Inserts
pub mod Quiet
pub mod Booked
pub mod Once
pub mod Coloring
pub mod Fee
use rgb_lib.Prelude.{ℕ, String, Bool, Option, List}
use rgb_lib.Prelude.Int.{ℤ}
use rgb_lib.Assignment.{Assignment, AssignmentsCollection}
use rgb_lib.Database.Rows.{Outpoint}
use rgb_lib.Wallet.Selection.{AssetSpend}

pub data TypeOfTransition : Type 0 where
  inflate transfer burn : TypeOfTransition

pub record LocalWitnessData : Type 0 where
  pub amount_sat : ℕ
  pub blinding : Option ℕ
  pub vout : ℕ

-- a secret seal is its text
pub data LocalRecipientData : Type 0 where
  blind : String → LocalRecipientData
  witness : LocalWitnessData → LocalRecipientData

-- there is one transport type
pub record LocalTransportEndpoint : Type 0 where
  pub endpoint : String
  pub used : Bool
  pub usable : Bool

pub record LocalRecipient : Type 0 where
  pub recipient_id : String
  pub local_recipient_data : LocalRecipientData
  pub assignment : Assignment
  pub transport_endpoints : List LocalTransportEndpoint

pub record BtcChange : Type 0 where
  pub vout : ℕ
  pub amount : ℕ

pub record AssetInfo : Type 0 where
  pub contract_id : String
  pub reject_list_url : Option String

-- the fields that the modelled code reads; a map is its entries, in the order in which they are gone through
pub record InfoAssetTransfer : Type 0 where
  pub asset_info : AssetInfo
  pub recipients : List LocalRecipient
  pub asset_spend : AssetSpend
  pub change : AssignmentsCollection
  pub original_assignments_needed : AssignmentsCollection
  pub assignments_needed : AssignmentsCollection
  pub assignments_spent : List (Outpoint × List Assignment)
  pub main_transition : TypeOfTransition

pub record InfoBatchTransfer : Type 0 where
  pub btc_change : Option BtcChange
  pub change_utxo_outpoint : Option Outpoint
  pub extra_allocations : List (String × List (Outpoint × List Assignment))
  pub min_confirmations : ℕ
  pub expiration_timestamp : Option ℤ
  pub created_at : ℤ
  pub transfers : List (String × InfoAssetTransfer)
