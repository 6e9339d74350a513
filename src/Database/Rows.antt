-- ===== src/Database/Rows.antt =====
-- The rows of the wallet's database (src/database/entities/), and the objects that are read from
-- them (src/wallet/objects.rs). An `idx` (i32) is a number; a time stamp (i64) is an integer.
use rgb_lib.Prelude.{ℕ, String, Bool, true, false, ◌&&◌, List, Option, none, some, ◌==◌, str_eq}
use rgb_lib.Prelude.Int.{ℤ}
use rgb_lib.Status.{ColoringType, TransferStatus}
use rgb_lib.Assignment.{Assignment}

pub record Outpoint : Type 0 where
  pub txid : String
  pub vout : ℕ

abbrev pub outpoint_eq : Outpoint → Outpoint → Bool
outpoint_eq a b = str_eq a.txid b.txid && (a.vout == b.vout)

pub data RecipientTypeFull : Type 0 where
  blind : Outpoint → RecipientTypeFull
  witness : Option ℕ → RecipientTypeFull

pub record DbTxo : Type 0 where
  pub idx : ℕ
  pub txid : String
  pub vout : ℕ
  pub btc_amount : String
  pub spent : Bool
  pub exists : Bool
  pub pending_witness : Bool

abbrev pub outpoint : DbTxo → Outpoint
outpoint t = record { txid = t.txid; vout = t.vout }

pub record DbColoring : Type 0 where
  pub idx : ℕ
  pub txo_idx : ℕ
  pub asset_transfer_idx : ℕ
  pub type : ColoringType
  pub assignment : Assignment

pub record DbAssetTransfer : Type 0 where
  pub idx : ℕ
  pub user_driven : Bool
  pub batch_transfer_idx : ℕ
  pub asset_id : Option String

pub record DbBatchTransfer : Type 0 where
  pub idx : ℕ
  pub txid : Option String
  pub status : TransferStatus
  pub created_at : ℤ
  pub updated_at : ℤ
  pub expiration : Option ℤ
  pub min_confirmations : ℕ
  pub incoming : Bool

pub record DbTransfer : Type 0 where
  pub idx : ℕ
  pub asset_transfer_idx : ℕ
  pub requested_assignment : Option Assignment
  pub recipient_type : Option RecipientTypeFull
  pub recipient_id : Option String
  pub ack : Option Bool
  pub invoice_string : Option String

-- The tables that the modelled code reads together.
pub record DbData : Type 0 where
  pub batch_transfers : List DbBatchTransfer
  pub asset_transfers : List DbAssetTransfer
  pub transfers : List DbTransfer
  pub colorings : List DbColoring
  pub txos : List DbTxo

pub record LocalRgbAllocation : Type 0 where
  pub asset_id : Option String
  pub assignment : Assignment
  pub status : TransferStatus
  pub incoming : Bool
  pub txo_spent : Bool

pub record LocalUnspent : Type 0 where
  pub utxo : DbTxo
  pub rgb_allocations : List LocalRgbAllocation
  pub pending_blinded : ℕ

-- `a.asset_id == Some(asset_id)`
abbrev pub is_asset : String → Option String → Bool
is_asset asset_id none = false
is_asset asset_id (some a) = str_eq a asset_id

-- `asset_id.is_some()`
abbrev pub is_some {ℓ} : {A : Type ℓ} → Option A → Bool
is_some none = false
is_some (some _) = true
