-- ===== src/Multisig/Process.antt =====
-- A multisig wallet and calls on it: the tables, all that is outside, and the row of `backup_info`
-- with the index of the last operation that was processed.
use rgb_lib.Prelude.{ℕ, String, Bool, Option, none, some, List}
use rgb_lib.Result.{Result, Error, ok, err, panic}
use rgb_lib.Action.{World, Action}
use rgb_lib.Multisig.{
  FileMetadata, FileResponse, OperationResponse, OperationType, RespondToOperation,
}

pub record Wallet (S : Type 0) : Type 0 where
  pub world : World S
  pub last_processed : Option ℕ

abbrev pub Process : Type 0 → Type 0 → Type 0
Process S A = Wallet S → Result A × Wallet S

-- the hub's answer to the mark of an operation
pub data MarkReply : Type 0 where
  marked : MarkReply
  already_marked : MarkReply
  mark_failed : Error → MarkReply

-- what an operation's data file says
pub record OperationData : Type 0 where
  pub transfers : ℕ
  pub min_confirmations : ℕ
  pub entropy : ℕ
  pub donation : Bool

-- The hub, files and PSBTs, and the wallet's operations that a processed operation ends with. A PSBT
-- is its text.
pub record Hub (S : Type 0) : Type 0 where
  pub get_operation_by_idx : ℕ → Action S (Option OperationResponse)
  pub respond_to_operation : ℕ → RespondToOperation → Action S OperationResponse
  pub mark_operation_processed : ℕ → Action S MarkReply
  pub is_cosigner : Action S Bool
  pub get_or_download_file : FileMetadata → Action S String
  pub read_psbt : String → Action S String
  pub read_operation_data : String → Action S OperationData
  -- `none` where they cannot be combined
  pub combine : String → String → Option String
  pub finalize_psbt : String → Action S String
  pub compute_txid : String → String
  pub parse_psbt : String → Result String
  pub signature_count : String → Result ℕ
  pub reconstruct_rgb_transfer_directory : String → List FileResponse → Action S (Unit {0})
  pub create_utxos_end : String → Action S (Unit {0})
  pub send_btc_end : String → Action S (Unit {0})
  pub send_end : String → Action S String
  pub inflate_end : String → Action S String
  pub burn_end : String → Action S String
  pub accept_issuance_consignment : List FileResponse → Action S String
  pub import_receive_data : List FileResponse → OperationType → Action S String
  pub clear_cache : Action S (Unit {0})
  -- the synchronisation of the colored keychain, or of the other, with the addresses of the hub
  pub sync_wallet : Bool → Action S (Unit {0})

abbrev pub follow : {S A B : Type 0} → Result A × Wallet S → (A → Process S B) → Result B × Wallet S
follow (ok a, w) f = f a w
follow (err e, w) f = (err e, w)
follow (panic, w) f = (panic, w)

-- the tables of before, where the transaction is not committed
abbrev pub end_transaction : {S A : Type 0} → Wallet S → Result A × Wallet S → Result A × Wallet S
end_transaction before (ok a, w) = (ok a, w)
end_transaction before (err e, w) =
    (err e, record before { world = record w.world { store = before.world.store } })
end_transaction before (panic, w) =
    (panic, record before { world = record w.world { store = before.world.store } })

-- `unwrap_or(0)`
abbrev pub last_or_zero : Option ℕ → ℕ
last_or_zero none = 0
last_or_zero (some i) = i

module _ {S : Type 0} where
  unfoldable pub give : {A : Type 0} → A → Process S A
  give a w = (ok a, w)

  unfoldable pub fails : {A : Type 0} → Error → Process S A
  fails e w = (err e, w)

  infixl 5 ◌>>=◌ ◌>>◌
  unfoldable pub ◌>>=◌ : {A B : Type 0} → Process S A → (A → Process S B) → Process S B
  ◌>>=◌ m f w = follow (m w) f

  unfoldable pub ◌>>◌ : {A B : Type 0} → Process S A → Process S B → Process S B
  m >> k = m >>= λ _. k

  unfoldable pub of_result : {A : Type 0} → Result A → Process S A
  of_result r w = (r, w)

  -- a call on the tables and on what is outside
  unfoldable pub call : {A : Type 0} → Action S A → Process S A
  call m w = let (r, world) = m w.world in (r, record w { world = world })

  unfoldable pub in_transaction : {A : Type 0} → Process S A → Process S A
  in_transaction m w = end_transaction w (m w)

  -- `get_local_last_processed_operation_idx_impl`
  unfoldable pub get_last_processed : Process S ℕ
  get_last_processed w = (ok (last_or_zero w.last_processed), w)

  -- `update_backup_info_with_op_idx`, with an index
  unfoldable pub set_last_processed : ℕ → Process S (Unit {0})
  set_last_processed i w = (ok tt, record w { last_processed = some i })
