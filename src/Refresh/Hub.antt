-- ===== src/Refresh/Hub.antt =====
-- The hub of a multisig wallet decides with the cosigners; a singlesig wallet has none:
-- `get_hub_fail_status`, `set_hub_accept_status` and `set_hub_fail_status` of src/wallet/online.rs and
-- src/wallet/multisig.rs, and `fail_batch_transfer`.
use rgb_lib.Prelude.{ℕ, Bool, true, false, not, Option, none, some, if◌then◌else◌}
use rgb_lib.Status.{failed}
use rgb_lib.Result.{Result, ok, err, panic, multisig_transfer_status_mismatch}
use rgb_lib.Database.Rows.{DbBatchTransfer}
use rgb_lib.Database.Updates.{update_batch_transfer}
use rgb_lib.Action.{Action, pure, ◌>>=◌, ◌>>◌, request, succeeds}
use rgb_lib.Services.{Services}

pub data WalletKind : Type 0 where
  singlesig multisig : WalletKind

-- `is_some_and(|s| !s.accepted)`
abbrev pub is_rejected : Option Bool → Bool
is_rejected none = false
is_rejected (some accepted) = not accepted

-- a mismatch means that the cosigners failed the transfer
abbrev pub accept_reply : Result (Unit {0}) → Result (Option Bool)
accept_reply (ok _) = ok (some true)
accept_reply (err multisig_transfer_status_mismatch) = ok (some false)
accept_reply (err e) = err e
accept_reply panic = panic

module _ {S : Type 0} (env : Services S) where
  unfoldable pub get_hub_fail_status : WalletKind → ℕ → Action S Bool
  get_hub_fail_status WalletKind.singlesig idx = pure false
  get_hub_fail_status WalletKind.multisig idx = do
    status ← request (env.get_transfer_status idx)
    pure (is_rejected status)

  unfoldable pub set_hub_accept_status : WalletKind → ℕ → Action S (Option Bool)
  set_hub_accept_status WalletKind.singlesig idx = pure (some true)
  set_hub_accept_status WalletKind.multisig idx = do
    cosigner ← succeeds env.check_is_cosigner
    if cosigner
        then (request λ s. let (r, s') = env.set_transfer_status idx true s in (accept_reply r, s'))
        else request (env.get_transfer_status idx)

  unfoldable pub set_hub_fail_status : WalletKind → ℕ → Action S (Unit {0})
  set_hub_fail_status WalletKind.singlesig idx = pure tt
  set_hub_fail_status WalletKind.multisig idx = do
    cosigner ← succeeds env.check_is_cosigner
    if cosigner then request (env.set_transfer_status idx false) else pure tt

  unfoldable pub fail_batch_transfer : WalletKind → DbBatchTransfer → Action S DbBatchTransfer
  fail_batch_transfer kind b = do
    set_hub_fail_status kind b.idx
    update_batch_transfer env.now (record { idx = b.idx; txid = none; status = failed })
