-- ===== src/Refresh/Unfailed.antt =====
-- Transfers that `fail_transfers` refuses to fail.
use rgb_lib.Prelude.{
  ℕ, ◌≡◌, refl, ◌⊎◌, inl, inr, Bool, true, false, not, some, List, find, ◌==◌, if◌then◌else◌,
}
use rgb_lib.Prelude.Int.{ℤ}
use rgb_lib.Status.{waiting_broadcast, is_fallible, status_eq, AssetSchema}
use rgb_lib.Result.{Result, ok, err, panic, cannot_fail_batch_transfer}
use rgb_lib.Database.Rows.{DbBatchTransfer, DbData}
use rgb_lib.Database.Joins.{get_batch_transfer_or_fail}
use rgb_lib.Action.{Action, continue_with, World, pure, raise, ◌>>=◌, ◌>>◌, ask, reads, lift}
use rgb_lib.Services.{Services}
use rgb_lib.Refresh.Hub.{WalletKind}
use rgb_lib.Refresh.Sending.{is_expired}
use rgb_lib.Refresh.Run.{
  fail_one, fail_transfers_impl, fail_transfers, FailTransfersOutcome, unfailed, end_transaction,
  failed_outcome,
}

-- a status that cannot fail, or a transfer that the counterparty may still broadcast
abbrev pub CannotFail : {S : Type 0} → Services S → World S → DbBatchTransfer → Type 0
CannotFail env w b =
    (is_fallible b.status ≡ false)
    ⊎ ((status_eq b.status waiting_broadcast ≡ true)
        × (is_expired ((env.now w.outside).0) b ≡ false))

module _ {S : Type 0} (env : Services S) (schemas : List AssetSchema) where
  -- the tests before a transfer is failed
  abbrev guarded :
      Bool → Bool → (ℤ → Bool) → Action S FailTransfersOutcome → Action S FailTransfersOutcome
  guarded fallible broadcast expired rest = if not fallible then pure unfailed else do
    early ← (if broadcast then (ask env.now >>= λ now. pure (not (expired now))) else pure false)
    if early then pure unfailed else rest

  guarded-stops :
      (fallible broadcast : Bool) (expired : ℤ → Bool) (rest : Action S FailTransfersOutcome)
      (w : World S)
      → (fallible ≡ false) ⊎ ((broadcast ≡ true) × (expired ((env.now w.outside).0) ≡ false))
      → ((guarded fallible broadcast expired rest w).0 ≡ ok unfailed)
        × ((guarded fallible broadcast expired rest w).1.store ≡ w.store)
  unfolding pure ask ◌>>=◌
  guarded-stops false broadcast expired rest w h = (refl, refl)
  guarded-stops true broadcast expired rest w (inl h) = cc
  guarded-stops true true expired rest w (inr h) = rw h.1 (refl, refl)
  guarded-stops true false expired rest w (inr h) = cc

  fail_one-stops :
      (b : DbBatchTransfer) (no_asset_only : Bool) (d : DbData) (w : World S)
      → CannotFail env w b
      → ((fail_one env WalletKind.singlesig schemas b no_asset_only d w).0 ≡ ok unfailed)
        × ((fail_one env WalletKind.singlesig schemas b no_asset_only d w).1.store ≡ w.store)
  unfolding fail_one
  fail_one-stops b no_asset_only d w h =
      guarded-stops (is_fallible b.status) (status_eq b.status waiting_broadcast)
        (λ now. is_expired now b) _ w h

  refuses :
      (r : Result FailTransfersOutcome) (w w' : World S)
      → r ≡ ok unfailed
      → w'.store ≡ w.store
      → let end =
          continue_with
            (end_transaction w.store (r, w'))
            (failed_outcome env WalletKind.singlesig schemas) in
        ((end.0 ≡ err cannot_fail_batch_transfer) × (end.1.store ≡ w.store))
  unfolding raise pure
  refuses (ok o) w w' e same = let q : o.cannot_fail ≡ true = cc in rw q (refl, same)
  refuses (err x) w w' e same = cc
  refuses panic w w' e same = cc

  -- Without a synchronisation, a singlesig wallet that is asked to fail the transfer with a key fails
  -- with CannotFailBatchTransfer and leaves the database as it was, where the status is one that
  -- cannot fail, or where the counterparty may still broadcast and the transfer has not expired.
  pub fail_transfers-refused :
      (i : ℕ) (no_asset_only : Bool) (w : World S) (b : DbBatchTransfer)
      → find (λ (t : DbBatchTransfer). t.idx == i) w.store.tables.batch_transfers ≡ some b
      → CannotFail env w b
      → let r = fail_transfers env WalletKind.singlesig schemas (some i) no_asset_only true w in
        ((r.0 ≡ err cannot_fail_batch_transfer) × (r.1.store ≡ w.store))
  unfolding fail_transfers fail_transfers_impl get_batch_transfer_or_fail pure ◌>>=◌ ◌>>◌ reads lift
  fail_transfers-refused i no_asset_only w b found h =
      let stopped = fail_one-stops b no_asset_only w.store.tables w h in
      rw found (refuses _ w _ (stopped.0) (stopped.1))
