-- ===== src/Refresh/Failing.antt =====
-- What `fail_transfers` makes of the table of batch transfers.
use rgb_lib.Prelude.{
  ℕ, String, ◌≡◌, refl, sym, subst, ◌∙◌, ◌⊎◌, inl, inr, Bool, true, false, Option, none, some, List,
  [], ◌∷◌, All, Bool-cases, if◌then◌else◌,
}
use rgb_lib.Status.{TransferStatus, failed, AssetSchema, is_fallible}
use rgb_lib.Result.{Result, ok, err, panic}
use rgb_lib.Database.Rows.{DbBatchTransfer, DbData, is_some}
use rgb_lib.Action.{Action, World, pure, ◌>>=◌, ◌>>◌, continue_with}
use rgb_lib.Services.{Services}
use rgb_lib.Refresh.Hub.{WalletKind, fail_batch_transfer}
use rgb_lib.Refresh.Sending.{fail_batch}
use rgb_lib.Refresh.Run.{
  refresh_transfer, ignore_fee, is_fee_error, try_fail_batch_transfer, fail_expired,
  skips_connected,
}
use rgb_lib.Refresh.Quiet.{batches, calls}
use rgb_lib.Refresh.Moves.{Change, Moved}
use rgb_lib.Refresh.Steps.{fail_batch-Moves}
use rgb_lib.Refresh.Visits.{Write, Visits, DistinctKeys, IsOnly}
use rgb_lib.Refresh.Visits.Once.{Runs, Quiet-Runs, >>=-Runs, Runs-skip, if-Runs}
use rgb_lib.Refresh.Steps.Life.{Advance, LegalFor, refresh_transfer-Moves}
use rgb_lib.Refresh.Progress.{Move-Write}

-- what fail_transfers may do to a row: a step of a refresh, or the end of a row that can fail
pub data EndingFor (b : DbBatchTransfer) : Option String → TransferStatus → Type 0 where
  refreshed :
      (txid : Option String) (status : TransferStatus)
      → Advance b.incoming b.status txid status
      → EndingFor b txid status
  ended : is_fallible b.status ≡ true → EndingFor b none failed

module _ {S : Type 0} (env : Services S) (kind : WalletKind) (schemas : List AssetSchema) where
  Write-imp :
      {P Q : Change} {i : ℕ} {before after : List DbBatchTransfer}
      → ((txid : Option String) (s : TransferStatus) → P txid s → Q txid s)
      → Write P i before after
      → Write Q i before after
  Write-imp f m = record {
    now = m.now;
    txid = m.txid;
    status = m.status;
    allowed = f m.txid m.status m.allowed;
    changed = m.changed;
  }

  returned-same :
      (r : Result DbBatchTransfer) (w : World S)
      → batches ((continue_with (r, w) (λ b. pure (some b))).1) ≡ batches w
  unfolding pure
  returned-same (ok b) w = refl
  returned-same (err e) w = refl
  returned-same panic w = refl

  -- `fail_batch` returns the row, `fail_batch_transfer` alone changes the same
  fails :
      (b : DbBatchTransfer) (w : World S)
      → is_fallible b.status ≡ true
      → (batches ((fail_batch_transfer env kind b w).1) ≡ batches w)
        ⊎ Write (EndingFor b) b.idx (batches w) (batches ((fail_batch_transfer env kind b w).1))
  unfolding fail_batch ◌>>=◌
  fails b w h =
      let called = fail_batch_transfer env kind b w in
      let same = returned-same (called.0) (called.1) in
      elim ((fail_batch-Moves env kind {P = EndingFor b} b (ended h)).moved w) [
        | inl m ↦ inl (sym same ∙ m.0)
        | inr m ↦ inr (subst (Write (EndingFor b) b.idx (batches w)) same (Move-Write m))
      ]

  then-false-same :
      (r : Result DbBatchTransfer) (w : World S)
      → batches ((continue_with (r, w) (λ _. pure false)).1) ≡ batches w
  unfolding pure
  then-false-same (ok b) w = refl
  then-false-same (err e) w = refl
  then-false-same panic w = refl

  -- after the refresh: the row is failed where the refresh did not change it
  abbrev finish : DbBatchTransfer → Option DbBatchTransfer → Action S Bool
  finish b updated =
      if is_some updated then pure true else (fail_batch_transfer env kind b >> pure false)

  unchanged-fails :
      (b : DbBatchTransfer) (w : World S) (start : List DbBatchTransfer)
      → is_fallible b.status ≡ true
      → batches w ≡ start
      → (batches ((finish b none w).1) ≡ start)
        ⊎ Write (EndingFor b) b.idx start (batches ((finish b none w).1))
  unfolding ◌>>◌ ◌>>=◌
  unchanged-fails b w start h e =
      let called = fail_batch_transfer env kind b w in
      let same = then-false-same (called.0) (called.1) in
      elim (fails b w h) [
        | inl m ↦ inl (same ∙ (m ∙ e))
        | inr m ↦ inr (
            subst (Write (EndingFor b) b.idx start) (sym same)
              (subst (λ l. Write (EndingFor b) b.idx l (batches (called.1))) e m))
      ]

  after-refresh :
      (b : DbBatchTransfer) (start : List DbBatchTransfer) (r : Result (Option DbBatchTransfer))
      (w : World S)
      → is_fallible b.status ≡ true
      → Moved (LegalFor b) b.idx start r (batches w)
      → (batches ((continue_with (ignore_fee r, w) (finish b)).1) ≡ start)
        ⊎ Write (EndingFor b) b.idx start (batches ((continue_with (ignore_fee r, w) (finish b)).1))
  unfolding pure
  after-refresh b start (ok none) w h (inl m) = unchanged-fails b w start h m.0
  after-refresh b start (ok none) w h (inr m) = absurd (none-returned m.returned)
    where
      none-returned : {x : DbBatchTransfer} → ok none ≡ ok (some x) → ⊥
      none-returned e = cc
  after-refresh b start (ok (some x)) w h (inl m) = absurd m.1
  after-refresh b start (ok (some x)) w h (inr m) =
      inr (Write-imp {P = LegalFor b} {Q = EndingFor b} refreshed (Move-Write m))
  after-refresh b start (err e) w h (inl m) = elim (Bool-cases (is_fee_error e)) [
    | inl fee ↦ rw fee (unchanged-fails b w start h m.0)
    | inr other ↦ rw other (inl m.0)
  ]
  after-refresh b start (err e) w h (inr m) = absurd (err-returned m.returned)
    where
      err-returned : {x : DbBatchTransfer} → err e ≡ ok (some x) → ⊥
      err-returned e = cc
  after-refresh b start panic w h (inl m) = inl m.0
  after-refresh b start panic w h (inr m) = absurd (panic-returned m.returned)
    where
      panic-returned : {x : DbBatchTransfer} → panic ≡ ok (some x) → ⊥
      panic-returned e = cc

  pub try_fail-Visits :
      (b : DbBatchTransfer) (d : DbData)
      → is_fallible b.status ≡ true
      → Visits (EndingFor b) b.idx (try_fail_batch_transfer env kind schemas b d)
  unfolding try_fail_batch_transfer ◌>>=◌
  try_fail-Visits b d h = record {
    visited = λ w.
        let refreshed = refresh_transfer env kind schemas b d [] true w in
        after-refresh b (batches w) (refreshed.0) (refreshed.1) h
          ((refresh_transfer-Moves env kind schemas b d [] true).moved w);
  }

  pub fail_expired-Runs :
      (no_asset_only : Bool) (start bs : List DbBatchTransfer) (d : DbData) (changed : Bool)
      → All (λ (b : DbBatchTransfer). is_fallible b.status ≡ true) bs
      → DistinctKeys bs
      → All (IsOnly start) bs
      → Runs EndingFor start bs (fail_expired env kind schemas no_asset_only bs d changed)
  unfolding fail_expired ◌>>◌
  fail_expired-Runs no_asset_only start [] d changed fallible distinct only =
      Quiet-Runs EndingFor start [] (search calls)
  fail_expired-Runs no_asset_only start (b ∷ bs) d changed fallible distinct only =
      if-Runs EndingFor start (b ∷ bs) (skips_connected no_asset_only b d)
        (Runs-skip EndingFor start b bs _
          (fail_expired-Runs no_asset_only start bs d changed fallible.1 distinct.1 only.1))
        (>>=-Runs EndingFor start b bs _ _ distinct.0 only.0 (try_fail-Visits b d fallible.0)
          (λ _. fail_expired-Runs no_asset_only start bs d true fallible.1 distinct.1 only.1))
