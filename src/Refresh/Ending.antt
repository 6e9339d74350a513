-- ===== src/Refresh/Ending.antt =====
-- `fail_transfers` as a whole: which rows it ends.
use rgb_lib.Prelude.{
  ℕ, ◌≡◌, refl, sym, subst, Bool, true, false, not, Option, none, some, List, [], ◌∷◌, find, filter,
  All-find, ◌&&◌, &&_true, if◌then◌else◌, ◌==◌,
}
use rgb_lib.Prelude.Member.{All-imp, All-filter_test}
use rgb_lib.Status.{AssetSchema, is_fallible}
use rgb_lib.Result.{Result, ok, err, panic, batch_transfer_not_found}
use rgb_lib.Database.Rows.{DbBatchTransfer, DbData}
use rgb_lib.Database.Joins.{get_batch_transfer_or_fail}
use rgb_lib.Action.{Action, World, pure, ask, ◌>>=◌, ◌>>◌, continue_with, reads, map_or, lift}
use rgb_lib.Services.{Services}
use rgb_lib.Prelude.Int.{ℤ}
use rgb_lib.Refresh.Sending.{is_expired}
use rgb_lib.Refresh.Hub.{WalletKind}
use rgb_lib.Refresh.Broadcast.{sync_wallet}
use rgb_lib.Refresh.Run.{
  fail_expired, skips_connected, fail_one, fail_all, fail_transfers_impl, fail_transfers,
  failed_outcome, check_cosigner, FailTransfersOutcome, in_transaction,
}
use rgb_lib.Refresh.Quiet.{Quiet, batches, calls, pure-Quiet, if-Quiet}
use rgb_lib.Refresh.Untouched.{sync_wallet-Quiet}
use rgb_lib.Refresh.Visits.{
  Progress, DistinctKeys, IsOnly, DistinctKeys-filter, DistinctKeys-IsOnly,
}
use rgb_lib.Refresh.Visits.Once.{
  Pending, Runs, Quiet-Runs, >>=-Runs, Runs-then, Runs-after, if-Runs, Pending-start,
  Pending-Progress,
}
use rgb_lib.Refresh.Progress.{ended-Progress, Progress-refl}
use rgb_lib.Refresh.Failing.{EndingFor, try_fail-Visits, fail_expired-Runs}

module _ {S : Type 0} (env : Services S) (kind : WalletKind) (schemas : List AssetSchema) where
  fallible-Runs :
      (c : Bool) {start bs : List DbBatchTransfer} {A : Type 0} {m k : Action S A}
      → Runs EndingFor start bs m
      → (c ≡ true → Runs EndingFor start bs k)
      → Runs EndingFor start bs (if not c then m else k)
  fallible-Runs true hm hk = hk refl
  fallible-Runs false hm hk = hm

  fail_one-Runs :
      (start : List DbBatchTransfer) (b : DbBatchTransfer) (no_asset_only : Bool) (d : DbData)
      → IsOnly start b
      → Runs EndingFor start (b ∷ []) (fail_one env kind schemas b no_asset_only d)
  unfolding fail_one
  fail_one-Runs start b no_asset_only d only =
      fallible-Runs (is_fallible b.status) (Quiet-Runs EndingFor start _ (pure-Quiet _)) (λ h.
        Runs-after EndingFor start _ (search calls) (λ early.
          if-Runs EndingFor start _ early (Quiet-Runs EndingFor start _ (pure-Quiet _)) (
            if-Runs EndingFor start _ (skips_connected no_asset_only b d)
              (Quiet-Runs EndingFor start _ (pure-Quiet _))
              (>>=-Runs EndingFor start b [] _ _ refl only (try_fail-Visits env kind schemas b d h)
                (λ r. Quiet-Runs EndingFor start [] (pure-Quiet _))))))

  -- the row that is asked for, where there is one
  found-Progress :
      (i : ℕ) (o : Option DbBatchTransfer) (no_asset_only : Bool) (d : DbData) (w : World S)
      → ((b : DbBatchTransfer) → o ≡ some b → IsOnly d.batch_transfers b)
      → batches w ≡ d.batch_transfers
      → Progress EndingFor d.batch_transfers (
          batches (
            (continue_with
              (elim o [ some b ↦ ok b | none ↦ err (batch_transfer_not_found i) ], w)
              (λ b. fail_one env kind schemas b no_asset_only d)).1))
  found-Progress i none no_asset_only d w only e =
      subst (Progress EndingFor d.batch_transfers) (sym e) (Progress-refl d.batch_transfers)
  found-Progress i (some b) no_asset_only d w only e = Pending-Progress EndingFor (
      (fail_one-Runs d.batch_transfers b no_asset_only d (only b refl)).ran w (
        subst (Pending EndingFor d.batch_transfers (b ∷ [])) (sym e)
          (Pending-start EndingFor d.batch_transfers (b ∷ []))))

  expired-Runs :
      (now : ℤ) (no_asset_only : Bool) (d : DbData)
      → DistinctKeys d.batch_transfers
      → Runs EndingFor d.batch_transfers
          (filter
            (λ (b : DbBatchTransfer). is_expired now b && is_fallible b.status)
            d.batch_transfers)
          (fail_expired env kind schemas no_asset_only
            (filter
              (λ (b : DbBatchTransfer). is_expired now b && is_fallible b.status)
              d.batch_transfers)
            d
            false)
  expired-Runs now no_asset_only d distinct =
      let start = d.batch_transfers in
      let ends : DbBatchTransfer → Bool = λ b. is_expired now b && is_fallible b.status in
      let tested = All-filter_test (IsOnly start) ends start (DistinctKeys-IsOnly start distinct) in
      fail_expired-Runs env kind schemas no_asset_only start (filter ends start) d false
        (All-imp (λ b. IsOnly start b × (ends b ≡ true)) (λ b. is_fallible b.status ≡ true)
          (λ b h. (&&_true h.1).1) (filter ends start) tested)
        (DistinctKeys-filter ends start distinct)
        (All-imp (λ b. IsOnly start b × (ends b ≡ true)) (IsOnly start) (λ b h. h.0)
          (filter ends start) tested)

  fail_all-Progress :
      (no_asset_only : Bool) (d : DbData) (w : World S)
      → DistinctKeys d.batch_transfers
      → batches w ≡ d.batch_transfers
      → Progress EndingFor d.batch_transfers
          (batches ((fail_all env kind schemas no_asset_only d w).1))
  unfolding fail_all ◌>>=◌ ask
  fail_all-Progress no_asset_only d w distinct e =
      let now = (env.now w.outside).0 in
      let start = d.batch_transfers in
      Pending-Progress EndingFor (
        (Runs-then EndingFor start _ _
            (λ changed. pure (record { transfers_changed = changed; cannot_fail = false }))
            (expired-Runs now no_asset_only d distinct) (λ changed. pure-Quiet _)).ran
          (record w { outside = (env.now w.outside).1 })
          (subst (Pending EndingFor start _) (sym e) (Pending-start EndingFor start _)))

  -- the run over the tables `d`, and over those of the database
  abbrev chosen : Option ℕ → Bool → DbData → Action S FailTransfersOutcome
  chosen batch_transfer_idx no_asset_only d =
      map_or batch_transfer_idx (fail_all env kind schemas no_asset_only d) (λ idx.
        lift (get_batch_transfer_or_fail idx d.batch_transfers) >>= λ b.
        fail_one env kind schemas b no_asset_only d)

  abbrev read_chosen : Option ℕ → Bool → Action S FailTransfersOutcome
  read_chosen i no_asset_only = reads (λ s. s.tables) >>= chosen i no_asset_only

  chosen-Progress :
      (i : Option ℕ) (no_asset_only : Bool) (d : DbData) (w : World S)
      → DistinctKeys d.batch_transfers
      → batches w ≡ d.batch_transfers
      → Progress EndingFor d.batch_transfers (batches ((chosen i no_asset_only d w).1))
  unfolding get_batch_transfer_or_fail ◌>>=◌ lift
  chosen-Progress none no_asset_only d w distinct e = fail_all-Progress no_asset_only d w distinct e
  chosen-Progress (some i) no_asset_only d w distinct e =
      let start = d.batch_transfers in
      let at : DbBatchTransfer → Bool = λ b. b.idx == i in
      found-Progress i (find at start) no_asset_only d w
        (λ b h. All-find (IsOnly start) at start b (DistinctKeys-IsOnly start distinct) h) e

  after_sync :
      (i : Option ℕ) (no_asset_only : Bool) (r : Result (Unit {0})) (start : List DbBatchTransfer)
      (w : World S)
      → DistinctKeys start
      → batches w ≡ start
      → Progress EndingFor start
          (batches ((continue_with (r, w) (λ _. read_chosen i no_asset_only)).1))
  unfolding ◌>>=◌ reads
  after_sync i no_asset_only (ok u) start w distinct e =
      subst (λ l. Progress EndingFor l (batches ((chosen i no_asset_only w.store.tables w).1))) e
        (chosen-Progress i no_asset_only w.store.tables w (subst DistinctKeys (sym e) distinct)
          refl)
  after_sync i no_asset_only (err x) start w distinct e =
      subst (Progress EndingFor start) (sym e) (Progress-refl start)
  after_sync i no_asset_only panic start w distinct e =
      subst (Progress EndingFor start) (sym e) (Progress-refl start)

  impl-Progress :
      (batch_transfer_idx : Option ℕ) (no_asset_only skip_sync : Bool) (w : World S)
      → DistinctKeys (batches w)
      → Progress EndingFor (batches w) (
          batches
            ((fail_transfers_impl env kind schemas batch_transfer_idx no_asset_only skip_sync w).1))
  unfolding fail_transfers_impl ◌>>◌ ◌>>=◌
  impl-Progress i no_asset_only skip_sync w distinct =
      let sync : Action S (Unit {0}) = if skip_sync then pure tt else sync_wallet env in
      after_sync i no_asset_only ((sync w).0) (batches w) ((sync w).1) distinct
        ((if-Quiet skip_sync (pure-Quiet tt) (sync_wallet-Quiet env)).same w)

  checked-Quiet : Quiet (check_cosigner env kind schemas)
  checked-Quiet = search calls

  outcome-Quiet : (o : FailTransfersOutcome) → Quiet (failed_outcome env kind schemas o)
  outcome-Quiet o = search calls

  transaction-Progress :
      (i : Option ℕ) (no_asset_only skip_sync : Bool) (w : World S)
      → DistinctKeys (batches w)
      → Progress EndingFor (batches w) (
          batches
            ((in_transaction (fail_transfers_impl env kind schemas i no_asset_only skip_sync) w).1))
  transaction-Progress i no_asset_only skip_sync w distinct =
      ended-Progress (batches w) w
        (fail_transfers_impl env kind schemas i no_asset_only skip_sync w)
        (impl-Progress i no_asset_only skip_sync w distinct) refl

  after_outcome :
      (start : List DbBatchTransfer) (r : Result FailTransfersOutcome) (w : World S)
      → Progress EndingFor start (batches w)
      → Progress EndingFor start
          (batches ((continue_with (r, w) (failed_outcome env kind schemas)).1))
  after_outcome start (ok o) w p =
      subst (Progress EndingFor start) (sym ((outcome-Quiet o).same w)) p
  after_outcome start (err e) w p = p
  after_outcome start panic w p = p

  abbrev checked_run : Option ℕ → Bool → Bool → Action S Bool
  checked_run i no_asset_only skip_sync =
      in_transaction (fail_transfers_impl env kind schemas i no_asset_only skip_sync)
      >>= failed_outcome env kind schemas

  after_check :
      (i : Option ℕ) (no_asset_only skip_sync : Bool) (start : List DbBatchTransfer)
      (r : Result (Unit {0})) (w : World S)
      → DistinctKeys start
      → batches w ≡ start
      → Progress EndingFor start
          (batches ((continue_with (r, w) (λ _. checked_run i no_asset_only skip_sync)).1))
  unfolding ◌>>=◌
  after_check i no_asset_only skip_sync start (ok u) w distinct e =
      subst (λ l. Progress EndingFor l (batches ((checked_run i no_asset_only skip_sync w).1))) e
        (after_outcome (batches w) _ _
          (transaction-Progress i no_asset_only skip_sync w (subst DistinctKeys (sym e) distinct)))
  after_check i no_asset_only skip_sync start (err x) w distinct e =
      subst (Progress EndingFor start) (sym e) (Progress-refl start)
  after_check i no_asset_only skip_sync start panic w distinct e =
      subst (Progress EndingFor start) (sym e) (Progress-refl start)

  -- From a table of batch transfers with distinct keys, whatever the services answer and however
  -- fail_transfers ends, every row of the table is afterwards as it was, one legal step of a refresh on,
  -- or failed where its status was one that can fail, in the same order, and no row is added or lost.
  pub fail_transfers-Progress :
      (i : Option ℕ) (no_asset_only skip_sync : Bool) (w : World S)
      → DistinctKeys (batches w)
      → Progress EndingFor
          (batches w)
          (batches ((fail_transfers env kind schemas i no_asset_only skip_sync w).1))
  unfolding fail_transfers ◌>>◌ ◌>>=◌
  fail_transfers-Progress i no_asset_only skip_sync w distinct =
      let checked = check_cosigner env kind schemas w in
      after_check i no_asset_only skip_sync (batches w) (checked.0) (checked.1) distinct
        (checked-Quiet.same w)
