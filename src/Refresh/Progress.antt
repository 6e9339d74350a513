-- ===== src/Refresh/Progress.antt =====
-- What the runs of `refresh` and `fail_transfers` make of the table of batch transfers.
use rgb_lib.Prelude.{
  ℕ, String, ◌≡◌, refl, sym, subst, inl, inr, Bool, Option, none, some, List, [], ◌∷◌, filter, All,
  All-filter,
}
use rgb_lib.Status.{AssetSchema, RefreshFilter}
use rgb_lib.Result.{Result, ok, err, panic}
use rgb_lib.Database.Rows.{DbBatchTransfer, DbData}
use rgb_lib.Action.{World, ◌>>=◌, ◌>>◌, continue_with, reads}
use rgb_lib.Services.{Services}
use rgb_lib.Refresh.Hub.{WalletKind}
use rgb_lib.Refresh.Run.{
  catch, refresh_transfer, refresh_all, refresh_impl, refresh, to_refresh, of_asset, check_asset,
  end_transaction,
}
use rgb_lib.Refresh.Quiet.{Quiet, batches, calls, tables}
use rgb_lib.Refresh.Moves.{Change, Move}
use rgb_lib.Refresh.Visits.{
  Write, Visits, Progress, DistinctKeys, IsOnly, DistinctKeys-filter, DistinctKeys-IsOnly,
}
use rgb_lib.Refresh.Visits.Once.{
  Runs, Quiet-Runs, >>=-Runs, Runs-then, Pending-start, Pending-Progress,
}
use rgb_lib.Refresh.Steps.Life.{LegalFor, refresh_transfer-Moves}

-- a move, seen as a write
pub Move-Write :
    {P : Change} {i : ℕ} {before after : List DbBatchTransfer} {r : Result (Option DbBatchTransfer)}
    → Move P i before r after
    → Write P i before after
Move-Write m = record {
  now = m.now;
  txid = m.txid;
  status = m.status;
  allowed = m.allowed;
  changed = m.changed;
}

pub Progress-refl :
    {legal : DbBatchTransfer → Change} (l : List DbBatchTransfer) → Progress legal l l
Progress-refl {legal} l = Pending-Progress legal (Pending-start legal l [])

-- the end of a transaction keeps the progress, or undoes all of it
pub ended-Progress :
    {S A : Type 0} {legal : DbBatchTransfer → Change} (start : List DbBatchTransfer) (w : World S)
    (r : Result A × World S)
    → Progress legal start (batches (r.1))
    → batches w ≡ start
    → Progress legal start (batches ((end_transaction w.store r).1))
ended-Progress start w (ok a, w') p e = p
ended-Progress {legal} start w (err x, w') p e =
    subst (Progress legal start) (sym e) (Progress-refl start)
ended-Progress {legal} start w (panic, w') p e =
    subst (Progress legal start) (sym e) (Progress-refl start)

module _ {S : Type 0} (env : Services S) (kind : WalletKind) (schemas : List AssetSchema) where
  catch-Visits :
      (b : DbBatchTransfer) (d : DbData) (filters : List RefreshFilter) (skip : Bool)
      → Visits
          (LegalFor b)
          b.idx
          (catch env kind schemas (refresh_transfer env kind schemas b d filters skip))
  catch-Visits b d filters skip = record {
    visited = λ w. elim ((refresh_transfer-Moves env kind schemas b d filters skip).moved w) [
      | inl h ↦ inl h.0
      | inr m ↦ inr (Move-Write m)
    ];
  }

  refresh_all-Runs :
      (start bs : List DbBatchTransfer) (d : DbData) (filters : List RefreshFilter) (skip : Bool)
      → DistinctKeys bs
      → All (IsOnly start) bs
      → Runs LegalFor start bs (refresh_all env kind schemas bs d filters skip)
  unfolding refresh_all
  refresh_all-Runs start [] d filters skip distinct only =
      Quiet-Runs LegalFor start [] (search calls)
  refresh_all-Runs start (b ∷ bs) d filters skip distinct only =
      >>=-Runs LegalFor start b bs _ _ distinct.0 only.0 (catch-Visits b d filters skip) (λ outcome.
        Runs-then LegalFor start bs _ _ (refresh_all-Runs start bs d filters skip distinct.1 only.1)
          (λ rest. search calls))

  refresh_impl-Progress :
      (asset_id : Option String) (filters : List RefreshFilter) (skip : Bool) (w : World S)
      → DistinctKeys (batches w)
      → Progress LegalFor
          (batches w)
          (batches ((refresh_impl env kind schemas asset_id filters skip w).1))
  unfolding refresh_impl ◌>>=◌ reads
  refresh_impl-Progress asset_id filters skip w distinct =
      let start = batches w in
      let d = w.store.tables in
      let kept = filter (of_asset asset_id d.asset_transfers) start in
      Pending-Progress LegalFor (
        (refresh_all-Runs start (to_refresh asset_id d) d filters skip
            (DistinctKeys-filter _ kept (DistinctKeys-filter _ start distinct))
            (All-filter (IsOnly start) _ kept
              (All-filter (IsOnly start) _ start (DistinctKeys-IsOnly start distinct)))).ran
          w (Pending-start LegalFor start (to_refresh asset_id d)))

  check_asset-Quiet : (o : Option String) → Quiet (check_asset env kind schemas o)
  check_asset-Quiet none = search calls
  check_asset-Quiet (some id) = search (calls, tables)

  after_check :
      (asset_id : Option String) (filters : List RefreshFilter) (skip : Bool)
      (r : Result (Unit {0})) (start : List DbBatchTransfer) (w : World S)
      → DistinctKeys start
      → batches w ≡ start
      → Progress LegalFor start (
          batches
            ((continue_with (r, w) (λ _. refresh_impl env kind schemas asset_id filters skip)).1))
  after_check asset_id filters skip (ok u) start w distinct e =
      subst
        (λ l.
          Progress LegalFor l (batches ((refresh_impl env kind schemas asset_id filters skip w).1)))
        e (refresh_impl-Progress asset_id filters skip w (subst DistinctKeys (sym e) distinct))
  after_check asset_id filters skip (err x) start w distinct e =
      subst (Progress LegalFor start) (sym e) (Progress-refl start)
  after_check asset_id filters skip panic start w distinct e =
      subst (Progress LegalFor start) (sym e) (Progress-refl start)

  -- From a table of batch transfers with distinct keys, whatever the services answer and however
  -- refresh ends, every row of the table is afterwards as it was or one legal step on, in the same
  -- order, and no row is added or lost.
  pub refresh-Progress :
      (asset_id : Option String) (filters : List RefreshFilter) (skip : Bool) (w : World S)
      → DistinctKeys (batches w)
      → Progress LegalFor
          (batches w)
          (batches ((refresh env kind schemas asset_id filters skip w).1))
  unfolding refresh ◌>>◌ ◌>>=◌
  refresh-Progress asset_id filters skip w distinct =
      let checked = check_asset env kind schemas asset_id w in
      ended-Progress (batches w) w _
        (after_check asset_id filters skip (checked.0) (batches w) (checked.1) distinct
          ((check_asset-Quiet asset_id).same w))
        refl
