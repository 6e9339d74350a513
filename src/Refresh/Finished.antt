-- ===== src/Refresh/Finished.antt =====
-- Transfers that are settled or failed.
use mathlib.Core.List.{Memᴰ}
use rgb_lib.Prelude.{
  ℕ, String, ◌≡◌, refl, sym, subst, ap, ◌∙◌, inl, inr, Bool, true, false, Option, List, [], ◌∷◌,
  map, All, ◌⊎◌, arith,
}
use rgb_lib.Status.{
  TransferStatus, settled, failed, is_waiting, is_fallible, AssetSchema, RefreshFilter,
}
use rgb_lib.Database.Rows.{DbBatchTransfer}
use rgb_lib.Action.{World}
use rgb_lib.Services.{Services}
use rgb_lib.Refresh.Hub.{WalletKind}
use rgb_lib.Refresh.Run.{refresh, fail_transfers}
use rgb_lib.Refresh.Quiet.{batches}
use rgb_lib.Refresh.Moves.{Change}
use rgb_lib.Refresh.Visits.{Progress, Stepped, DistinctKeys}
use rgb_lib.Refresh.Steps.Life.{
  Advance, gave_up, acked, received_unsafe, received, received_signed, refused, became_safe,
  became_safe_signed, seen, mined_at_once, mined, LegalFor,
}
use rgb_lib.Refresh.Progress.{refresh-Progress}
use rgb_lib.Refresh.Failing.{EndingFor, refreshed, ended}
use rgb_lib.Refresh.Ending.{fail_transfers-Progress}

-- a step that a refresh makes is of a transfer that waits
Advance-waiting :
    {incoming : Bool} {s t : TransferStatus} {txid : Option String}
    → Advance incoming s txid t
    → is_waiting s ≡ true
Advance-waiting gave_up = refl
Advance-waiting acked = refl
Advance-waiting (received_unsafe txid) = refl
Advance-waiting (received txid) = refl
Advance-waiting (received_signed txid) = refl
Advance-waiting refused = refl
Advance-waiting became_safe = refl
Advance-waiting became_safe_signed = refl
Advance-waiting seen = refl
Advance-waiting mined_at_once = refl
Advance-waiting mined = refl

-- settled or failed
abbrev pub IsFinished : TransferStatus → Type 0
IsFinished s = (s ≡ settled) ⊎ (s ≡ failed)

finished_not_waiting : (s : TransferStatus) → IsFinished s → is_waiting s ≡ false
finished_not_waiting s (inl e) = rw e refl
finished_not_waiting s (inr e) = rw e refl

finished_not_fallible : (s : TransferStatus) → IsFinished s → is_fallible s ≡ false
finished_not_fallible s (inl e) = rw e refl
finished_not_fallible s (inr e) = rw e refl

no_ending :
    (b : DbBatchTransfer) (txid : Option String) (s : TransferStatus)
    → IsFinished b.status
    → EndingFor b txid s
    → ⊥
no_ending b txid s h (refreshed txid' status step) =
    let waits = Advance-waiting step in
    let stays = finished_not_waiting b.status h in absurd (ground (arith, waits, stays))
no_ending b txid s h (ended fallible) =
    let stays = finished_not_fallible b.status h in absurd (ground (arith, fallible, stays))

-- a row that no change is allowed of is still there
kept_row :
    (legal : DbBatchTransfer → Change) (step : DbBatchTransfer → DbBatchTransfer)
    (l : List DbBatchTransfer) (x : DbBatchTransfer)
    → ((txid : Option String) (s : TransferStatus) → legal x txid s → ⊥)
    → All (λ y. (step y ≡ y) ⊎ Stepped legal y (step y)) l
    → Memᴰ x l
    → Memᴰ x (map step l)
kept_row legal step [] x never h here = elim here [ ]
kept_row legal step (y ∷ l) x never h (Memᴰ.head e) =
    elim (subst (λ z. (step z ≡ z) ⊎ Stepped legal z (step z)) (sym e) h.0) [
      | inl same ↦ Memᴰ.head (sym same ∙ ap step e)
      | inr moved ↦ absurd (never moved.txid moved.status moved.allowed)
    ]
kept_row legal step (y ∷ l) x never h (Memᴰ.tail t) =
    Memᴰ.tail (kept_row legal step l x never h.1 t)

kept :
    (legal : DbBatchTransfer → Change) (before after : List DbBatchTransfer) (x : DbBatchTransfer)
    → ((txid : Option String) (s : TransferStatus) → legal x txid s → ⊥)
    → Progress legal before after
    → Memᴰ x before
    → Memᴰ x after
kept legal before after x never p h =
    subst (Memᴰ x) (sym p.rows) (kept_row legal p.step before x never p.legal_steps h)

module _ {S : Type 0} (env : Services S) (kind : WalletKind) (schemas : List AssetSchema) where
  -- A row of a settled or failed batch transfer, in a table with distinct keys, is still there and
  -- unchanged after fail_transfers is called and after refresh is called, whatever the services answer
  -- and however the call ends.
  pub finished-kept :
      (w : World S) (b : DbBatchTransfer) (no_asset_only skip_sync : Bool) (idx : Option ℕ)
      (asset_id : Option String) (filters : List RefreshFilter)
      → DistinctKeys (batches w)
      → Memᴰ b (batches w)
      → IsFinished b.status
      → Memᴰ b (batches ((refresh env kind schemas asset_id filters skip_sync w).1))
        × Memᴰ b (batches ((fail_transfers env kind schemas idx no_asset_only skip_sync w).1))
  finished-kept w b i skip idx asset_id filters distinct h finished = (
    kept LegalFor (batches w) _ b
        (λ txid s step. no_ending b txid s finished (refreshed txid s step))
        (refresh-Progress env kind schemas asset_id filters skip w distinct) h,
    kept EndingFor (batches w) _ b (λ txid s. no_ending b txid s finished)
        (fail_transfers-Progress env kind schemas idx i skip w distinct) h,
  )
