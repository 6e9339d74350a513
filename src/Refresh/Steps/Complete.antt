-- ===== src/Refresh/Steps/Complete.antt =====
-- When an outgoing batch is broadcast.
use rgb_lib.Prelude.{
  ℕ, ◌≡◌, ◌≢◌, refl, sym, subst, ◌∙◌, inl, inr, Bool, true, false, not, Option, none, some, List,
  [], ◌∷◌, map, find, any, all, ◌==◌, arith, Bool-cases, if◌then◌else◌,
}
use rgb_lib.Prelude.Int.{ℤ}
use rgb_lib.Status.{failed, waiting_confirmations}
use rgb_lib.Result.{ok}
use rgb_lib.Database.Rows.{DbBatchTransfer, DbTransfer}
use rgb_lib.Database.Updates.{BatchChange, change_batch}
use rgb_lib.Action.{Action, World, ◌>>=◌, ask, pure}
use rgb_lib.Services.{Services}
use rgb_lib.Refresh.Hub.{WalletKind}
use rgb_lib.Refresh.Sending.{has_ack, is_expired, fail_batch, fail_nacked, try_complete_batch}
use rgb_lib.Refresh.Moves.{Change, Moves, change_of, IsNothing}
use rgb_lib.Refresh.Quiet.{batches}
use rgb_lib.Refresh.Steps.{fail_batch-Moves, fail_nacked-Moves}

find-change_status :
    (now : ℤ) (u : BatchChange) (l : List DbBatchTransfer) (row : DbBatchTransfer)
    → find (λ (b : DbBatchTransfer). b.idx == u.idx) (map (change_batch now u) l) ≡ some row
    → row.status ≡ u.status
find-change_status now u [] row h = cc
find-change_status now u (b ∷ l) row h = elim (Bool-cases (b.idx == u.idx)) [
  | inl hit ↦ grind (arith, hit, h)
  | inr miss ↦ find-change_status now u l row (ground (arith, miss, h))
]

-- only failing
abbrev OnlyFails : Change
OnlyFails txid s = s ≡ failed

module _ {S : Type 0} (env : Services S) (kind : WalletKind) where
  fails-status :
      (i : ℕ) (m : Action S (Option DbBatchTransfer)) (w : World S) (row : DbBatchTransfer)
      → Moves OnlyFails i m
      → (m w).0 ≡ ok (some row)
      → row.status ≡ failed
  fails-status i m w row h e = elim (h.moved w) [
    | inl q ↦ absurd (subst IsNothing e q.1)
    | inr q ↦
        let same : q.row ≡ row = cc in
        subst (λ (b : DbBatchTransfer). b.status ≡ failed) same
          (find-change_status q.now (change_of i q.txid q.status) (batches w) q.row (
              subst (λ l. find (λ (b : DbBatchTransfer). b.idx == i) l ≡ some q.row) q.changed
                q.found)
            ∙ q.allowed)
  ]

  not_confirmed : (row : DbBatchTransfer) → row.status ≡ failed → row.status ≢ waiting_confirmations
  not_confirmed row h e = let q : failed ≡ waiting_confirmations = sym h ∙ e in absurd (cc)

  -- the ACKs, and then the expiration
  acks_checked :
      (b : DbBatchTransfer) (row : DbBatchTransfer) (w : World S) (nack acks : Bool)
      (rest : Action S (Option DbBatchTransfer))
      → ((if nack then fail_nacked env kind b else if not acks then pure none else rest) w).0
        ≡ ok (some row)
      → row.status ≡ waiting_confirmations
      → (acks ≡ true) × ((rest w).0 ≡ ok (some row))
  unfolding pure
  acks_checked b row w true acks rest e confirmed = absurd (
      not_confirmed row (fails-status b.idx _ w row (fail_nacked-Moves env kind b refl) e)
        confirmed)
  acks_checked b row w false true rest e confirmed = (refl, e)
  acks_checked b row w false false rest e confirmed = cc

  expiry_checked :
      (b : DbBatchTransfer) (row : DbBatchTransfer) (w : World S) (expired : Bool)
      (rest : Action S (Option DbBatchTransfer))
      → ((if expired then fail_batch env kind b else rest) w).0 ≡ ok (some row)
      → row.status ≡ waiting_confirmations
      → expired ≡ false
  expiry_checked b row w true rest e confirmed = absurd (
      not_confirmed row (fails-status b.idx _ w row (fail_batch-Moves env kind b refl) e) confirmed)
  expiry_checked b row w false rest e confirmed = refl

  -- A batch that try_complete_batch returns as waiting for confirmations has the ACK of every
  -- transfer and had not expired at the time of the clock.
  pub try_complete_batch-safe :
      (b : DbBatchTransfer) (transfers : List DbTransfer) (w : World S) (row : DbBatchTransfer)
      → (try_complete_batch env kind b transfers w).0 ≡ ok (some row)
      → row.status ≡ waiting_confirmations
      → (all (has_ack true) transfers ≡ true) × (is_expired ((env.now w.outside).0) b ≡ false)
  unfolding try_complete_batch ◌>>=◌ ask
  try_complete_batch-safe b transfers w row e confirmed =
      let checked =
        acks_checked b row w (any (has_ack false) transfers) (all (has_ack true) transfers) _ e
          confirmed in
      (
        checked.0,
        expiry_checked b row _ (is_expired ((env.now w.outside).0) b) _ (checked.1) confirmed,
      )
