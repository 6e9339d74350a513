-- ===== src/Database/Balance/Witness.antt =====
-- The pending witness receives, as an unbounded sum.
use rgb_lib.Prelude.{
  ℕ, String, ◌+◌, ◌<◌, ◌≡◌, refl, true, ◌&&◌, List, [], ◌∷◌, Option, none, some, if◌then◌else◌,
  u64_mod, arith, Bool-cases, &&_true, inl, inr, All,
}
use rgb_lib.Status.{is_waiting_confirmations}
use rgb_lib.Result.{Result, ok}
use rgb_lib.Database.Rows.{
  RecipientTypeFull, blind, witness, DbTransfer, DbAssetTransfer, DbBatchTransfer, DbData, is_asset,
}
use rgb_lib.Database.Linked.{Linked, HasAssetTransfer, related_transfers_total}
use rgb_lib.Database.Balance.{witness_of, witness_amount, witness_pending_from, requested_amount}

-- the amount that a witness receive adds, none where the transfer is not one or is of another asset
abbrev witness_part : Result (Option ℕ) → ℕ
witness_part (ok (some n)) = n
witness_part _ = 0

unfoldable pub witness_total : String → DbData → List DbTransfer → ℕ
witness_total asset_id d [] = 0
witness_total asset_id d (t ∷ ts) =
    witness_part (witness_of asset_id t t.recipient_type d.asset_transfers d.batch_transfers)
    + witness_total asset_id d ts

witness_amount_total :
    (asset_id : String) (t : DbTransfer) (a : DbAssetTransfer) (b : DbBatchTransfer)
    → (is_waiting_confirmations b.status ≡ true → (id : String) × (a.asset_id ≡ some id))
    → (w : Option ℕ) × (witness_amount asset_id t a b ≡ ok w)
witness_amount_total asset_id t a b known =
    elim (Bool-cases (b.incoming && is_waiting_confirmations b.status)) [
      | inl hit ↦
          let (id, e) = known (&&_true {a = b.incoming} hit).1 in
          (
            if is_asset asset_id (some id)
                then some (requested_amount t.requested_assignment)
                else none,
            rw (hit, e),
          )
      | inr miss ↦ (none, rw miss)
    ]

witness_of_total :
    (asset_id : String) (d : DbData) (t : DbTransfer) (r : Option RecipientTypeFull)
    → Linked d
    → HasAssetTransfer d t.asset_transfer_idx
    → (w : Option ℕ) × (witness_of asset_id t r d.asset_transfers d.batch_transfers ≡ ok w)
witness_of_total asset_id d t none linked h = (none, refl)
witness_of_total asset_id d t (some (blind u)) linked h = (none, refl)
witness_of_total asset_id d t (some (witness v)) linked h =
    let (a, b, e, known) = related_transfers_total d linked t h in
    let (w, ew) = witness_amount_total asset_id t a b known in (w, rw (e, ew))

pub witness_pending_from-total :
    (asset_id : String) (d : DbData) (acc : ℕ) (ts : List DbTransfer)
    → Linked d
    → All (λ (t : DbTransfer). HasAssetTransfer d t.asset_transfer_idx) ts
    → acc + witness_total asset_id d ts < u64_mod
    → witness_pending_from asset_id d acc ts ≡ ok (acc + witness_total asset_id d ts)
unfolding witness_pending_from witness_total
witness_pending_from-total asset_id d acc [] linked linked_ts h = ground arith
witness_pending_from-total asset_id d acc (t ∷ ts) linked linked_ts h =
    let (w, e) = witness_of_total asset_id d t t.recipient_type linked linked_ts.0 in
    step w e (λ acc'. witness_pending_from-total asset_id d acc' ts linked linked_ts.1)
  where
    step :
        (w : Option ℕ)
        → witness_of asset_id t t.recipient_type d.asset_transfers d.batch_transfers ≡ ok w
        → ((acc' : ℕ)
            → acc' + witness_total asset_id d ts < u64_mod
            → witness_pending_from asset_id d acc' ts ≡ ok (acc' + witness_total asset_id d ts))
        → witness_pending_from asset_id d acc (t ∷ ts)
          ≡ ok (acc + witness_total asset_id d (t ∷ ts))
    step none e ih = ground (arith, e, ih acc)
    step (some n) e ih = ground (arith, e, ih (acc + n))
