-- ===== src/Send/Once.antt =====
-- `update_or_save_transfers` of src/wallet/online.rs saves the rows of a transaction once.
use rgb_lib.Prelude.{
  ℕ, String, ◌≡◌, refl, sym, ap, ◌∙◌, Bool, true, false, List, [], ◌∷◌, Option, none, some, find,
  map, any, ◌&&◌, not, str_eq, inl, inr, Option-cases, arith,
}
use rgb_lib.Prelude.Int.{ℤ}
use rgb_lib.Result.{ok}
use rgb_lib.Status.{TransferStatus}
use rgb_lib.Database.Rows.{DbBatchTransfer, DbTransfer, DbData}
use rgb_lib.Database.Linked.{Linked}
use rgb_lib.Database.Updates.{
  change_batch, update_batch_transfer, set_endpoint_used, get_transfer_transport_endpoints_data,
}
use rgb_lib.Action.{Store, World, DbTransferEndpoint, map_or, ◌>>=◌, reads}
use rgb_lib.Services.{Services}
use rgb_lib.Refresh.Quiet.{Leaves, calls, >>-Quiet, >>=-Quiet, writes-Quiet}
use rgb_lib.Send.{InfoBatchTransfer, LocalRecipient}
use rgb_lib.Send.Save.{is_sent_by, copy_flags, copy_used, update_sent, update_or_save_transfers}
use rgb_lib.Send.Grows.{rows, Linked-rows}
use rgb_lib.Send.Inserts.{IsSaved}
use rgb_lib.Send.Booked.{save_transfers-At}

-- what tells batch transfers apart
pub record BatchKey : Type 0 where
  pub idx : ℕ
  pub txid : Option String
  pub incoming : Bool

abbrev pub batch_key : DbBatchTransfer → BatchKey
batch_key b = record { idx = b.idx; txid = b.txid; incoming = b.incoming }

-- the tables, with the keys alone of the batch transfers
abbrev pub saved_rows : Store → List BatchKey × DbData
saved_rows s = (map batch_key s.tables.batch_transfers, record s.tables { batch_transfers = [] })

change_batch-keys :
    (now : ℤ) (i : ℕ) (status : TransferStatus) (l : List DbBatchTransfer)
    → map batch_key (map (change_batch now (record { idx = i; txid = none; status = status })) l)
      ≡ map batch_key l
change_batch-keys now i status [] = refl
change_batch-keys now i status (b ∷ l) = ground (arith, change_batch-keys now i status l)

module _ {S : Type 0} (env : Services S) where
  update_status-Leaves :
      (i : ℕ) (status : TransferStatus)
      → Leaves saved_rows
          (update_batch_transfer env.now (record { idx = i; txid = none; status = status }))
  unfolding update_batch_transfer
  update_status-Leaves i status = >>=-Quiet (search calls) λ now.
      >>-Quiet
        (writes-Quiet _ λ s.
          ap (λ l. (l, record s.tables { batch_transfers = [] }))
            (change_batch-keys now i status s.tables.batch_transfers))
        (search calls)

  set_endpoint_used-Leaves :
      (i : ℕ) (used : Bool) → Leaves saved_rows (set_endpoint_used {S = S} i used)
  unfolding set_endpoint_used
  set_endpoint_used-Leaves i used = search calls

  endpoints-Leaves : (i : ℕ) → Leaves saved_rows (get_transfer_transport_endpoints_data {S = S} i)
  unfolding get_transfer_transport_endpoints_data
  endpoints-Leaves i = search calls

  copy_flags-Leaves :
      (r : LocalRecipient) (l : List DbTransferEndpoint) → Leaves saved_rows (copy_flags env r l)
  unfolding copy_flags
  copy_flags-Leaves r [] = search calls
  copy_flags-Leaves r (e ∷ es) =
      >>-Quiet (search (calls, set_endpoint_used-Leaves)) (copy_flags-Leaves r es)

  copy_used-Leaves :
      (ts : List DbTransfer) (rs : List LocalRecipient) → Leaves saved_rows (copy_used env ts rs)
  unfolding copy_used
  copy_used-Leaves ts [] = search calls
  copy_used-Leaves ts (r ∷ rs) = >>=-Quiet (search calls) λ t.
      >>=-Quiet (endpoints-Leaves t.idx)
        λ l. >>-Quiet (copy_flags-Leaves r l) (copy_used-Leaves ts rs)

  update_sent-Leaves :
      (info : InfoBatchTransfer) (status : TransferStatus) (sync : Bool) (b : DbBatchTransfer)
      → Leaves saved_rows (update_sent env info status sync b)
  unfolding update_sent
  update_sent-Leaves info status sync b =
      search (calls, update_status-Leaves, copy_used-Leaves) depth 9

abbrev key_is_sent : String → BatchKey → Bool
key_is_sent txid k = map_or k.txid false (λ t. str_eq t txid) && not k.incoming

any_key :
    (txid : String) (l : List DbBatchTransfer)
    → any (is_sent_by txid) l ≡ any (key_is_sent txid) (map batch_key l)
any_key txid [] = refl
any_key txid (b ∷ l) = rw (any_key txid l) refl

find-any : {A : Type 0} (p : A → Bool) (l : List A) (a : A) → find p l ≡ some a → any p l ≡ true
find-any p [] a h = absurd (cc)
find-any p (x ∷ l) a h = ground (arith, h, find-any p l a)

none-any : {A : Type 0} (p : A → Bool) (l : List A) → find p l ≡ none → any p l ≡ false
none-any p [] h = refl
none-any p (x ∷ l) h = ground (arith, h, none-any p l)

module _ {S : Type 0} (env : Services S) (txid : String) where
  IsSaved-rows :
      (s s' : Store) → saved_rows s' ≡ saved_rows s → IsSaved txid (rows s) → IsSaved txid (rows s')
  IsSaved-rows s s' e h =
      any_key txid s'.tables.batch_transfers
      ∙ ap (λ (r : List BatchKey × DbData). any (key_is_sent txid) (r.0)) e
      ∙ sym (any_key txid s.tables.batch_transfers)
      ∙ h

  -- a transaction that was saved is only updated
  update_saved :
      (info : InfoBatchTransfer) (status : TransferStatus) (sync : Bool) (w : World S)
      → IsSaved txid (rows (w.store))
      → saved_rows ((update_or_save_transfers env txid info status sync w).1.store)
        ≡ saved_rows (w.store)
  unfolding update_or_save_transfers ◌>>=◌ reads
  update_saved info status sync w saved =
      elim (Option-cases (find (is_sent_by txid) w.store.tables.batch_transfers)) [
        | inl absent ↦
            absurd (
              grind
                (arith, saved, none-any (is_sent_by txid) w.store.tables.batch_transfers absent))
        | inr (b, e) ↦ rw e ((update_sent-Leaves env info status sync b).same w)
      ]

  save-IsSaved :
      (info : InfoBatchTransfer) (status : TransferStatus) (sync : Bool) (w : World S) (b : ℕ)
      → Linked (rows (w.store))
      → (update_or_save_transfers env txid info status sync w).0 ≡ ok b
      → IsSaved txid (rows ((update_or_save_transfers env txid info status sync w).1.store))
  unfolding update_or_save_transfers ◌>>=◌ reads
  save-IsSaved info status sync w b linked =
      elim (Option-cases (find (is_sent_by txid) w.store.tables.batch_transfers)) [
        | inl absent ↦
            rw absent
              λ h. (((save_transfers-At env _ txid info status).after w refl linked).result b h).1
        | inr (x, e) ↦ rw e λ h.
            IsSaved-rows w.store ((update_sent env info status sync x w).1.store)
              ((update_sent-Leaves env info status sync x).same w)
              (find-any (is_sent_by txid) w.store.tables.batch_transfers x e)
      ]

-- Once `update_or_save_transfers` has returned for a transaction, over linked tables, a further call
-- for the same transaction, whatever its status and information and whatever its outcome, adds no
-- row: asset transfers, transfers, colorings and TXOs are as before, and so are the keys, the TXIDs
-- and the directions of the batch transfers.
pub update_or_save_transfers-once :
    {S : Type 0} (env : Services S) (txid : String) (info info' : InfoBatchTransfer)
    (status status' : TransferStatus) (sync sync' : Bool) (w : World S) (b : ℕ)
    → Linked w.store.tables
    → (update_or_save_transfers env txid info status sync w).0 ≡ ok b
    → let w1 = (update_or_save_transfers env txid info status sync w).1 in
      saved_rows ((update_or_save_transfers env txid info' status' sync' w1).1.store)
      ≡ saved_rows (w1.store)
update_or_save_transfers-once env txid info info' status status' sync sync' w b linked h =
    update_saved env txid info' status' sync'
      ((update_or_save_transfers env txid info status sync w).1)
      (save-IsSaved env txid info status sync w b (Linked-rows w.store linked) h)
