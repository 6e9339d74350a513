-- ===== src/Multisig/Next.antt =====
-- `sync_with_hub` and `process_operation` of src/wallet/multisig.rs go through the operations of the
-- hub one by one.
use rgb_lib.Prelude.{
  ℕ, ◌+◌, ◌≡◌, refl, sym, ap, ◌∙◌, subst, ◌≢◌, ◌⊎◌, inl, inr, true, false, List, Option, none, some,
  arith,
}
use rgb_lib.Status.{AssetSchema}
use rgb_lib.Result.{Result, ok, err, panic, ok_injective}
use rgb_lib.Action.{map_or}
use rgb_lib.Services.{Services}
use rgb_lib.Multisig.{
  OperationStatus, pending, approved, discarded, OperationResponse, OperationInfo,
}
use rgb_lib.Multisig.Process.{
  Wallet, Process, Hub, follow, end_transaction, give, ◌>>=◌, ◌>>◌, of_result, call, in_transaction,
  get_last_processed, last_or_zero,
}
use rgb_lib.Multisig.Sync.{prepare, process_next, next_idx, sync_with_hub}
use rgb_lib.Multisig.Marks.{Keeps, call-Keeps, >>-Keeps, in_transaction-Keeps}
use rgb_lib.Multisig.Advance.{
  index_after, Handled-Advances, refresh_transfers-Keeps, process_next-Handled, process_next-Yields,
}

-- what a synchronisation does from the index `last`, where the hub's answer for the next index is
-- `reply`
pub record Turn {S : Type 0} (reply : Result (Option OperationResponse)) (last : Option ℕ)
    (r : Result (Option OperationInfo)) (w : Wallet S) : Type 0 where
  pub moved : (w.last_processed ≡ last) ⊎ (w.last_processed ≡ some (last_or_zero last + 1))
  pub shown :
      (info : OperationInfo)
      → r ≡ ok (some info)
      → (op : OperationResponse) × (reply ≡ ok (some op))
        × (op.operation_idx ≡ last_or_zero last + 1)
        × (info.operation_idx ≡ op.operation_idx)
        × (w.last_processed ≡ index_after op.status op.operation_idx last)
  pub idle : r ≡ ok none → (reply ≡ ok none) × (w.last_processed ≡ last)

-- the hub answers with the operation that it is asked for
abbrev pub Indexed : {S : Type 0} → Hub S → Type 0
Indexed {S} hub =
    (i : ℕ) (op : OperationResponse) (w : rgb_lib.Action.World S)
    → (hub.get_operation_by_idx i w).0 ≡ ok (some op)
    → op.operation_idx ≡ i

module _ {S : Type 0} (env : Services S) (schemas : List AssetSchema) (hub : Hub S)
    (indexed : Indexed hub) where
  stops :
      (reply : Result (Option OperationResponse)) (last : Option ℕ)
      (r : Result (Option OperationInfo)) (w : Wallet S)
      → w.last_processed ≡ last
      → ((o : Option OperationInfo) → r ≢ ok o)
      → Turn reply last r w
  stops reply last r w h n = record {
    moved = inl h;
    shown = λ info e. absurd (n (some info) e);
    idle = λ e. absurd (n none e);
  }

  follow-Turn :
      {A : Type 0} (reply : Result (Option OperationResponse)) (last : Option ℕ) (r : Result A)
      (w : Wallet S) (f : A → Process S (Option OperationInfo))
      → w.last_processed ≡ last
      → ((a : A) → r ≡ ok a → Turn reply last ((f a w).0) ((f a w).1))
      → Turn reply last ((follow (r, w) f).0) ((follow (r, w) f).1)
  follow-Turn reply last (ok a) w f h k = k a refl
  follow-Turn reply last (err e) w f h k = stops reply last (err e) w h λ info q. absurd (cc)
  follow-Turn reply last panic w f h k = stops reply last panic w h λ info q. absurd (cc)

  index-settled :
      (status : OperationStatus) (i : ℕ) (last x : Option ℕ)
      → (x ≡ last) ⊎ (x ≡ index_after status i last)
      → (x ≡ last) ⊎ (x ≡ some i)
  index-settled pending i last x (inl e) = inl e
  index-settled pending i last x (inr e) = inl e
  index-settled approved i last x h = h
  index-settled discarded i last x h = h

  process_next-Turn :
      (op : OperationResponse) (w : Wallet S)
      → op.operation_idx ≡ last_or_zero w.last_processed + 1
      → Turn
          (ok (some op))
          w.last_processed
          ((process_next env schemas hub op w).0)
          ((process_next env schemas hub op w).1)
  process_next-Turn op w e =
      let (done, either) =
        Handled-Advances op.status op.operation_idx (process_next env schemas hub op) w
          (process_next-Handled env schemas hub op) in
      record {
        moved =
            subst
              (λ i.
                ((process_next env schemas hub op w).1.last_processed ≡ w.last_processed)
                ⊎ ((process_next env schemas hub op w).1.last_processed ≡ some i))
              e (index-settled op.status op.operation_idx w.last_processed _ either);
        shown = λ info q.
            let (info', same, idx) = process_next-Yields env schemas hub op w (some info) q in
            let equal : info' ≡ info = cc in
            (
              op,
              refl,
              e,
              subst (λ (x : OperationInfo). x.operation_idx ≡ op.operation_idx) equal idx,
              done (some info) q,
            );
        idle = λ q.
            let (info', same, idx) = process_next-Yields env schemas hub op w none q in absurd (cc);
      }

  prepare-Keeps : Keeps (prepare env schemas hub)
  unfolding prepare get_last_processed
  prepare-Keeps = in_transaction-Keeps (
      >>-Keeps (call-Keeps (hub.sync_wallet true)) (
        >>-Keeps (call-Keeps (hub.sync_wallet false)) (
          >>-Keeps (refresh_transfers-Keeps env schemas hub)
            (>>-Keeps (refresh_transfers-Keeps env schemas hub) (record { same = λ w. refl })))))

  -- what is read is the index of before
  Tells : Process S ℕ → Type 0
  Tells m = (w : Wallet S) (i : ℕ) → (m w).0 ≡ ok i → i ≡ last_or_zero w.last_processed

  follow-Tells :
      {A : Type 0} (r : Result A) (w w' : Wallet S) (k : Process S ℕ) (i : ℕ)
      → w'.last_processed ≡ w.last_processed
      → Tells k
      → (follow (r, w') (λ _. k)).0 ≡ ok i
      → i ≡ last_or_zero w.last_processed
  unfolding Tells
  follow-Tells (ok a) w w' k i h t e = t w' i e ∙ ap last_or_zero h
  follow-Tells (err x) w w' k i h t e = absurd (cc)
  follow-Tells panic w w' k i h t e = absurd (cc)

  >>-Tells : {A : Type 0} {m : Process S A} (k : Process S ℕ) → Keeps m → Tells k → Tells (m >> k)
  unfolding ◌>>◌ ◌>>=◌ Tells
  >>-Tells {A} {m} k h t w i e = follow-Tells ((m w).0) w ((m w).1) k i (h.same w) t e

  ended-ok :
      {A : Type 0} (r : Result A) (w w' : Wallet S) (a : A)
      → (end_transaction w (r, w')).0 ≡ ok a
      → r ≡ ok a
  ended-ok (ok b) w w' a e = e
  ended-ok (err x) w w' a e = e
  ended-ok panic w w' a e = e

  prepare-Tells : Tells (prepare env schemas hub)
  unfolding prepare in_transaction get_last_processed Tells
  prepare-Tells w i e =
      >>-Tells _ (call-Keeps (hub.sync_wallet true))
        (>>-Tells _ (call-Keeps (hub.sync_wallet false)) (
          >>-Tells _ (refresh_transfers-Keeps env schemas hub)
            (>>-Tells _ (refresh_transfers-Keeps env schemas hub) (λ w i q. sym (ok_injective q)))))
        w i (ended-ok _ w _ i e)

  next_idx-suc : (i n : ℕ) → next_idx env schemas hub i ≡ ok n → n ≡ i + 1
  next_idx-suc i n h = ground (arith, h)

  asked-Turn :
      (o : Option OperationResponse) (w : Wallet S)
      → ((op : OperationResponse)
          → o ≡ some op
          → op.operation_idx ≡ last_or_zero w.last_processed + 1)
      → Turn
          (ok o)
          w.last_processed
          ((map_or o (give none) (process_next env schemas hub) w).0)
          ((map_or o (give none) (process_next env schemas hub) w).1)
  unfolding give
  asked-Turn none w h = record {
    moved = inl refl;
    shown = λ info q. absurd (cc);
    idle = λ q. (refl, refl);
  }
  asked-Turn (some op) w h = process_next-Turn op w (h op refl)

-- With a hub that answers with the operation that it is asked for, a synchronisation goes one
-- operation on or none, whatever its outcome: the index of the last processed operation stays or
-- grows by one. Where it returns an operation, the hub had answered the request for the next index,
-- made after the preparation, with an operation, whose index is the one returned, and the index has
-- grown exactly where that operation was approved or discarded. Where it returns none, the hub had
-- none and the index has stayed.
pub sync_with_hub-Turn :
    {S : Type 0} (env : Services S) (schemas : List AssetSchema) (hub : Hub S) (w : Wallet S)
    → Indexed hub
    → Turn
        ((hub.get_operation_by_idx
          (last_or_zero w.last_processed + 1)
          (prepare env schemas hub w).1.world).0)
        w.last_processed
        ((sync_with_hub env schemas hub w).0)
        ((sync_with_hub env schemas hub w).1)
unfolding sync_with_hub ◌>>=◌ of_result call Tells
sync_with_hub-Turn {S} env schemas hub w indexed =
    let w1 = (prepare env schemas hub w).1 in
    let reply = (hub.get_operation_by_idx (last_or_zero w.last_processed + 1) w1.world).0 in
    follow-Turn env schemas hub indexed reply w.last_processed ((prepare env schemas hub w).0) w1 _
      kept
      λ i ei.
        follow-Turn env schemas hub indexed reply w.last_processed (next_idx env schemas hub i) w1 _
          kept
          λ n en.
            let asked = hub.get_operation_by_idx n w1.world in
            let w2 : Wallet S = record w1 { world = asked.1 } in
            follow-Turn env schemas hub indexed reply w.last_processed (asked.0) w2 _ kept λ o eo.
              let idx : n ≡ last_or_zero w.last_processed + 1 =
                next_idx-suc env schemas hub indexed i n en
                ∙ ap (λ x. x + 1) (prepare-Tells env schemas hub indexed w i ei) in
              let answered : ok o ≡ reply =
                sym eo ∙ ap (λ k. (hub.get_operation_by_idx k w1.world).0) idx in
              subst
                (λ x.
                  Turn x w.last_processed
                    ((map_or o (give none) (process_next env schemas hub) w2).0)
                    ((map_or o (give none) (process_next env schemas hub) w2).1))
                answered
                (subst
                  (λ l.
                    Turn (ok o) l ((map_or o (give none) (process_next env schemas hub) w2).0)
                      ((map_or o (give none) (process_next env schemas hub) w2).1))
                  kept
                  (asked-Turn env schemas hub indexed o w2 λ op eq.
                    indexed n op w1.world (eo ∙ ap ok eq)
                    ∙ idx
                    ∙ ap (λ l. last_or_zero l + 1) (sym kept)))
  where
    kept : (prepare env schemas hub w).1.last_processed ≡ w.last_processed
    kept = (prepare-Keeps env schemas hub indexed).same w
