-- ===== src/Send/Save.antt =====
-- `save_transfers`, with what it calls, and `update_or_save_transfers` of src/wallet/online.rs.
use rgb_lib.Prelude.{
  ℕ, String, Bool, true, false, not, List, [], ◌∷◌, Option, none, some, find, str_eq, ltb, bool_eq,
  concat_map, ◌&&◌, if◌then◌else◌,
}
use rgb_lib.Status.{TransferStatus, input, change, issue}
use rgb_lib.Assignment.{Assignment, AssignmentsCollection, fungible, inflation_right}
use rgb_lib.Database.Rows.{Outpoint, witness, DbBatchTransfer, DbTransfer}
use rgb_lib.Database.Joins.{DbAssetTransferData, get_transfers}
use rgb_lib.Database.Updates.{
  set_txo, get_txo, set_coloring, update_batch_transfer, set_endpoint_used,
  get_transfer_transport_endpoints_data,
}
use rgb_lib.Action.{
  DbTransferEndpoint, Action, map_or, pure, abort, ◌>>=◌, ◌>>◌, request, reads, unwrap,
}
use rgb_lib.Services.{Services}
use rgb_lib.Refresh.Broadcast.{update_db_colored_txos_from_bdk}
use rgb_lib.Send.{
  TypeOfTransition, inflate, transfer, burn, LocalRecipientData, LocalTransportEndpoint,
  LocalRecipient, InfoAssetTransfer, InfoBatchTransfer,
}
use rgb_lib.Send.Rows.{
  unknown_txo, columns, Requested, set_batch_transfer, set_asset_transfer, set_transfer,
  save_transfer_transport_endpoint,
}

-- whether the recipient's endpoint with the same URL was used
abbrev pub was_used : LocalRecipient → DbTransferEndpoint → Bool
was_used r e =
    map_or
      (find (λ (l : LocalTransportEndpoint). str_eq l.endpoint e.endpoint) r.transport_endpoints)
      false (λ l. l.used)

abbrev pub is_for : LocalRecipient → DbTransfer → Bool
is_for r t = map_or t.recipient_id false (λ i. str_eq i r.recipient_id)

abbrev pub is_sent_by : String → DbBatchTransfer → Bool
is_sent_by txid b = map_or b.txid false (λ t. str_eq t txid) && not b.incoming

module _ {S : Type 0} (env : Services S) where
  -- the key of the row of an outpoint that is spent; one that is not known yet is looked for in the
  -- BDK wallet, spent outputs included
  unfoldable pub spent_txo_idx : Outpoint → Action S ℕ
  spent_txo_idx o = do
    known ← get_txo o
    let look_up : Action S ℕ = do
      request env.sync_colored
      update_db_colored_txos_from_bdk env true
      found ← get_txo o
      t ← unwrap found
      set_txo env.fresh_idx (columns t)
    map_or known look_up (λ t. pure t.idx)

  unfoldable pub save_inputs : ℕ → ℕ → List Assignment → Action S (Unit {0})
  save_inputs asset_transfer_idx txo_idx [] = pure tt
  save_inputs asset_transfer_idx txo_idx (a ∷ as') = do
    set_coloring env.fresh_idx txo_idx asset_transfer_idx input a
    save_inputs asset_transfer_idx txo_idx as'

  -- the loop over `assignments_spent`
  unfoldable pub save_spent : ℕ → List (Outpoint × List Assignment) → Action S (Unit {0})
  save_spent asset_transfer_idx [] = pure tt
  save_spent asset_transfer_idx ((o, l) ∷ rest) = do
    i ← spent_txo_idx o
    save_inputs asset_transfer_idx i l
    save_spent asset_transfer_idx rest

  -- the key of the row of an output of the new transaction
  unfoldable pub own_txo_idx : String → ℕ → String → Action S ℕ
  own_txo_idx txid vout sats = do
    known ← get_txo (record { txid = txid; vout = vout })
    map_or known (set_txo env.fresh_idx (unknown_txo txid vout sats)) (λ t. pure t.idx)

  abbrev pub change_output : Option Outpoint → Action S ℕ
  change_output source = do o ← unwrap source; found ← get_txo o; t ← unwrap found; pure t.idx

  -- `cached` is `change_utxo_idx`, which holds the answer afterwards
  unfoldable pub get_change_utxo_idx : String → InfoBatchTransfer → Option ℕ → Action S ℕ
  get_change_utxo_idx txid info cached =
      map_or cached
        (map_or info.btc_change (change_output info.change_utxo_outpoint)
          (λ c. own_txo_idx txid c.vout (env.decimal c.amount)))
        pure

  -- what is given back, and the new `change_utxo_idx`
  unfoldable pub save_change_coloring :
      String → InfoBatchTransfer → ℕ → Option ℕ → Assignment → Action S (Option ℕ)
  save_change_coloring txid info asset_transfer_idx cached a = do
    i ← get_change_utxo_idx txid info cached
    set_coloring env.fresh_idx i asset_transfer_idx change a
    pure (some i)

  unfoldable pub save_change :
      String → InfoBatchTransfer → ℕ → AssignmentsCollection → Option ℕ → Action S (Option ℕ)
  save_change txid info asset_transfer_idx given_back cached = do
    after ←
        (if ltb 0 given_back.fungible
          then save_change_coloring txid info asset_transfer_idx cached
              (fungible given_back.fungible)
          else pure cached)
    if ltb 0 given_back.inflation
        then save_change_coloring txid info asset_transfer_idx after
            (inflation_right given_back.inflation)
        else pure after

  -- the columns of a recipient's transfer; an inflation colors the output that it issues to
  unfoldable pub request_of :
      TypeOfTransition
      → LocalRecipientData
      → String
      → AssignmentsCollection
      → ℕ
      → LocalRecipient
      → Action S Requested
  request_of inflate (LocalRecipientData.witness d) txid needed asset_transfer_idx r = do
    i ← own_txo_idx txid d.vout (env.decimal d.amount_sat)
    set_coloring env.fresh_idx i asset_transfer_idx issue r.assignment
    pure (record {
      recipient_id = some r.recipient_id;
      recipient_type = some (witness (some d.vout));
      requested_assignment = r.assignment;
    })
  request_of inflate (LocalRecipientData.blind s) txid needed asset_transfer_idx r = abort
  request_of burn d txid needed asset_transfer_idx r = pure (record {
    recipient_id = none;
    recipient_type = none;
    requested_assignment = fungible needed.fungible;
  })
  request_of transfer d txid needed asset_transfer_idx r = pure (record {
    recipient_id = some r.recipient_id;
    recipient_type = none;
    requested_assignment = r.assignment;
  })

  unfoldable pub save_endpoints : ℕ → List LocalTransportEndpoint → Action S (Unit {0})
  save_endpoints transfer_idx [] = pure tt
  save_endpoints transfer_idx (e ∷ es) = do
    save_transfer_transport_endpoint env transfer_idx e
    save_endpoints transfer_idx es

  unfoldable pub save_recipients :
      String → InfoAssetTransfer → ℕ → List LocalRecipient → Action S (Unit {0})
  save_recipients txid info asset_transfer_idx [] = pure tt
  save_recipients txid info asset_transfer_idx (r ∷ rs) = do
    requested ←
        request_of info.main_transition r.local_recipient_data txid info.original_assignments_needed
          asset_transfer_idx r
    transfer_idx ← set_transfer env asset_transfer_idx requested
    save_endpoints transfer_idx r.transport_endpoints
    save_recipients txid info asset_transfer_idx rs

  -- the loop over `info_contents.transfers`
  unfoldable pub save_assets :
      String
      → InfoBatchTransfer
      → ℕ
      → Option ℕ
      → List (String × InfoAssetTransfer)
      → Action S (Option ℕ)
  save_assets txid info batch_transfer_idx cached [] = pure cached
  save_assets txid info batch_transfer_idx cached ((asset_id, t) ∷ rest) = do
    i ← set_asset_transfer env true batch_transfer_idx asset_id
    save_spent i t.assignments_spent
    cached' ← save_change txid info i t.change cached
    save_recipients txid t i t.recipients
    save_assets txid info batch_transfer_idx cached' rest

  -- assignments of other assets on a spent TXO go back to the wallet, each to the change
  unfoldable pub save_moved :
      String → InfoBatchTransfer → ℕ → ℕ → Option ℕ → List Assignment → Action S (Option ℕ)
  save_moved txid info asset_transfer_idx txo_idx cached [] = pure cached
  save_moved txid info asset_transfer_idx txo_idx cached (a ∷ as') = do
    set_coloring env.fresh_idx txo_idx asset_transfer_idx input a
    cached' ← save_change_coloring txid info asset_transfer_idx cached a
    save_moved txid info asset_transfer_idx txo_idx cached' as'

  unfoldable pub save_all_moved :
      String
      → InfoBatchTransfer
      → ℕ
      → Option ℕ
      → List (Outpoint × List Assignment)
      → Action S (Option ℕ)
  save_all_moved txid info asset_transfer_idx cached [] = pure cached
  save_all_moved txid info asset_transfer_idx cached ((o, l) ∷ rest) = do
    i ← spent_txo_idx o
    cached' ← save_moved txid info asset_transfer_idx i cached l
    save_all_moved txid info asset_transfer_idx cached' rest

  -- the loop over `info_contents.extra_allocations`
  unfoldable pub save_extra :
      String
      → InfoBatchTransfer
      → ℕ
      → Option ℕ
      → List (String × List (Outpoint × List Assignment))
      → Action S (Unit {0})
  save_extra txid info batch_transfer_idx cached [] = pure tt
  save_extra txid info batch_transfer_idx cached ((asset_id, l) ∷ rest) = do
    i ← set_asset_transfer env false batch_transfer_idx asset_id
    cached' ← save_all_moved txid info i cached l
    save_extra txid info batch_transfer_idx cached' rest

  unfoldable pub save_transfers : String → InfoBatchTransfer → TransferStatus → Action S ℕ
  save_transfers txid info status = do
    i ← set_batch_transfer env txid info status
    cached ← save_assets txid info i none info.transfers
    save_extra txid info i cached info.extra_allocations
    pure i

  unfoldable pub copy_flags : LocalRecipient → List DbTransferEndpoint → Action S (Unit {0})
  copy_flags r [] = pure tt
  copy_flags r (e ∷ es) = do
    (if bool_eq e.used (was_used r e) then pure tt else set_endpoint_used e.idx (was_used r e))
    copy_flags r es

  unfoldable pub copy_used : List DbTransfer → List LocalRecipient → Action S (Unit {0})
  copy_used transfers [] = pure tt
  copy_used transfers (r ∷ rs) = do
    t ← unwrap (find (is_for r) transfers)
    endpoints ← get_transfer_transport_endpoints_data t.idx
    copy_flags r endpoints
    copy_used transfers rs

  -- the row of the transaction that was saved before takes the new status
  unfoldable pub update_sent :
      InfoBatchTransfer → TransferStatus → Bool → DbBatchTransfer → Action S ℕ
  update_sent info status sync_tte_used b = do
    update_batch_transfer env.now (record { idx = b.idx; txid = none; status = status })
    let sync : Action S (Unit {0}) = do
      l ← reads λ s. get_transfers b s.tables.asset_transfers s.tables.transfers
      copy_used (concat_map (λ (a : DbAssetTransferData). a.transfers) l)
          (concat_map (λ (t : String × InfoAssetTransfer). t.1.recipients) info.transfers)
    (if sync_tte_used then sync else pure tt)
    pure b.idx

  unfoldable pub update_or_save_transfers :
      String → InfoBatchTransfer → TransferStatus → Bool → Action S ℕ
  update_or_save_transfers txid info status sync_tte_used = do
    existing ← reads λ s. find (is_sent_by txid) s.tables.batch_transfers
    map_or existing (save_transfers txid info status) (update_sent info status sync_tte_used)
