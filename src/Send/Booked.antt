-- ===== src/Send/Booked.antt =====
-- What `save_transfers` of src/wallet/online.rs writes, against a description of it: the colorings of
-- an outgoing batch transfer.
use rgb_lib.Prelude.{
  ℕ, String, ◌≡◌, refl, sym, subst, true, false, Option, none, some, List, [], ◌∷◌, ◌++◌, ltb,
  if◌then◌else◌, inl, inr, Bool-cases,
}
use rgb_lib.Status.{ColoringType, TransferStatus, input, change, issue}
use rgb_lib.Assignment.{Assignment, AssignmentsCollection, fungible, inflation_right}
use rgb_lib.Database.Rows.{Outpoint, DbData}
use rgb_lib.Database.Linked.{Linked, HasBatchTransfer}
use rgb_lib.Result.{ok}
use rgb_lib.Action.{World, ◌>>◌, pure}
use rgb_lib.Services.{Services}
use rgb_lib.Send.{
  TypeOfTransition, inflate, transfer, burn, LocalRecipientData, LocalRecipient, InfoAssetTransfer,
  InfoBatchTransfer,
}
use rgb_lib.Send.Save.{
  save_inputs, save_spent, save_change_coloring, save_change, request_of, save_recipients,
  save_assets, save_moved, save_all_moved, save_extra, save_transfers,
}
use rgb_lib.Send.Grows.{
  rows, Extends, Extends-trans, pure-At, At, At-imp, >>=-At, Leaves->>=, Linked-rows,
  HasBatchTransfer-grow,
}
use rgb_lib.Send.Inserts.{
  Entry, IsSaved, IsSaved-grow, HasRow, HasRow-grow, Books, Books-trans, >>=-Books, pure-Books,
  abort-Books, set_coloring-At, set_transfer-At, set_asset_transfer-At, set_batch_transfer-At,
}
use rgb_lib.Send.Quiet.{
  spent_txo_idx-Leaves, own_txo_idx-Leaves, get_change_utxo_idx-Leaves, save_endpoints-Leaves,
}

abbrev pub entry : String → ColoringType → Assignment → Entry
entry id type a = record { asset_id = id; type = type; assignment = a }

-- what is spent
abbrev pub inputs_of : String → List Assignment → List Entry
inputs_of id [] = []
inputs_of id (a ∷ l) = entry id input a ∷ inputs_of id l

abbrev pub spent_entries : String → List (Outpoint × List Assignment) → List Entry
spent_entries id [] = []
spent_entries id ((o, l) ∷ rest) = inputs_of id l ++ spent_entries id rest

-- what is given back: amounts that are not zero
abbrev pub when_positive : String → ℕ → Assignment → List Entry
when_positive id n a = if ltb 0 n then entry id change a ∷ [] else []

abbrev pub change_entries : String → AssignmentsCollection → List Entry
change_entries id c =
    when_positive id c.fungible (fungible c.fungible)
    ++ when_positive id c.inflation (inflation_right c.inflation)

-- an inflation issues to its recipients, which are the wallet's own
abbrev pub issued : TypeOfTransition → String → LocalRecipient → List Entry
issued inflate id r = entry id issue r.assignment ∷ []
issued transfer id r = []
issued burn id r = []

abbrev pub issue_entries : TypeOfTransition → String → List LocalRecipient → List Entry
issue_entries type id [] = []
issue_entries type id (r ∷ rs) = issued type id r ++ issue_entries type id rs

abbrev pub asset_entries : List (String × InfoAssetTransfer) → List Entry
asset_entries [] = []
asset_entries ((id, t) ∷ rest) =
    spent_entries id t.assignments_spent
    ++ (change_entries id t.change
        ++ (issue_entries t.main_transition id t.recipients ++ asset_entries rest))

-- what is spent of other assets is given back as it was
abbrev pub moved_of : String → List Assignment → List Entry
moved_of id [] = []
moved_of id (a ∷ l) = entry id input a ∷ entry id change a ∷ moved_of id l

abbrev pub moved_entries : String → List (Outpoint × List Assignment) → List Entry
moved_entries id [] = []
moved_entries id ((o, l) ∷ rest) = moved_of id l ++ moved_entries id rest

abbrev pub extra_entries : List (String × List (Outpoint × List Assignment)) → List Entry
extra_entries [] = []
extra_entries ((id, l) ∷ rest) = moved_entries id l ++ extra_entries rest

abbrev pub entries : InfoBatchTransfer → List Entry
entries info = asset_entries info.transfers ++ extra_entries info.extra_allocations

module _ {S : Type 0} (env : Services S) where
  save_inputs-At :
      (d : DbData) (b : ℕ) (id : String) (i t : ℕ) (l : List Assignment)
      → HasRow d b i id
      → At d (save_inputs env i t l) (λ _. Books d b (inputs_of id l))
  unfolding save_inputs ◌>>◌
  save_inputs-At d b id i t [] row = pure-Books d b tt
  save_inputs-At d b id i t (a ∷ l) row =
      >>=-Books (set_coloring-At env d b id t i input a row)
        λ _ d1 g. save_inputs-At d1 b id i t l (HasRow-grow d d1 g b i id row)

  save_spent-At :
      (d : DbData) (b : ℕ) (id : String) (i : ℕ) (l : List (Outpoint × List Assignment))
      → HasRow d b i id
      → At d (save_spent env i l) (λ _. Books d b (spent_entries id l))
  unfolding save_spent ◌>>◌
  save_spent-At d b id i [] row = pure-Books d b tt
  save_spent-At d b id i ((o, l) ∷ rest) row = Leaves->>= (spent_txo_idx-Leaves env o) λ t.
      >>=-Books (save_inputs-At d b id i t l row)
        λ _ d1 g. save_spent-At d1 b id i rest (HasRow-grow d d1 g b i id row)

  save_change_coloring-At :
      (d : DbData) (b : ℕ) (id : String) (txid : String) (info : InfoBatchTransfer) (i : ℕ)
      (cached : Option ℕ) (a : Assignment)
      → HasRow d b i id
      → At d (save_change_coloring env txid info i cached a) λ _. Books d b (entry id change a ∷ [])
  unfolding save_change_coloring ◌>>◌
  save_change_coloring-At d b id txid info i cached a row =
      Leaves->>= (get_change_utxo_idx-Leaves env txid info cached) λ t.
        >>=-Books (set_coloring-At env d b id t i change a row) λ _ d1 g. pure-Books d1 b (some t)

  when_positive-At :
      (d : DbData) (b : ℕ) (id : String) (txid : String) (info : InfoBatchTransfer) (i n : ℕ)
      (cached : Option ℕ) (a : Assignment)
      → HasRow d b i id
      → At d
          (if ltb 0 n then save_change_coloring env txid info i cached a else pure cached)
          λ _. Books d b (when_positive id n a)
  when_positive-At d b id txid info i n cached a row = elim (Bool-cases (ltb 0 n)) [
    | inl given ↦ rw given (save_change_coloring-At d b id txid info i cached a row)
    | inr nothing ↦ rw nothing (pure-Books d b cached)
  ]

  save_change-At :
      (d : DbData) (b : ℕ) (id : String) (txid : String) (info : InfoBatchTransfer) (i : ℕ)
      (c : AssignmentsCollection) (cached : Option ℕ)
      → HasRow d b i id
      → At d (save_change env txid info i c cached) λ _. Books d b (change_entries id c)
  unfolding save_change
  save_change-At d b id txid info i c cached row =
      >>=-Books (when_positive-At d b id txid info i c.fungible cached (fungible c.fungible) row)
        λ after d1 g.
          when_positive-At d1 b id txid info i c.inflation after (inflation_right c.inflation)
            (HasRow-grow d d1 g b i id row)

  request_of-At :
      (d : DbData) (b : ℕ) (id : String) (type : TypeOfTransition) (kind : LocalRecipientData)
      (txid : String) (needed : AssignmentsCollection) (i : ℕ) (r : LocalRecipient)
      → HasRow d b i id
      → At d (request_of env type kind txid needed i r) λ _. Books d b (issued type id r)
  unfolding request_of ◌>>◌
  request_of-At d b id inflate (LocalRecipientData.witness w) txid needed i r row =
      Leaves->>= (own_txo_idx-Leaves env txid w.vout (env.decimal w.amount_sat)) λ t.
        >>=-Books (set_coloring-At env d b id t i issue r.assignment row)
          λ _ d1 g. pure-Books d1 b _
  request_of-At d b id inflate (LocalRecipientData.blind s) txid needed i r row =
      abort-Books d b (entry id issue r.assignment ∷ [])
  request_of-At d b id burn w txid needed i r row = pure-Books d b _
  request_of-At d b id transfer w txid needed i r row = pure-Books d b _

  save_recipients-At :
      (d : DbData) (b : ℕ) (id : String) (txid : String) (t : InfoAssetTransfer) (i : ℕ)
      (rs : List LocalRecipient)
      → HasRow d b i id
      → At d
          (save_recipients env txid t i rs)
          λ _. Books d b (issue_entries t.main_transition id rs)
  unfolding save_recipients ◌>>◌
  save_recipients-At d b id txid t i [] row = pure-Books d b tt
  save_recipients-At d b id txid t i (r ∷ rs) row =
      >>=-Books
        (request_of-At d b id t.main_transition r.local_recipient_data txid
          t.original_assignments_needed i r row)
        λ requested d1 g.
          let row1 = HasRow-grow d d1 g b i id row in
          >>=-Books (set_transfer-At env d1 b i id requested row1) λ j d2 g2.
            Leaves->>= (save_endpoints-Leaves env j r.transport_endpoints)
              λ _. save_recipients-At d2 b id txid t i rs (HasRow-grow d1 d2 g2 b i id row1)

  save_assets-At :
      (d : DbData) (b : ℕ) (txid : String) (info : InfoBatchTransfer) (cached : Option ℕ)
      (l : List (String × InfoAssetTransfer))
      → HasBatchTransfer d b
      → At d (save_assets env txid info b cached l) λ _. Books d b (asset_entries l)
  unfolding save_assets ◌>>◌
  save_assets-At d b txid info cached [] has = pure-Books d b cached
  save_assets-At d b txid info cached ((id, t) ∷ rest) has =
      >>=-At (set_asset_transfer-At env d true b id has) λ i d1 g (q, row).
        At-imp
          (>>=-Books (save_spent-At d1 b id i t.assignments_spent row) λ _ d2 g2.
            let row2 = HasRow-grow d1 d2 g2 b i id row in
            >>=-Books (save_change-At d2 b id txid info i t.change cached row2) λ cached' d3 g3.
              let row3 = HasRow-grow d2 d3 g3 b i id row2 in
              >>=-Books (save_recipients-At d3 b id txid t i t.recipients row3) λ _ d4 g4.
                save_assets-At d4 b txid info cached' rest (
                  HasBatchTransfer-grow d3 d4 g4 b (
                    HasBatchTransfer-grow d2 d3 g3 b
                      (HasBatchTransfer-grow d1 d2 g2 b (HasBatchTransfer-grow d d1 g b has)))))
          λ _ d5 g5 q5. Books-trans d d1 d5 b [] (asset_entries ((id, t) ∷ rest)) q g5 q5

  save_moved-At :
      (d : DbData) (b : ℕ) (id : String) (txid : String) (info : InfoBatchTransfer) (i t : ℕ)
      (cached : Option ℕ) (l : List Assignment)
      → HasRow d b i id
      → At d (save_moved env txid info i t cached l) λ _. Books d b (moved_of id l)
  unfolding save_moved ◌>>◌
  save_moved-At d b id txid info i t cached [] row = pure-Books d b cached
  save_moved-At d b id txid info i t cached (a ∷ l) row =
      >>=-Books (set_coloring-At env d b id t i input a row) λ _ d1 g.
        let row1 = HasRow-grow d d1 g b i id row in
        >>=-Books (save_change_coloring-At d1 b id txid info i cached a row1) λ cached' d2 g2.
          save_moved-At d2 b id txid info i t cached' l (HasRow-grow d1 d2 g2 b i id row1)

  save_all_moved-At :
      (d : DbData) (b : ℕ) (id : String) (txid : String) (info : InfoBatchTransfer) (i : ℕ)
      (cached : Option ℕ) (l : List (Outpoint × List Assignment))
      → HasRow d b i id
      → At d (save_all_moved env txid info i cached l) λ _. Books d b (moved_entries id l)
  unfolding save_all_moved
  save_all_moved-At d b id txid info i cached [] row = pure-Books d b cached
  save_all_moved-At d b id txid info i cached ((o, l) ∷ rest) row =
      Leaves->>= (spent_txo_idx-Leaves env o) λ t.
        >>=-Books (save_moved-At d b id txid info i t cached l row) λ cached' d1 g.
          save_all_moved-At d1 b id txid info i cached' rest (HasRow-grow d d1 g b i id row)

  save_extra-At :
      (d : DbData) (b : ℕ) (txid : String) (info : InfoBatchTransfer) (cached : Option ℕ)
      (l : List (String × List (Outpoint × List Assignment)))
      → HasBatchTransfer d b
      → At d (save_extra env txid info b cached l) λ _. Books d b (extra_entries l)
  unfolding save_extra
  save_extra-At d b txid info cached [] has = pure-Books d b tt
  save_extra-At d b txid info cached ((id, l) ∷ rest) has =
      >>=-At (set_asset_transfer-At env d false b id has) λ i d1 g (q, row).
        At-imp
          (>>=-Books (save_all_moved-At d1 b id txid info i cached l row) λ cached' d2 g2.
            save_extra-At d2 b txid info cached' rest
              (HasBatchTransfer-grow d1 d2 g2 b (HasBatchTransfer-grow d d1 g b has)))
          λ _ d3 g3 q3. Books-trans d d1 d3 b [] (extra_entries ((id, l) ∷ rest)) q g3 q3

  pub save_transfers-At :
      (d : DbData) (txid : String) (info : InfoBatchTransfer) (status : TransferStatus)
      → At d
          (save_transfers env txid info status)
          λ b d'. Books d b (entries info) d' × IsSaved txid d'
  unfolding save_transfers ◌>>◌
  save_transfers-At d txid info status =
      >>=-At (set_batch_transfer-At env d txid info status) λ b d1 g (q, has, saved).
        >>=-At (save_assets-At d1 b txid info none info.transfers has) λ cached d2 g2 q2.
          >>=-At
            (save_extra-At d2 b txid info cached info.extra_allocations
              (HasBatchTransfer-grow d1 d2 g2 b has))
            λ _ d3 g3 q3. At-imp (pure-At d3 b) λ c d4 g4 (e, k).
              let g13 = Extends-trans d1 d2 d3 g2 g3 in
              let after : Books d b (entries info) d3 =
                Books-trans d d1 d3 b [] (entries info) q g13 (
                  Books-trans d1 d2 d3 b (asset_entries info.transfers)
                    (extra_entries info.extra_allocations) q2 g3 q3) in
              (
                subst (λ x. Books d x (entries info) d4) (sym e)
                    (subst (Books d b (entries info)) (sym k) after),
                subst (IsSaved txid) (sym k) (IsSaved-grow txid d1 d3 g13 saved),
              )

-- On linked tables `save_transfers` only adds rows to the batch transfers, asset transfers, transfers
-- and colorings (TXOs may also be updated), and the tables stay linked, whether it returns or fails. When it returns a key, the
-- colorings it added are those described by `entries`, in order, each of an asset transfer with the
-- asset of its entry under the batch transfer with that key: the assignments spent, what is given back,
-- what is issued, and for each assignment of another asset that is spent an equal one given back.
pub save_transfers-Books :
    {S : Type 0} (env : Services S) (txid : String) (info : InfoBatchTransfer)
    (status : TransferStatus) (w : World S)
    → Linked w.store.tables
    → let (r, w') = save_transfers env txid info status w in
      Extends w.store.tables w'.store.tables
      × Linked w'.store.tables
      × ((b : ℕ) → r ≡ ok b → Books w.store.tables b (entries info) w'.store.tables)
save_transfers-Books env txid info status w linked =
    let r =
      (save_transfers-At env (rows (w.store)) txid info status).after w refl
        (Linked-rows w.store linked) in
    (
      record {
        batch_transfers = r.grown.batch_transfers;
        asset_transfers = r.grown.asset_transfers;
        transfers = r.grown.transfers;
        colorings = r.grown.colorings;
      },
      record {
        colorings = r.linked.colorings;
        transfers = r.linked.transfers;
        batches = r.linked.batches;
        assets = r.linked.assets;
      },
      λ b q. (r.result b q).0,
    )
