-- ===== src/Examples/Send.antt =====
-- Runs on test data: the saving of a transfer of one asset that moves another, its coloring, and the
-- search for bitcoins.
use rgb_lib.Prelude.{ℕ, ◌≡◌, refl, true, false, none, some, [], ◌∷◌}
use rgb_lib.Prelude.Int.{pos}
use rgb_lib.Status.{initiated, waiting_counterparty, input, change}
use rgb_lib.Assignment.{fungible, AssignmentsCollection}
use rgb_lib.Result.{Result, ok}
use rgb_lib.Database.Rows.{Outpoint, outpoint}
use rgb_lib.Database.Linked.{Linked}
use rgb_lib.Database.Updates.{set_txo, get_txo, set_coloring}
use rgb_lib.Action.{World, pure, ask, reads, writes, ◌>>=◌, ◌>>◌}
use rgb_lib.Examples.Refresh.{answers, world, known_txo}
use rgb_lib.Send.{
  transfer, LocalRecipientData, LocalRecipient, InfoAssetTransfer, InfoBatchTransfer,
}
use rgb_lib.Send.Rows.{set_batch_transfer, set_asset_transfer, set_transfer}
use rgb_lib.Send.Save.{
  spent_txo_idx, save_inputs, save_spent, own_txo_idx, get_change_utxo_idx, save_change_coloring,
  save_change, request_of, save_endpoints, save_recipients, save_assets, save_moved, save_all_moved,
  save_extra, save_transfers, update_or_save_transfers,
}
use rgb_lib.Send.Grows.{Extends}
use rgb_lib.Send.Inserts.{Books}
use rgb_lib.Send.Booked.{entry, entries, save_transfers-Books}
use rgb_lib.Send.Once.{saved_rows, update_or_save_transfers-once}

abbrev units : ℕ → AssignmentsCollection
units n = record { fungible = n; non_fungible = false; inflation = 0 }

abbrev pub source : Outpoint
source = outpoint known_txo

abbrev receiver : LocalRecipient
receiver = record {
  recipient_id = "r9";
  local_recipient_data = LocalRecipientData.blind "seal";
  assignment = fungible 6;
  transport_endpoints = [];
}

abbrev pub sent_asset : InfoAssetTransfer
sent_asset = record {
  asset_info = record { contract_id = "a"; reject_list_url = none };
  recipients = receiver ∷ [];
  asset_spend = record {
    input_outpoints = source ∷ [];
    assignments_collected = units 10;
    input_btc_amt = 1000;
  };
  change = units 4;
  original_assignments_needed = units 6;
  assignments_needed = units 6;
  assignments_spent = (source, fungible 10 ∷ []) ∷ [];
  main_transition = transfer;
}

-- 10 of an asset are spent, of which 4 are given back, and 3 of another asset move
abbrev info : InfoBatchTransfer
info = record {
  btc_change = some (record { vout = 2; amount = 500 });
  change_utxo_outpoint = none;
  extra_allocations = ("b", (source, fungible 3 ∷ []) ∷ []) ∷ [];
  min_confirmations = 1;
  expiration_timestamp = none;
  created_at = pos 100;
  transfers = ("a", sent_asset) ∷ [];
}

described :
    entries info
    ≡ entry "a" input (fungible 10)
      ∷ entry "a" change (fungible 4)
      ∷ entry "b" input (fungible 3)
      ∷ entry "b" change (fungible 3)
      ∷ []
described = refl

world-Linked : Linked world.store.tables
world-Linked = record {
  colorings = tt;
  transfers = ((_, refl), tt);
  batches = ((_, refl), tt);
  assets = ((λ b found waiting. ("a", refl)), tt);
}

abbrev saved : Result ℕ × World (Unit {0})
saved = save_transfers answers "t50" info initiated world

save_transfers-Books_example :
    Extends world.store.tables saved.1.store.tables
    × Linked saved.1.store.tables
    × ((b : ℕ) → saved.0 ≡ ok b → Books world.store.tables b (entries info) saved.1.store.tables)
save_transfers-Books_example = save_transfers-Books answers "t50" info initiated world world-Linked

abbrev saved_once : Result ℕ × World (Unit {0})
saved_once = update_or_save_transfers answers "t50" info initiated false world

returns : saved_once.0 ≡ ok 50
unfolding update_or_save_transfers save_transfers set_batch_transfer save_assets set_asset_transfer
    save_spent spent_txo_idx get_txo save_inputs set_coloring save_change save_change_coloring
    get_change_utxo_idx own_txo_idx set_txo save_recipients request_of set_transfer save_endpoints
    save_extra save_all_moved save_moved pure ask reads writes ◌>>=◌ ◌>>◌
returns = refl

update_or_save_transfers-once_example :
    saved_rows
      ((update_or_save_transfers answers "t50" info waiting_counterparty true saved_once.1).1.store)
    ≡ saved_rows (saved_once.1.store)
update_or_save_transfers-once_example =
    update_or_save_transfers-once answers "t50" info info initiated waiting_counterparty false true
      world 50 world-Linked returns
