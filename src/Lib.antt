-- ===== src/Lib.antt =====
-- The wallet library: an RGB wallet that keeps its transfers in a database.
--
-- Parts and files
--   A transfer moves one or more assets in one transaction. Its row is a batch transfer; for each
--   asset there is an asset transfer, and for each recipient a transfer. A coloring says that an asset
--   transfer put an assignment on a TXO or spent one there. What a TXO holds, what a balance is, which
--   TXOs a transfer spends and which take a new allocation are all computed from these five tables.
--
--   Status        src/database/enums.rs: the statuses of a transfer and their classes (failed, pending,
--                 settled, ...), coloring types, schemas; RefreshTransferStatus of
--                 src/wallet/objects.rs.
--   Assignment    Assignment of src/database/enums.rs, AssignmentsCollection of src/wallet/objects.rs.
--   Collection    The methods of AssignmentsCollection (add_fungible, ..., change, enough) and
--                 Assignment::add_to_assignments. Collection/Cover says what `enough` decides.
--   Database      src/database/mod.rs. Rows has the tables and the objects read from them, Joins the
--                 methods of the row types and get_rgb_allocations, Balance get_asset_balance,
--                 Deletes del_coloring, del_txo and del_batch_transfer, Updates set_txo and the
--                 updates that a refresh makes. Linked states what the foreign keys demand of the
--                 tables, and that the asset of a transfer that waits for confirmations
--                 is known; Balance/* are the sums, and when two tables have the same
--                 balances (Alike, Same).
--   Wallet        Selection is select_rgb_inputs of src/wallet/online.rs, Slots is
--                 get_available_allocations and get_utxo, Issue is get_total_issue_amount and
--                 get_total_inflation_amount, Delete is delete_transfers, Unspents is
--                 list_unspents, all of src/wallet/offline.rs. Their child files hold the proofs.
--   Refresh       The refresh of pending transfers, of src/wallet/online.rs. Run has refresh,
--                 refresh_transfer and fail_transfers. Sending is wait_ack and try_complete_batch;
--                 Download, Checks, Validation, Media and Assignments are wait_consignment and what
--                 it calls; Receiving is ack_consignment, wait_safe_height and wait_confirmations;
--                 Rejects is get_reject_list and check_dag, Broadcast the broadcast and the update of
--                 TXOs (src/wallet/core.rs), Hub the decisions of a multisig wallet
--                 (src/wallet/multisig.rs). Steps/Life is the state machine of a batch transfer;
--                 Quiet, Untouched, Moves, Visits and Steps carry it through the code, Progress,
--                 Failing, Ending and Finished through the runs.
--   Send          The preparing and saving of outgoing transfers, of src/wallet/online.rs. Coloring is
--                 the loop of prepare_rgb_psbt over the outputs of an asset, Coloring/Psbt its
--                 transitions; Coloring/Split, Conserve and Whole are what they give out, Spent
--                 what they spend.
--                 Fee is get_input_unspents and try_prepare_psbt. Rows has the inserts, Save is
--                 save_transfers and update_or_save_transfers; Grows, Inserts and Booked say which
--                 rows they add, Once that they add them once.
--   Multisig      The operations that the cosigners of a multisig wallet share through a hub, of
--                 src/wallet/multisig.rs with the objects of src/api/multisig_hub.rs. Files has the
--                 files of an operation and mark_operation_as_processed, Handlers handle_operation
--                 with its handlers and process_operation, Sync sync_with_hub, Respond
--                 respond_to_operation. Process is the wallet with the index of the last processed
--                 operation (src/wallet/backup.rs) and the calls on it; Marks and Order say which
--                 calls set the index, Advance and Next what follows for a synchronisation, Posted
--                 what a posted response has passed.
--   Action        A call inside a database transaction: a function of the tables and of all that is
--                 outside, which keeps what it wrote when it fails.
--   Services      What the wallet asks of others, as parameters.
--   Result        The outcome of a call: ok, err with an error of src/error.rs, panic.
--   Prelude       Shared tests, lists, sorting, membership, u64 and signed numbers.
--   Examples      Runs on test data.
--
-- How the code is modelled
--   A method of the database is a function of the tables; a method that changes them returns the new
--   tables. A SeaORM statement is read as the list operation that its filter says, with the actions
--   of the foreign keys of migration/src/m20230608_071249_init_db.rs: a deleted batch transfer takes
--   its asset transfers and their transfers along, and is refused while a coloring refers to one of
--   the asset transfers, as is the deletion of a TXO. That the database itself answers is assumed:
--   its connection errors are not modelled. A database transaction that is not committed leaves the
--   tables as they were.
--   Amounts are u64 as natural numbers, with checked_add and checked_sub written out and with the
--   overflow checks of the release profile (Cargo.toml), under which a sum that does not fit panics.
--   The i128 of the balance is an integer: two u64 cannot leave it. Keys (i32) are natural numbers, and
--   counts of allocations (u32) are not bounded. sort_by is a stable sort; a HashMap is an association
--   list, a HashSet a list without repetition. Every loop is a recursion on a list, but for the search
--   of check_dag, whose fuel is one more than the edges of the graph, since a node is expanded once,
--   and for try_prepare_psbt, which adds one of the unspents offered in each turn but the last.
--   The clock, the indexer, the proxies, the hub, the BDK wallet, files and the RGB library are the
--   record Services of functions on a state S, of which nothing is assumed: an answer may depend on
--   all that was asked before and may be an error or a panic. Where the upsert of set_txo updates a
--   row that is there, the key that the driver reports is left open. A refresh goes on after the
--   error of one transfer and keeps what it wrote, as the code does; the error or panic of the
--   whole call takes the tables back, not what was done outside. The order of a HashSet of TXIDs
--   and of the assignments received is that of a list.
--   The hub of a multisig wallet, its files and PSBTs, and the operations of the wallet that a processed
--   operation ends with (create_utxos_end_impl, send_end_impl, ...) are the record Hub, of the same
--   kind. The indexes of operations (i32) are natural numbers, whose successor may panic.
--
-- Not modelled
--   The checks of recipients and the retries of a send, the rejection of outputs while it is prepared,
--   the writing of PSBTs, fascias and consignments, inflation, the creation of UTXOs, the creation and
--   the posting of operations of a multisig wallet, backup, keys, the clients of indexers, proxies and
--   hubs, the BDK tables and the bindings. delete_transfers, sync_with_hub, respond_to_operation,
--   refresh and fail_transfers also store the time of the operation for backups; that row is left out,
--   as is the check that the wallet is online. extract_asset_data is a parameter, and of a new asset
--   only the row of `asset` is written. The errors of provide_out_of_band_ack that refuse a call
--   are one error, and the entropy that it returns is left out. list_unspents is modelled after its
--   synchronisation with the indexer; what the BDK wallet knows of outpoints and its internal unspents
--   are parameters, so that the panic of the conversion of an outpoint whose TXID does not parse is
--   left out there. Logging is left out.
mod Prelude
pub mod Status
pub mod Assignment
pub mod Result
pub mod Action
pub mod Services
pub mod Collection
pub mod Database
pub mod Wallet
pub mod Refresh
pub mod Send
pub mod Multisig
mod Examples
