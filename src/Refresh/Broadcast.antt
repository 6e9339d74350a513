-- ===== src/Refresh/Broadcast.antt =====
-- `broadcast_tx`, `broadcast_psbt` and `broadcast_and_update_rgb` of src/wallet/online.rs, and
-- `update_db_colored_txos_from_bdk` and `sync_wallet` of src/wallet/core.rs.
use Prim.Native.Char.{code}
use rgb_lib.Prelude.{
  String, Bool, true, false, not, ◌&&◌, ◌||◌, List, [], ◌∷◌, map, Option, none, some, filter, any,
  ◌==◌, str_eq, if◌then◌else◌,
}
use rgb_lib.Result.{Error, min_fee_not_met, max_fee_exceeded, failed_broadcast}
use rgb_lib.Database.Rows.{Outpoint, outpoint_eq, outpoint, DbTxo}
use rgb_lib.Database.Updates.{NewTxo, set_txo, get_txo, update_txo, del_pending_witness_script}
use rgb_lib.Action.{Action, map_or, pure, raise, ◌>>=◌, ◌>>◌, ask, request, reads}
use rgb_lib.Services.{
  Services, Tx, BdkOutput, BroadcastReply, accepted, rejected_electrum, rejected_esplora,
  rejected_otherwise,
}

-- `starts_with` and `contains` of `str`
unfoldable pub starts_with : String → String → Bool
starts_with String.[] s = true
starts_with (String.◌∷◌ c p) String.[] = false
starts_with (String.◌∷◌ c p) (String.◌∷◌ d s) = (code c == code d) && starts_with p s

unfoldable pub str_contains : String → String → Bool
unfolding starts_with
str_contains p String.[] = starts_with p String.[]
str_contains p (String.◌∷◌ d s) = starts_with p (String.◌∷◌ d s) || str_contains p s

-- how the text of an error is told: a fee below the minimum, one above the maximum, or another
abbrev pub fee_error : String → Bool → Bool → Option Error
fee_error txid low high =
    if low then some (min_fee_not_met txid) else if high then some (max_fee_exceeded txid) else none

unfoldable pub broadcast_error : String → BroadcastReply → Option Error
unfolding str_contains
broadcast_error txid accepted = none
broadcast_error txid (rejected_electrum m) =
    fee_error txid
      (str_contains "min relay fee not met" m || str_contains "mempool min fee not met" m)
      (str_contains "Fee exceeds maximum configured" m)
broadcast_error txid (rejected_esplora m) =
    fee_error txid (str_contains "min relay fee not met" m)
      (str_contains "Fee exceeds maximum configured" m)
broadcast_error txid rejected_otherwise = none

abbrev pub is_accepted : BroadcastReply → Bool
is_accepted accepted = true
is_accepted _ = false

-- the row of an output of the BDK wallet
abbrev pub txo_of_output : Bool → BdkOutput → NewTxo
txo_of_output pending_witness o = record {
  txid = o.outpoint.txid;
  vout = o.outpoint.vout;
  btc_amount = o.sats;
  spent = o.is_spent;
  exists = true;
  pending_witness = pending_witness;
}

-- the outputs that the database does not know as existing
abbrev pub new_outputs : Bool → List DbTxo → List BdkOutput → List BdkOutput
new_outputs include_spent txos outputs =
    filter
      (λ (o : BdkOutput). not (
        any (outpoint_eq o.outpoint)
          (map outpoint (filter (λ (t : DbTxo). t.exists && (include_spent || not t.spent)) txos))))
      (filter (λ (o : BdkOutput). o.external)
        (filter (λ (o : BdkOutput). include_spent || not o.is_spent) outputs))

module _ {S : Type 0} (env : Services S) where
  -- whether the network knows the transaction all the same
  unfoldable pub look_up : Tx → Action S Tx
  look_up tx = do
    confirmations ← request (env.get_tx_confirmations tx.txid)
    map_or confirmations (raise failed_broadcast) (λ _. pure tx)

  unfoldable pub broadcast_tx : Tx → Action S Tx
  unfolding broadcast_error
  broadcast_tx tx = do
    reply ← ask (env.broadcast tx)
    if is_accepted reply then pure tx else map_or (broadcast_error tx.txid reply) (look_up tx) raise

  -- `pending` are the scripts read at the start
  unfoldable pub save_output : List String → BdkOutput → Action S (Unit {0})
  save_output pending o =
      if any (str_eq o.script) pending
      then (del_pending_witness_script o.script
          >> set_txo env.fresh_idx (txo_of_output true o)
          >> pure tt)
      else (set_txo env.fresh_idx (txo_of_output false o) >> pure tt)

  unfoldable pub save_outputs : List String → List BdkOutput → Action S (Unit {0})
  save_outputs pending [] = pure tt
  save_outputs pending (o ∷ os) = do save_output pending o; save_outputs pending os

  unfoldable pub update_db_colored_txos_from_bdk : Bool → Action S (Unit {0})
  update_db_colored_txos_from_bdk include_spent = do
    txos ← reads λ s. s.tables.txos
    pending ← reads λ s. s.pending_witness_scripts
    outputs ← ask env.list_output
    save_outputs pending (new_outputs include_spent txos outputs)

  -- `sync_wallet` with the options of the refresh: the colored keychain
  unfoldable pub sync_wallet : Action S (Unit {0})
  sync_wallet = do request env.sync_colored; update_db_colored_txos_from_bdk false

  abbrev pub mark_spent : Option DbTxo → Action S (Unit {0})
  mark_spent none = pure tt
  mark_spent (some t) = update_txo t.idx (λ x. record x { spent = true })

  unfoldable pub spend_inputs : List Outpoint → Action S (Unit {0})
  spend_inputs [] = pure tt
  spend_inputs (i ∷ is) = do t ← get_txo i; mark_spent t; spend_inputs is

  -- the transaction is that of the signed PSBT of the transfer `txid`
  unfoldable pub broadcast_psbt : String → Action S Tx
  broadcast_psbt txid = do
    extracted ← request (env.extract_tx txid)
    tx ← broadcast_tx extracted
    request (env.apply_unconfirmed_tx tx)
    update_db_colored_txos_from_bdk false
    spend_inputs tx.inputs
    pure tx

  unfoldable pub broadcast_and_update_rgb : String → Action S Tx
  broadcast_and_update_rgb txid = do
    tx ← broadcast_psbt txid
    request (env.consume_fascia txid)
    pure tx
