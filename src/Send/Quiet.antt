-- ===== src/Send/Quiet.antt =====
-- The lookups of a saving: they may add TXOs, and leave the other tables alone.
use rgb_lib.Prelude.{ℕ, String, Bool, Option, List, [], ◌∷◌}
use rgb_lib.Database.Rows.{Outpoint}
use rgb_lib.Database.Updates.{NewTxo, set_txo, get_txo, del_pending_witness_script}
use rgb_lib.Services.{Services, BdkOutput}
use rgb_lib.Refresh.Broadcast.{save_output, save_outputs, update_db_colored_txos_from_bdk}
use rgb_lib.Refresh.Quiet.{Leaves, calls, >>-Quiet}
use rgb_lib.Send.{InfoBatchTransfer, LocalTransportEndpoint}
use rgb_lib.Send.Rows.{
  get_transport_endpoint, set_transport_endpoint, set_transfer_transport_endpoint,
  save_transfer_transport_endpoint,
}
use rgb_lib.Send.Save.{spent_txo_idx, own_txo_idx, get_change_utxo_idx, save_endpoints}
use rgb_lib.Send.Grows.{rows}

module _ {S : Type 0} (env : Services S) where
  set_txo-Leaves : (n : NewTxo) → Leaves rows (set_txo env.fresh_idx n)
  unfolding set_txo
  set_txo-Leaves n = search calls

  get_txo-Leaves : (o : Outpoint) → Leaves rows (get_txo {S = S} o)
  unfolding get_txo
  get_txo-Leaves o = search calls

  del_pending_witness_script-Leaves :
      (script : String) → Leaves rows (del_pending_witness_script {S = S} script)
  unfolding del_pending_witness_script
  del_pending_witness_script-Leaves script = search calls

  ruleset txo_calls = (set_txo-Leaves, get_txo-Leaves, del_pending_witness_script-Leaves)

  save_output-Leaves :
      (pending : List String) (o : BdkOutput) → Leaves rows (save_output env pending o)
  unfolding save_output
  save_output-Leaves pending o = search (calls, txo_calls)

  save_outputs-Leaves :
      (pending : List String) (os : List BdkOutput) → Leaves rows (save_outputs env pending os)
  unfolding save_outputs
  save_outputs-Leaves pending [] = search calls
  save_outputs-Leaves pending (o ∷ os) =
      >>-Quiet (save_output-Leaves pending o) (save_outputs-Leaves pending os)

  update_db-Leaves : (b : Bool) → Leaves rows (update_db_colored_txos_from_bdk env b)
  unfolding update_db_colored_txos_from_bdk
  update_db-Leaves b = search (calls, save_outputs-Leaves)

  pub spent_txo_idx-Leaves : (o : Outpoint) → Leaves rows (spent_txo_idx env o)
  unfolding spent_txo_idx
  spent_txo_idx-Leaves o = search (calls, txo_calls, update_db-Leaves) depth 12

  pub own_txo_idx-Leaves :
      (txid : String) (vout : ℕ) (sats : String) → Leaves rows (own_txo_idx env txid vout sats)
  unfolding own_txo_idx
  own_txo_idx-Leaves txid vout sats = search (calls, txo_calls) depth 9

  pub get_change_utxo_idx-Leaves :
      (txid : String) (info : InfoBatchTransfer) (cached : Option ℕ)
      → Leaves rows (get_change_utxo_idx env txid info cached)
  unfolding get_change_utxo_idx
  get_change_utxo_idx-Leaves txid info cached =
      search (calls, txo_calls, own_txo_idx-Leaves) depth 12

  save_transfer_transport_endpoint-Leaves :
      (i : ℕ) (e : LocalTransportEndpoint) → Leaves rows (save_transfer_transport_endpoint env i e)
  unfolding save_transfer_transport_endpoint get_transport_endpoint set_transport_endpoint
      set_transfer_transport_endpoint
  save_transfer_transport_endpoint-Leaves i e = search calls depth 12

  pub save_endpoints-Leaves :
      (i : ℕ) (es : List LocalTransportEndpoint) → Leaves rows (save_endpoints env i es)
  unfolding save_endpoints
  save_endpoints-Leaves i [] = search calls
  save_endpoints-Leaves i (e ∷ es) =
      >>-Quiet (save_transfer_transport_endpoint-Leaves i e) (save_endpoints-Leaves i es)
