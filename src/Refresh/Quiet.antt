-- ===== src/Refresh/Quiet.antt =====
-- Calls that leave the batch transfers as they are, whatever their outcome.

use rgb_lib.Prelude.{
  ℕ, String, ◌≡◌, refl, ◌∙◌, Bool, true, false, Option, none, some, List, if◌then◌else◌,
}
use rgb_lib.Result.{Result, Error, ok, err, panic}
use rgb_lib.Status.{ColoringType}
use rgb_lib.Assignment.{Assignment}
use rgb_lib.Database.Rows.{Outpoint, DbTxo, DbBatchTransfer, DbTransfer}
use rgb_lib.Database.Updates.{
  NewTxo, update_transfer, update_asset_transfer, update_txo, update_transfer_transport_endpoint,
  update_asset, set_txo, set_coloring, get_txo, get_transfer_transport_endpoints_data, get_asset,
  del_pending_witness_script,
}
use rgb_lib.Action.{
  Action, Store, World, map_or, pure, raise, abort, ◌>>=◌, ◌>>◌, ask, request, reads, writes, lift,
  unwrap, succeeds, continue_with,
}

abbrev pub batches : {S : Type 0} → World S → List DbBatchTransfer
batches w = w.store.tables.batch_transfers

-- a call keeps what `view` shows of the store, whatever its outcome
pub record Leaves {S A V : Type 0} (view : Store → V) (m : Action S A) : Type 0 where
  pub same : (w : World S) → view ((m w).1.store) ≡ view (w.store)

abbrev pub batch_rows : Store → List DbBatchTransfer
batch_rows s = s.tables.batch_transfers

abbrev pub Quiet : {S A : Type 0} → Action S A → Type 0
Quiet m = Leaves batch_rows m

module _ {S V : Type 0} {view : Store → V} where
  pub pure-Quiet : {A : Type 0} (a : A) → Leaves view (pure {S = S} a)
  unfolding pure
  pure-Quiet a = record { same = λ w. refl }

  pub raise-Quiet : {A : Type 0} (e : Error) → Leaves view (raise {S = S} {A = A} e)
  unfolding raise
  raise-Quiet e = record { same = λ w. refl }

  pub abort-Quiet : {A : Type 0} → Leaves view (abort {S = S} {A = A})
  unfolding abort
  abort-Quiet = record { same = λ w. refl }

  pub ask-Quiet : {A : Type 0} (f : S → A × S) → Leaves view (ask f)
  unfolding ask
  ask-Quiet f = record { same = λ w. refl }

  pub request-Quiet : {A : Type 0} (f : S → Result A × S) → Leaves view (request f)
  unfolding request
  request-Quiet f = record { same = λ w. refl }

  pub reads-Quiet : {A : Type 0} (f : Store → A) → Leaves view (reads {S = S} f)
  unfolding reads
  reads-Quiet f = record { same = λ w. refl }

  pub lift-Quiet : {A : Type 0} (r : Result A) → Leaves view (lift {S = S} r)
  unfolding lift
  lift-Quiet r = record { same = λ w. refl }

  pub unwrap-Quiet : {A : Type 0} (o : Option A) → Leaves view (unwrap {S = S} o)
  unfolding unwrap pure abort
  unwrap-Quiet none = record { same = λ w. refl }
  unwrap-Quiet (some a) = record { same = λ w. refl }

  continue-same :
      {A B : Type 0} (r : Result A) (w w' : World S) (f : A → Action S B)
      → view (w'.store) ≡ view (w.store)
      → ((a : A) → Leaves view (f a))
      → view ((continue_with (r, w') f).1.store) ≡ view (w.store)
  continue-same (ok a) w w' f h q = (q a).same w' ∙ h
  continue-same (err e) w w' f h q = h
  continue-same panic w w' f h q = h

  pub >>=-Quiet :
      {A B : Type 0} {m : Action S A} {f : A → Action S B}
      → Leaves view m
      → ((a : A) → Leaves view (f a))
      → Leaves view (m >>= f)
  unfolding ◌>>=◌
  >>=-Quiet {A} {B} {m} {f} qm qf = record {
    same = λ w. continue-same ((m w).0) w ((m w).1) f (qm.same w) qf;
  }

  pub if-Quiet :
      {A : Type 0} (c : Bool) {m k : Action S A}
      → Leaves view m
      → Leaves view k
      → Leaves view (if c then m else k)
  if-Quiet true qm qk = qm
  if-Quiet false qm qk = qk

  pub map_or-Quiet :
      {A B : Type 0} (o : Option A) {m : Action S B} {f : A → Action S B}
      → Leaves view m
      → ((a : A) → Leaves view (f a))
      → Leaves view (map_or o m f)
  map_or-Quiet none qm qf = qm
  map_or-Quiet (some a) qm qf = qf a

  pub >>-Quiet :
      {A B : Type 0} {m : Action S A} {k : Action S B}
      → Leaves view m
      → Leaves view k
      → Leaves view (m >> k)
  unfolding ◌>>◌
  >>-Quiet qm qk = >>=-Quiet qm (λ _. qk)

  pub writes-Quiet :
      (f : Store → Store) → ((s : Store) → view (f s) ≡ view s) → Leaves view (writes {S = S} f)
  unfolding writes
  writes-Quiet f h = record { same = λ w. h w.store }

  pub succeeds-Quiet : {A : Type 0} (f : S → Result A × S) → Leaves view (succeeds f)
  unfolding succeeds
  succeeds-Quiet f = request-Quiet _

pub ruleset calls = (
  pure-Quiet, raise-Quiet, abort-Quiet, ask-Quiet, request-Quiet, reads-Quiet, lift-Quiet,
  unwrap-Quiet, >>=-Quiet, >>-Quiet, if-Quiet, map_or-Quiet, writes-Quiet, succeeds-Quiet, refl,
)

-- the updates of the other tables
module _ {S : Type 0} where
  pub update_transfer-Quiet :
      (i : ℕ) (f : DbTransfer → DbTransfer) → Quiet (update_transfer {S = S} i f)
  unfolding update_transfer
  update_transfer-Quiet i f = search calls

  pub update_asset_transfer-Quiet :
      (i : ℕ) (asset_id : String) → Quiet (update_asset_transfer {S = S} i asset_id)
  unfolding update_asset_transfer
  update_asset_transfer-Quiet i asset_id = search calls

  pub update_txo-Quiet : (i : ℕ) (f : DbTxo → DbTxo) → Quiet (update_txo {S = S} i f)
  unfolding update_txo
  update_txo-Quiet i f = search calls

  pub update_transfer_transport_endpoint-Quiet :
      (i : ℕ) → Quiet (update_transfer_transport_endpoint {S = S} i)
  unfolding update_transfer_transport_endpoint
  update_transfer_transport_endpoint-Quiet i = search calls

  pub update_asset-Quiet : (id supply : String) → Quiet (update_asset {S = S} id supply)
  unfolding update_asset
  update_asset-Quiet id supply = search calls

  pub set_txo-Quiet : (fresh : S → ℕ × S) (n : NewTxo) → Quiet (set_txo fresh n)
  unfolding set_txo
  set_txo-Quiet fresh n = search calls

  pub set_coloring-Quiet :
      (fresh : S → ℕ × S) (i j : ℕ) (type : ColoringType) (a : Assignment)
      → Quiet (set_coloring fresh i j type a)
  unfolding set_coloring
  set_coloring-Quiet fresh i j type a = search calls

  pub get_txo-Quiet : (o : Outpoint) → Quiet (get_txo {S = S} o)
  unfolding get_txo
  get_txo-Quiet o = search calls

  pub get_asset-Quiet : (id : String) → Quiet (get_asset {S = S} id)
  unfolding get_asset
  get_asset-Quiet id = search calls

  pub endpoints-Quiet : (i : ℕ) → Quiet (get_transfer_transport_endpoints_data {S = S} i)
  unfolding get_transfer_transport_endpoints_data
  endpoints-Quiet i = search calls

  pub del_pending_witness_script-Quiet :
      (script : String) → Quiet (del_pending_witness_script {S = S} script)
  unfolding del_pending_witness_script
  del_pending_witness_script-Quiet script = search calls

pub ruleset tables = (
  update_transfer-Quiet, update_asset_transfer-Quiet, update_txo-Quiet,
  update_transfer_transport_endpoint-Quiet, update_asset-Quiet, set_txo-Quiet, set_coloring-Quiet,
  get_txo-Quiet, get_asset-Quiet, endpoints-Quiet, del_pending_witness_script-Quiet,
)
