-- ===== src/Send/Coloring/Psbt.antt =====
-- `get_change_seal` and the transitions of `prepare_rgb_psbt` of src/wallet/online.rs, for all assets
-- of a transfer and for what else is on the TXOs that it spends.
use rgb_lib.Prelude.{
  ℕ, String, true, List, [], ◌∷◌, ◌++◌, Option, none, some, any, is_empty, str_eq, if◌then◌else◌,
}
use rgb_lib.Assignment.{Assignment, AssignmentsCollection, no_assignments}
use rgb_lib.Result.{Result, ok, ◌>>=◌}
use rgb_lib.Collection
use rgb_lib.Database.Rows.{Outpoint, outpoint, DbTxo, DbData, LocalUnspent}
use rgb_lib.Services.{Opout}
use rgb_lib.Wallet.Slots.{get_utxo}
use rgb_lib.Send.{BtcChange, InfoAssetTransfer}
use rgb_lib.Send.Coloring.{
  OpoutState, Seal, blind_seal, revealed_vout, Owned, Transition, nothing_declared, RgbRuntime,
  sort_opouts, push_assignment, Picked, is_nothing, ColoredAsset, from_opout_and_state, pick_inputs,
  add_recipients, change_outputs, declare,
}

-- what the coloring is given and does not change
pub record Setting : Type 0 where
  pub runtime : RgbRuntime
  pub os_asset : ℕ
  pub os_inflation : ℕ
  pub rejected : List Opout
  pub btc_change : Option BtcChange
  -- the outputs that the transaction spends
  pub prev_outputs : List Outpoint
  pub unspents : List LocalUnspent
  pub tables : DbData
  pub max_allocations_per_utxo : ℕ

-- all that the coloring makes
pub record ColoredPsbt : Type 0 where
  pub transfers : List (String × InfoAssetTransfer)
  pub transitions : List (String × Transition)
  pub extra_state : List (String × List OpoutState)
  pub beneficiaries : List (String × List (Seal × String))
  pub change_utxo : Option DbTxo

-- the transitions of what is moved, and its assignments by TXO
pub record Moved : Type 0 where
  pub transitions : List (String × Transition)
  pub allocations : List (Outpoint × List Assignment)
  pub change_utxo : Option DbTxo

pub record AllMoved : Type 0 where
  pub transitions : List (String × Transition)
  pub extra_allocations : List (String × List (Outpoint × List Assignment))
  pub change_utxo : Option DbTxo

abbrev pub start : List (Outpoint × List Assignment) → Picked
start spent = record {
  added = no_assignments;
  spent = spent;
  uda_state = none;
  inputs = [];
  extra = [];
}

-- an entry is made where something is pushed
abbrev pub extra_entry : String → List OpoutState → List (String × List OpoutState)
extra_entry id l = if is_empty l then [] else (id, l) ∷ []

module _ (c : Setting) where
  -- `cached` is `change_utxo_option`
  unfoldable pub get_change_seal : Option DbTxo → Result (Seal × Option DbTxo)
  get_change_seal cached = seal_by c.btc_change cached
    where
      seal_by : Option BtcChange → Option DbTxo → Result (Seal × Option DbTxo)
      seal_by (some change) cached = ok (revealed_vout change.vout none, cached)
      seal_by none (some t) = ok (blind_seal (outpoint t), some t)
      seal_by none none = do
        t ← get_utxo c.max_allocations_per_utxo c.tables c.prev_outputs (some c.unspents) true none
        ok (blind_seal (outpoint t), some t)

  unfoldable pub add_change :
      AssignmentsCollection → Option DbTxo → Result (List Owned × Option DbTxo)
  unfolding get_change_seal
  add_change given_back cached =
      let some_change = get_change_seal cached >>= λ (seal, after).
      ok (change_outputs c.os_asset c.os_inflation given_back seal, after) in
      if is_nothing given_back then ok ([], cached) else some_change

  unfoldable pub color_asset : String → InfoAssetTransfer → Option DbTxo → Result ColoredAsset
  unfolding add_change pick_inputs add_recipients
  color_asset asset_id info cached = do
    opouts ←
        c.runtime.contract_assignments_for info.asset_info.contract_id
          info.asset_spend.input_outpoints
    p ←
        pick_inputs c.os_asset c.os_inflation c.rejected info.assignments_needed
          (sort_opouts opouts) (start info.assignments_spent)
    (owned, beneficiaries) ← add_recipients c.os_asset c.os_inflation p.uda_state info.recipients
    given_back ← Collection.change p.added info.original_assignments_needed
    (change_owned, after) ← add_change given_back cached
    let t : Transition = record {
      inputs = p.inputs;
      owned = owned ++ change_owned;
      declared = declare c.os_asset c.os_inflation info given_back;
    }
    completed ← c.runtime.complete_transition info.asset_info.contract_id t
    ok (record {
      info = record info {
        assignments_spent = p.spent;
        change = if is_nothing given_back then info.change else given_back;
      };
      transition = t;
      extra = p.extra;
      beneficiaries = beneficiaries;
      change_utxo = after;
    })

  -- the loop over `transfer_info_map`
  unfoldable pub color_assets :
      List (String × InfoAssetTransfer) → Option DbTxo → Result ColoredPsbt
  unfolding color_asset
  color_assets [] cached = ok (record {
    transfers = [];
    transitions = [];
    extra_state = [];
    beneficiaries = [];
    change_utxo = cached;
  })
  color_assets ((id, info) ∷ rest) cached = do
    a ← color_asset id info cached
    r ← color_assets rest a.change_utxo
    ok (record {
      transfers = (id, a.info) ∷ r.transfers;
      transitions = (info.asset_info.contract_id, a.transition) ∷ r.transitions;
      extra_state = extra_entry info.asset_info.contract_id a.extra ++ r.extra_state;
      beneficiaries = (id, a.beneficiaries) ∷ r.beneficiaries;
      change_utxo = r.change_utxo;
    })

  -- what is on the spent outputs of the contracts that are not sent
  unfoldable pub unsent_state :
      List (String × InfoAssetTransfer) → List String → Result (List (String × List OpoutState))
  unsent_state sent [] = ok []
  unsent_state sent (id ∷ ids) =
      let rest = unsent_state sent ids in
      let state = c.runtime.contract_assignments_for id c.prev_outputs >>= λ l.
      rest >>= λ r. ok ((id, l) ∷ r) in
      if any (λ (t : String × InfoAssetTransfer). str_eq t.0 id) sent then rest else state

  -- each output moves to the change by a transition of its own
  unfoldable pub move_state :
      String → List OpoutState → List (Outpoint × List Assignment) → Option DbTxo → Result Moved
  unfolding get_change_seal
  move_state id [] allocations cached =
      ok (record { transitions = []; allocations = allocations; change_utxo = cached })
  move_state id (r ∷ rs) allocations cached = do
    a ← from_opout_and_state c.os_asset c.os_inflation r.opout.ty r.state
    (seal, after) ← get_change_seal cached
    let t : Transition = record {
      inputs = r ∷ [];
      owned = record { ty = r.opout.ty; seal = seal; state = r.state } ∷ [];
      declared = nothing_declared;
    }
    completed ← c.runtime.complete_transition id t
    m ← move_state id rs (push_assignment r.outpoint a allocations) after
    ok (record m { transitions = (id, t) ∷ m.transitions })

  abbrev extra_allocation :
      String → List (Outpoint × List Assignment) → List (String × List (Outpoint × List Assignment))
  extra_allocation id l = if is_empty l then [] else (id, l) ∷ []

  -- the loop over `extra_state`
  unfoldable pub move_all : List (String × List OpoutState) → Option DbTxo → Result AllMoved
  unfolding move_state
  move_all [] cached =
      ok (record { transitions = []; extra_allocations = []; change_utxo = cached })
  move_all ((id, l) ∷ rest) cached = do
    m ← move_state id l [] cached
    r ← move_all rest m.change_utxo
    ok (record {
      transitions = m.transitions ++ r.transitions;
      extra_allocations = extra_allocation id m.allocations ++ r.extra_allocations;
      change_utxo = r.change_utxo;
    })

  -- the transitions of a transfer
  unfoldable pub color_psbt : List (String × InfoAssetTransfer) → Result (ColoredPsbt × AllMoved)
  unfolding color_assets unsent_state move_all
  color_psbt sent = do
    colored ← color_assets sent none
    ids ← c.runtime.contracts_assigning c.prev_outputs
    others ← unsent_state sent ids
    moved ← move_all (colored.extra_state ++ others) colored.change_utxo
    ok (colored, moved)
