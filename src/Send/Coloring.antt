-- ===== src/Send/Coloring.antt =====
-- `prepare_rgb_psbt` of src/wallet/online.rs: which RGB outputs a transfer spends, and the transitions
-- that it makes of them. The RGB runtime is a parameter; a builder is the transition it has collected,
-- and all that the library may refuse of it is refused when it is completed.
pub mod Psbt
pub mod Split
pub mod Conserve
pub mod Whole
pub mod Spent
use rgb_lib.Prelude.{
  ℕ, String, Bool, true, false, not, ◌&&◌, ◌||◌, List, [], ◌∷◌, ◌++◌, map, Option, none, some, any,
  is_empty, str_eq, ltb, ◌==◌, if◌then◌else◌,
}
use rgb_lib.Prelude.Sort.{sort_pairs}
use rgb_lib.Assignment.{
  Assignment, fungible, non_fungible, inflation_right, any_assignment, AssignmentsCollection,
  no_assignments,
}
use rgb_lib.Result.{Result, ok, panic, ◌>>=◌, expect}
use rgb_lib.Collection.{
  AllocatedState, amount, token, other_state, add_opout_state, opout_contributes,
}
use rgb_lib.Collection
use rgb_lib.Database.Rows.{Outpoint, outpoint_eq, outpoint, DbTxo, DbData, LocalUnspent}
use rgb_lib.Services.{Opout}
use rgb_lib.Refresh.Assignments.{opout_eq}
use rgb_lib.Wallet.Slots.{get_utxo}
use rgb_lib.Send.{
  TypeOfTransition, inflate, transfer, burn, LocalRecipientData, LocalRecipient, BtcChange,
  InfoAssetTransfer,
}

-- an RGB output on a TXO
pub record OpoutState : Type 0 where
  pub outpoint : Outpoint
  pub opout : Opout
  pub state : AllocatedState

-- A seal of a new output. Where no blinding is given the code takes a random one.
pub data Seal : Type 0 where
  concealed : String → Seal
  revealed_vout : ℕ → Option ℕ → Seal
  blind_seal : Outpoint → Seal

pub record Owned : Type 0 where
  pub ty : ℕ
  pub seal : Seal
  pub state : AllocatedState

-- the globals and metadata of a transition
pub data Declared : Type 0 where
  declared_inflation : ℕ → ℕ → Declared
  declared_burn : ℕ → Declared
  nothing_declared : Declared

pub record Transition : Type 0 where
  pub inputs : List OpoutState
  pub owned : List Owned
  pub declared : Declared

-- what the code asks the RGB runtime for
pub record RgbRuntime : Type 0 where
  pub contract_assignments_for : String → List Outpoint → Result (List OpoutState)
  pub contracts_assigning : List Outpoint → Result (List String)
  pub complete_transition : String → Transition → Result (Unit {0})

-- non-amount states are sorted first
abbrev pub state_key : AllocatedState → ℕ
state_key (amount n) = n
state_key token = 0
state_key other_state = 0

unfoldable pub sort_opouts : List OpoutState → List OpoutState
unfolding sort_pairs
sort_opouts l = map (λ (p : ℕ × OpoutState). p.1) (sort_pairs (map (λ r. (state_key r.state, r)) l))

-- `map.entry(outpoint).or_default().push(assignment)`
unfoldable pub push_assignment :
    Outpoint → Assignment → List (Outpoint × List Assignment) → List (Outpoint × List Assignment)
push_assignment o a [] = (o, a ∷ []) ∷ []
push_assignment o a ((p, l) ∷ m) =
    let rest = push_assignment o a m in
    if outpoint_eq p o then (p, l ++ a ∷ []) ∷ m else (p, l) ∷ rest

-- the state of the loop over an asset's outputs
pub record Picked : Type 0 where
  pub added : AssignmentsCollection
  pub spent : List (Outpoint × List Assignment)
  pub uda_state : Option AllocatedState
  pub inputs : List OpoutState
  pub extra : List OpoutState

abbrev pub not_picked : OpoutState → Picked → Picked
not_picked r p = record p { extra = p.extra ++ r ∷ [] }

abbrev pub get_beneficiary_seal : LocalRecipientData → Seal
get_beneficiary_seal (LocalRecipientData.blind s) = concealed s
get_beneficiary_seal (LocalRecipientData.witness d) = revealed_vout d.vout d.blinding

-- `change == AssignmentsCollection::default()`
abbrev pub is_nothing : AssignmentsCollection → Bool
is_nothing c = (c.fungible == 0) && ((c.inflation == 0) && not c.non_fungible)

-- an asset's part of the transaction
pub record ColoredAsset : Type 0 where
  pub info : InfoAssetTransfer
  pub transition : Transition
  pub extra : List OpoutState
  pub beneficiaries : List (Seal × String)
  pub change_utxo : Option DbTxo

-- `os_asset` and `os_inflation` are the types of the outputs that the schemas call
-- `RGB_STATE_ASSET_OWNER` and `RGB_STATE_INFLATION_ALLOWANCE`
module _ (os_asset os_inflation : ℕ) where
  unfoldable pub from_opout_and_state : ℕ → AllocatedState → Result Assignment
  from_opout_and_state ty (amount n) =
      if ty == os_asset
      then ok (fungible n)
      else if ty == os_inflation
      then ok (inflation_right n)
      else panic
  from_opout_and_state ty token = ok non_fungible
  from_opout_and_state ty other_state = panic

  -- whether the loop spends an output
  abbrev pub picks : List Opout → AssignmentsCollection → OpoutState → Picked → Bool
  picks rejected needed r p =
      not (any (opout_eq r.opout) rejected)
      && opout_contributes os_asset os_inflation r.opout.ty r.state p.added needed

  unfoldable pub add_input : OpoutState → Picked → Result Picked
  unfolding from_opout_and_state
  add_input r p = do
    added ← add_opout_state os_asset os_inflation r.opout.ty r.state p.added
    a ← from_opout_and_state r.opout.ty r.state
    ok (record {
      added = added;
      spent = push_assignment r.outpoint a p.spent;
      uda_state = some r.state;
      inputs = p.inputs ++ r ∷ [];
      extra = p.extra;
    })

  unfoldable pub pick_inputs :
      List Opout → AssignmentsCollection → List OpoutState → Picked → Result Picked
  pick_inputs rejected needed [] p = ok p
  pick_inputs rejected needed (r ∷ rs) p =
      let skip = pick_inputs rejected needed rs (not_picked r p) in
      let keep = add_input r p >>= λ p'. pick_inputs rejected needed rs p' in
      if picks rejected needed r p then keep else skip

  -- the output of a recipient, if it gets one
  unfoldable pub recipient_output :
      Option AllocatedState → Seal → Assignment → Result (Option Owned)
  recipient_output uda seal (fungible n) =
      if n == 0
      then ok none
      else ok (some (record { ty = os_asset; seal = seal; state = amount n }))
  recipient_output uda seal (inflation_right n) =
      if n == 0
      then ok none
      else ok (some (record { ty = os_inflation; seal = seal; state = amount n }))
  recipient_output none seal non_fungible = panic
  recipient_output (some token) seal non_fungible =
      ok (some (record { ty = os_asset; seal = seal; state = token }))
  recipient_output (some (amount n)) seal non_fungible = ok none
  recipient_output (some other_state) seal non_fungible = ok none
  recipient_output uda seal any_assignment = panic

  abbrev pub with_output :
      Option Owned → String → List Owned × List (Seal × String) → List Owned × List (Seal × String)
  with_output none id rest = rest
  with_output (some o) id (l, b) = (o ∷ l, (o.seal, id) ∷ b)

  unfoldable pub add_recipients :
      Option AllocatedState → List LocalRecipient → Result (List Owned × List (Seal × String))
  add_recipients uda [] = ok ([], [])
  add_recipients uda (r ∷ rs) = do
    o ← recipient_output uda (get_beneficiary_seal r.local_recipient_data) r.assignment
    rest ← add_recipients uda rs
    ok (with_output o r.recipient_id rest)

  abbrev pub when_owned : ℕ → ℕ → Seal → List Owned
  when_owned ty n seal =
      if ltb 0 n then record { ty = ty; seal = seal; state = amount n } ∷ [] else []

  -- the outputs of the change
  abbrev pub change_outputs : AssignmentsCollection → Seal → List Owned
  change_outputs c seal =
      when_owned os_asset c.fungible seal ++ when_owned os_inflation c.inflation seal

  abbrev pub declare : InfoAssetTransfer → AssignmentsCollection → Declared
  declare info given_back = elim info.main_transition [
    | inflate ↦ declared_inflation info.original_assignments_needed.inflation given_back.inflation
    | burn ↦ declared_burn info.original_assignments_needed.fungible
    | transfer ↦ nothing_declared
  ]
