-- ===== src/Refresh/Assignments.antt =====
-- What a consignment pays to a recipient: `assignments_for_bundle` of src/wallet/online.rs. The map
-- from outputs to assignments is an association list.
use rgb_lib.Prelude.{
  ℕ, String, ◌+◌, ◌%◌, ◌^◌, Bool, false, ◌&&◌, List, [], ◌∷◌, Option, none, some, ◌==◌, str_eq,
  if◌then◌else◌,
}
use rgb_lib.Assignment.{Assignment, fungible, non_fungible, inflation_right}
use rgb_lib.Services.{
  Assign, confidential, revealed_witness, revealed_elsewhere, FungibleAssign, TypedAssigns,
  KnownTransition, WitnessBundle, Opout,
}

abbrev pub opout_eq : Opout → Opout → Bool
opout_eq a b = str_eq a.op b.op && ((a.ty == b.ty) && (a.index == b.index))

abbrev pub Received : Type 0
Received = List (Opout × Assignment)

abbrev pub insert_received : Opout → Assignment → Received → Received
insert_received o a [] = (o, a) ∷ []
insert_received o a ((p, b) ∷ m) =
    if opout_eq p o then (o, a) ∷ m else (p, b) ∷ insert_received o a m

-- whether an output pays the recipient: by the blinded seal, or by the output of the transaction
abbrev pub pays : Option ℕ → Option String → Assign → Bool
pays vout none (confidential seal) = false
pays vout (some known) (confidential seal) = str_eq seal known
pays none known (revealed_witness v) = false
pays (some w) known (revealed_witness v) = v == w
pays vout known revealed_elsewhere = false

module _ (os_asset os_inflation : ℕ) (vout : Option ℕ) (known_concealed : Option String) where
  abbrev pub fungible_received : ℕ → Opout → ℕ → Received → Received
  fungible_received ty o amount m =
      if ty == os_asset
      then insert_received o (fungible amount) m
      else if ty == os_inflation
      then insert_received o (inflation_right amount) m
      else m

  -- `no` runs along the outputs of one type; it is a u16
  unfoldable pub receive_fungible : String → ℕ → ℕ → List FungibleAssign → Received → Received
  receive_fungible opid ty i [] m = m
  receive_fungible opid ty i (f ∷ fs) m = receive_fungible opid ty (i + 1) fs (
      if pays vout known_concealed f.assign
      then fungible_received ty (record { op = opid; ty = ty; index = i % 2 ^ 16 }) f.amount m
      else m)

  unfoldable pub receive_structured : String → ℕ → ℕ → List Assign → Received → Received
  receive_structured opid ty i [] m = m
  receive_structured opid ty i (a ∷ as') m = receive_structured opid ty (i + 1) as' (
      if pays vout known_concealed a
      then insert_received (record { op = opid; ty = ty; index = i % 2 ^ 16 }) non_fungible m
      else m)

  unfoldable pub receive_typed : String → List TypedAssigns → Received → Received
  receive_typed opid [] m = m
  receive_typed opid (t ∷ ts) m = receive_typed opid ts (
      receive_structured opid t.ass_type 0 t.structured
        (receive_fungible opid t.ass_type 0 t.fungible m))

  unfoldable pub receive_transitions : List KnownTransition → Received → Received
  receive_transitions [] m = m
  receive_transitions (k ∷ ks) m = receive_transitions ks (receive_typed k.opid k.assignments m)

  unfoldable pub assignments_for_bundle : WitnessBundle → Received
  assignments_for_bundle b = receive_transitions b.known_transitions []
