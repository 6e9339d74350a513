-- ===== src/Refresh/Rejects.antt =====
-- Reject lists: `get_reject_list` and `check_dag` of src/wallet/online.rs. Sets are lists.
pub mod Fuel
pub mod Sound
pub mod Exact
use rgb_lib.Prelude.{
  ℕ, suc, zero, String, ◌+◌, Bool, true, false, not, List, [], ◌∷◌, map, Option, none, some, any,
  filter, ◌==◌, if◌then◌else◌, length,
}
use Prim.Native.Char.{code}
use rgb_lib.Result.{Result, ok, err, panic, internal, ◌>>=◌}
use rgb_lib.Services.{Opout, OpoutsDag}
use rgb_lib.Refresh.Assignments.{opout_eq}

-- a line: whether it allows, which a leading `!` says, and its output
abbrev pub parse_line : (String → Option Opout) → String → Option (Opout × Bool)
parse_line parse String.[] = elim (parse String.[]) [ none ↦ none | some o ↦ some (o, false) ]
parse_line parse (String.◌∷◌ c s) =
    if code c == 33
    then elim (parse s) [ none ↦ none | some o ↦ some (o, true) ]
    else elim (parse (String.◌∷◌ c s)) [ none ↦ none | some o ↦ some (o, false) ]

-- the last line about an output counts
abbrev pub insert_opout : Opout → Bool → List (Opout × Bool) → List (Opout × Bool)
insert_opout o b [] = (o, b) ∷ []
insert_opout o b ((p, c) ∷ m) = if opout_eq p o then (o, b) ∷ m else (p, c) ∷ insert_opout o b m

unfoldable pub read_lines :
    (String → Option Opout) → List String → List (Opout × Bool) → List (Opout × Bool)
read_lines parse [] m = m
read_lines parse (l ∷ ls) m =
    read_lines parse ls (elim (parse_line parse l) [ none ↦ m | some (o, b) ↦ insert_opout o b m ])

abbrev pub opouts_with : Bool → List (Opout × Bool) → List Opout
opouts_with b m = map (λ p. p.0) (filter (λ (p : Opout × Bool). if b then p.1 else not p.1) m)

-- the rejected and the allowed outputs
unfoldable pub reject_and_allow : (String → Option Opout) → List String → List Opout × List Opout
unfolding read_lines
reject_and_allow parse lines =
    let m = read_lines parse lines [] in (opouts_with false m, opouts_with true m)

abbrev pub has_opout : List Opout → Opout → Bool
has_opout l o = any (opout_eq o) l

-- `stack.push` for each parent: the last one is on top
abbrev pub push_all : List ℕ → List ℕ → List ℕ
push_all [] stack = stack
push_all (p ∷ ps) stack = push_all ps (p ∷ stack)

abbrev pub visited_node : List ℕ → ℕ → Bool
visited_node visited n = any (λ m. m == n) visited

module _ (dag : OpoutsDag) (reject_opouts allow_opouts : List Opout) where
  -- The `while` loop over the stack, with fuel: whether a reject node was met, `none` where the fuel
  -- ran out.
  unfoldable pub traverse_ancestors : ℕ → List ℕ → List ℕ → Option Bool
  traverse_ancestors fuel visited [] = some false
  traverse_ancestors zero visited (n ∷ stack) = none
  traverse_ancestors (suc fuel) visited (n ∷ stack) =
      let seen = traverse_ancestors fuel visited stack in
      let shielded = traverse_ancestors fuel (n ∷ visited) stack in
      let up = traverse_ancestors fuel (n ∷ visited) (push_all (dag.parents n) stack) in
      if visited_node visited n
      then seen
      else if has_opout allow_opouts (dag.label n)
      then shielded
      else if has_opout reject_opouts (dag.label n)
      then some true
      else up

  -- the nodes and the edges below `size`
  abbrev pub edges : ℕ → ℕ
  edges zero = 0
  edges (suc n) = length (dag.parents n) + edges n

  abbrev pub dag_fuel : ℕ
  dag_fuel = 1 + edges dag.size

  abbrev pub searched : Option Bool → Result Bool
  searched none = panic
  searched (some b) = ok b

  abbrev pub from_node : Option ℕ → Result Bool
  from_node none = err internal
  from_node (some n) = searched (traverse_ancestors dag_fuel [] (n ∷ []))

  -- the search from the node of an output
  unfoldable pub check_opout : Opout → Result Bool
  check_opout o = from_node (dag.index o)

  -- the outputs to reject, among those checked
  unfoldable pub check_dag : List Opout → Result (List Opout)
  check_dag [] = ok []
  check_dag (o ∷ os) = check_opout o >>= λ b. check_dag os >>= λ r. ok (if b then o ∷ r else r)
