-- ===== src/Collection.antt =====
-- The operations of `AssignmentsCollection` (src/wallet/objects.rs), and
-- `Assignment::add_to_assignments` (src/database/enums.rs).
pub mod Cover
use rgb_lib.Prelude.{
  ℕ, ◌-◌, Bool, true, false, not, ◌&&◌, if◌then◌else◌, ltb, ◌==◌, bool_eq, checked_add, checked_sub,
}
use rgb_lib.Assignment.{
  Assignment, fungible, non_fungible, inflation_right, any_assignment, AssignmentsCollection,
}
use rgb_lib.Result.{Result, ok, panic, ◌>>=◌, expect}

add_fungible : AssignmentsCollection → ℕ → Result AssignmentsCollection
add_fungible c amt = do t ← expect (checked_add c.fungible amt); ok (record c { fungible = t })

add_non_fungible : AssignmentsCollection → AssignmentsCollection
add_non_fungible c = record c { non_fungible = true }

add_inflation : AssignmentsCollection → ℕ → Result AssignmentsCollection
add_inflation c amt = do t ← expect (checked_add c.inflation amt); ok (record c { inflation = t })

-- Its fungible and inflation branches repeat those of `add_fungible` and `add_inflation`.
unfoldable pub add_to_assignments :
    Assignment → AssignmentsCollection → Result AssignmentsCollection
add_to_assignments (fungible amt) c = do
  t ← expect (checked_add c.fungible amt)
  ok (record c { fungible = t })
add_to_assignments non_fungible c = ok (record c { non_fungible = true })
add_to_assignments (inflation_right amt) c = do
  t ← expect (checked_add c.inflation amt)
  ok (record c { inflation = t })
add_to_assignments any_assignment c = panic

-- The state of an RGB output: the variants that the code names.
pub data AllocatedState : Type 0 where
  amount : ℕ → AllocatedState
  token : AllocatedState
  other_state : AllocatedState

-- `os_asset` and `os_inflation` are the assignment types `OS_ASSET` and `OS_INFLATION` of the
-- schemas, `ty` is the type of the output.
module _ (os_asset os_inflation : ℕ) where
  unfoldable pub add_opout_state :
      ℕ → AllocatedState → AssignmentsCollection → Result AssignmentsCollection
  unfolding add_fungible add_non_fungible add_inflation
  add_opout_state ty (amount amt) c =
      if ty == os_asset
      then add_fungible c amt
      else if ty == os_inflation
      then add_inflation c amt
      else ok c
  add_opout_state ty token c = ok (add_non_fungible c)
  add_opout_state ty other_state c = ok c

  -- `needed.saturating_sub(self) > 0`
  unfoldable pub opout_contributes :
      ℕ → AllocatedState → AssignmentsCollection → AssignmentsCollection → Bool
  opout_contributes ty (amount amt) c needed =
      if ty == os_asset
      then ltb 0 (needed.fungible - c.fungible)
      else if ty == os_inflation
      then ltb 0 (needed.inflation - c.inflation)
      else false
  opout_contributes ty token c needed = needed.non_fungible && not c.non_fungible
  opout_contributes ty other_state c needed = false

unfoldable pub change : AssignmentsCollection → AssignmentsCollection → Result AssignmentsCollection
change c needed = do
  f ← expect (checked_sub c.fungible needed.fungible)
  i ← expect (checked_sub c.inflation needed.inflation)
  ok (record { fungible = f; non_fungible = false; inflation = i })

unfoldable pub enough : AssignmentsCollection → AssignmentsCollection → Bool
enough c needed =
    if ltb c.fungible needed.fungible
    then false
    else if not (bool_eq c.non_fungible needed.non_fungible)
    then false
    else if ltb c.inflation needed.inflation
    then false
    else true
