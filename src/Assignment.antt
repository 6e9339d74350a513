-- ===== src/Assignment.antt =====
-- `Assignment` of src/database/enums.rs, and the data of `AssignmentsCollection` of
-- src/wallet/objects.rs. The amounts are u64.
use rgb_lib.Prelude.{ℕ, Bool, true, false}

pub data Assignment : Type 0 where
  fungible : ℕ → Assignment
  non_fungible : Assignment
  inflation_right : ℕ → Assignment
  any_assignment : Assignment

unfoldable pub main_amount : Assignment → ℕ
main_amount (fungible amt) = amt
main_amount non_fungible = 1
main_amount _ = 0

unfoldable pub inflation_amount : Assignment → ℕ
inflation_amount (inflation_right amt) = amt
inflation_amount _ = 0

-- the tests `matches!(a.assignment, …)`
abbrev pub is_fungible : Assignment → Bool
is_fungible (fungible _) = true
is_fungible _ = false

abbrev pub is_non_fungible : Assignment → Bool
is_non_fungible non_fungible = true
is_non_fungible _ = false

abbrev pub is_inflation_right : Assignment → Bool
is_inflation_right (inflation_right _) = true
is_inflation_right _ = false

pub record AssignmentsCollection : Type 0 where
  pub fungible : ℕ
  pub non_fungible : Bool
  pub inflation : ℕ

abbrev pub no_assignments : AssignmentsCollection
no_assignments = record { fungible = 0; non_fungible = false; inflation = 0 }
