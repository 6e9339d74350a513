-- ===== src/Collection/Cover.antt =====
-- What it means that collected assignments cover the needed ones, and what change is left.
use rgb_lib.Prelude.{ℕ, ◌≤◌, ◌≡◌, true, false, arith, Bool-cases, inl, inr, ◌==◌}
use rgb_lib.Assignment.{AssignmentsCollection}
use rgb_lib.Collection.{AllocatedState, amount, token, other_state, opout_contributes, enough}

pub record Covers (c needed : AssignmentsCollection) : Type 0 where
  pub fungible : needed.fungible ≤ c.fungible
  pub non_fungible : c.non_fungible ≡ needed.non_fungible
  pub inflation : needed.inflation ≤ c.inflation

pub enough-Covers : (c needed : AssignmentsCollection) → enough c needed ≡ true → Covers c needed
unfolding enough
enough-Covers c needed h = ground arith

pub Covers-enough : (c needed : AssignmentsCollection) → Covers c needed → enough c needed ≡ true
unfolding enough
Covers-enough c needed h = ground arith

-- Where the state of an output contributes to what is collected, that is not enough yet.
pub opout_contributes-enough :
    (os_asset os_inflation : ℕ) (ty : ℕ) (state : AllocatedState) (c needed : AssignmentsCollection)
    → opout_contributes os_asset os_inflation ty state c needed ≡ true
    → enough c needed ≡ false
unfolding opout_contributes enough
opout_contributes-enough os_asset os_inflation ty (amount amt) c needed h =
    elim (Bool-cases (ty == os_asset)) [
      | inl asset ↦ ground (arith, asset, h)
      | inr other' ↦ ground (arith, other', h)
    ]
opout_contributes-enough os_asset os_inflation ty token c needed h = ground (arith, h)
opout_contributes-enough os_asset os_inflation ty other_state c needed h = cc
