-- ===== src/Examples/Rejects.antt =====
-- The search of a graph of two outputs: one that is received, and its parent, which is rejected.
use mathlib.Core.List.{Memᴰ}
use rgb_lib.Prelude.{ℕ, ◌≤◌, ◌≡◌, ◌↔◌, refl, List, [], ◌∷◌, some, if◌then◌else◌, ◌==◌, arith}
use rgb_lib.Result.{ok}
use rgb_lib.Services.{Opout, OpoutsDag}
use rgb_lib.Refresh.Rejects.{check_dag, check_opout, traverse_ancestors}
use rgb_lib.Refresh.Rejects.Sound.{IsTainted}
use rgb_lib.Refresh.Rejects.Exact.{check_dag-exact}
use rgb_lib.Refresh.Rejects.Fuel.{check_dag_total}

abbrev child : Opout
child = record { op = "child"; ty = 4000; index = 0 }

abbrev parent : Opout
parent = record { op = "parent"; ty = 4000; index = 1 }

abbrev graph : OpoutsDag
graph = record {
  index = λ o. some 0;
  label = λ n. if n == 0 then child else parent;
  parents = λ n. if n == 0 then 1 ∷ [] else [];
  size = 2;
}

no_parents : (n : ℕ) → 2 ≤ n → graph.parents n ≡ []
no_parents n h = ground (arith, h)

rejects : check_dag graph (parent ∷ []) [] (child ∷ []) ≡ ok (child ∷ [])
unfolding check_dag check_opout traverse_ancestors
rejects = refl

check_dag-exact_example :
    Memᴰ child (child ∷ []) ↔ (Memᴰ child (child ∷ []) × IsTainted graph (parent ∷ []) [] child)
check_dag-exact_example =
    check_dag-exact graph (parent ∷ []) [] (child ∷ []) (child ∷ []) rejects child

check_dag_total_example :
    (r : List Opout) × (check_dag graph (parent ∷ []) (child ∷ []) (child ∷ []) ≡ ok r)
check_dag_total_example =
    check_dag_total graph (parent ∷ []) (child ∷ []) no_parents (child ∷ []) ((0, refl), tt)
