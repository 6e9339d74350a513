-- ===== src/Refresh/Rejects/Fuel.antt =====
-- The fuel of the search of `check_dag`: a measure of what is left to visit.
use rgb_lib.Prelude.{
  ℕ, zero, suc, ◌+◌, ◌≤◌, ◌≡◌, refl, subst, ap, ◌∙◌, Bool, true, false, List, [], ◌∷◌, some, ◌==◌,
  ==_iff, if◌then◌else◌, length, arith, leb, leb→le, Bool-cases, inl, inr, All,
}
use rgb_lib.Result.{ok}
use rgb_lib.Services.{Opout, OpoutsDag}
use rgb_lib.Refresh.Rejects.{
  traverse_ancestors, edges, dag_fuel, check_opout, check_dag, push_all, from_node, searched,
  visited_node, has_opout,
}

length-push_all : (ps stack : List ℕ) → length (push_all ps stack) ≡ length ps + length stack
length-push_all [] stack = omega arith
length-push_all (p ∷ ps) stack = length-push_all ps (p ∷ stack) ∙ omega arith

module _ (dag : OpoutsDag) where
  -- the edges of the nodes below `k` that are not visited
  abbrev remaining : List ℕ → ℕ → ℕ
  remaining visited zero = 0
  remaining visited (suc k) =
      (if visited_node visited k then 0 else length (dag.parents k)) + remaining visited k

  remaining-none : (k : ℕ) → remaining [] k ≡ edges dag [] [] k
  remaining-none zero = refl
  remaining-none (suc k) = ap (λ r. length (dag.parents k) + r) (remaining-none k)

  remaining-more :
      (n : ℕ) (visited : List ℕ) (k : ℕ) → remaining (n ∷ visited) k ≤ remaining visited k
  remaining-more n visited zero = omega arith
  remaining-more n visited (suc k) = ground (arith, remaining-more n visited k)

  remaining-visit :
      (n : ℕ) (visited : List ℕ) (k : ℕ)
      → visited_node visited n ≡ false
      → suc n ≤ k
      → length (dag.parents n) + remaining (n ∷ visited) k ≤ remaining visited k
  remaining-visit n visited zero fresh h = omega arith
  remaining-visit n visited (suc k) fresh h = elim (Bool-cases (n == k)) [
    | inl here ↦
        let same : n ≡ k = (==_iff n k).0 here in
        let fresh_k : visited_node visited k ≡ false =
          subst (λ m. visited_node visited m ≡ false) same fresh in
        let q : length (dag.parents n) ≡ length (dag.parents k) =
          ap (λ m. length (dag.parents m)) same in
        let more = remaining-more n visited k in rw (here, fresh_k) (omega arith)
    | inr other ↦
        let below : suc n ≤ k = grind (arith, other, h) in
        let visit = remaining-visit n visited k fresh below in rw other (omega arith)
  ]

  -- a node that does not stand in the graph has no parents
  remaining-step :
      ((n : ℕ) → dag.size ≤ n → dag.parents n ≡ [])
      → (n : ℕ) (visited : List ℕ) → visited_node visited n ≡ false
      → length (dag.parents n) + remaining (n ∷ visited) dag.size ≤ remaining visited dag.size
  remaining-step outside n visited fresh = elim (Bool-cases (leb dag.size n)) [
    | inl beyond ↦
        let q : length (dag.parents n) ≡ 0 = ap length (outside n (leb→le dag.size n beyond)) in
        let more = remaining-more n visited dag.size in omega arith
    | inr within ↦
        let below : suc n ≤ dag.size = ground (arith, within) in
        remaining-visit n visited dag.size fresh below
  ]

  module _ (reject_opouts allow_opouts : List Opout)
      (outside : (n : ℕ) → dag.size ≤ n → dag.parents n ≡ []) where
    traverse-enough :
        (fuel : ℕ) (visited stack : List ℕ)
        → length stack + remaining visited dag.size ≤ fuel
        → (b : Bool) × (traverse_ancestors dag reject_opouts allow_opouts fuel visited stack
            ≡ some b)
    unfolding traverse_ancestors
    traverse-enough zero visited [] h = (false, refl)
    traverse-enough (suc fuel) visited [] h = (false, refl)
    traverse-enough zero visited (n ∷ stack) h = absurd (omega arith)
    traverse-enough (suc fuel) visited (n ∷ stack) h =
        let more = remaining-more n visited dag.size in
        let seen = traverse-enough fuel visited stack (omega arith) in
        let shielded = traverse-enough fuel (n ∷ visited) stack (omega arith) in
        elim (Bool-cases (visited_node visited n)) [
          | inl old ↦ (seen.0, rw old seen.1)
          | inr fresh ↦
              let step = remaining-step outside n visited fresh in
              let pushed = length-push_all (dag.parents n) stack in
              let up =
                traverse-enough fuel (n ∷ visited) (push_all (dag.parents n) stack) (omega arith) in
              elim (Bool-cases (has_opout allow_opouts (dag.label n))) [
                | inl allowed ↦ (shielded.0, rw (fresh, allowed) shielded.1)
                | inr unshielded ↦ elim (Bool-cases (has_opout reject_opouts (dag.label n))) [
                  | inl rejected ↦ (true, rw (fresh, unshielded, rejected) refl)
                  | inr passes ↦ (up.0, rw (fresh, unshielded, passes) up.1)
                ]
              ]
        ]

    -- where an output stands in the graph, the search of its ancestors ends
    check_opout_total :
        (o : Opout) (n : ℕ)
        → dag.index o ≡ some n
        → (b : Bool) × (check_opout dag reject_opouts allow_opouts o ≡ ok b)
    unfolding check_opout
    check_opout_total o n known =
        let none_seen = remaining-none dag.size in
        let (b, e) =
          traverse-enough (dag_fuel dag reject_opouts allow_opouts) [] (n ∷ []) (omega arith) in
        (
          b,
          ap (from_node dag reject_opouts allow_opouts) known
              ∙ ap (searched dag reject_opouts allow_opouts) e,
        )

  -- Over a graph in which no node outside has parents, where all outputs that are checked stand in
  -- the graph, check_dag returns: the fuel of each search is enough, and there is no error.
  pub check_dag_total :
      (reject_opouts allow_opouts : List Opout)
      → ((n : ℕ) → dag.size ≤ n → dag.parents n ≡ [])
      → (os : List Opout) → All (λ o. (n : ℕ) × (dag.index o ≡ some n)) os
      → (r : List Opout) × (check_dag dag reject_opouts allow_opouts os ≡ ok r)
  unfolding check_dag
  check_dag_total reject_opouts allow_opouts outside [] known = ([], refl)
  check_dag_total reject_opouts allow_opouts outside (o ∷ os) known =
      let (b, e) = check_opout_total reject_opouts allow_opouts outside o known.0.0 known.0.1 in
      let (r, es) = check_dag_total reject_opouts allow_opouts outside os known.1 in
      (if b then o ∷ r else r, rw (e, es) refl)
