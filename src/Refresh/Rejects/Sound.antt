-- ===== src/Refresh/Rejects/Sound.antt =====
-- Paths up to a node of the reject list, and the search of `check_dag` for them.
use mathlib.Core.List.{Memᴰ}
use rgb_lib.Prelude.{
  ℕ, zero, suc, ◌≡◌, refl, subst, ap, ◌⊎◌, inl, inr, Bool, true, false, List, [], ◌∷◌, Option, none,
  some, arith, Bool-cases,
}
use rgb_lib.Result.{ok}
use rgb_lib.Services.{Opout, OpoutsDag}
use rgb_lib.Refresh.Rejects.{
  traverse_ancestors, dag_fuel, push_all, visited_node, has_opout, from_node, searched,
}

-- A path up to a node of the reject list on which no node is on the allow list.
pub data Unshielded (dag : OpoutsDag) (reject_opouts allow_opouts : List Opout) : ℕ → Type 0 where
  listed :
      {n : ℕ}
      → has_opout allow_opouts (dag.label n) ≡ false
      → has_opout reject_opouts (dag.label n) ≡ true
      → Unshielded dag reject_opouts allow_opouts n
  inherited :
      {n p : ℕ}
      → has_opout allow_opouts (dag.label n) ≡ false
      → Memᴰ p (dag.parents n)
      → Unshielded dag reject_opouts allow_opouts p
      → Unshielded dag reject_opouts allow_opouts n

push_all-Memᴰ : (m : ℕ) (ps stack : List ℕ) → Memᴰ m (push_all ps stack) → Memᴰ m ps ⊎ Memᴰ m stack
push_all-Memᴰ m [] stack h = inr h
push_all-Memᴰ m (p ∷ ps) stack h = elim (push_all-Memᴰ m ps (p ∷ stack) h) [
  | inl parent ↦ inl (Memᴰ.tail parent)
  | inr rest ↦ head_or_rest rest
]
  where
    head_or_rest : Memᴰ m (p ∷ stack) → Memᴰ m (p ∷ ps) ⊎ Memᴰ m stack
    head_or_rest (Memᴰ.head e) = inl (Memᴰ.head e)
    head_or_rest (Memᴰ.tail t) = inr t

pub ok-injective : {A : Type 0} {a b : A} → ok a ≡ ok b → a ≡ b
ok-injective h = cc

module _ (dag : OpoutsDag) (reject_opouts allow_opouts : List Opout) where
  abbrev Found : List ℕ → Type 0
  Found stack = (n : ℕ) × Memᴰ n stack × Unshielded dag reject_opouts allow_opouts n

  further : (n : ℕ) (stack : List ℕ) → Found stack → Found (n ∷ stack)
  further n stack (m, here, path) = (m, Memᴰ.tail here, path)

  through :
      (n : ℕ) (stack : List ℕ)
      → has_opout allow_opouts (dag.label n) ≡ false
      → Found (push_all (dag.parents n) stack)
      → Found (n ∷ stack)
  through n stack unshielded (m, here, path) = elim (push_all-Memᴰ m (dag.parents n) stack here) [
    | inl parent ↦ (n, Memᴰ.head refl, inherited unshielded parent path)
    | inr rest ↦ (m, Memᴰ.tail rest, path)
  ]

  traverse-Found :
      (fuel : ℕ) (visited stack : List ℕ)
      → traverse_ancestors dag reject_opouts allow_opouts fuel visited stack ≡ some true
      → Found stack
  unfolding traverse_ancestors
  traverse-Found zero visited [] h = cc
  traverse-Found (suc fuel) visited [] h = cc
  traverse-Found zero visited (n ∷ stack) h = cc
  traverse-Found (suc fuel) visited (n ∷ stack) h = elim (Bool-cases (visited_node visited n)) [
    | inl old ↦ further n stack (traverse-Found fuel visited stack (ground (arith, old, h)))
    | inr fresh ↦ elim (Bool-cases (has_opout allow_opouts (dag.label n))) [
      | inl allowed ↦
          further n stack
            (traverse-Found fuel (n ∷ visited) stack (ground (arith, fresh, allowed, h)))
      | inr unshielded ↦ elim (Bool-cases (has_opout reject_opouts (dag.label n))) [
        | inl rejected ↦ (n, Memᴰ.head refl, listed unshielded rejected)
        | inr passes ↦ through n stack unshielded (
            traverse-Found fuel (n ∷ visited) (push_all (dag.parents n) stack)
              (ground (arith, fresh, unshielded, passes, h)))
      ]
    ]
  ]

  -- that an output stands in the graph, at the end of an unshielded path
  abbrev pub IsTainted : Opout → Type 0
  IsTainted o = (n : ℕ) × (dag.index o ≡ some n) × Unshielded dag reject_opouts allow_opouts n

  single :
      (n m : ℕ)
      → Memᴰ m (n ∷ [])
      → Unshielded dag reject_opouts allow_opouts m
      → Unshielded dag reject_opouts allow_opouts n
  single n m (Memᴰ.head e) path = subst (Unshielded dag reject_opouts allow_opouts) e path
  single n m (Memᴰ.tail t) path = elim t [ ]

  pub searched-true :
      (o : Option Bool) → searched dag reject_opouts allow_opouts o ≡ ok true → o ≡ some true
  searched-true none h = cc
  searched-true (some b) h = ap some (ok-injective h)

  pub node-IsTainted :
      (o : Opout) (i : Option ℕ)
      → dag.index o ≡ i
      → from_node dag reject_opouts allow_opouts i ≡ ok true
      → IsTainted o
  node-IsTainted o none known h = cc
  node-IsTainted o (some n) known h =
      let (m, here, path) =
        traverse-Found (dag_fuel dag reject_opouts allow_opouts) [] (n ∷ []) (searched-true _ h) in
      (n, known, single n m here path)
