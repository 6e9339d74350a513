-- ===== src/Refresh/Rejects/Exact.antt =====
-- Which outputs `check_dag` of src/wallet/online.rs rejects.
use mathlib.Core.List.{Memᴰ}
use rgb_lib.Prelude.{
  ℕ, zero, suc, ◌≡◌, refl, sym, subst, ap, ◌∙◌, ◌⊎◌, ◌↔◌, inl, inr, Bool, true, false, List, [],
  ◌∷◌, Option, none, some, if◌then◌else◌, ◌==◌, ==_iff, arith, Bool-cases,
}
use rgb_lib.Result.{ok, >>=-eq-ok}
use rgb_lib.Services.{Opout, OpoutsDag}
use rgb_lib.Refresh.Rejects.{
  traverse_ancestors, dag_fuel, check_opout, check_dag, push_all, visited_node, has_opout,
  from_node, searched,
}
use rgb_lib.Refresh.Rejects.Sound.{
  Unshielded, listed, inherited, IsTainted, node-IsTainted, ok-injective,
}

-- an unshielded path whose nodes are not visited yet
data Fresh (dag : OpoutsDag) (reject_opouts allow_opouts : List Opout) (visited : List ℕ)
    : ℕ → Type 0 where
  fresh_listed :
      {n : ℕ}
      → visited_node visited n ≡ false
      → has_opout allow_opouts (dag.label n) ≡ false
      → has_opout reject_opouts (dag.label n) ≡ true
      → Fresh dag reject_opouts allow_opouts visited n
  fresh_inherited :
      {n p : ℕ}
      → visited_node visited n ≡ false
      → has_opout allow_opouts (dag.label n) ≡ false
      → Memᴰ p (dag.parents n)
      → Fresh dag reject_opouts allow_opouts visited p
      → Fresh dag reject_opouts allow_opouts visited n

pushed-parent : (m : ℕ) (ps stack : List ℕ) → Memᴰ m ps ⊎ Memᴰ m stack → Memᴰ m (push_all ps stack)
pushed-parent m [] stack (inl h) = elim h [ ]
pushed-parent m [] stack (inr h) = h
pushed-parent m (p ∷ ps) stack (inl (Memᴰ.head e)) =
    pushed-parent m ps (p ∷ stack) (inr (Memᴰ.head e))
pushed-parent m (p ∷ ps) stack (inl (Memᴰ.tail t)) = pushed-parent m ps (p ∷ stack) (inl t)
pushed-parent m (p ∷ ps) stack (inr h) = pushed-parent m ps (p ∷ stack) (inr (Memᴰ.tail h))

module _ (dag : OpoutsDag) (reject_opouts allow_opouts : List Opout) where
  abbrev Off : List ℕ → ℕ → Type 0
  Off = Fresh dag reject_opouts allow_opouts

  start-Off : (n : ℕ) → Unshielded dag reject_opouts allow_opouts n → Off [] n
  start-Off n (listed a r) = fresh_listed refl a r
  start-Off n (inherited {p = p} a parent path) = fresh_inherited refl a parent (start-Off p path)

  Off-visited : (visited : List ℕ) (n : ℕ) → Off visited n → visited_node visited n ≡ false
  Off-visited visited n (fresh_listed v a r) = v
  Off-visited visited n (fresh_inherited v a parent path) = v

  -- A path, seen after a visit of `n`: it avoids `n`, or goes on from a parent of `n`, or ends there.
  abbrev AfterVisit : List ℕ → ℕ → ℕ → Type 0
  AfterVisit visited n m =
      Off (n ∷ visited) m
      ⊎ ((has_opout allow_opouts (dag.label n) ≡ false)
          × (((p : ℕ) × Memᴰ p (dag.parents n) × Off (n ∷ visited) p)
              ⊎ (has_opout reject_opouts (dag.label n) ≡ true)))

  goes_on :
      (visited : List ℕ) (n m p : ℕ)
      → visited_node visited m ≡ false
      → has_opout allow_opouts (dag.label m) ≡ false
      → Memᴰ p (dag.parents m)
      → AfterVisit visited n p
      → (n == m ≡ true) ⊎ (n == m ≡ false)
      → AfterVisit visited n m
  goes_on visited n m p v a parent (inl path) (inl here) =
      let same = sym ((==_iff n m).0 here) in
      inr (
        subst (λ k. has_opout allow_opouts (dag.label k) ≡ false) same a,
        inl (p, subst (λ k. Memᴰ p (dag.parents k)) same parent, path),
      )
  goes_on visited n m p v a parent (inl path) (inr other) =
      inl (fresh_inherited (rw other v) a parent path)
  goes_on visited n m p v a parent (inr found) h = inr found

  visit-path : (visited : List ℕ) (n m : ℕ) → Off visited m → AfterVisit visited n m
  visit-path visited n m (fresh_listed v a r) = elim (Bool-cases (n == m)) [
    | inl here ↦
        let same = sym ((==_iff n m).0 here) in
        inr (
          subst (λ k. has_opout allow_opouts (dag.label k) ≡ false) same a,
          inr (subst (λ k. has_opout reject_opouts (dag.label k) ≡ true) same r),
        )
    | inr other ↦ inl (fresh_listed (rw other v) a r)
  ]
  visit-path visited n m (fresh_inherited {p = p} v a parent path) =
      goes_on visited n m p v a parent (visit-path visited n p path) (Bool-cases (n == m))

  -- the node that is visited is on no path that avoids it
  self-visited : (visited : List ℕ) (n m : ℕ) → m ≡ n → Off (n ∷ visited) m → ⊥
  self-visited visited n m e path =
      let met : (n == m) ≡ true = (==_iff n m).1 (sym e) in
      let avoided = Off-visited (n ∷ visited) m path in absurd (ground (arith, met, avoided))

  traverse-none :
      (fuel : ℕ) (visited stack : List ℕ)
      → traverse_ancestors dag reject_opouts allow_opouts fuel visited stack ≡ some false
      → (m : ℕ) → Memᴰ m stack
      → Off visited m
      → ⊥
  unfolding traverse_ancestors
  traverse-none zero visited [] h m here path = elim here [ ]
  traverse-none (suc fuel) visited [] h m here path = elim here [ ]
  traverse-none zero visited (n ∷ stack) h m here path = cc
  traverse-none (suc fuel) visited (n ∷ stack) h m here path =
      elim (Bool-cases (visited_node visited n)) [
        | inl old ↦
            at_old m here path old (traverse-none fuel visited stack (ground (arith, old, h)))
        | inr fresh ↦ elim (Bool-cases (has_opout allow_opouts (dag.label n))) [
          | inl allowed ↦
              at_allowed m here allowed (visit-path visited n m path)
                (traverse-none fuel (n ∷ visited) stack (ground (arith, fresh, allowed, h)))
          | inr unshielded ↦ elim (Bool-cases (has_opout reject_opouts (dag.label n))) [
            | inl rejected ↦ absurd (ground (arith, fresh, unshielded, rejected, h))
            | inr passes ↦ at_passed m here passes (visit-path visited n m path) (
                traverse-none fuel (n ∷ visited) (push_all (dag.parents n) stack)
                  (ground (arith, fresh, unshielded, passes, h)))
          ]
        ]
      ]
    where
      at_old :
          (k : ℕ)
          → Memᴰ k (n ∷ stack)
          → Off visited k
          → visited_node visited n ≡ true
          → ((i : ℕ) → Memᴰ i stack → Off visited i → ⊥)
          → ⊥
      at_old k (Memᴰ.head e) path old rest =
          let seen : visited_node visited k ≡ true =
            subst (λ i. visited_node visited i ≡ true) (sym e) old in
          let unseen = Off-visited visited k path in absurd (ground (arith, seen, unseen))
      at_old k (Memᴰ.tail t) path old rest = rest k t path

      at_allowed :
          (k : ℕ)
          → Memᴰ k (n ∷ stack)
          → has_opout allow_opouts (dag.label n) ≡ true
          → AfterVisit visited n k
          → ((i : ℕ) → Memᴰ i stack → Off (n ∷ visited) i → ⊥)
          → ⊥
      at_allowed k (Memᴰ.head e) allowed (inl path) rest = self-visited visited n k e path
      at_allowed k (Memᴰ.tail t) allowed (inl path) rest = rest k t path
      at_allowed k here allowed (inr found) rest =
          let unshielded = found.0 in absurd (ground (arith, allowed, unshielded))

      at_passed :
          (k : ℕ)
          → Memᴰ k (n ∷ stack)
          → has_opout reject_opouts (dag.label n) ≡ false
          → AfterVisit visited n k
          → ((i : ℕ) → Memᴰ i (push_all (dag.parents n) stack) → Off (n ∷ visited) i → ⊥)
          → ⊥
      at_passed k (Memᴰ.head e) passes (inl path) rest = self-visited visited n k e path
      at_passed k (Memᴰ.tail t) passes (inl path) rest =
          rest k (pushed-parent k (dag.parents n) stack (inr t)) path
      at_passed k here passes (inr (u, inl (p, parent, path))) rest =
          rest p (pushed-parent p (dag.parents n) stack (inl parent)) path
      at_passed k here passes (inr (u, inr ends)) rest = absurd (ground (arith, passes, ends))

  searched-false :
      (o : Option Bool) → searched dag reject_opouts allow_opouts o ≡ ok false → o ≡ some false
  searched-false none h = cc
  searched-false (some b) h = ap some (ok-injective h)

  node-rejects :
      (o : Opout) (b : Bool)
      → check_opout dag reject_opouts allow_opouts o ≡ ok b
      → IsTainted dag reject_opouts allow_opouts o
      → b ≡ true
  unfolding check_opout
  node-rejects o true h tainted = refl
  node-rejects o false h (n, known, path) =
      let e : searched dag reject_opouts allow_opouts (
            traverse_ancestors dag reject_opouts allow_opouts
              (dag_fuel dag reject_opouts allow_opouts) [] (n ∷ []))
          ≡ ok false =
        sym (ap (from_node dag reject_opouts allow_opouts) known) ∙ h in
      absurd
        (traverse-none _ [] (n ∷ []) (searched-false _ e) n (Memᴰ.head refl) (start-Off n path))

  opout-IsTainted :
      (o : Opout)
      → check_opout dag reject_opouts allow_opouts o ≡ ok true
      → IsTainted dag reject_opouts allow_opouts o
  unfolding check_opout
  opout-IsTainted o h = node-IsTainted dag reject_opouts allow_opouts o (dag.index o) refl h

  extend :
      (b : Bool) (p : Opout) (os r : List Opout) (o : Opout)
      → check_opout dag reject_opouts allow_opouts p ≡ ok b
      → Memᴰ o r ↔ (Memᴰ o os × IsTainted dag reject_opouts allow_opouts o)
      → Memᴰ o (if b then p ∷ r else r)
        ↔ (Memᴰ o (p ∷ os) × IsTainted dag reject_opouts allow_opouts o)
  extend true p os r o checked ih = (
    kept_of,
    (λ m. elim (m.0) [ Memᴰ.head e ↦ Memᴰ.head e | Memᴰ.tail t ↦ Memᴰ.tail (ih.1 (t, m.1)) ]),
  )
    where
      kept_of : Memᴰ o (p ∷ r) → Memᴰ o (p ∷ os) × IsTainted dag reject_opouts allow_opouts o
      kept_of (Memᴰ.head e) = (
        Memᴰ.head e,
        subst (IsTainted dag reject_opouts allow_opouts) (sym e) (opout-IsTainted p checked),
      )
      kept_of (Memᴰ.tail t) = let k = ih.0 t in (Memᴰ.tail k.0, k.1)
  extend false p os r o checked ih =
      ((λ m. let k = ih.0 m in (Memᴰ.tail k.0, k.1)), (λ m. kept_of m.0 m.1))
    where
      kept_of : Memᴰ o (p ∷ os) → IsTainted dag reject_opouts allow_opouts o → Memᴰ o r
      kept_of (Memᴰ.head e) tainted =
          let wrong : false ≡ true =
            node-rejects p false checked
              (subst (IsTainted dag reject_opouts allow_opouts) e tainted) in
          absurd (cc)
      kept_of (Memᴰ.tail t) tainted = ih.1 (t, tainted)

  -- Where check_dag returns, it rejects exactly those of the outputs checked that stand in the graph
  -- at the end of a path up to a node of the reject list, on which neither the output itself nor any
  -- other node is on the allow list.
  pub check_dag-exact :
      (os r : List Opout)
      → check_dag dag reject_opouts allow_opouts os ≡ ok r
      → (o : Opout) → Memᴰ o r ↔ (Memᴰ o os × IsTainted dag reject_opouts allow_opouts o)
  unfolding check_dag
  check_dag-exact [] r h o =
      subst (λ l. Memᴰ o l ↔ (Memᴰ o [] × IsTainted dag reject_opouts allow_opouts o))
        (ok-injective h) ((λ m. elim m [ ]), (λ m. elim (m.0) [ ]))
  check_dag-exact (p ∷ os) r h o =
      let (b, checked, h') = >>=-eq-ok (check_opout dag reject_opouts allow_opouts p) _ h in
      let (r', rest, h'') = >>=-eq-ok (check_dag dag reject_opouts allow_opouts os) _ h' in
      subst (λ l. Memᴰ o l ↔ (Memᴰ o (p ∷ os) × IsTainted dag reject_opouts allow_opouts o))
        (ok-injective h'') (extend b p os r' o checked (check_dag-exact os r' rest o))
