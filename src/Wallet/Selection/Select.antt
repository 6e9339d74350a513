-- ===== src/Wallet/Selection/Select.antt =====
-- `select_rgb_inputs`: a selection covers what is needed, out of UTXOs that were offered, and it
-- fails only where they do not hold enough.
use mathlib.Core.List.{List, [], ◌∷◌, ◌++◌, map, Perm, Permᴰ}
use mathlib.Core.List.Perm
use mathlib.Core.Logic.{∥∥₁_elim}
use mathlib.Core.Path.{subst₂}
use rgb_lib.Prelude.{
  ℕ, String, ◌+◌, ◌-◌, ◌≡◌, refl, subst, ◌∙◌, Bool, true, false, arith, if◌then◌else◌, ltb,
}
use rgb_lib.Prelude.Sort.{sort_pairs, sort_pairs-perm}
use rgb_lib.Assignment.{Assignment, AssignmentsCollection, main_amount, inflation_amount}
use rgb_lib.Result.{ok, >>=-eq-ok, traverse}
use rgb_lib.Collection.{enough, change}
use rgb_lib.Collection.Cover.{Covers, enough-Covers}
use rgb_lib.Database.Rows.{LocalUnspent}
use rgb_lib.Wallet.Selection.{
  AssetSpend, allocation_sum, sort_unspents, order_unspents, nothing_spent, select_loop,
  select_rgb_inputs,
}
use rgb_lib.Wallet.Selection.Tally.{fungible_over, inflation_over, non_fungible_over, btc_over}
use rgb_lib.Wallet.Selection.Loop.{outpoints, select_loop-Picked}
use rgb_lib.Wallet.Selection.Split.{Split-perm}

-- the keys are put beside the UTXOs, which stay as they are
traverse-allocation_sum :
    (f : Assignment → ℕ) (us : List LocalUnspent) (keyed : List (ℕ × LocalUnspent))
    → traverse (allocation_sum f) us ≡ ok keyed
    → map (λ p. p.1) keyed ≡ us
unfolding traverse
traverse-allocation_sum f [] [] h = refl
traverse-allocation_sum f [] (p ∷ keyed) h = cc
traverse-allocation_sum f (u ∷ us) keyed h =
    let (k, e, g) = >>=-eq-ok (allocation_sum f u) _ h in
    let (ks, es, r) = >>=-eq-ok (traverse (allocation_sum f) us) _ g in
    let head : k.1 ≡ u = unfold allocation_sum in ground (arith, e) in
    let ih = traverse-allocation_sum f us ks es in
    let cons : k ∷ ks ≡ keyed = ground (arith, r) in
    subst (λ l. map (λ p. p.1) l ≡ u ∷ us) cons (cc (head, ih))

sort_unspents-perm :
    (f : Assignment → ℕ) (us vs : List LocalUnspent) → sort_unspents f us ≡ ok vs → Perm vs us
unfolding sort_unspents
sort_unspents-perm f [] vs h =
    let e : [] ≡ vs = ground arith in subst (λ l. Perm l []) e (Perm.refl [])
sort_unspents-perm f (u ∷ []) vs h =
    let e : u ∷ [] ≡ vs = ground arith in subst (λ l. Perm l (u ∷ [])) e (Perm.refl (u ∷ []))
sort_unspents-perm f (u ∷ v ∷ us) vs h =
    let (keyed, e, g) = >>=-eq-ok (traverse (allocation_sum f) (u ∷ v ∷ us)) _ h in
    let same = traverse-allocation_sum f (u ∷ v ∷ us) keyed e in
    let sorted : map (λ p. p.1) (sort_pairs keyed) ≡ vs = ground (arith, g) in
    subst₂ Perm sorted same (Perm.map (λ p. p.1) (sort_pairs-perm keyed))

pub optional_sort-perm :
    (b : Bool) (f : Assignment → ℕ) (us vs : List LocalUnspent)
    → (if b then sort_unspents f us else ok us) ≡ ok vs
    → Perm vs us
optional_sort-perm true f us vs h = sort_unspents-perm f us vs h
optional_sort-perm false f us vs h =
    let e : us ≡ vs = ground arith in subst (λ l. Perm l us) e (Perm.refl us)

pub order_unspents-perm :
    (needed : AssignmentsCollection) (us vs : List LocalUnspent)
    → order_unspents needed us ≡ ok vs
    → Perm vs us
unfolding order_unspents
order_unspents-perm needed us vs h =
    let (ws, e, g) =
      >>=-eq-ok (if ltb 0 needed.inflation then sort_unspents inflation_amount us else ok us) _ h in
    Perm.trans (optional_sort-perm (ltb 0 needed.fungible) main_amount ws vs g)
      (optional_sort-perm (ltb 0 needed.inflation) inflation_amount us ws e)

fungible_over-Permᴰ :
    (asset_id : String) {us vs : List LocalUnspent}
    → Permᴰ us vs
    → fungible_over asset_id us ≡ fungible_over asset_id vs
unfolding fungible_over
fungible_over-Permᴰ asset_id Permᴰ.nil = refl
fungible_over-Permᴰ asset_id (Permᴰ.cons e p) = ground (arith, e, fungible_over-Permᴰ asset_id p)
fungible_over-Permᴰ asset_id (Permᴰ.swap e f) = ground (arith, e, f)
fungible_over-Permᴰ asset_id (Permᴰ.trans p q) =
    fungible_over-Permᴰ asset_id p ∙ fungible_over-Permᴰ asset_id q

inflation_over-Permᴰ :
    (asset_id : String) {us vs : List LocalUnspent}
    → Permᴰ us vs
    → inflation_over asset_id us ≡ inflation_over asset_id vs
unfolding inflation_over
inflation_over-Permᴰ asset_id Permᴰ.nil = refl
inflation_over-Permᴰ asset_id (Permᴰ.cons e p) = ground (arith, e, inflation_over-Permᴰ asset_id p)
inflation_over-Permᴰ asset_id (Permᴰ.swap e f) = ground (arith, e, f)
inflation_over-Permᴰ asset_id (Permᴰ.trans p q) =
    inflation_over-Permᴰ asset_id p ∙ inflation_over-Permᴰ asset_id q

non_fungible_over-Permᴰ :
    (asset_id : String) {us vs : List LocalUnspent}
    → Permᴰ us vs
    → non_fungible_over asset_id us ≡ non_fungible_over asset_id vs
unfolding non_fungible_over
non_fungible_over-Permᴰ asset_id Permᴰ.nil = refl
non_fungible_over-Permᴰ asset_id (Permᴰ.cons e p) =
    ground (arith, e, non_fungible_over-Permᴰ asset_id p)
non_fungible_over-Permᴰ asset_id (Permᴰ.swap e f) = ground (arith, e, f)
non_fungible_over-Permᴰ asset_id (Permᴰ.trans p q) =
    non_fungible_over-Permᴰ asset_id p ∙ non_fungible_over-Permᴰ asset_id q

-- All that some UTXOs hold of an asset, as settled allocations.
abbrev pub holdings : String → List LocalUnspent → AssignmentsCollection
holdings asset_id us = record {
  fungible = fungible_over asset_id us;
  non_fungible = non_fungible_over asset_id us;
  inflation = inflation_over asset_id us;
}

holdings-Permᴰ :
    (asset_id : String) (us vs : List LocalUnspent)
    → Permᴰ us vs
    → holdings asset_id us ≡ holdings asset_id vs
holdings-Permᴰ asset_id us vs p = cc (
  fungible_over-Permᴰ asset_id p,
  non_fungible_over-Permᴰ asset_id p,
  inflation_over-Permᴰ asset_id p,
)

AssignmentsCollection-set : IsSet AssignmentsCollection
AssignmentsCollection-set = hlevel

pub holdings-perm :
    (asset_id : String) (us vs : List LocalUnspent)
    → Perm us vs
    → holdings asset_id us ≡ holdings asset_id vs
holdings-perm asset_id us vs p =
    ∥∥₁_elim p (AssignmentsCollection-set _ _) (holdings-Permᴰ asset_id us vs)

-- What a selection is: some of the UTXOs offered, each at most once, their outpoints, all that they
-- hold of the asset, and their BTC.
pub record Selects (asset_id : String) (spend : AssetSpend) (us : List LocalUnspent) : Type 0 where
  pub sel : List LocalUnspent
  pub rest : List LocalUnspent
  pub parts : Perm (sel ++ rest) us
  pub inputs : spend.input_outpoints ≡ outpoints sel
  pub collected : spend.assignments_collected ≡ holdings asset_id sel
  pub btc : spend.input_btc_amt ≡ btc_over sel

module _ (asset_id : String) (needed : AssignmentsCollection) (us : List LocalUnspent)
    (spend : AssetSpend) (selected : select_rgb_inputs asset_id needed us ≡ ok spend) where
  -- A selection that is returned covers what is needed: at least the fungible and the inflation
  -- amounts, and a non-fungible exactly if one is needed. It takes some of the UTXOs offered, each
  -- at most once; it reports their outpoints, the sums of the settled allocations of the asset on
  -- them, and the sum of their BTC amounts.
  pub select-Selects : Covers spend.assignments_collected needed × Selects asset_id spend us
  unfolding select_rgb_inputs
  select-Selects =
      let (vs, e, g) = >>=-eq-ok (order_unspents needed us) _ selected in
      let (s, es, r) = >>=-eq-ok (select_loop asset_id needed nothing_spent vs) _ g in
      let p = select_loop-Picked asset_id needed nothing_spent vs s es in
      let done : enough s.assignments_collected needed ≡ true = ground (arith, r) in
      let same : s ≡ spend = ground (arith, r) in
      let c = enough-Covers s.assignments_collected needed done in
      subst (λ v. Covers v.assignments_collected needed × Selects asset_id v us) same
        (
          c,
          record {
            sel = p.sel;
            rest = p.rest;
            parts = Perm.trans (Split-perm p.split) (order_unspents-perm needed us vs e);
            inputs = p.adds.inputs;
            collected = ground (arith, p.adds.fungible, p.adds.non_fungible, p.adds.inflation);
            btc = omega (arith, p.adds.btc);
          },
        )

  -- The change of a returned selection is computed without a panic, and it is what is left:
  -- together with what is needed it makes up what the selected UTXOs hold, for the fungible and for
  -- the inflation amount; no non-fungible is changed back.
  pub select-change :
      (c : AssignmentsCollection) × (change spend.assignments_collected needed ≡ ok c)
      × (c.fungible + needed.fungible ≡ spend.assignments_collected.fungible)
      × (c.inflation + needed.inflation ≡ spend.assignments_collected.inflation)
      × (c.non_fungible ≡ false)
  unfolding change
  select-change =
      let h = select-Selects.0 in
      (
        record {
          fungible = spend.assignments_collected.fungible - needed.fungible;
          non_fungible = false;
          inflation = spend.assignments_collected.inflation - needed.inflation;
        },
        ground (arith, h.fungible, h.inflation),
        omega (arith, h.fungible),
        omega (arith, h.inflation),
        refl,
      )
