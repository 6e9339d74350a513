-- ===== src/Wallet/Selection/Loop.antt =====
-- The loop of `select_rgb_inputs`: what it takes, what it leaves.
use mathlib.Core.List.{List, [], ◌∷◌, ◌++◌, map, append-nil, append_assoc}
use rgb_lib.Prelude.{
  String, ◌+◌, ◌≤◌, ◌<◌, ◌≡◌, refl, ap, sym, subst, ◌∙◌, if◌then◌else◌, true, false, ◌||◌, ◌&&◌,
  not, Bool-cases, inl, inr, arith, is_empty,
}
use rgb_lib.Assignment.{AssignmentsCollection}
use rgb_lib.Result.{ok, ◌>>=◌, >>=-eq-ok}
use rgb_lib.Collection.{enough}
use rgb_lib.Database.Rows.{Outpoint, outpoint, LocalRgbAllocation, LocalUnspent}
use rgb_lib.Wallet.Selection.{
  AssetSpend, asset_allocations, hosts_needed, add_all, take_input, takes, select_loop,
}
use rgb_lib.Wallet.Selection.Tally.{
  fungible_over, inflation_over, non_fungible_over, btc_over, add_all-tally, fungible_in-zero,
  inflation_in-zero,
}
use rgb_lib.Wallet.Selection.Split.{Split, stop, pick, skip, skip_all}

abbrev pub outpoints : List LocalUnspent → List Outpoint
outpoints = map (λ (u : LocalUnspent). outpoint u.utxo)

-- `s'` is `s` with the UTXOs `sel` added to it.
pub record Adds (asset_id : String) (s s' : AssetSpend) (sel : List LocalUnspent) : Type 0 where
  pub inputs : s'.input_outpoints ≡ s.input_outpoints ++ outpoints sel
  pub fungible :
      s'.assignments_collected.fungible
      ≡ s.assignments_collected.fungible + fungible_over asset_id sel
  pub non_fungible :
      s'.assignments_collected.non_fungible
      ≡ (s.assignments_collected.non_fungible || non_fungible_over asset_id sel)
  pub inflation :
      s'.assignments_collected.inflation
      ≡ s.assignments_collected.inflation + inflation_over asset_id sel
  pub btc : s'.input_btc_amt ≡ s.input_btc_amt + btc_over sel

-- What is left out holds nothing that is still needed.
pub record Exhausted (asset_id : String) (c needed : AssignmentsCollection)
    (rest : List LocalUnspent) : Type 0 where
  pub fungible : c.fungible < needed.fungible → fungible_over asset_id rest ≡ 0
  pub non_fungible :
      c.non_fungible ≡ false → needed.non_fungible ≡ true → non_fungible_over asset_id rest ≡ false
  pub inflation : c.inflation < needed.inflation → inflation_over asset_id rest ≡ 0

pub take_input-Adds :
    (asset_id : String) (u : LocalUnspent) (s s' : AssetSpend)
    → take_input asset_id u s ≡ ok s'
    → Adds asset_id s s' (u ∷ [])
unfolding take_input fungible_over inflation_over non_fungible_over btc_over
take_input-Adds asset_id u s s' h =
    let allocations = asset_allocations asset_id u in
    let (c, e, f) = >>=-eq-ok (add_all allocations s.assignments_collected) _ h in
    let tally = add_all-tally allocations s.assignments_collected c e in ground (arith, tally, f)

Adds-trans :
    {asset_id : String} {s t v : AssetSpend} (u : LocalUnspent) (sel : List LocalUnspent)
    → Adds asset_id s t (u ∷ [])
    → Adds asset_id t v sel
    → Adds asset_id s v (u ∷ sel)
unfolding fungible_over inflation_over non_fungible_over btc_over
Adds-trans {s = s} u sel a b = record {
  inputs =
      b.inputs
      ∙ ap (λ l. l ++ outpoints sel) a.inputs
      ∙ append_assoc s.input_outpoints (outpoint u.utxo ∷ []) (outpoints sel);
  fungible = omega (arith, a.fungible, b.fungible);
  non_fungible = ground (arith, a.non_fungible, b.non_fungible);
  inflation = omega (arith, a.inflation, b.inflation);
  btc = omega (arith, a.btc, b.btc);
}

-- a UTXO that the loop passes by holds nothing that is needed
skipped :
    (asset_id : String) (c needed : AssignmentsCollection) (u : LocalUnspent)
    → hosts_needed c needed (asset_allocations asset_id u) ≡ false
    → Exhausted asset_id c needed (u ∷ [])
unfolding fungible_over inflation_over non_fungible_over
skipped asset_id c needed u h = record {
  fungible = λ k. ground (arith, fungible_in-zero (asset_allocations asset_id u));
  non_fungible = λ k e. ground arith;
  inflation = λ k. ground (arith, inflation_in-zero (asset_allocations asset_id u));
}

not_taken :
    (asset_id : String) (needed : AssignmentsCollection) (s : AssetSpend) (u : LocalUnspent)
    → takes asset_id needed s u ≡ false
    → hosts_needed s.assignments_collected needed (asset_allocations asset_id u) ≡ false
not_taken asset_id needed s u h = go (asset_allocations asset_id u) h
  where
    go :
        (l : List LocalRgbAllocation)
        → (not (is_empty l) && hosts_needed s.assignments_collected needed l) ≡ false
        → hosts_needed s.assignments_collected needed l ≡ false
    go [] k = ground arith
    go (a ∷ l) k = k

Exhausted-cons :
    (asset_id : String) (c c' needed : AssignmentsCollection) (u : LocalUnspent)
    (rest : List LocalUnspent)
    → c.fungible ≤ c'.fungible
    → (c.non_fungible ≡ true → c'.non_fungible ≡ true)
    → c.inflation ≤ c'.inflation
    → Exhausted asset_id c needed (u ∷ [])
    → Exhausted asset_id c' needed rest
    → Exhausted asset_id c' needed (u ∷ rest)
unfolding fungible_over inflation_over non_fungible_over
Exhausted-cons asset_id c c' needed u rest f n i e r = record {
  fungible = λ k. omega (arith, e.fungible (omega arith), r.fungible k);
  non_fungible = λ k m. elim (Bool-cases c.non_fungible) [
    | inl hit ↦ cc (n hit)
    | inr miss ↦ ground (arith, e.non_fungible miss m, r.non_fungible k m)
  ];
  inflation = λ k. omega (arith, e.inflation (omega arith), r.inflation k);
}

enough-Exhausted :
    (asset_id : String) (c needed : AssignmentsCollection) (rest : List LocalUnspent)
    → enough c needed ≡ true
    → Exhausted asset_id c needed rest
unfolding enough
enough-Exhausted asset_id c needed rest h = record {
  fungible = λ k. ground arith;
  non_fungible = λ k m. ground arith;
  inflation = λ k. ground arith;
}

-- What the loop has done: it shared the UTXOs out, added those that it selected, and left out only
-- what is of no use.
pub record Picked (asset_id : String) (needed : AssignmentsCollection) (s s' : AssetSpend)
    (us : List LocalUnspent) : Type 0 where
  pub sel : List LocalUnspent
  pub rest : List LocalUnspent
  pub split : Split sel rest us
  pub adds : Adds asset_id s s' sel
  pub exhausted : Exhausted asset_id s'.assignments_collected needed rest

pub select_loop-take :
    (asset_id : String) (needed : AssignmentsCollection) (s : AssetSpend) (u : LocalUnspent)
    (us : List LocalUnspent)
    → takes asset_id needed s u ≡ true
    → select_loop asset_id needed s (u ∷ us) ≡ (
        take_input asset_id u s >>= λ s'.
        if enough s'.assignments_collected needed then ok s' else select_loop asset_id needed s' us)
unfolding select_loop
select_loop-take asset_id needed s u us h = rw h

pub select_loop-skip :
    (asset_id : String) (needed : AssignmentsCollection) (s : AssetSpend) (u : LocalUnspent)
    (us : List LocalUnspent)
    → takes asset_id needed s u ≡ false
    → select_loop asset_id needed s (u ∷ us) ≡ select_loop asset_id needed s us
unfolding select_loop
select_loop-skip asset_id needed s u us h = rw h

Adds-none : (asset_id : String) (s : AssetSpend) → Adds asset_id s s []
unfolding fungible_over inflation_over non_fungible_over btc_over
Adds-none asset_id s = record {
  inputs = sym (append-nil s.input_outpoints);
  fungible = omega arith;
  non_fungible = ground arith;
  inflation = omega arith;
  btc = omega arith;
}

module _ (asset_id : String) (needed : AssignmentsCollection) where
  Picked-skip :
      (s s' : AssetSpend) (u : LocalUnspent) (us : List LocalUnspent)
      → takes asset_id needed s u ≡ false
      → Picked asset_id needed s s' us
      → Picked asset_id needed s s' (u ∷ us)
  Picked-skip s s' u us t p = record {
    sel = p.sel;
    rest = u ∷ p.rest;
    split = skip u p.split;
    adds = p.adds;
    exhausted =
        Exhausted-cons asset_id s.assignments_collected s'.assignments_collected needed u p.rest
          (omega (arith, p.adds.fungible)) (λ k. ground (arith, p.adds.non_fungible))
          (omega (arith, p.adds.inflation))
          (skipped asset_id s.assignments_collected needed u (not_taken asset_id needed s u t))
          p.exhausted;
  }

  Picked-last :
      (s m s' : AssetSpend) (u : LocalUnspent) (us : List LocalUnspent)
      → take_input asset_id u s ≡ ok m
      → enough m.assignments_collected needed ≡ true
      → m ≡ s'
      → Picked asset_id needed s s' (u ∷ us)
  Picked-last s m s' u us e done eq =
      subst (λ v. Picked asset_id needed s v (u ∷ us)) eq
        (record {
          sel = u ∷ [];
          rest = us;
          split = pick u (skip_all us);
          adds = take_input-Adds asset_id u s m e;
          exhausted = enough-Exhausted asset_id m.assignments_collected needed us done;
        })

  Picked-more :
      (s m s' : AssetSpend) (u : LocalUnspent) (us : List LocalUnspent)
      → take_input asset_id u s ≡ ok m
      → Picked asset_id needed m s' us
      → Picked asset_id needed s s' (u ∷ us)
  Picked-more s m s' u us e p = record {
    sel = u ∷ p.sel;
    rest = p.rest;
    split = pick u p.split;
    adds = Adds-trans u p.sel (take_input-Adds asset_id u s m e) p.adds;
    exhausted = p.exhausted;
  }

  Picked-none : (s s' : AssetSpend) → s ≡ s' → Picked asset_id needed s s' []
  unfolding fungible_over inflation_over non_fungible_over
  Picked-none s s' eq =
      subst (λ v. Picked asset_id needed s v []) eq
        (record {
          sel = [];
          rest = [];
          split = stop;
          adds = Adds-none asset_id s;
          exhausted = record {
            fungible = λ k. refl;
            non_fungible = λ k m. refl;
            inflation = λ k. refl;
          };
        })

  pub select_loop-Picked :
      (s : AssetSpend) (us : List LocalUnspent) (s' : AssetSpend)
      → select_loop asset_id needed s us ≡ ok s'
      → Picked asset_id needed s s' us
  select_loop-Picked s [] s' h = Picked-none s s' (unfold select_loop in ground arith)
  select_loop-Picked s (u ∷ us) s' h = elim (Bool-cases (takes asset_id needed s u)) [
    | inl t ↦
        let (m, e, f) =
          >>=-eq-ok (take_input asset_id u s) _
            (sym (select_loop-take asset_id needed s u us t) ∙ h) in
        elim (Bool-cases (enough m.assignments_collected needed)) [
          | inl done ↦ Picked-last s m s' u us e done (ground (arith, done, f))
          | inr more ↦
              Picked-more s m s' u us e (select_loop-Picked m us s' (ground (arith, more, f)))
        ]
    | inr t ↦
        Picked-skip s s' u us t
          (select_loop-Picked s us s' (sym (select_loop-skip asset_id needed s u us t) ∙ h))
  ]
