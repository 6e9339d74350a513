-- ===== src/Wallet/Selection/Complete.antt =====
-- `select_rgb_inputs` returns a selection exactly where the UTXOs offered hold enough.
use mathlib.Core.List.{List}
use rgb_lib.Prelude.{
  String, ◌≤◌, ◌<◌, ◌≡◌, sym, ◌∙◌, true, false, Bool-cases, ◌⊎◌, inl, inr, arith, ltb, ltb→lt, ap,
  subst,
}
use rgb_lib.Assignment.{AssignmentsCollection}
use rgb_lib.Result.{ok, err, insufficient_assignments}
use rgb_lib.Collection.{enough}
use rgb_lib.Collection.Cover.{Covers, enough-Covers, Covers-enough}
use rgb_lib.Database.Rows.{LocalUnspent}
use rgb_lib.Wallet.Selection.{
  AssetSpend, order_unspents, nothing_spent, select_loop, select_rgb_inputs,
}
use rgb_lib.Wallet.Selection.Tally.{fungible_over, inflation_over, non_fungible_over}
use rgb_lib.Wallet.Selection.Loop.{Picked, select_loop-Picked}
use rgb_lib.Wallet.Selection.Split.{Split-fungible, Split-inflation, Split-non_fungible}
use rgb_lib.Wallet.Selection.Select.{order_unspents-perm, holdings, holdings-perm}
use rgb_lib.Wallet.Selection.Fits.{Fits}
use rgb_lib.Wallet.Selection.Total.{Room, select_loop_total}
use rgb_lib.Wallet.Selection.Order.{reordered, order_unspents_total}

-- what the loop selects out of UTXOs that hold enough is enough
Picked-Covers :
    (asset_id : String) (needed : AssignmentsCollection) (s : AssetSpend) (vs : List LocalUnspent)
    → Picked asset_id needed nothing_spent s vs
    → Covers (holdings asset_id vs) needed
    → Covers s.assignments_collected needed
Picked-Covers asset_id needed s vs p c =
    let f = Split-fungible asset_id p.split in
    let i = Split-inflation asset_id p.split in
    let n = Split-non_fungible asset_id p.split in
    record {
      fungible = elim (Bool-cases (ltb s.assignments_collected.fungible needed.fungible)) [
        | inl less ↦
            absurd (
              ground
                (arith, f, c.fungible, p.adds.fungible, p.exhausted.fungible (ltb→lt _ _ less)))
        | inr fine ↦ ground arith
      ];
      non_fungible = elim (Bool-cases needed.non_fungible) [
        | inl yes' ↦ elim (Bool-cases s.assignments_collected.non_fungible) [
          | inl got ↦ got ∙ sym yes'
          | inr missing ↦
              ground (
                arith,
                n,
                p.adds.non_fungible,
                c.non_fungible,
                p.exhausted.non_fungible missing yes',
              )
        ]
        | inr no' ↦ ground (arith, n, p.adds.non_fungible, c.non_fungible)
      ];
      inflation = elim (Bool-cases (ltb s.assignments_collected.inflation needed.inflation)) [
        | inl less ↦ absurd (
            ground
              (arith, i, c.inflation, p.adds.inflation, p.exhausted.inflation (ltb→lt _ _ less)))
        | inr fine ↦ ground arith
      ];
    }

-- and it is no more than they hold
Picked-le :
    (asset_id : String) (needed : AssignmentsCollection) (s : AssetSpend) (vs : List LocalUnspent)
    → Picked asset_id needed nothing_spent s vs
    → (s.assignments_collected.fungible ≤ fungible_over asset_id vs)
      × (s.assignments_collected.inflation ≤ inflation_over asset_id vs)
      × (non_fungible_over asset_id vs ≡ false → s.assignments_collected.non_fungible ≡ false)
Picked-le asset_id needed s vs p = (
  omega (arith, p.adds.fungible, Split-fungible asset_id p.split),
  omega (arith, p.adds.inflation, Split-inflation asset_id p.split),
  λ h. ground (arith, p.adds.non_fungible, Split-non_fungible asset_id p.split),
)

module _ (asset_id : String) (needed : AssignmentsCollection) (us : List LocalUnspent)
    (fits : Fits asset_id us) where
  -- the sorted UTXOs, what the loop makes of them, and that they hold what was offered
  record Run : Type 0 where
    sorted : List LocalUnspent
    spend : AssetSpend
    ordered : order_unspents needed us ≡ ok sorted
    looped : select_loop asset_id needed nothing_spent sorted ≡ ok spend
    same : holdings asset_id sorted ≡ holdings asset_id us

  run : Run
  run =
      let (vs, e) = order_unspents_total needed us fits.rows in
      let p = order_unspents-perm needed us vs e in
      let h = holdings-perm asset_id vs us p in
      let (rows, btc) = reordered vs us p in
      let room : Room asset_id nothing_spent vs = record {
        fungible = omega (arith, fits.fungible, ap (λ c. c.fungible) h);
        inflation = omega (arith, fits.inflation, ap (λ c. c.inflation) h);
        btc = omega (arith, fits.btc, btc);
      } in
      let (s, es) = select_loop_total asset_id needed vs nothing_spent (rows ∙ fits.rows) room in
      record { sorted = vs; spend = s; ordered = e; looped = es; same = h }

  -- Where the rows can be read and their sums fit in a u64, UTXOs that hold enough of the asset (at
  -- least the fungible and the inflation amounts needed, and a non-fungible exactly if one is
  -- needed) give a selection: there is no error and no panic.
  pub select_complete :
      enough (holdings asset_id us) needed ≡ true
      → (spend : AssetSpend) × (select_rgb_inputs asset_id needed us ≡ ok spend)
  unfolding select_rgb_inputs
  select_complete h =
      let r = run in
      let c = enough-Covers (holdings asset_id us) needed h in
      let c' = subst (λ v. Covers v needed) (sym r.same) c in
      let p = select_loop-Picked asset_id needed nothing_spent r.sorted r.spend r.looped in
      let done =
        Covers-enough r.spend.assignments_collected needed
          (Picked-Covers asset_id needed r.spend r.sorted p c') in
      (r.spend, rw (r.ordered, r.looped, done))

  -- Where the rows can be read and their sums fit in a u64, and they hold too little of the fungible
  -- or the inflation amount, or lack a non-fungible that is needed, the outcome is the error `InsufficientAssignments` for the asset.
  pub select_insufficient :
      (fungible_over asset_id us < needed.fungible)
        ⊎ (inflation_over asset_id us < needed.inflation)
        ⊎ (non_fungible_over asset_id us ≡ false) × (needed.non_fungible ≡ true)
      → (c : AssignmentsCollection) × (select_rgb_inputs asset_id needed us
          ≡ err (insufficient_assignments asset_id c))
  unfolding select_rgb_inputs
  select_insufficient h =
      let r = run in
      let p = select_loop-Picked asset_id needed nothing_spent r.sorted r.spend r.looped in
      let (f, i, n) = Picked-le asset_id needed r.spend r.sorted p in
      let few =
        too_little r.spend.assignments_collected
          (subst
            (λ v.
              (r.spend.assignments_collected.fungible ≤ v.fungible)
              × (r.spend.assignments_collected.inflation ≤ v.inflation)
              × (v.non_fungible ≡ false → r.spend.assignments_collected.non_fungible ≡ false))
            r.same (f, i, n))
          h in
      (r.spend.assignments_collected, rw (r.ordered, r.looped, few))
    where
      too_little :
          (c : AssignmentsCollection)
          → (c.fungible ≤ fungible_over asset_id us)
            × (c.inflation ≤ inflation_over asset_id us)
            × (non_fungible_over asset_id us ≡ false → c.non_fungible ≡ false)
          → (fungible_over asset_id us < needed.fungible)
            ⊎ (inflation_over asset_id us < needed.inflation)
            ⊎ (non_fungible_over asset_id us ≡ false) × (needed.non_fungible ≡ true)
          → enough c needed ≡ false
      too_little c (f, i, n) (inl short) = unfold enough in ground (arith, f)
      too_little c (f, i, n) (inr (inl short)) = unfold enough in ground (arith, i)
      too_little c (f, i, n) (inr (inr (m, k))) = unfold enough in ground (arith, n m, k)
