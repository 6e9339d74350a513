-- ===== src/Wallet/Selection/Total.antt =====
-- The loop of `select_rgb_inputs` returns where the rows fit.
use mathlib.Core.List.{List, [], ◌∷◌, ◌++◌}
use rgb_lib.Prelude.{
  String, ◌+◌, ◌<◌, ◌≡◌, refl, ◌∙◌, Bool, true, ◌&&◌, Bool-cases, &&_true, inl, inr, arith, all,
  filter, parse_u64, u64_mod,
}
use rgb_lib.Status.{is_settled}
use rgb_lib.Assignment.{
  Assignment, fungible, non_fungible, inflation_right, any_assignment, AssignmentsCollection,
  inflation_amount,
}
use rgb_lib.Result.{ok}
use rgb_lib.Collection.{enough, add_to_assignments}
use rgb_lib.Database.Rows.{LocalRgbAllocation, LocalUnspent, is_asset, outpoint}
use rgb_lib.Wallet.Selection.{
  AssetSpend, add_all, take_input, takes, select_loop, asset_allocations,
}
use rgb_lib.Wallet.Selection.Tally.{
  fungible_amount, fungible_in, inflation_in, fungible_over, inflation_over, btc_over,
  add_to_assignments-tally,
}
use rgb_lib.Wallet.Selection.Loop.{Adds, take_input-Adds, select_loop-take, select_loop-skip}
use rgb_lib.Wallet.Selection.Fits.{not_any, readable, is_some-eq}

all-filter :
    (p q : LocalRgbAllocation → Bool) (l : List LocalRgbAllocation)
    → all p l ≡ true
    → all p (filter q l) ≡ true
all-filter p q [] h = refl
all-filter p q (a ∷ l) h = ground (arith, all-filter p q l)

add_to_assignments_total :
    (a : Assignment) (c : AssignmentsCollection)
    → not_any a ≡ true
    → c.fungible + fungible_amount a < u64_mod
    → c.inflation + inflation_amount a < u64_mod
    → (c' : AssignmentsCollection) × (add_to_assignments a c ≡ ok c')
unfolding add_to_assignments fungible_amount inflation_amount
add_to_assignments_total (fungible amt) c h f i =
    (record c { fungible = c.fungible + amt }, ground arith)
add_to_assignments_total non_fungible c h f i = (record c { non_fungible = true }, refl)
add_to_assignments_total (inflation_right amt) c h f i =
    (record c { inflation = c.inflation + amt }, ground arith)
add_to_assignments_total any_assignment c h f i = cc

add_all_total :
    (l : List LocalRgbAllocation) (c : AssignmentsCollection)
    → all (λ (a : LocalRgbAllocation). not_any a.assignment) l ≡ true
    → c.fungible + fungible_in l < u64_mod
    → c.inflation + inflation_in l < u64_mod
    → (c' : AssignmentsCollection) × (add_all l c ≡ ok c')
unfolding add_all fungible_in inflation_in
add_all_total [] c h f i = (c, refl)
add_all_total (a ∷ l) c h f i =
    let (here, later) = &&_true {a = not_any a.assignment} h in
    let (c', e) = add_to_assignments_total a.assignment c here (omega arith) (omega arith) in
    let tally = add_to_assignments-tally a.assignment c c' e in
    let (c'', e') = add_all_total l c' later (omega (arith, tally)) (omega (arith, tally)) in
    (c'', rw e e')

-- the sums of what was collected and of the UTXOs still to come fit
pub record Room (asset_id : String) (s : AssetSpend) (us : List LocalUnspent) : Type 0 where
  pub fungible : s.assignments_collected.fungible + fungible_over asset_id us < u64_mod
  pub inflation : s.assignments_collected.inflation + inflation_over asset_id us < u64_mod
  pub btc : s.input_btc_amt + btc_over us < u64_mod

take_input_total :
    (asset_id : String) (u : LocalUnspent) (us : List LocalUnspent) (s : AssetSpend)
    → readable u ≡ true
    → Room asset_id s (u ∷ us)
    → (s' : AssetSpend) × (take_input asset_id u s ≡ ok s')
unfolding take_input fungible_over inflation_over btc_over
take_input_total asset_id u us s h room =
    let l = asset_allocations asset_id u in
    let (n, en) = is_some-eq (parse_u64 u.utxo.btc_amount) (ground (arith, h)) in
    let kinds =
      all-filter (λ (a : LocalRgbAllocation). not_any a.assignment)
        (λ (a : LocalRgbAllocation). is_asset asset_id a.asset_id && is_settled a.status)
        u.rgb_allocations (ground (arith, h)) in
    let (c, e) =
      add_all_total l s.assignments_collected kinds (omega (arith, room.fungible))
        (omega (arith, room.inflation)) in
    let fits : s.input_btc_amt + n < u64_mod = ground (arith, en, room.btc) in
    (
      record {
        input_outpoints = s.input_outpoints ++ outpoint u.utxo ∷ [];
        assignments_collected = c;
        input_btc_amt = s.input_btc_amt + n;
      },
      rw (e, en) (ground (arith, fits)),
    )

Room-skip :
    (asset_id : String) (s : AssetSpend) (u : LocalUnspent) (us : List LocalUnspent)
    → Room asset_id s (u ∷ us)
    → Room asset_id s us
unfolding fungible_over inflation_over btc_over
Room-skip asset_id s u us room = omega (arith, room.fungible, room.inflation, room.btc)

Room-take :
    (asset_id : String) (s s' : AssetSpend) (u : LocalUnspent) (us : List LocalUnspent)
    → Adds asset_id s s' (u ∷ [])
    → Room asset_id s (u ∷ us)
    → Room asset_id s' us
unfolding fungible_over inflation_over btc_over
Room-take asset_id s s' u us a room =
    omega (arith, room.fungible, room.inflation, room.btc, a.fungible, a.inflation, a.btc)

pub select_loop_total :
    (asset_id : String) (needed : AssignmentsCollection) (us : List LocalUnspent) (s : AssetSpend)
    → all readable us ≡ true
    → Room asset_id s us
    → (s' : AssetSpend) × (select_loop asset_id needed s us ≡ ok s')
select_loop_total asset_id needed [] s h room = (s, unfold select_loop in refl)
select_loop_total asset_id needed (u ∷ us) s h room =
    elim (Bool-cases (takes asset_id needed s u)) [
      | inl t ↦
          let (m, e) = take_input_total asset_id u us s (ground (arith, h)) room in
          let added = take_input-Adds asset_id u s m e in
          let (s', es) =
            select_loop_total asset_id needed us m (ground (arith, h))
              (Room-take asset_id s m u us added room) in
          elim (Bool-cases (enough m.assignments_collected needed)) [
            | inl done ↦ (m, select_loop-take asset_id needed s u us t ∙ (rw (e, done)))
            | inr more ↦ (s', select_loop-take asset_id needed s u us t ∙ (rw (e, more) es))
          ]
      | inr t ↦
          let (s', e) =
            select_loop_total asset_id needed us s (ground (arith, h))
              (Room-skip asset_id s u us room) in
          (s', select_loop-skip asset_id needed s u us t ∙ e)
    ]
