-- ===== src/Wallet/Unspents/Shown.antt =====
-- The settled amounts of an asset in what `list_unspents` shows, step by step.
use rgb_lib.Prelude.{
  ℕ, String, ◌+◌, ◌≡◌, refl, subst, Bool, true, false, ◌&&◌, ◌||◌, List, [], ◌∷◌, ◌++◌, map, Option,
  none, some, filter, is_empty, if◌then◌else◌, arith, Bool-cases, inl, inr,
}
use rgb_lib.Assignment.{main_amount}
use rgb_lib.Result.{ok, >>=-eq-ok, traverse}
use rgb_lib.Database.Rows.{Outpoint, LocalRgbAllocation, LocalUnspent, is_asset}
use rgb_lib.Database.Joins.{allocation_settled, allocation_future}
use rgb_lib.Database.Balance.Amounts.{amount_where, amount_over}
use rgb_lib.Database.Balance.Totals.{in_asset, settled_amount}
use rgb_lib.Wallet.Unspents.{
  Unspent, RgbAllocation, LocalOutput, unspent_of_local, unspent_of_output, rgb_allocation,
  retain_visible, visible_unspents, retain_settled, with_index,
}

-- the settled amounts of an asset in what is shown
unfoldable pub shown_in : String → List RgbAllocation → ℕ
shown_in asset_id [] = 0
shown_in asset_id (a ∷ l) =
    (if is_asset asset_id a.asset_id && a.settled then main_amount a.assignment else 0)
    + shown_in asset_id l

unfoldable pub shown_over : String → List Unspent → ℕ
shown_over asset_id [] = 0
shown_over asset_id (u ∷ us) = shown_in asset_id u.rgb_allocations + shown_over asset_id us

shown_in-map :
    (asset_id : String) (l : List LocalRgbAllocation)
    → shown_in asset_id (map rgb_allocation l)
      ≡ amount_where (in_asset asset_id allocation_settled) l
unfolding shown_in amount_where
shown_in-map asset_id [] = refl
shown_in-map asset_id (a ∷ l) = rw (shown_in-map asset_id l) refl

pub shown_over-traverse :
    (asset_id : String) (us : List LocalUnspent) (vs : List Unspent)
    → traverse unspent_of_local us ≡ ok vs
    → shown_over asset_id vs ≡ settled_amount asset_id us
unfolding traverse shown_over amount_over
shown_over-traverse asset_id [] vs h =
    let e : [] ≡ vs = ground (arith, h) in subst (λ l. shown_over asset_id l ≡ 0) e refl
shown_over-traverse asset_id (u ∷ us) vs h =
    let (w, ew, g) = >>=-eq-ok (unspent_of_local u) _ h in
    let (ws, ews, r) = >>=-eq-ok (traverse unspent_of_local us) _ g in
    let one : map rgb_allocation u.rgb_allocations ≡ w.rgb_allocations =
      unfold unspent_of_local in ground (arith, ew) in
    let cons : w ∷ ws ≡ vs = ground (arith, r) in
    subst (λ l. shown_over asset_id l ≡ settled_amount asset_id (u ∷ us)) cons
      (rw (← one) (
        omega
          (arith, shown_in-map asset_id u.rgb_allocations, shown_over-traverse asset_id us ws ews)))

visible_where :
    (asset_id : String) (l : List LocalRgbAllocation)
    → amount_where
        (in_asset asset_id allocation_settled)
        (filter (λ (a : LocalRgbAllocation). allocation_settled a || allocation_future a) l)
      ≡ amount_where (in_asset asset_id allocation_settled) l
unfolding amount_where
visible_where asset_id [] = refl
visible_where asset_id (a ∷ l) = elim (Bool-cases (allocation_settled a)) [
  | inl yes' ↦ rw yes' (ground (arith, visible_where asset_id l))
  | inr no' ↦ rw no' (ground (arith, visible_where asset_id l))
]

nothing_where :
    (p : LocalRgbAllocation → Bool) (l : List LocalRgbAllocation)
    → is_empty l ≡ true
    → amount_where p l ≡ 0
unfolding amount_where
nothing_where p [] h = refl
nothing_where p (a ∷ l) h = cc

pub visible_over :
    (asset_id : String) (us : List LocalUnspent)
    → settled_amount asset_id (visible_unspents us) ≡ settled_amount asset_id us
unfolding amount_over
visible_over asset_id [] = refl
visible_over asset_id (u ∷ us) =
    let e = visible_where asset_id u.rgb_allocations in
    let ih = visible_over asset_id us in
    let v = retain_visible u in
    elim (Bool-cases (is_empty v.rgb_allocations && v.utxo.spent)) [
      | inl gone ↦
          let none' =
            nothing_where (in_asset asset_id allocation_settled) v.rgb_allocations
              (ground (arith, gone)) in
          rw gone (omega (arith, e, ih, none'))
      | inr stays ↦ rw stays (omega (arith, e, ih))
    ]

settled_shown :
    (asset_id : String) (us : List Unspent)
    → shown_over asset_id (map retain_settled us) ≡ shown_over asset_id us
unfolding shown_over shown_in
settled_shown asset_id [] = refl
settled_shown asset_id (u ∷ us) = omega (arith, go u.rgb_allocations, settled_shown asset_id us)
  where
    go :
        (l : List RgbAllocation)
        → shown_in asset_id (filter (λ (a : RgbAllocation). a.settled) l) ≡ shown_in asset_id l
    go [] = refl
    go (a ∷ l) = elim (Bool-cases a.settled) [
      | inl yes' ↦ rw yes' (ground (arith, go l))
      | inr no' ↦ rw no' (ground (arith, go l))
    ]

pub internal_empty :
    (asset_id : String) (l : List LocalOutput) → shown_over asset_id (map unspent_of_output l) ≡ 0
unfolding shown_over shown_in
internal_empty asset_id [] = refl
internal_empty asset_id (o ∷ l) = omega (arith, internal_empty asset_id l)

pub indexed_same :
    (derivation_index : Outpoint → Option ℕ) (internal : List LocalOutput) (asset_id : String)
    (us : List Unspent)
    → shown_over asset_id (map (with_index derivation_index internal) us) ≡ shown_over asset_id us
unfolding shown_over
indexed_same derivation_index internal asset_id [] = refl
indexed_same derivation_index internal asset_id (u ∷ us) = omega (
  arith,
  same (derivation_index u.utxo.outpoint),
  indexed_same derivation_index internal asset_id us,
)
  where
    same :
        (o : Option ℕ)
        → shown_in asset_id
            (elim o as (λ _. Unspent) [
              | some i ↦ record u { utxo = record u.utxo { derivation_index = some i } }
              | none ↦ u
            ]).rgb_allocations
          ≡ shown_in asset_id u.rgb_allocations
    same none = refl
    same (some i) = refl

pub chosen :
    (asset_id : String) (settled_only : Bool) (vs : List Unspent)
    → shown_over asset_id (if settled_only then map retain_settled vs else vs)
      ≡ shown_over asset_id vs
chosen asset_id true vs = settled_shown asset_id vs
chosen asset_id false vs = refl

pub shown_over-append :
    (asset_id : String) (us vs : List Unspent)
    → shown_over asset_id (us ++ vs) ≡ shown_over asset_id us + shown_over asset_id vs
unfolding shown_over
shown_over-append asset_id [] vs = omega arith
shown_over-append asset_id (u ∷ us) vs = omega (arith, shown_over-append asset_id us vs)
