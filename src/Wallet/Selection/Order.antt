-- ===== src/Wallet/Selection/Order.antt =====
-- The sorts before the loop return where the rows fit, and change no sum.
use mathlib.Core.List.{List, [], ◌∷◌, map, Perm, Permᴰ}
use mathlib.Core.Bool.{Bool-set}
use mathlib.Core.Logic.{∥∥₁_elim}
use native.Mathlib.Nat.{ℕ_set}
use rgb_lib.Prelude.{
  ℕ, ◌+◌, ◌≡◌, refl, ◌∙◌, Bool, true, false, arith, if◌then◌else◌, ltb, all, u64_mod,
}
use rgb_lib.Prelude.Sort.{sort_pairs}
use rgb_lib.Assignment.{Assignment, AssignmentsCollection, main_amount, inflation_amount}
use rgb_lib.Result.{ok, traverse}
use rgb_lib.Database.Rows.{LocalUnspent}
use rgb_lib.Database.Balance.{sum_u64}
use rgb_lib.Wallet.Selection.{allocation_sum, sort_unspents, order_unspents}
use rgb_lib.Wallet.Selection.Tally.{btc_over}
use rgb_lib.Wallet.Selection.Select.{optional_sort-perm}
use rgb_lib.Wallet.Selection.Fits.{amount_sum, sum_from-amount_sum, readable}

traverse-allocation_sum_total :
    (f : Assignment → ℕ) (us : List LocalUnspent)
    → all (λ (u : LocalUnspent). ltb (amount_sum f u.rgb_allocations) u64_mod) us ≡ true
    → (keyed : List (ℕ × LocalUnspent)) × (traverse (allocation_sum f) us ≡ ok keyed)
unfolding traverse allocation_sum
traverse-allocation_sum_total f [] h = ([], refl)
traverse-allocation_sum_total f (u ∷ us) h =
    let (keyed, e) = traverse-allocation_sum_total f us (ground (arith, h)) in
    let sum = sum_from-amount_sum f 0 u.rgb_allocations (ground (arith, h)) in
    ((0 + amount_sum f u.rgb_allocations, u) ∷ keyed, unfold sum_u64 in rw (sum, e))

sort_unspents_total :
    (f : Assignment → ℕ) (us : List LocalUnspent)
    → all (λ (u : LocalUnspent). ltb (amount_sum f u.rgb_allocations) u64_mod) us ≡ true
    → (vs : List LocalUnspent) × (sort_unspents f us ≡ ok vs)
unfolding sort_unspents
sort_unspents_total f [] h = ([], refl)
sort_unspents_total f (u ∷ []) h = (u ∷ [], refl)
sort_unspents_total f (u ∷ v ∷ us) h =
    let (keyed, e) = traverse-allocation_sum_total f (u ∷ v ∷ us) h in
    (map (λ p. p.1) (sort_pairs keyed), rw e)

readable-sums :
    (us : List LocalUnspent)
    → all readable us ≡ true
    → (all (λ (u : LocalUnspent). ltb (amount_sum main_amount u.rgb_allocations) u64_mod) us ≡ true)
      × (all (λ (u : LocalUnspent). ltb (amount_sum inflation_amount u.rgb_allocations) u64_mod) us
          ≡ true)
readable-sums [] h = (refl, refl)
readable-sums (u ∷ us) h = ground (arith, readable-sums us)

all-Permᴰ :
    (p : LocalUnspent → Bool) {us vs : List LocalUnspent} → Permᴰ us vs → all p us ≡ all p vs
all-Permᴰ p Permᴰ.nil = refl
all-Permᴰ p (Permᴰ.cons e r) = ground (arith, e, all-Permᴰ p r)
all-Permᴰ p (Permᴰ.swap e f) = ground (arith, e, f)
all-Permᴰ p (Permᴰ.trans r q) = all-Permᴰ p r ∙ all-Permᴰ p q

btc_over-Permᴰ : {us vs : List LocalUnspent} → Permᴰ us vs → btc_over us ≡ btc_over vs
unfolding btc_over
btc_over-Permᴰ Permᴰ.nil = refl
btc_over-Permᴰ (Permᴰ.cons e r) = ground (arith, e, btc_over-Permᴰ r)
btc_over-Permᴰ (Permᴰ.swap e f) = ground (arith, e, f)
btc_over-Permᴰ (Permᴰ.trans r q) = btc_over-Permᴰ r ∙ btc_over-Permᴰ q

-- the rows stay readable and the sums the same in any order
pub reordered :
    (us vs : List LocalUnspent)
    → Perm us vs
    → (all readable us ≡ all readable vs) × (btc_over us ≡ btc_over vs)
reordered us vs p =
    (∥∥₁_elim p (Bool-set _ _) (all-Permᴰ readable), ∥∥₁_elim p (ℕ_set _ _) btc_over-Permᴰ)

pub order_unspents_total :
    (needed : AssignmentsCollection) (us : List LocalUnspent)
    → all readable us ≡ true
    → (vs : List LocalUnspent) × (order_unspents needed us ≡ ok vs)
unfolding order_unspents
order_unspents_total needed us h =
    let (ws, e) = first (ltb 0 needed.inflation) in
    let same =
      (reordered ws us (optional_sort-perm (ltb 0 needed.inflation) inflation_amount us ws e)).0 in
    let (vs, e') = second ws (same ∙ h) (ltb 0 needed.fungible) in (vs, rw (e, e'))
  where
    first :
        (b : Bool)
        → (ws : List LocalUnspent) × ((if b then sort_unspents inflation_amount us else ok us)
            ≡ ok ws)
    first true = sort_unspents_total inflation_amount us (readable-sums us h).1
    first false = (us, refl)

    second :
        (ws : List LocalUnspent)
        → all readable ws ≡ true
        → (b : Bool)
        → (vs : List LocalUnspent) × ((if b then sort_unspents main_amount ws else ok ws) ≡ ok vs)
    second ws k true = sort_unspents_total main_amount ws (readable-sums ws k).0
    second ws k false = (ws, refl)
