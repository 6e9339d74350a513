-- ===== src/Wallet/Selection/Split.antt =====
-- How a list of UTXOs is shared out into those selected and those left.
use mathlib.Core.List.{List, [], ◌∷◌, ◌++◌, Perm, perm_middle}
use mathlib.Core.List.Perm
use rgb_lib.Prelude.{String, ◌+◌, ◌≡◌, refl, ◌||◌, arith}
use rgb_lib.Database.Rows.{LocalUnspent}
use rgb_lib.Wallet.Selection.Tally.{fungible_over, inflation_over, non_fungible_over}

-- A list shared out, in order, into what is selected and the rest.
pub data Split : List LocalUnspent → List LocalUnspent → List LocalUnspent → Type 0 where
  stop : Split [] [] []
  pick : {s r us : List LocalUnspent} (u : LocalUnspent) → Split s r us → Split (u ∷ s) r (u ∷ us)
  skip : {s r us : List LocalUnspent} (u : LocalUnspent) → Split s r us → Split s (u ∷ r) (u ∷ us)

pub skip_all : (us : List LocalUnspent) → Split [] us us
skip_all [] = stop
skip_all (u ∷ us) = skip u (skip_all us)

pub Split-perm : {s r us : List LocalUnspent} → Split s r us → Perm (s ++ r) us
Split-perm stop = Perm.refl []
Split-perm (pick u p) = Perm.cons u (Split-perm p)
Split-perm (skip {s = s} {r = r} u p) = Perm.trans (perm_middle s r) (Perm.cons u (Split-perm p))

pub Split-fungible :
    (asset_id : String) {s r us : List LocalUnspent}
    → Split s r us
    → fungible_over asset_id s + fungible_over asset_id r ≡ fungible_over asset_id us
unfolding fungible_over
Split-fungible asset_id stop = refl
Split-fungible asset_id (pick u p) = omega (arith, Split-fungible asset_id p)
Split-fungible asset_id (skip u p) = omega (arith, Split-fungible asset_id p)

pub Split-inflation :
    (asset_id : String) {s r us : List LocalUnspent}
    → Split s r us
    → inflation_over asset_id s + inflation_over asset_id r ≡ inflation_over asset_id us
unfolding inflation_over
Split-inflation asset_id stop = refl
Split-inflation asset_id (pick u p) = omega (arith, Split-inflation asset_id p)
Split-inflation asset_id (skip u p) = omega (arith, Split-inflation asset_id p)

pub Split-non_fungible :
    (asset_id : String) {s r us : List LocalUnspent}
    → Split s r us
    → (non_fungible_over asset_id s || non_fungible_over asset_id r) ≡ non_fungible_over asset_id us
unfolding non_fungible_over
Split-non_fungible asset_id stop = refl
Split-non_fungible asset_id (pick u p) = ground (arith, Split-non_fungible asset_id p)
Split-non_fungible asset_id (skip u p) = ground (arith, Split-non_fungible asset_id p)
