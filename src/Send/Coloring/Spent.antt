-- ===== src/Send/Coloring/Spent.antt =====
-- Which RGB outputs the transitions of a transfer spend (`prepare_rgb_psbt` of src/wallet/online.rs).
use mathlib.Core.List.{
  append_assoc, Perm, perm_append_comm, perm-append_left_iff, perm-append_right_iff,
}
use mathlib.Core.List.Perm
use rgb_lib.Prelude.{
  String, Bool, ◌≡◌, refl, sym, ap, ◌∙◌, subst, List, [], ◌∷◌, ◌++◌, map, Option, none, any, str_eq,
  inl, inr, Bool-cases, if◌then◌else◌,
}
use rgb_lib.Result.{Result, ok, err, panic, ◌>>=◌, >>=-eq-ok, ok_injective}
use rgb_lib.Database.Rows.{Outpoint, DbTxo}
use rgb_lib.Send.{InfoAssetTransfer}
use rgb_lib.Send.Coloring.{OpoutState}
use rgb_lib.Send.Coloring.Psbt.{
  Setting, ColoredPsbt, AllMoved, extra_entry, color_asset, color_assets, unsent_state, move_all,
  color_psbt,
}
use rgb_lib.Send.Coloring.Conserve.{Apart, color_asset-Conserves}
use rgb_lib.Send.Coloring.Whole.{under, spends, all_outputs, spends-append, move_all-Moves}

-- the list returned
abbrev pub returned : {A : Type 0} → Result (List A) → List A
returned (ok l) = l
returned (err e) = []
returned panic = []

-- what the runtime finds of a contract on some TXOs
abbrev pub on_txos : Setting → String → List Outpoint → List (String × OpoutState)
on_txos c id l = under id (returned (c.runtime.contract_assignments_for id l))

-- for each asset that is sent, what is on the TXOs selected for it
abbrev pub on_selected : Setting → List (String × InfoAssetTransfer) → List (String × OpoutState)
on_selected c [] = []
on_selected c ((id, info) ∷ l) =
    on_txos c info.asset_info.contract_id info.asset_spend.input_outpoints ++ on_selected c l

abbrev pub is_sent : List (String × InfoAssetTransfer) → String → Bool
is_sent sent id = any (λ (t : String × InfoAssetTransfer). str_eq t.0 id) sent

-- for each of the contracts that is not sent, what is on all TXOs that are spent
abbrev pub on_spent :
    Setting → List (String × InfoAssetTransfer) → List String → List (String × OpoutState)
on_spent c sent [] = []
on_spent c sent (id ∷ ids) =
    if is_sent sent id
    then on_spent c sent ids
    else on_txos c id c.prev_outputs ++ on_spent c sent ids

under-append : (id : String) (l k : List OpoutState) → under id (l ++ k) ≡ under id l ++ under id k
under-append id [] k = refl
under-append id (r ∷ l) k = ap (λ x. (id, r) ∷ x) (under-append id l k)

abbrev map_under : String → List OpoutState → List (String × OpoutState)
map_under id l = map (λ r. (id, r)) l

map_under-under : (id : String) (l : List OpoutState) → map_under id l ≡ under id l
map_under-under id [] = refl
map_under-under id (r ∷ l) = ap (λ x. (id, r) ∷ x) (map_under-under id l)

under-perm : (id : String) (l k : List OpoutState) → Perm l k → Perm (under id l) (under id k)
under-perm id l k p =
    subst (λ x. Perm x (under id k)) (map_under-under id l)
      (subst (Perm (map_under id l)) (map_under-under id k)
        (Perm.map (λ (r : OpoutState). (id, r)) p))

all_outputs-append :
    (l k : List (String × List OpoutState)) → all_outputs (l ++ k) ≡ all_outputs l ++ all_outputs k
all_outputs-append [] k = refl
all_outputs-append ((id, l) ∷ rest) k =
    ap (λ x. under id l ++ x) (all_outputs-append rest k)
    ∙ sym (append_assoc (under id l) (all_outputs rest) (all_outputs k))

all_outputs-extra_entry :
    (id : String) (l : List OpoutState) (k : List (String × List OpoutState))
    → all_outputs (extra_entry id l ++ k) ≡ under id l ++ all_outputs k
all_outputs-extra_entry id [] k = refl
all_outputs-extra_entry id (r ∷ l) k = refl

-- the parts of two lists may be taken in turn
both :
    {A : Type 0} (i e is es l k : List A)
    → Perm (i ++ e) l
    → Perm (is ++ es) k
    → Perm ((i ++ is) ++ (e ++ es)) (l ++ k)
both i e is es l k p q =
    subst (λ x. Perm x (l ++ k)) (sym (append_assoc i is (e ++ es)))
      (Perm.trans
        ((perm-append_left_iff i).1 (
          Perm.trans (perm_append_comm is (e ++ es)) (
            subst (λ x. Perm x (e ++ (is ++ es))) (sym (append_assoc e es is))
              ((perm-append_left_iff e).1 (perm_append_comm es is)))))
        (subst (λ x. Perm x (l ++ k)) (append_assoc i e (is ++ es))
          (Perm.trans ((perm-append_right_iff (is ++ es)).1 p) ((perm-append_left_iff l).1 q))))

module _ (c : Setting) (apart : Apart c) where
  color_assets-spends :
      (sent : List (String × InfoAssetTransfer)) (cached : Option DbTxo) (p : ColoredPsbt)
      → color_assets c sent cached ≡ ok p
      → Perm (spends p.transitions ++ all_outputs p.extra_state) (on_selected c sent)
  unfolding color_assets
  color_assets-spends [] cached p h =
      subst (λ (x : ColoredPsbt). Perm (spends x.transitions ++ all_outputs x.extra_state) [])
        (ok_injective h) (Perm.refl [])
  color_assets-spends ((id, info) ∷ rest) cached p h =
      let (a, ea, h1) = >>=-eq-ok (color_asset c id info cached) _ h in
      let (r, er, h2) = >>=-eq-ok (color_assets c rest a.change_utxo) _ h1 in
      let s = color_asset-Conserves c apart id info cached a ea in
      let contract = info.asset_info.contract_id in
      let found : s.found
          ≡ returned
              (c.runtime.contract_assignments_for contract info.asset_spend.input_outpoints) =
        sym (ap returned s.listed) in
      let here : Perm (under contract a.transition.inputs ++ under contract a.extra)
          (on_txos c contract info.asset_spend.input_outpoints) =
        subst (λ x. Perm x (on_txos c contract info.asset_spend.input_outpoints))
          (under-append contract a.transition.inputs a.extra)
          (subst (λ x. Perm (under contract (a.transition.inputs ++ a.extra)) (under contract x))
            found (under-perm contract (a.transition.inputs ++ a.extra) s.found s.all)) in
      subst
        (λ (x : ColoredPsbt).
          Perm (spends x.transitions ++ all_outputs x.extra_state)
            (on_selected c ((id, info) ∷ rest)))
        (ok_injective h2)
        (subst
          (λ x.
            Perm ((under contract a.transition.inputs ++ spends r.transitions) ++ x)
              (on_selected c ((id, info) ∷ rest)))
          (sym (all_outputs-extra_entry contract a.extra r.extra_state))
          (both (under contract a.transition.inputs) (under contract a.extra) (spends r.transitions)
            (all_outputs r.extra_state) (on_txos c contract info.asset_spend.input_outpoints)
            (on_selected c rest) here (color_assets-spends rest a.change_utxo r er)))

module _ (c : Setting) (sent : List (String × InfoAssetTransfer)) where
  unsent_state-on_spent :
      (ids : List String) (l : List (String × List OpoutState))
      → unsent_state c sent ids ≡ ok l
      → all_outputs l ≡ on_spent c sent ids
  unfolding unsent_state
  unsent_state-on_spent [] l h = subst (λ x. all_outputs x ≡ []) (ok_injective h) refl
  unsent_state-on_spent (id ∷ ids) l h = elim (Bool-cases (is_sent sent id)) [
    | inl skip ↦
        let same : unsent_state c sent ids ≡ ok l = rw skip at h in
        unsent_state-on_spent ids l same ∙ (rw skip refl)
    | inr kept ↦
        let made : (c.runtime.contract_assignments_for id c.prev_outputs >>= λ l.
        unsent_state c sent ids >>= λ r. ok ((id, l) ∷ r))
            ≡ ok l =
          rw kept at h in
        let (here, eh, h1) =
          >>=-eq-ok (c.runtime.contract_assignments_for id c.prev_outputs) _ made in
        let (r, er, h2) = >>=-eq-ok (unsent_state c sent ids) _ h1 in
        let both_parts : all_outputs l ≡ on_txos c id c.prev_outputs ++ on_spent c sent ids =
          sym (ap all_outputs (ok_injective h2))
          ∙ ap (λ x. x ++ all_outputs r) (ap (λ x. under id (returned x)) (sym eh))
          ∙ ap (λ x. on_txos c id c.prev_outputs ++ x) (unsent_state-on_spent ids r er) in
        both_parts ∙ (rw kept refl)
  ]

-- Where the type of an output of the asset is not that of one of inflation rights: when the coloring
-- returns, its transitions spend, each once, the outputs that the runtime finds of
-- each asset that is sent on the TXOs selected for it, and those that it finds of the contracts that
-- are not sent on the TXOs that the transaction spends, and no other output.
pub color_psbt-spends :
    (c : Setting) (sent : List (String × InfoAssetTransfer)) (p : ColoredPsbt) (m : AllMoved)
    → Apart c
    → color_psbt c sent ≡ ok (p, m)
    → Perm (spends (p.transitions ++ m.transitions)) (
        on_selected c sent
        ++ on_spent c sent (returned (c.runtime.contracts_assigning c.prev_outputs)))
unfolding color_psbt
color_psbt-spends c sent p m apart h =
    let (p', ep, h1) = >>=-eq-ok (color_assets c sent none) _ h in
    let (ids, ei, h2) = >>=-eq-ok (c.runtime.contracts_assigning c.prev_outputs) _ h1 in
    let (others, eo, h3) = >>=-eq-ok (unsent_state c sent ids) _ h2 in
    let (m', em, h4) = >>=-eq-ok (move_all c (p'.extra_state ++ others) p'.change_utxo) _ h3 in
    let rest : all_outputs others
        ≡ on_spent c sent (returned (c.runtime.contracts_assigning c.prev_outputs)) =
      unsent_state-on_spent c sent ids others eo
      ∙ ap (λ x. on_spent c sent (returned x)) (sym ei) in
    let whole : spends (p'.transitions ++ m'.transitions)
        ≡ (spends p'.transitions ++ all_outputs p'.extra_state) ++ all_outputs others =
      spends-append p'.transitions m'.transitions
      ∙ ap (λ x. spends p'.transitions ++ x)
          ((move_all-Moves c (p'.extra_state ++ others) p'.change_utxo m' em).spent
            ∙ all_outputs-append p'.extra_state others)
      ∙ sym (
          append_assoc (spends p'.transitions) (all_outputs p'.extra_state) (all_outputs others)) in
    let target =
      on_selected c sent
      ++ on_spent c sent (returned (c.runtime.contracts_assigning c.prev_outputs)) in
    subst
      (λ (x : ColoredPsbt × AllMoved). Perm (spends (x.0.transitions ++ x.1.transitions)) target)
      (ok_injective h4)
      (subst (λ x. Perm x target) (sym whole)
        (subst
          (λ x.
            Perm ((spends p'.transitions ++ all_outputs p'.extra_state) ++ all_outputs others)
              (on_selected c sent ++ x))
          rest
          ((perm-append_right_iff (all_outputs others)).1
            (color_assets-spends c apart sent none p' ep))))
