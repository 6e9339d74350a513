-- ===== src/Send/Coloring/Whole.antt =====
-- All transitions of a transfer (`prepare_rgb_psbt` of src/wallet/online.rs): the amounts balance in
-- each.
use mathlib.Core.List.{append_assoc}
use rgb_lib.Prelude.{
  ℕ, ◌+◌, String, ◌≡◌, refl, sym, ap, ◌∙◌, subst, List, [], ◌∷◌, ◌++◌, Option, none, All, arith,
}
use rgb_lib.Assignment.{Assignment}
use rgb_lib.Result.{ok, >>=-eq-ok, ok_injective}
use rgb_lib.Database.Rows.{Outpoint, DbTxo}
use rgb_lib.Send.{InfoAssetTransfer}
use rgb_lib.Send.Coloring.{
  OpoutState, Transition, ColoredAsset, from_opout_and_state, push_assignment, nothing_declared,
}
use rgb_lib.Send.Coloring.Psbt.{
  Setting, ColoredPsbt, Moved, AllMoved, get_change_seal, color_asset, color_assets, unsent_state,
  move_state, move_all, color_psbt,
}
use rgb_lib.Send.Coloring.Split.{inputs_total}
use rgb_lib.Send.Coloring.Conserve.{
  owned_total, fungible_of, inflation_of, asked, Apart, Conserves, color_asset-Conserves,
}

-- a transition gives out what it spends
abbrev pub Balanced : Setting → String × Transition → Type 0
Balanced c t =
    (owned_total c.os_asset t.1.owned ≡ inputs_total c.os_asset t.1.inputs)
    × (owned_total c.os_inflation t.1.owned ≡ inputs_total c.os_inflation t.1.inputs)

-- what is needed is what the recipients get
abbrev pub NeedsWhatIsSent : String × InfoAssetTransfer → Type 0
NeedsWhatIsSent s =
    (asked fungible_of s.1.recipients ≡ s.1.original_assignments_needed.fungible)
    × (asked inflation_of s.1.recipients ≡ s.1.original_assignments_needed.inflation)

-- the outputs that transitions spend, with their contracts
abbrev pub under : String → List OpoutState → List (String × OpoutState)
under id [] = []
under id (r ∷ l) = (id, r) ∷ under id l

abbrev pub spends : List (String × Transition) → List (String × OpoutState)
spends [] = []
spends ((id, t) ∷ l) = under id t.inputs ++ spends l

abbrev pub all_outputs : List (String × List OpoutState) → List (String × OpoutState)
all_outputs [] = []
all_outputs ((id, l) ∷ rest) = under id l ++ all_outputs rest

pub spends-append : (l k : List (String × Transition)) → spends (l ++ k) ≡ spends l ++ spends k
spends-append [] k = refl
spends-append ((id, t) ∷ l) k =
    ap (λ x. under id t.inputs ++ x) (spends-append l k)
    ∙ sym (append_assoc (under id t.inputs) (spends l) (spends k))

All-append : {A : Type 0} (P : A → Type 0) (l k : List A) → All P l → All P k → All P (l ++ k)
All-append P [] k h q = q
All-append P (x ∷ l) k h q = (h.0, All-append P l k h.1 q)

module _ (c : Setting) where
  -- what moves the outputs `l`
  pub record Moves (l : List (String × OpoutState)) (ts : List (String × Transition)) : Type 0 where
    pub spent : spends ts ≡ l
    pub balanced : All (Balanced c) ts

  move_state-Moves :
      (id : String) (l : List OpoutState) (allocations : List (Outpoint × List Assignment))
      (cached : Option DbTxo) (m : Moved)
      → move_state c id l allocations cached ≡ ok m
      → Moves (under id l) m.transitions
  unfolding move_state
  move_state-Moves id [] allocations cached m h =
      subst (λ (x : Moved). Moves [] x.transitions) (ok_injective h)
        (record { spent = refl; balanced = tt })
  move_state-Moves id (r ∷ l) allocations cached m h =
      let (a, ea, h1) =
        >>=-eq-ok (from_opout_and_state c.os_asset c.os_inflation r.opout.ty r.state) _ h in
      let ((seal, after), es, h2) = >>=-eq-ok (get_change_seal c cached) _ h1 in
      let t : Transition = record {
        inputs = r ∷ [];
        owned = record { ty = r.opout.ty; seal = seal; state = r.state } ∷ [];
        declared = nothing_declared;
      } in
      let (done, ed, h3) = >>=-eq-ok (c.runtime.complete_transition id t) _ h2 in
      let (m', em, h4) =
        >>=-eq-ok (move_state c id l (push_assignment r.outpoint a allocations) after) _ h3 in
      let rest = move_state-Moves id l (push_assignment r.outpoint a allocations) after m' em in
      subst (λ (x : Moved). Moves (under id (r ∷ l)) x.transitions) (ok_injective h4)
        (record {
          spent = ap (λ x. (id, r) ∷ x) rest.spent;
          balanced = ((refl, refl), rest.balanced);
        })

  pub move_all-Moves :
      (l : List (String × List OpoutState)) (cached : Option DbTxo) (m : AllMoved)
      → move_all c l cached ≡ ok m
      → Moves (all_outputs l) m.transitions
  unfolding move_all
  move_all-Moves [] cached m h =
      subst (λ (x : AllMoved). Moves [] x.transitions) (ok_injective h)
        (record { spent = refl; balanced = tt })
  move_all-Moves ((id, l) ∷ rest) cached m h =
      let (m1, e1, h1) = >>=-eq-ok (move_state c id l [] cached) _ h in
      let (m2, e2, h2) = >>=-eq-ok (move_all c rest m1.change_utxo) _ h1 in
      let a = move_state-Moves id l [] cached m1 e1 in
      let b = move_all-Moves rest m1.change_utxo m2 e2 in
      subst (λ (x : AllMoved). Moves (under id l ++ all_outputs rest) x.transitions)
        (ok_injective h2)
        (record {
          spent =
              spends-append m1.transitions m2.transitions
              ∙ ap (λ x. x ++ spends m2.transitions) a.spent
              ∙ ap (λ x. under id l ++ x) b.spent;
          balanced = All-append (Balanced c) m1.transitions m2.transitions a.balanced b.balanced;
        })

module _ (c : Setting) (apart : Apart c) where
  Conserves-Balanced :
      (id : String) (info : InfoAssetTransfer) (a : ColoredAsset)
      → NeedsWhatIsSent (id, info)
      → Conserves c info a
      → Balanced c (id, a.transition)
  Conserves-Balanced id info a (f, i) h = (cancel f h.fungible, cancel i h.inflation)
    where
      cancel : {o n s w : ℕ} → w ≡ n → o + n ≡ s + w → o ≡ s
      cancel e q = omega arith

  color_assets-Balanced :
      (sent : List (String × InfoAssetTransfer)) (cached : Option DbTxo) (p : ColoredPsbt)
      → All NeedsWhatIsSent sent
      → color_assets c sent cached ≡ ok p
      → All (Balanced c) p.transitions
  unfolding color_assets
  color_assets-Balanced [] cached p needs h =
      subst (λ (x : ColoredPsbt). All (Balanced c) x.transitions) (ok_injective h) tt
  color_assets-Balanced ((id, info) ∷ rest) cached p needs h =
      let (a, ea, h1) = >>=-eq-ok (color_asset c id info cached) _ h in
      let (r, er, h2) = >>=-eq-ok (color_assets c rest a.change_utxo) _ h1 in
      subst (λ (x : ColoredPsbt). All (Balanced c) x.transitions) (ok_injective h2)
        (
          Conserves-Balanced info.asset_info.contract_id info a needs.0
              (color_asset-Conserves c apart id info cached a ea),
          color_assets-Balanced rest a.change_utxo r needs.1 er,
        )

-- Where the type of an output of the asset is not that of one of inflation rights: when the coloring
-- returns, and what each asset needs is what its recipients get, every transition,
-- of the assets sent and of all that is moved, gives out as much as it spends, of the asset itself
-- and of inflation rights.
pub color_psbt-Balanced :
    (c : Setting) (sent : List (String × InfoAssetTransfer)) (p : ColoredPsbt) (m : AllMoved)
    → Apart c
    → All NeedsWhatIsSent sent
    → color_psbt c sent ≡ ok (p, m)
    → All (Balanced c) (p.transitions ++ m.transitions)
unfolding color_psbt
color_psbt-Balanced c sent p m apart needs h =
    let (p', ep, h1) = >>=-eq-ok (color_assets c sent none) _ h in
    let (ids, ei, h2) = >>=-eq-ok (c.runtime.contracts_assigning c.prev_outputs) _ h1 in
    let (others, eo, h3) = >>=-eq-ok (unsent_state c sent ids) _ h2 in
    let (m', em, h4) = >>=-eq-ok (move_all c (p'.extra_state ++ others) p'.change_utxo) _ h3 in
    subst (λ (x : ColoredPsbt × AllMoved). All (Balanced c) (x.0.transitions ++ x.1.transitions))
      (ok_injective h4)
      (All-append (Balanced c) p'.transitions m'.transitions
        (color_assets-Balanced c apart sent none p' needs ep)
        ((move_all-Moves c (p'.extra_state ++ others) p'.change_utxo m' em).balanced))
