-- ===== src/Send/Coloring/Conserve.antt =====
-- No amount is made or lost by the transitions of `prepare_rgb_psbt` of src/wallet/online.rs.
use mathlib.Core.List.{Perm}
use mathlib.Core.List.Perm
use rgb_lib.Prelude.{
  ℕ, ◌+◌, String, ◌≡◌, ◌≢◌, refl, sym, ap, subst, List, [], ◌∷◌, ◌++◌, Option, none, some, All, inl,
  inr, Bool-cases, arith,
}
use rgb_lib.Assignment.{
  Assignment, fungible, non_fungible, inflation_right, any_assignment, AssignmentsCollection,
}
use rgb_lib.Result.{Result, ok, ◌>>=◌, >>=-eq-ok, ok_injective}
use rgb_lib.Collection
use rgb_lib.Collection.{AllocatedState, amount, token, other_state}
use rgb_lib.Database.Rows.{DbTxo}
use rgb_lib.Send.{LocalRecipient, InfoAssetTransfer}
use rgb_lib.Send.Coloring.{
  OpoutState, Owned, Seal, Transition, ColoredAsset, is_nothing, recipient_output, add_recipients,
  with_output, change_outputs, pick_inputs, sort_opouts, declare,
}
use rgb_lib.Send.Coloring.Psbt.{Setting, get_change_seal, add_change, start, color_asset}
use rgb_lib.Send.Coloring.Split.{
  counted, inputs_total, NotRejected, pick_inputs-Splits, sort_opouts-perm,
}

abbrev pub owned_total : ℕ → List Owned → ℕ
owned_total ty [] = 0
owned_total ty (o ∷ l) = counted ty o.ty o.state + owned_total ty l

-- what recipients are to get
abbrev pub fungible_of : Assignment → ℕ
fungible_of (fungible n) = n
fungible_of _ = 0

abbrev pub inflation_of : Assignment → ℕ
inflation_of (inflation_right n) = n
inflation_of _ = 0

abbrev pub asked : (Assignment → ℕ) → List LocalRecipient → ℕ
asked f [] = 0
asked f (r ∷ l) = f r.assignment + asked f l

owned_total-append :
    (ty : ℕ) (l k : List Owned) → owned_total ty (l ++ k) ≡ owned_total ty l + owned_total ty k
owned_total-append ty [] k = omega arith
owned_total-append ty (o ∷ l) k = ground (arith, owned_total-append ty l k)

module _ (os_asset os_inflation : ℕ) (apart : os_asset ≢ os_inflation) where
  abbrev output_total : ℕ → Option Owned → ℕ
  output_total ty none = 0
  output_total ty (some o) = counted ty o.ty o.state

  recipient_output-total :
      (uda : Option AllocatedState) (seal : Seal) (a : Assignment) (o : Option Owned)
      → recipient_output os_asset os_inflation uda seal a ≡ ok o
      → (output_total os_asset o ≡ fungible_of a) × (output_total os_inflation o ≡ inflation_of a)
  unfolding recipient_output
  recipient_output-total uda seal (fungible n) none h = ground (arith, h)
  recipient_output-total uda seal (fungible n) (some o) h = ground (arith, h, apart)
  recipient_output-total uda seal (inflation_right n) none h = ground (arith, h)
  recipient_output-total uda seal (inflation_right n) (some o) h = ground (arith, h, apart)
  recipient_output-total none seal non_fungible o h = absurd (cc)
  recipient_output-total (some token) seal non_fungible none h = (refl, refl)
  recipient_output-total (some token) seal non_fungible (some o) h = ground (arith, h)
  recipient_output-total (some (amount n)) seal non_fungible none h = (refl, refl)
  recipient_output-total (some (amount n)) seal non_fungible (some o) h = absurd (cc)
  recipient_output-total (some other_state) seal non_fungible none h = (refl, refl)
  recipient_output-total (some other_state) seal non_fungible (some o) h = absurd (cc)
  recipient_output-total uda seal any_assignment o h = absurd (cc)

  change_outputs-total :
      (c : AssignmentsCollection) (seal : Seal)
      → (owned_total os_asset (change_outputs os_asset os_inflation c seal) ≡ c.fungible)
        × (owned_total os_inflation (change_outputs os_asset os_inflation c seal) ≡ c.inflation)
  change_outputs-total c seal = ground (arith, apart)

  change-adds :
      (c needed given : AssignmentsCollection)
      → Collection.change c needed ≡ ok given
      → (given.fungible + needed.fungible ≡ c.fungible)
        × (given.inflation + needed.inflation ≡ c.inflation)
  unfolding Collection.change
  change-adds c needed given h = ground (arith, h)

  with_output-total :
      (ty : ℕ) (o : Option Owned) (id : String) (rest : List Owned × List (Seal × String))
      → owned_total ty ((with_output os_asset os_inflation o id rest).0)
        ≡ output_total ty o + owned_total ty (rest.0)
  with_output-total ty none id rest = omega arith
  with_output-total ty (some o) id rest = refl

  add_recipients-total :
      (uda : Option AllocatedState) (rs : List LocalRecipient)
      (r : List Owned × List (Seal × String))
      → add_recipients os_asset os_inflation uda rs ≡ ok r
      → (owned_total os_asset (r.0) ≡ asked fungible_of rs)
        × (owned_total os_inflation (r.0) ≡ asked inflation_of rs)
  unfolding add_recipients
  add_recipients-total uda [] r h =
      let same : ([], []) ≡ r = cc in
      subst
        (λ (x : List Owned × List (Seal × String)).
          (owned_total os_asset (x.0) ≡ 0) × (owned_total os_inflation (x.0) ≡ 0))
        same (refl, refl)
  add_recipients-total uda (x ∷ rs) r h =
      let (o, eo, h1) = >>=-eq-ok (recipient_output os_asset os_inflation uda _ x.assignment) _ h in
      let (rest, er, h2) = >>=-eq-ok (add_recipients os_asset os_inflation uda rs) _ h1 in
      let (f, i) = recipient_output-total uda _ x.assignment o eo in
      let (fs, is) = add_recipients-total uda rs rest er in
      let same : with_output os_asset os_inflation o x.recipient_id rest ≡ r = cc in
      let wf = with_output-total os_asset o x.recipient_id rest in
      let wi = with_output-total os_inflation o x.recipient_id rest in
      subst
        (λ (y : List Owned × List (Seal × String)).
          (owned_total os_asset (y.0) ≡ asked fungible_of (x ∷ rs))
          × (owned_total os_inflation (y.0) ≡ asked inflation_of (x ∷ rs)))
        same (ground (arith, wf, f, fs), ground (arith, wi, i, is))

-- the schemas' types of the two kinds of fungible state differ
abbrev pub Apart : Setting → Type 0
Apart c = c.os_asset ≢ c.os_inflation

module _ (c : Setting) (apart : Apart c) where
  add_change-total :
      (given : AssignmentsCollection) (cached : Option DbTxo) (r : List Owned × Option DbTxo)
      → add_change c given cached ≡ ok r
      → (owned_total c.os_asset (r.0) ≡ given.fungible)
        × (owned_total c.os_inflation (r.0) ≡ given.inflation)
  unfolding add_change
  add_change-total given cached r h = elim (Bool-cases (is_nothing given)) [
    | inl none_left ↦
        let empty : Result (List Owned × Option DbTxo) = ok ([], cached) in
        let made : empty ≡ ok r = rw none_left at h in
        let same : ([], cached) ≡ r = cc in
        subst
          (λ (x : List Owned × Option DbTxo).
            (owned_total c.os_asset (x.0) ≡ given.fungible)
            × (owned_total c.os_inflation (x.0) ≡ given.inflation))
          same (ground (arith, none_left), ground (arith, none_left))
    | inr some_left ↦
        let made : (get_change_seal c cached >>= λ (seal, after).
        ok (change_outputs c.os_asset c.os_inflation given seal, after))
            ≡ ok r =
          rw some_left at h in
        let ((seal, after), es, h1) = >>=-eq-ok (get_change_seal c cached) _ made in
        let same : (change_outputs c.os_asset c.os_inflation given seal, after) ≡ r = cc in
        subst
          (λ (x : List Owned × Option DbTxo).
            (owned_total c.os_asset (x.0) ≡ given.fungible)
            × (owned_total c.os_inflation (x.0) ≡ given.inflation))
          same (change_outputs-total c.os_asset c.os_inflation apart given seal)
  ]

-- A transition of an asset that spends `inputs`: some of the outputs found, none of them rejected, the
-- others being left for other transitions; and what it gives out is what it spends, up to the
-- difference between what the recipients get and what was needed.
pub record Conserves (c : Setting) (info : InfoAssetTransfer) (a : ColoredAsset) : Type 0 where
  pub found : List OpoutState
  pub listed :
      c.runtime.contract_assignments_for info.asset_info.contract_id
        info.asset_spend.input_outpoints
      ≡ ok found
  pub all : Perm (a.transition.inputs ++ a.extra) found
  pub allowed : All (NotRejected c.rejected) a.transition.inputs
  pub fungible :
      owned_total c.os_asset a.transition.owned + info.original_assignments_needed.fungible
      ≡ inputs_total c.os_asset a.transition.inputs + asked fungible_of info.recipients
  pub inflation :
      owned_total c.os_inflation a.transition.owned + info.original_assignments_needed.inflation
      ≡ inputs_total c.os_inflation a.transition.inputs + asked inflation_of info.recipients

balance :
    (needed : ℕ) {out to_recipients to_change given wanted collected spent inputs : ℕ}
    → out ≡ to_recipients + to_change
    → to_recipients ≡ wanted
    → to_change ≡ given
    → given + needed ≡ collected
    → collected ≡ 0 + spent
    → inputs ≡ spent
    → out + needed ≡ inputs + wanted
balance needed a b c d e f = omega arith

module _ (c : Setting) (apart : Apart c) where
  pub color_asset-Conserves :
      (id : String) (info : InfoAssetTransfer) (cached : Option DbTxo) (a : ColoredAsset)
      → color_asset c id info cached ≡ ok a
      → Conserves c info a
  unfolding color_asset
  color_asset-Conserves id info cached a h =
      let contract = info.asset_info.contract_id in
      let (opouts, eo, h1) =
        >>=-eq-ok (c.runtime.contract_assignments_for contract info.asset_spend.input_outpoints) _
          h in
      let (p, ep, h2) =
        >>=-eq-ok
          (pick_inputs c.os_asset c.os_inflation c.rejected info.assignments_needed
            (sort_opouts opouts) (start info.assignments_spent))
          _ h1 in
      let ((owned, beneficiaries), er, h3) =
        >>=-eq-ok (add_recipients c.os_asset c.os_inflation p.uda_state info.recipients) _ h2 in
      let (given, eg, h4) =
        >>=-eq-ok (Collection.change p.added info.original_assignments_needed) _ h3 in
      let ((change_owned, after), ec, h5) = >>=-eq-ok (add_change c given cached) _ h4 in
      let t : Transition = record {
        inputs = p.inputs;
        owned = owned ++ change_owned;
        declared = declare c.os_asset c.os_inflation info given;
      } in
      let (done, ed, h6) = >>=-eq-ok (c.runtime.complete_transition contract t) _ h5 in
      let s =
        pick_inputs-Splits c.os_asset c.os_inflation apart c.rejected info.assignments_needed
          (sort_opouts opouts) (start info.assignments_spent) p ep in
      let (af, ai) =
        add_recipients-total c.os_asset c.os_inflation apart p.uda_state info.recipients _ er in
      let (gf, gi) =
        change-adds c.os_asset c.os_inflation apart p.added info.original_assignments_needed given
          eg in
      let (cf, ci) = add_change-total c apart given cached _ ec in
      let of = owned_total-append c.os_asset owned change_owned in
      let oi = owned_total-append c.os_inflation owned change_owned in
      let whole : Perm (p.inputs ++ p.extra) opouts =
        subst (λ x. Perm (x ++ p.extra) opouts) (sym s.inputs)
          (subst (λ x. Perm (s.spent ++ x) opouts) (sym s.extra)
            (Perm.trans s.all (sort_opouts-perm opouts))) in
      subst (Conserves c info) (ok_injective h6) (record {
        found = opouts;
        listed = eo;
        all = whole;
        allowed = subst (All (NotRejected c.rejected)) (sym s.inputs) s.allowed;
        fungible =
            balance info.original_assignments_needed.fungible of af cf gf s.fungible
              (ap (inputs_total c.os_asset) s.inputs);
        inflation =
            balance info.original_assignments_needed.inflation oi ai ci gi s.inflation
              (ap (inputs_total c.os_inflation) s.inputs);
      })
