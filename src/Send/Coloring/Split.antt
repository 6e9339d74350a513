-- ===== src/Send/Coloring/Split.antt =====
-- The loop of `prepare_rgb_psbt` of src/wallet/online.rs over an asset's outputs: each is spent or
-- moved, and what is collected is what the spent ones hold.
use mathlib.Core.List.{append_assoc, append-nil, Perm, perm_middle}
use mathlib.Core.List.Perm
use rgb_lib.Prelude.{
  ℕ, ◌+◌, ◌≡◌, ◌≢◌, refl, sym, ap, ◌∙◌, subst, false, List, [], ◌∷◌, ◌++◌, map, some, any, All,
  ◌==◌, inl, inr, Bool-cases, if◌then◌else◌, arith,
}
use rgb_lib.Prelude.Sort.{sort_pairs-perm}
use rgb_lib.Assignment.{AssignmentsCollection}
use rgb_lib.Result.{ok, ◌>>=◌, >>=-eq-ok}
use rgb_lib.Collection.{AllocatedState, amount, token, other_state, add_opout_state}
use rgb_lib.Services.{Opout}
use rgb_lib.Refresh.Assignments.{opout_eq}
use rgb_lib.Send.Coloring.{
  OpoutState, Picked, not_picked, picks, add_input, pick_inputs, sort_opouts, state_key,
  from_opout_and_state, push_assignment,
}

-- the amount of a state, if it has one
abbrev pub amount_of : AllocatedState → ℕ
amount_of (amount n) = n
amount_of token = 0
amount_of other_state = 0

-- what a state of an output of type `t` adds to the sum of type `ty`
abbrev pub counted : ℕ → ℕ → AllocatedState → ℕ
counted ty t s = if t == ty then amount_of s else 0

abbrev pub inputs_total : ℕ → List OpoutState → ℕ
inputs_total ty [] = 0
inputs_total ty (r ∷ l) = counted ty r.opout.ty r.state + inputs_total ty l

abbrev pub NotRejected : List Opout → OpoutState → Type 0
NotRejected rejected r = any (opout_eq r.opout) rejected ≡ false

module _ (os_asset os_inflation : ℕ) (apart : os_asset ≢ os_inflation) where
  add_opout_state-counts :
      (t : ℕ) (s : AllocatedState) (c c' : AssignmentsCollection)
      → add_opout_state os_asset os_inflation t s c ≡ ok c'
      → (c'.fungible ≡ c.fungible + counted os_asset t s)
        × (c'.inflation ≡ c.inflation + counted os_inflation t s)
  unfolding add_opout_state
  add_opout_state-counts t (amount n) c c' h = ground (arith, h, apart)
  add_opout_state-counts t token c c' h = ground (arith, h)
  add_opout_state-counts t other_state c c' h = ground (arith, h)

  -- what the loop does with the outputs `l`
  pub record Splits (rejected : List Opout) (l : List OpoutState) (p q : Picked) : Type 0 where
    pub spent : List OpoutState
    pub moved : List OpoutState
    pub inputs : q.inputs ≡ p.inputs ++ spent
    pub extra : q.extra ≡ p.extra ++ moved
    pub all : Perm (spent ++ moved) l
    pub allowed : All (NotRejected rejected) spent
    pub fungible : q.added.fungible ≡ p.added.fungible + inputs_total os_asset spent
    pub inflation : q.added.inflation ≡ p.added.inflation + inputs_total os_inflation spent

  Splits-nil : (rejected : List Opout) (p : Picked) → Splits rejected [] p p
  Splits-nil rejected p = record {
    spent = [];
    moved = [];
    inputs = sym (append-nil p.inputs);
    extra = sym (append-nil p.extra);
    all = Perm.refl [];
    allowed = tt;
    fungible = omega arith;
    inflation = omega arith;
  }

  -- an output that is taken
  record Adds (r : OpoutState) (p p' : Picked) : Type 0 where
    pub inputs : p'.inputs ≡ p.inputs ++ r ∷ []
    pub extra : p'.extra ≡ p.extra
    pub fungible : p'.added.fungible ≡ p.added.fungible + counted os_asset r.opout.ty r.state
    pub inflation : p'.added.inflation ≡ p.added.inflation + counted os_inflation r.opout.ty r.state

  add_input-Adds :
      (r : OpoutState) (p p' : Picked) → add_input os_asset os_inflation r p ≡ ok p' → Adds r p p'
  unfolding add_input
  add_input-Adds r p p' h =
      let (c, ec, h1) =
        >>=-eq-ok (add_opout_state os_asset os_inflation r.opout.ty r.state p.added) _ h in
      let (a, ea, h2) =
        >>=-eq-ok (from_opout_and_state os_asset os_inflation r.opout.ty r.state) _ h1 in
      let (f, i) = add_opout_state-counts r.opout.ty r.state p.added c ec in
      let made : Picked = record {
        added = c;
        spent = push_assignment r.outpoint a p.spent;
        uda_state = some r.state;
        inputs = p.inputs ++ r ∷ [];
        extra = p.extra;
      } in
      let same : made ≡ p' = cc in
      subst (Adds r p) same (record { inputs = refl; extra = refl; fungible = f; inflation = i })

  pub pick_inputs-Splits :
      (rejected : List Opout) (needed : AssignmentsCollection) (l : List OpoutState) (p q : Picked)
      → pick_inputs os_asset os_inflation rejected needed l p ≡ ok q
      → Splits rejected l p q
  unfolding pick_inputs
  pick_inputs-Splits rejected needed [] p q h =
      let same : p ≡ q = cc in subst (Splits rejected [] p) same (Splits-nil rejected p)
  pick_inputs-Splits rejected needed (r ∷ l) p q h =
      elim (Bool-cases (picks os_asset os_inflation rejected needed r p)) [
        | inl kept ↦
            let taken : (add_input os_asset os_inflation r p >>= λ p'.
            pick_inputs os_asset os_inflation rejected needed l p')
                ≡ ok q =
              rw kept at h in
            let (p', e, h') = >>=-eq-ok (add_input os_asset os_inflation r p) _ taken in
            let a = add_input-Adds r p p' e in
            let s = pick_inputs-Splits rejected needed l p' q h' in
            record {
              spent = r ∷ s.spent;
              moved = s.moved;
              inputs =
                  s.inputs
                  ∙ ap (λ x. x ++ s.spent) a.inputs
                  ∙ append_assoc p.inputs (r ∷ []) s.spent;
              extra = s.extra ∙ ap (λ x. x ++ s.moved) a.extra;
              all = Perm.cons r s.all;
              allowed = (ground (arith, kept), s.allowed);
              fungible = ground (arith, s.fungible, a.fungible);
              inflation = ground (arith, s.inflation, a.inflation);
            }
        | inr left ↦
            let skipped : pick_inputs os_asset os_inflation rejected needed l (not_picked r p)
                ≡ ok q =
              rw left at h in
            let s = pick_inputs-Splits rejected needed l (not_picked r p) q skipped in
            record {
              spent = s.spent;
              moved = r ∷ s.moved;
              inputs = s.inputs;
              extra = s.extra ∙ append_assoc p.extra (r ∷ []) s.moved;
              all = Perm.trans (perm_middle s.spent s.moved) (Perm.cons r s.all);
              allowed = s.allowed;
              fungible = s.fungible;
              inflation = s.inflation;
            }
      ]

keyed : OpoutState → ℕ × OpoutState
keyed r = (state_key r.state, r)

map-keyed : (l : List OpoutState) → map (λ (p : ℕ × OpoutState). p.1) (map keyed l) ≡ l
unfolding keyed
map-keyed [] = refl
map-keyed (r ∷ l) = ap (λ t. r ∷ t) (map-keyed l)

pub sort_opouts-perm : (l : List OpoutState) → Perm (sort_opouts l) l
unfolding sort_opouts keyed
sort_opouts-perm l =
    subst (Perm (sort_opouts l)) (map-keyed l)
      (Perm.map (λ (p : ℕ × OpoutState). p.1) (sort_pairs-perm (map keyed l)))
