-- ===== src/Database/Balance/Same.antt =====
-- Tables whose TXOs have the same allocations, but for those of failed transfers, have the same
-- balances.
use rgb_lib.Prelude.{
  ℕ, String, ◌≡◌, sym, ap, ◌∙◌, subst, Bool, true, false, List, [], ◌∷◌, filter, Bool-cases, inl,
  inr,
}
use rgb_lib.Result.{Result, ok, traverse, >>=-eq-ok, ok_injective}
use rgb_lib.Database.Rows.{Outpoint, DbTxo, outpoint, DbData, LocalRgbAllocation, LocalUnspent}
use rgb_lib.Database.Joins.{
  get_utxo_allocations, pending_blinded_utxos, local_unspent, get_rgb_allocations, get_count,
}
use rgb_lib.Database.Linked.{Linked, get_rgb_allocations_total}
use rgb_lib.Database.Balance.{witness_pending_from, get_asset_balance}
use rgb_lib.Database.Balance.Alike.{alive, SameLive, Alike, nothing, both, gone, balance_of-Alike}

abbrev pub allocations_of : DbData → DbTxo → Result (List LocalRgbAllocation)
allocations_of d t = get_utxo_allocations t d.colorings d.asset_transfers d.batch_transfers

-- the tables `d'` without some TXOs of `d`, each with only failed allocations
pub record SameAllocations (d d' : DbData) (keep : DbTxo → Bool) : Type 0 where
  pub txos : d'.txos ≡ filter keep d.txos
  pub counts :
      pending_blinded_utxos d'.asset_transfers d'.batch_transfers d'.transfers []
      ≡ pending_blinded_utxos d.asset_transfers d.batch_transfers d.transfers []
  pub kept :
      (t : DbTxo) (l l' : List LocalRgbAllocation)
      → keep t ≡ true
      → allocations_of d t ≡ ok l
      → allocations_of d' t ≡ ok l'
      → SameLive l l'
  pub dropped :
      (t : DbTxo) (l : List LocalRgbAllocation)
      → keep t ≡ false
      → allocations_of d t ≡ ok l
      → filter alive l ≡ []
  pub witness :
      (asset_id : String)
      → witness_pending_from asset_id d 0 d.transfers
        ≡ witness_pending_from asset_id d' 0 d'.transfers

-- an unspent that was read, with its allocations
read_allocations :
    (d : DbData) (counts : List (Outpoint × ℕ)) (t : DbTxo) (u : LocalUnspent)
    → local_unspent d counts t ≡ ok u
    → (allocations_of d t ≡ ok u.rgb_allocations)
      × (u.utxo ≡ t)
      × (u.pending_blinded ≡ get_count (outpoint t) counts)
unfolding local_unspent
read_allocations d counts t u e =
    let (l, el, f) = >>=-eq-ok (allocations_of d t) _ e in
    let same : (let v : LocalUnspent = record {
      utxo = t;
      rgb_allocations = l;
      pending_blinded = get_count (outpoint t) counts;
    } in
          v)
        ≡ u =
      ok_injective f in
    (
      el ∙ ap (λ (v : LocalUnspent). ok v.rgb_allocations) same,
      sym (ap (λ (v : LocalUnspent). v.utxo) same),
      sym (ap (λ (v : LocalUnspent). v.pending_blinded) same),
    )

pub traverse_cons {ℓ κ} :
    {A : Type ℓ} {B : Type κ} (f : A → Result B) (x : A) (xs : List A) (ys : List B)
    → traverse f (x ∷ xs) ≡ ok ys
    → (y : B) × (zs : List B) × (f x ≡ ok y) × (traverse f xs ≡ ok zs) × ((y ∷ zs) ≡ ys)
unfolding traverse
traverse_cons f x xs ys e =
    let (y, ey, g) = >>=-eq-ok (f x) _ e in
    let (zs, ez, h) = >>=-eq-ok (traverse f xs) _ g in (y, zs, ey, ez, ok_injective h)

module _ (d d' : DbData) (keep : DbTxo → Bool) (s : SameAllocations d d' keep) where
  traverse-Alike :
      (counts : List (Outpoint × ℕ)) (ts : List DbTxo) (us us' : List LocalUnspent)
      → traverse (local_unspent d counts) ts ≡ ok us
      → traverse (local_unspent d' counts) (filter keep ts) ≡ ok us'
      → Alike us us'
  unfolding traverse
  traverse-Alike counts [] us us' e e' =
      subst (λ x. Alike x us') (ok_injective e) (subst (λ x. Alike [] x) (ok_injective e') nothing)
  traverse-Alike counts (t ∷ ts) us us' e e' =
      let (u, vs, eu, ev, same) = traverse_cons (local_unspent d counts) t ts us e in
      let (a, at, an) = read_allocations d counts t u eu in
      elim (Bool-cases (keep t)) [
        | inl hit ↦
            let (u', vs', eu', ev', same') =
              traverse_cons (local_unspent d' counts) t (filter keep ts) us' (rw hit at e') in
            let (a', at', an') = read_allocations d' counts t u' eu' in
            subst (λ x. Alike x us') same
              (subst (λ x. Alike (u ∷ vs) x) same'
                (both (at' ∙ sym at) (an' ∙ sym an) (s.kept t _ _ hit a a')
                  (traverse-Alike counts ts vs vs' ev ev')))
        | inr miss ↦
            subst (λ x. Alike x us') same
              (gone (s.dropped t _ miss a) (traverse-Alike counts ts vs us' ev (rw miss at e')))
      ]

  reads-Alike :
      (us us' : List LocalUnspent)
      → get_rgb_allocations d.txos d ≡ ok us
      → get_rgb_allocations d'.txos d' ≡ ok us'
      → Alike us us'
  unfolding get_rgb_allocations
  reads-Alike us us' e e' =
      let (c, ec, f) =
        >>=-eq-ok (pending_blinded_utxos d.asset_transfers d.batch_transfers d.transfers []) _ e in
      let (c', ec', f') =
        >>=-eq-ok (pending_blinded_utxos d'.asset_transfers d'.batch_transfers d'.transfers []) _
          e' in
      let counts : c' ≡ c = ok_injective (sym ec' ∙ s.counts ∙ ec) in
      traverse-Alike c d.txos us us' f (
        subst (λ l. traverse (local_unspent d' c) l ≡ ok us') s.txos
          (subst (λ m. traverse (local_unspent d' m) d'.txos ≡ ok us') counts f'))

-- such tables have the same balances
pub get_asset_balance-same :
    (d d' : DbData) (keep : DbTxo → Bool)
    → Linked d
    → Linked d'
    → SameAllocations d d' keep
    → (asset_id : String) → get_asset_balance d asset_id ≡ get_asset_balance d' asset_id
unfolding get_asset_balance
get_asset_balance-same d d' keep linked linked' s asset_id =
    let (us, e, _) = get_rgb_allocations_total d linked d.txos in
    let (us', e', _) = get_rgb_allocations_total d' linked' d'.txos in
    rw (e, e')
      (balance_of-Alike asset_id d d' us us' (reads-Alike d d' keep s us us' e e')
        (s.witness asset_id))
