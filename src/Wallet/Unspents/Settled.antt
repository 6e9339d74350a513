-- ===== src/Wallet/Unspents/Settled.antt =====
-- The settled allocations that `list_unspents` shows make up the settled balance.
use mathlib.Core.List.{Memᴰ}
use rgb_lib.Prelude.Member.{All-imp, All-Memᴰ, All-map}
use rgb_lib.Database.Linked.{traverse_total}
use rgb_lib.Wallet.Selection.Fits.{is_some-eq}
use rgb_lib.Prelude.{
  ℕ, String, ◌≡◌, refl, subst, Bool, true, false, not, ◌||◌, List, [], ◌∷◌, ◌++◌, map, Option, none,
  filter, All, All-filter, parse_u64, ==_iff, if◌then◌else◌, arith, Bool-cases, inl, inr,
}
use rgb_lib.Result.{ok, >>=-eq-ok, traverse}
use rgb_lib.Database.Rows.{Outpoint, DbTxo, outpoint, DbData, LocalUnspent, is_some}
use rgb_lib.Database.Joins.{
  allocation_settled, get_utxo_allocations, local_unspent, get_rgb_allocations,
  pending_blinded_utxos,
}
use rgb_lib.Database.Balance.Amounts.{amount_where, amount_over}
use rgb_lib.Database.Balance.Totals.{in_asset, settled_amount}
use rgb_lib.Wallet.Unspents.{
  Unspent, LocalOutput, unspent_of_local, unspent_of_output, rgb_allocation, utxo_of_txo, contains,
  spent_txos_ids, almost_spent_txos_ids, retain_visible, visible_unspents, retain_settled,
  with_index, list_unspents,
}
use rgb_lib.Wallet.Unspents.Shown.{
  shown_over, shown_over-traverse, visible_over, shown_over-append, internal_empty, indexed_same,
  chosen,
}
use rgb_lib.Wallet.Unspents.Cold.{local_unspent-settled}

-- a TXO whose BTC amount is a u64
abbrev pub sats_readable : DbTxo → Bool
sats_readable t = is_some (parse_u64 t.btc_amount)

abbrev NotedIfSpent : DbData → DbTxo → Type 0
NotedIfSpent d t = t.spent ≡ true → contains (spent_txos_ids d) t.idx ≡ true

abbrev keeps : DbData → DbTxo → Bool
keeps d t = not t.spent || contains (almost_spent_txos_ids d) t.idx

member_noted :
    (p : DbTxo → Bool) (x : DbTxo) (l : List DbTxo)
    → Memᴰ x l
    → p x ≡ true
    → contains (map (λ (t : DbTxo). t.idx) (filter p l)) x.idx ≡ true
member_noted p x l (Memᴰ.head {x = y} {xs = ys} e) px =
    subst (λ z. contains (map (λ (t : DbTxo). t.idx) (filter p (z ∷ ys))) x.idx ≡ true) e
      (rw (px, (==_iff x.idx x.idx).1 refl))
member_noted p x l (Memᴰ.tail {x = y} {xs = ys} m) px =
    let ih = member_noted p x ys m px in
    elim (Bool-cases (p y)) [ inl py ↦ rw (py, ih) (ground arith) | inr py ↦ rw (py, ih) ]

spent-NotedIfSpent : (d : DbData) → All (NotedIfSpent d) d.txos
spent-NotedIfSpent d =
    All-imp (λ (t : DbTxo). Memᴰ t d.txos) (NotedIfSpent d)
      (λ t m h. member_noted (λ (x : DbTxo). x.spent) t d.txos m h) d.txos (All-Memᴰ d.txos)

local_unspent-utxo :
    (d : DbData) (counts : List (Outpoint × ℕ)) (t : DbTxo) (u : LocalUnspent)
    → local_unspent d counts t ≡ ok u
    → t ≡ u.utxo
unfolding local_unspent
local_unspent-utxo d counts t u e =
    let (l, el, f) =
      >>=-eq-ok (get_utxo_allocations t d.colorings d.asset_transfers d.batch_transfers) _ e in
    ground (arith, f)

-- the TXOs left out hold nothing settled, and those kept can be read
kept_settled :
    (d : DbData) (asset_id : String) (counts : List (Outpoint × ℕ)) (txos : List DbTxo)
    (us : List LocalUnspent)
    → All (NotedIfSpent d) txos
    → All (λ t. sats_readable t ≡ true) txos
    → traverse (local_unspent d counts) txos ≡ ok us
    → (ws : List LocalUnspent) × (traverse (local_unspent d counts) (filter (keeps d) txos) ≡ ok ws)
      × (settled_amount asset_id ws ≡ settled_amount asset_id us)
      × All (λ (u : LocalUnspent). sats_readable u.utxo ≡ true) ws
unfolding traverse amount_over
kept_settled d asset_id counts [] us n s e =
    let same : [] ≡ us = ground (arith, e) in
    ([], refl, subst (λ l. 0 ≡ settled_amount asset_id l) same refl, tt)
kept_settled d asset_id counts (t ∷ txos) us n s e =
    let (u, eu, f) = >>=-eq-ok (local_unspent d counts t) _ e in
    let (us', eus, r) = >>=-eq-ok (traverse (local_unspent d counts) txos) (λ ys. ok (u ∷ ys)) f in
    let whole : u ∷ us' ≡ us = ground (arith, r) in
    let (ws, ews, same, readable) = kept_settled d asset_id counts txos us' n.1 s.1 eus in
    elim (Bool-cases (keeps d t)) [
      | inl stays ↦ (
        u ∷ ws,
        rw (stays, eu, ews),
        subst (λ l. settled_amount asset_id (u ∷ ws) ≡ settled_amount asset_id l) whole
            (omega (arith, same)),
        (subst (λ x. sats_readable x ≡ true) (local_unspent-utxo d counts t u eu) s.0, readable),
      )
      | inr goes ↦
          let none' = gone u eu goes in
          (
            ws,
            rw (goes, ews),
            subst (λ l. settled_amount asset_id ws ≡ settled_amount asset_id l) whole
                (omega (arith, same, none')),
            readable,
          )
    ]
  where
    gone :
        (u : LocalUnspent)
        → local_unspent d counts t ≡ ok u
        → keeps d t ≡ false
        → amount_where (in_asset asset_id allocation_settled) u.rgb_allocations ≡ 0
    gone u eu goes =
        let sp : t.spent ≡ true = ground (arith, goes) in
        local_unspent-settled d asset_id t sp (n.0 sp) (ground (arith, goes)) counts u eu

unspent_of_local_total :
    (u : LocalUnspent) → sats_readable u.utxo ≡ true → (v : Unspent) × (unspent_of_local u ≡ ok v)
unfolding unspent_of_local utxo_of_txo
unspent_of_local_total u r =
    let (n, e) = is_some-eq (parse_u64 u.utxo.btc_amount) r in
    (
      record {
        utxo = record {
          outpoint = outpoint u.utxo;
          btc_amount = n;
          colorable = true;
          exists = u.utxo.exists;
          derivation_index = none;
        };
        rgb_allocations = map rgb_allocation u.rgb_allocations;
        pending_blinded = u.pending_blinded;
      },
      rw e refl,
    )

-- where the BTC amounts can be read the unspents are shown, with what they hold
shown :
    (us : List LocalUnspent)
    → All (λ (u : LocalUnspent). sats_readable u.utxo ≡ true) us
    → (vs : List Unspent) × (traverse unspent_of_local (visible_unspents us) ≡ ok vs)
shown us h =
    traverse_total (λ (u : LocalUnspent). sats_readable u.utxo ≡ true) unspent_of_local
      unspent_of_local_total (visible_unspents us)
      (All-filter (λ (u : LocalUnspent). sats_readable u.utxo ≡ true) _ (map retain_visible us)
        (All-map (λ (u : LocalUnspent). sats_readable u.utxo ≡ true) retain_visible us h))

module _ (derivation_index : Outpoint → Option ℕ) (internal : List LocalOutput) (d : DbData)
    (asset_id : String) (us : List LocalUnspent) (settled_only : Bool)
    (sats : All (λ t. sats_readable t ≡ true) d.txos)
    (read : get_rgb_allocations d.txos d ≡ ok us) where
  -- Where the allocations of all TXOs can be read and the BTC amounts are u64, `list_unspents`
  -- returns, and the settled amounts of an asset that it shows, settled only or all, sum up to the
  -- settled amount over all TXOs, those included that it leaves out as spent.
  pub list_unspents-settled :
      (vs : List Unspent) × (list_unspents derivation_index internal d settled_only ≡ ok vs)
      × (shown_over asset_id vs ≡ settled_amount asset_id us)
  unfolding list_unspents get_rgb_allocations
  list_unspents-settled =
      let (counts, ec, f) =
        >>=-eq-ok (pending_blinded_utxos d.asset_transfers d.batch_transfers d.transfers []) _
          read in
      let (ws, ews, same, readable) =
        kept_settled d asset_id counts d.txos us (spent-NotedIfSpent d) sats f in
      let (vs, evs) = shown ws readable in
      let picked = if settled_only then map retain_settled vs else vs in
      let indexed = map (with_index derivation_index internal) picked in
      (
        indexed ++ map unspent_of_output internal,
        rw (ec, ews, evs),
        omega (
          arith,
          shown_over-append asset_id indexed (map unspent_of_output internal),
          indexed_same derivation_index internal asset_id picked,
          internal_empty asset_id internal,
          chosen asset_id settled_only vs,
          shown_over-traverse asset_id (visible_unspents ws) vs evs,
          visible_over asset_id ws,
          same,
        ),
      )
