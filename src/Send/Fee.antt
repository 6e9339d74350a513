-- ===== src/Send/Fee.antt =====
-- `get_input_unspents` and `try_prepare_psbt` of src/wallet/online.rs: which UTXOs an operation may
-- spend, and those it adds while bitcoins are missing.
pub mod Enough
use rgb_lib.Prelude.{
  ℕ, zero, suc, Bool, true, false, not, ◌&&◌, ◌||◌, List, [], ◌∷◌, ◌++◌, map, Option, none, some,
  filter, any, ◌==◌, if◌then◌else◌, parse_u64,
}
use rgb_lib.Prelude.Sort.{sort_pairs}
use rgb_lib.Status.{is_pending, is_initiated, is_waiting_counterparty}
use rgb_lib.Result.{
  Result, Error, ok, err, panic, internal, insufficient_allocation_slots, ◌>>=◌, ok_or, traverse,
}
use rgb_lib.Database.Rows.{Outpoint, outpoint, LocalRgbAllocation, LocalUnspent}
use rgb_lib.Wallet.Slots.{get_available_allocations}

-- what makes a UTXO unspendable: the tests of `retain`
abbrev pub spendable : LocalUnspent → Bool
spendable u =
    not (any (λ (a : LocalRgbAllocation). a.incoming && is_pending a.status) u.rgb_allocations)
    && (not (
          any
            (λ (a : LocalRgbAllocation).
              not a.incoming && (is_initiated a.status || is_waiting_counterparty a.status))
            u.rgb_allocations)
        && (not u.utxo.pending_witness && ((u.pending_blinded == 0) && u.utxo.exists)))

unfoldable pub get_input_unspents : List LocalUnspent → List LocalUnspent
get_input_unspents = filter spendable

-- the answer of `prepare_psbt`, which builds the transaction with BDK
pub data PsbtReply (P : Type 0) : Type 0 where
  prepared : P → PsbtReply P
  insufficient_bitcoins : PsbtReply P
  refused : Error → PsbtReply P

-- an amount that does not read is an error
abbrev pub with_amount : LocalUnspent → Result (ℕ × LocalUnspent)
with_amount u = ok_or (parse_u64 u.utxo.btc_amount) internal >>= λ n. ok (n, u)

-- `pop`
abbrev pub last_of {ℓ} : {A : Type ℓ} → List A → Option A
last_of [] = none
last_of (x ∷ []) = some x
last_of (x ∷ y ∷ l) = last_of (y ∷ l)

abbrev pub richest : List (ℕ × LocalUnspent) → Option LocalUnspent
richest keyed = last_of (map (λ (p : ℕ × LocalUnspent). p.1) (sort_pairs keyed))

-- the UTXO without allocations that holds most, of those that are not used yet
unfoldable pub free_utxo : ℕ → List LocalUnspent → List Outpoint → Result (Option LocalUnspent)
unfolding traverse
free_utxo max_per_utxo input_unspents used = do
  free ← get_available_allocations max_per_utxo input_unspents used (some 0)
  keyed ← traverse with_amount free
  ok (richest keyed)

module _ {S P : Type 0} (max_per_utxo : ℕ) (prepare : List Outpoint → S → PsbtReply P × S)
    (input_unspents : List LocalUnspent) where
  -- what the loop returns: the transaction or an error, the inputs, and the state of the BDK wallet
  abbrev pub Prepared : Type 0
  Prepared = Result P × List Outpoint × S

  abbrev pub add_free :
      Result (Option LocalUnspent)
      → List Outpoint
      → S
      → (List Outpoint → Option Prepared)
      → Option Prepared
  add_free (ok (some u)) all_inputs s again = again (all_inputs ++ outpoint u.utxo ∷ [])
  add_free (ok none) all_inputs s again = some (err insufficient_allocation_slots, all_inputs, s)
  add_free (err e) all_inputs s again = some (err e, all_inputs, s)
  add_free panic all_inputs s again = some (panic, all_inputs, s)

  abbrev pub after_reply :
      PsbtReply P → List Outpoint → S → (List Outpoint → Option Prepared) → Option Prepared
  after_reply (prepared p) all_inputs s again = some (ok p, all_inputs, s)
  after_reply (refused e) all_inputs s again = some (err e, all_inputs, s)
  after_reply insufficient_bitcoins all_inputs s again =
      add_free (free_utxo max_per_utxo input_unspents all_inputs) all_inputs s again

  -- the loop, on fuel
  unfoldable pub try_prepare_psbt : ℕ → List Outpoint → S → Option Prepared
  unfolding free_utxo
  try_prepare_psbt zero all_inputs s = none
  try_prepare_psbt (suc fuel) all_inputs s =
      after_reply ((prepare all_inputs s).0) all_inputs ((prepare all_inputs s).1)
        (λ more. try_prepare_psbt fuel more ((prepare all_inputs s).1))
