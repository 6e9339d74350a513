-- ===== src/Database/Updates/Upsert.antt =====
-- The row of an outpoint after `set_txo` of src/database/mod.rs.
use rgb_lib.Prelude.{◌||◌, str_eq, ℕ, Option, none, some, List, if◌then◌else◌, not, filter}
use rgb_lib.Database.Rows.{DbTxo, Outpoint}
use rgb_lib.Database.Updates.{NewTxo, is_at, txo_of, merge_txo}

abbrev pub new_outpoint : NewTxo → Outpoint
new_outpoint n = record { txid = n.txid; vout = n.vout }

-- the row for the outpoint after an insert or an update of `l`
abbrev pub row_after : ℕ → NewTxo → Option DbTxo → DbTxo
row_after i n none = txo_of i n
row_after i n (some t) = record t {
  exists = n.exists || t.exists;
  btc_amount = if str_eq n.btc_amount "0" then t.btc_amount else n.btc_amount;
}

-- the rows of other outpoints
abbrev pub others : NewTxo → List DbTxo → List DbTxo
others n = filter (λ (t : DbTxo). not (is_at n t))

module _ (i : ℕ) (n : NewTxo) where
  abbrev merged : DbTxo → DbTxo
  merged t = if is_at n t then merge_txo n t else t
