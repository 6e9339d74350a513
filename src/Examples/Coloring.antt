-- ===== src/Examples/Coloring.antt =====
-- Runs on test data: the coloring of a transfer of one asset, and the search for bitcoins.
use rgb_lib.Prelude.{
  ℕ, String, ◌≡◌, refl, none, some, List, [], ◌∷◌, ◌++◌, All, arith, str_eq, if◌then◌else◌,
}
use rgb_lib.Prelude.Sort.{sort_pairs}
use rgb_lib.Assignment.{no_assignments}
use rgb_lib.Result.{Result, ok, err, panic}
use rgb_lib.Collection
use rgb_lib.Collection.{AllocatedState, amount, add_opout_state, opout_contributes}
use rgb_lib.Database.Rows.{Outpoint, LocalUnspent}
use rgb_lib.Examples.Tables.{tables, unspent}
use rgb_lib.Examples.Send.{source, sent_asset}
use rgb_lib.Send.{InfoAssetTransfer}
use rgb_lib.Send.Coloring.{
  OpoutState, RgbRuntime, sort_opouts, push_assignment, from_opout_and_state, add_input,
  pick_inputs, recipient_output, add_recipients,
}
use rgb_lib.Send.Coloring.Psbt.{
  Setting, ColoredPsbt, AllMoved, get_change_seal, add_change, color_asset, color_assets,
  unsent_state, move_state, move_all, color_psbt,
}
use rgb_lib.Send.Coloring.Conserve.{Apart}
use rgb_lib.Send.Coloring.Whole.{Balanced, spends, color_psbt-Balanced}
use rgb_lib.Send.Coloring.Spent.{returned, on_selected, on_spent, color_psbt-spends}
use mathlib.Core.List.{Perm}
use rgb_lib.Send.Fee.{PsbtReply, insufficient_bitcoins, try_prepare_psbt}
use rgb_lib.Send.Fee.Enough.{Ends, try_prepare_psbt-Ends}

-- on one TXO: 7 and 8 of the asset "a", and 3 of "b"
abbrev found : ℕ → ℕ → OpoutState
found i n = record {
  outpoint = source;
  opout = record { op = "op"; ty = 4000; index = i };
  state = amount n;
}

abbrev held : String → List OpoutState
held id = if str_eq id "a" then found 0 8 ∷ found 1 7 ∷ [] else found 2 3 ∷ []

abbrev runtime : RgbRuntime
runtime = record {
  contract_assignments_for = λ id outpoints. ok (held id);
  contracts_assigning = λ outpoints. ok ("a" ∷ "b" ∷ []);
  complete_transition = λ id t. ok tt;
}

abbrev setting : Setting
setting = record {
  runtime = runtime;
  os_asset = 4000;
  os_inflation = 4010;
  rejected = [];
  btc_change = some (record { vout = 2; amount = 500 });
  prev_outputs = source ∷ [];
  unspents = [];
  tables = tables;
  max_allocations_per_utxo = 5;
}

types-Apart : Apart setting
types-Apart e = omega (arith, e)

abbrev to_color : List (String × InfoAssetTransfer)
to_color = ("a", record sent_asset { assignments_spent = []; change = no_assignments }) ∷ []

abbrev value_or : {A : Type 0} → Result A → A → A
value_or (ok a) b = a
value_or (err e) b = b
value_or panic b = b

abbrev nothing_colored : ColoredPsbt × AllMoved
nothing_colored = (
  record {
    transitions = [];
    transfers = [];
    extra_state = [];
    beneficiaries = [];
    change_utxo = none;
  },
  record { transitions = []; extra_allocations = []; change_utxo = none },
)

abbrev colored : ColoredPsbt × AllMoved
colored = value_or (color_psbt setting to_color) nothing_colored

colors : color_psbt setting to_color ≡ ok (colored.0, colored.1)
unfolding color_psbt color_assets color_asset pick_inputs add_input from_opout_and_state sort_opouts
    sort_pairs push_assignment recipient_output add_recipients add_change get_change_seal
    unsent_state move_state move_all add_opout_state opout_contributes Collection.change
colors = refl

-- the smaller amount is enough; the larger one and the other asset move
moves_two : spends colored.1.transitions ≡ ("a", found 0 8) ∷ ("b", found 2 3) ∷ []
unfolding color_psbt color_assets color_asset pick_inputs add_input from_opout_and_state sort_opouts
    sort_pairs push_assignment recipient_output add_recipients add_change get_change_seal
    unsent_state move_state move_all add_opout_state opout_contributes Collection.change
moves_two = refl

color_psbt-Balanced_example :
    All (Balanced setting) (colored.0.transitions ++ colored.1.transitions)
color_psbt-Balanced_example =
    color_psbt-Balanced setting to_color colored.0 colored.1 types-Apart ((refl, refl), tt) colors

color_psbt-spends_example : Perm (spends (colored.0.transitions ++ colored.1.transitions)) (
    on_selected setting to_color
    ++ on_spent setting to_color
        (returned (setting.runtime.contracts_assigning setting.prev_outputs)))
color_psbt-spends_example =
    color_psbt-spends setting to_color colored.0 colored.1 types-Apart colors

-- BDK never has enough
abbrev never : List Outpoint → Unit {0} → PsbtReply String × Unit {0}
never inputs s = (insufficient_bitcoins, s)

abbrev empty_utxos : List LocalUnspent
empty_utxos = unspent 1 [] ∷ unspent 2 [] ∷ []

try_prepare_psbt-Ends_example :
    (r : Result String × List Outpoint × Unit {0}) × (try_prepare_psbt 5 never empty_utxos 3 [] tt
      ≡ some r)
    × Ends 5 never empty_utxos [] r
try_prepare_psbt-Ends_example = try_prepare_psbt-Ends 5 never empty_utxos 3 [] tt (omega arith)
