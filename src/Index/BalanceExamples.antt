-- ===== src/Index/BalanceExamples.antt =====
-- The theorems on balance changes at concrete inputs.
use ton_indexer.Prelude.{
  ℕ, ◌+◌, ◌%◌, ◌≡◌, refl, subst, List, [], ◌∷◌, Option, none, some, String, false, contains, Result,
  ok, err, arith, str_eq, eq_iff, ◌≢◌,
}
use ton_indexer.Prelude.Int.{pos}
use ton_indexer.Prelude.GoMap.{GoMap, lookup, insert, IsUnique}
use ton_indexer.Index.Action.Models.{RawAction}
use ton_indexer.Index.Query.Sql.{limit_query, sort_order_or}
use ton_indexer.Index.Balances.{
  modulus, BalanceChanges, get, get_summarized_balance_changes, merge_into, add_value, add_to,
  add_fees, add_int64, sub_int64,
}
use ton_indexer.Index.Balances.Laws.{get_summarized_balance_changes_correct}
use ton_indexer.Index.Balances.Messages.{ShortMessage, ShortTransaction, TxMap, take_rows}
use ton_indexer.Index.Balances.Walk.{Run, done, panicked, out_of_fuel}
use ton_indexer.Index.Balances.Transfers.{WalletInfo, Payloads}
use ton_indexer.Index.Balances.Calculate.{Changes, calculate_balance_changes}
use ton_indexer.Index.Balances.Tree.{no_messages, new_message}
use ton_indexer.Index.Balances.Correct.{
  HaveOwnMessages, EndsWell, calculate_balance_changes_correct,
}

abbrev sent : BalanceChanges
sent = record {
  value = ("a", 18446744073709551606) ∷ ("b", 10) ∷ [];
  fees = ("a", 3) ∷ [];
  jettons = ("a", ("j", pos 5) ∷ []) ∷ [];
}

values-IsUnique : IsUnique sent.value
unfolding lookup
values-IsUnique = (refl, (refl, tt))

fees-IsUnique : IsUnique sent.fees
unfolding lookup
fees-IsUnique = (refl, tt)

get_summarized_balance_changes_correct_example :
    (get "a" (get_summarized_balance_changes sent) + get "a" sent.fees) % modulus
    ≡ get "a" sent.value % modulus
get_summarized_balance_changes_correct_example =
    get_summarized_balance_changes_correct sent "a" values-IsUnique fees-IsUnique

-- A trace of two transactions: a message from outside makes a send 10 to b.
abbrev from_outside : ShortMessage
from_outside = record {
  hash = some "m0";
  transaction_hash = some "ta";
  source = none;
  destination = some "a";
  opcode = none;
  value = none;
  direction = some "in";
  fwd_fee = none;
  body = none;
  transaction = none;
}

abbrev transfer : String → String → ShortMessage
transfer direction tx_hash = record from_outside {
  hash = some "m1";
  transaction_hash = some tx_hash;
  source = some "a";
  destination = some "b";
  value = some 10;
  direction = some direction;
  fwd_fee = some 2;
}

abbrev bare_tx : String → String → ℕ → ShortTransaction
bare_tx hash account lt = record {
  hash = hash;
  account = account;
  total_fees = some 3;
  lt = pos lt;
  out_msgs = [];
  in_msg = none;
}

abbrev rows : List (ShortTransaction × ShortMessage)
rows =
    (bare_tx "ta" "a" 1, from_outside)
    ∷ (bare_tx "ta" "a" 1, transfer "out" "ta")
    ∷ (bare_tx "tb" "b" 2, transfer "in" "tb")
    ∷ []

abbrev linked : String → ShortMessage → ShortMessage
linked hash m = record m { transaction = some hash }

abbrev joined : TxMap
joined =
    (
      "ta",
      record (bare_tx "ta" "a" 1) {
        out_msgs = linked "ta" (transfer "out" "ta") ∷ [];
        in_msg = some (linked "ta" from_outside);
      },
    )
    ∷ ("tb", record (bare_tx "tb" "b" 2) { in_msg = some (linked "tb" (transfer "in" "tb")) })
    ∷ []

rows-joined : take_rows rows [] ≡ some joined
unfolding take_rows lookup insert
rows-joined = refl

new_hash : (hash : String) → some "m1" ≡ some hash → contains ("m0" ∷ []) hash ≡ false
unfolding contains
new_hash hash e =
    let same : "m1" ≡ hash = cc e in subst (λ h. contains ("m0" ∷ []) h ≡ false) same refl

named : (hash : String) → str_eq hash "" ≡ false → hash ≢ ""
named hash h e = ground (arith, (eq_iff hash "").1 e)

joined-HaveOwnMessages : HaveOwnMessages joined
joined-HaveOwnMessages = (
  record { named = named "ta" refl; own = new_message new_hash no_messages },
  (record { named = named "tb" refl; own = no_messages }, tt),
)

abbrev no_payloads : Payloads
no_payloads = record {
  Cell = ℕ;
  from_boc = λ bytes. none;
  load_transfer = λ c. (record { destination = ""; amount = pos 0 }, false);
}

abbrev no_wallets : List String → Result String (List (Result String WalletInfo))
no_wallets candidates = ok []

abbrev no_address : String → Option String
no_address text = none

abbrev no_actions : String → List RawAction
no_actions query = []

values_of : Run (Result String Changes) → GoMap ℕ × GoMap ℕ
values_of (done (ok c)) = (c.0.value, c.0.fees)
values_of (done (err e)) = ([], [])
values_of panicked = ([], [])
values_of out_of_fuel = ([], [])

changes_test :
    values_of
      (calculate_balance_changes 2 no_payloads no_address no_wallets no_actions "t" (ok rows))
    ≡ (("a", 18446744073709551606) ∷ ("b", 10) ∷ [], ("a", 5) ∷ ("b", 3) ∷ [])
unfolding calculate_balance_changes values_of lookup insert merge_into add_value add_to add_fees
    add_int64 sub_int64 limit_query sort_order_or
changes_test = refl

-- The same trace, in which a sends a message to the outside, which has no forward fee.
abbrev to_outside : ShortMessage
to_outside = record from_outside {
  hash = some "m1";
  transaction_hash = some "ta";
  source = some "a";
  destination = none;
  direction = some "out";
}

abbrev rows_with_log : List (ShortTransaction × ShortMessage)
rows_with_log = (bare_tx "ta" "a" 1, from_outside) ∷ (bare_tx "ta" "a" 1, to_outside) ∷ []

log_test :
    calculate_balance_changes 3 no_payloads no_address no_wallets no_actions "t" (ok rows_with_log)
    ≡ panicked
unfolding calculate_balance_changes lookup insert merge_into add_value add_to add_fees add_int64
    sub_int64 limit_query sort_order_or
log_test = refl

calculate_balance_changes_correct_example : EndsWell (λ fuel.
    calculate_balance_changes fuel no_payloads no_address no_wallets no_actions "t" (ok rows))
calculate_balance_changes_correct_example =
    calculate_balance_changes_correct no_payloads no_address no_wallets no_actions "t" rows joined
      rows-joined joined-HaveOwnMessages
