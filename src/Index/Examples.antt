-- ===== src/Index/Examples.antt =====
-- The theorems on ton-index-go/index applied to a small trace.
use ton_indexer.Prelude.GoMap.{GoMap}
use ton_indexer.Prelude.{
  List, filter, ◌↔◌, String, ◌≡◌, refl, true, none, [], ◌∷◌, IfOk, IsOk, Yields, arith,
}
use ton_indexer.Prelude.GoMap.{lookup, IsUnique}
use ton_indexer.Prelude.Base64.{encode_to_string, decode_string}
use ton_indexer.Index.Emulated.Models.{TraceNode}
use ton_indexer.Index.Emulated.Rows.{TransactionRow}
use ton_indexer.Index.Emulated.Convert.{Trace, convert_hset}
use ton_indexer.Index.Emulated.Convert.Walks.{IsConverted, convert_hset_correct}
use ton_indexer.Index.Emulated.Messages.{get_messages, calc_hash}
use ton_indexer.Index.Emulated.Messages.Laws.{IsGood, IsHashable, GathersFrom, get_messages_correct}
use ton_indexer.Index.Emulated.Transactions.{get_transaction_row, first_row}
use ton_indexer.Index.Emulated.Transactions.Laws.{
  ComputeFits, Shows, get_transaction_row-Shows, HasFittingPhases, LacksStorage,
  get_transaction_row_panics,
}
use ton_indexer.Index.Pending.{EmulatedTracesContext, entries}
use ton_indexer.Index.Pending.Filters.{remove_transactions, filter_transactions_by_accounts}
use ton_indexer.Index.Pending.Filters.Laws.{
  is_spared, has_account, unless_empty, remove_transactions_correct,
  filter_transactions_by_accounts_correct,
}
use ton_indexer.Index.Pending.Fill.{fill_trace}
use ton_indexer.Index.Pending.Fill.Traces.{TraceOutcome, fill_trace_correct}
use ton_indexer.Index.Pending.Filters.{filter_trace_actions}
use ton_indexer.Index.Pending.Filters.Actions.{picked, filter_trace_actions_correct}
use ton_indexer.Index.Sample.{
  storage, message, description, transaction, leaf, root, action, codec, fields, weight,
  fields-IsWeighed, fields-enough, leaf-IsReady, root-IsReady, action-HasTimes, context,
  context-OnlyEmulated,
}

convert_hset_correct_example : Yields (IsConverted codec fields) (convert_hset codec 3 fields)
convert_hset_correct_example =
    convert_hset_correct codec fields 3 weight fields-IsWeighed fields-enough

abbrev trace : Trace
trace = record {
  trace_id = none;
  external_hash = "r";
  nodes = root ∷ leaf ∷ [];
  classified = true;
  actions = action ∷ [];
}

fill_trace_correct_example :
    Yields (TraceOutcome context "r" trace) (fill_trace codec "r" trace context)
fill_trace_correct_example =
    fill_trace_correct codec context "r" trace (root-IsReady, (leaf-IsReady, tt))
      (action-HasTimes, tt) context-OnlyEmulated

message-IsHashable : IsHashable codec message
unfolding calc_hash decode_string IsGood
message-IsHashable = record {
  body = (encode_to_string (4 ∷ 5 ∷ 6 ∷ []), refl);
  init_state = λ boc e. absurd (ground (arith, e));
}

get_messages_correct_example :
    Yields
      (IsOk (λ g. GathersFrom codec root (message ∷ message ∷ []) g × (g.init_states ≡ [])))
      (get_messages codec root)
get_messages_correct_example =
    get_messages_correct codec root message refl (message-IsHashable, (message-IsHashable, tt))

get_transaction_row-Shows_example : Yields (IfOk (Shows root)) (get_transaction_row root)
get_transaction_row-Shows_example = get_transaction_row-Shows root root-IsReady.complete

abbrev bare : TraceNode
bare = record leaf {
  transaction = record transaction { description = record description { storage_ph = none } };
}

bare-HasFittingPhases : HasFittingPhases bare
unfolding ComputeFits
bare-HasFittingPhases = record { compute = refl; bounce = λ p e. absurd (ground (arith, e)) }

get_transaction_row_panics_example : (get_transaction_row bare ≡ none) ↔ LacksStorage bare
get_transaction_row_panics_example = get_transaction_row_panics bare bare-HasFittingPhases

bare_panics : get_transaction_row bare ≡ none
bare_panics = get_transaction_row_panics_example.1 (record {
  storage = refl;
  orig_status = (2, refl, omega arith);
  end_status = (2, refl, omega arith);
})

abbrev row : TransactionRow
row = first_row root storage "active" "active" "unchanged"

abbrev full : EmulatedTracesContext
full = record context {
  emulated_transactions = ("r", row ∷ record row { hash = "AAAA"; account = "0:bb" } ∷ []) ∷ [];
}

full-IsUnique : IsUnique full.emulated_transactions
unfolding lookup
full-IsUnique = (refl, tt)

remove_transactions_correct_example :
    entries "r" (remove_transactions ("AAAA" ∷ []) full).emulated_transactions
    ≡ filter (is_spared ("AAAA" ∷ [])) (entries "r" full.emulated_transactions)
remove_transactions_correct_example =
    remove_transactions_correct ("AAAA" ∷ []) full "r" full-IsUnique

filter_transactions_by_accounts_correct_example :
    lookup "r" (filter_transactions_by_accounts (" 0:bb " ∷ []) full).emulated_transactions
    ≡ unless_empty (filter (has_account (" 0:bb " ∷ [])) (entries "r" full.emulated_transactions))
filter_transactions_by_accounts_correct_example =
    filter_transactions_by_accounts_correct (" 0:bb " ∷ []) full "r" full-IsUnique

abbrev wanted : GoMap (List String)
wanted = ("r", "x" ∷ []) ∷ []

wanted-IsUnique : IsUnique wanted
unfolding lookup
wanted-IsUnique = (refl, tt)

filter_trace_actions_correct_example :
    lookup "r" (filter_trace_actions wanted full).emulated_actions
    ≡ picked (lookup "r" wanted) (lookup "r" full.emulated_actions)
filter_trace_actions_correct_example = filter_trace_actions_correct wanted full "r" wanted-IsUnique
