-- ===== src/Index/Pending.antt =====
-- EmulatedTracesContext of ton-index-go/index/pending.go: its state, and what it is asked for. The
-- context holds the rows by trace key, but the messages by transaction hash.
pub mod Filters
pub mod Fill
use ton_indexer.Prelude.{
  ℕ, String, Bool, true, false, Option, none, some, List, [], ◌∷◌, ◌++◌, str_eq, if◌then◌else◌,
  ◌>>=◌,
}
use ton_indexer.Prelude.GoMap.{GoMap, lookup, delete}
use ton_indexer.Index.Emulated.Rows.{
  TransactionRow, TraceRow, ActionRow, MessageRow, MessageContentRow,
}

pub record EmulatedTracesContext : Type 0 where
  pub emulated_transactions_raw : GoMap (GoMap String)
  pub emulated_traces : GoMap TraceRow
  pub emulated_actions : GoMap (List ActionRow)
  pub emulated_transactions : GoMap (List TransactionRow)
  pub emulated_message_contents : GoMap MessageContentRow
  pub emulated_message_init_states : GoMap MessageContentRow
  pub emulated_messages : GoMap (List MessageRow)
  pub trace_keys : List String
  pub tx_hash_trace_external_hash : GoMap String
  pub emulated_only : Bool

-- NewEmptyContext
unfoldable pub new_empty_context : Bool → EmulatedTracesContext
new_empty_context emulated_only = record {
  emulated_traces = [];
  emulated_actions = [];
  emulated_transactions_raw = [];
  emulated_transactions = [];
  emulated_message_contents = [];
  emulated_message_init_states = [];
  emulated_messages = [];
  trace_keys = [];
  tx_hash_trace_external_hash = [];
  emulated_only = emulated_only;
}

-- A lookup of a list: nil when the key is missing.
abbrev pub entries {ℓ} : {V : Type ℓ} → String → GoMap (List V) → List V
entries key m = elim (lookup key m) [ none ↦ [] | some xs ↦ xs ]

-- All the values of a map of lists, in the order of the map.
unfoldable pub all_rows {ℓ} : {V : Type ℓ} → GoMap (List V) → List V
all_rows [] = []
all_rows ((key, rows) ∷ m) = rows ++ all_rows m

-- IsEmptyContext
unfoldable pub is_empty_context : EmulatedTracesContext → Bool
is_empty_context c = elim c.emulated_transactions [ [] ↦ true | ◌∷◌ x xs ↦ false ]

-- SetEmulatedOnly
unfoldable pub set_emulated_only : Bool → EmulatedTracesContext → EmulatedTracesContext
set_emulated_only emulated_only c = record c { emulated_only = emulated_only }

-- GetTransactions
unfoldable pub get_transactions : EmulatedTracesContext → List TransactionRow
get_transactions c = all_rows c.emulated_transactions

unfoldable pub trace_rows : GoMap TraceRow → List TraceRow
trace_rows [] = []
trace_rows ((key, row) ∷ m) = row ∷ trace_rows m

-- GetTraces
unfoldable pub get_traces : EmulatedTracesContext → List TraceRow
get_traces c = trace_rows c.emulated_traces

-- GetActions
unfoldable pub get_actions : EmulatedTracesContext → List ActionRow
get_actions c = all_rows c.emulated_actions

-- A row of GetMessages: the message, its content, its init state.
pub record MessageParts : Type 0 where
  pub msg : MessageRow
  pub message_content : Option MessageContentRow
  pub init_state : Option MessageContentRow

unfoldable pub message_parts : EmulatedTracesContext → MessageRow → MessageParts
message_parts c msg = record {
  msg = msg;
  message_content = lookup msg.msg_hash c.emulated_message_contents;
  init_state = msg.init_state_hash >>= λ h. lookup h c.emulated_message_init_states;
}

unfoldable pub parts_of : EmulatedTracesContext → List MessageRow → List MessageParts
parts_of c [] = []
parts_of c (msg ∷ msgs) = message_parts c msg ∷ parts_of c msgs

-- GetMessages
unfoldable pub get_messages : EmulatedTracesContext → List String → List MessageParts
get_messages c [] = []
get_messages c (tx_hash ∷ transaction_hashes) =
    parts_of c (entries tx_hash c.emulated_messages) ++ get_messages c transaction_hashes

unfoldable pub with_hash : String → List TransactionRow → List TransactionRow
with_hash tx_hash [] = []
with_hash tx_hash (tx ∷ txs) =
    let rest = with_hash tx_hash txs in if str_eq tx.hash tx_hash then tx ∷ rest else rest

-- GetTransactionsByTraceIdAndHash
unfoldable pub get_transactions_by_trace_id_and_hash :
    EmulatedTracesContext → String → List String → List TransactionRow
get_transactions_by_trace_id_and_hash c trace_id [] = []
get_transactions_by_trace_id_and_hash c trace_id (tx_hash ∷ tx_hashes) =
    with_hash tx_hash (entries trace_id c.emulated_transactions)
    ++ get_transactions_by_trace_id_and_hash c trace_id tx_hashes
