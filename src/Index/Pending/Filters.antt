-- ===== src/Index/Pending/Filters.antt =====
-- EmulatedTracesContext of ton-index-go/index/pending.go: the operations that take rows out. A
-- `range` loop over a map that writes only the entry it stands at is a loop over the entries that
-- were there at the start.
pub mod Actions
pub mod Laws
use ton_indexer.Prelude.{
  ℕ, String, Bool, true, false, not, List, [], ◌∷◌, ◌++◌, str_eq, if◌then◌else◌,
}
use ton_indexer.Prelude.GoMap.{GoMap, lookup, insert, delete}
use ton_indexer.Prelude.Text.{trim}
use ton_indexer.Index.Emulated.Rows.{TransactionRow, ActionRow}
use ton_indexer.Index.Pending.{EmulatedTracesContext, entries}

-- RemoveTraces
unfoldable pub remove_traces : List String → EmulatedTracesContext → EmulatedTracesContext
remove_traces [] c = c
remove_traces (trace_key ∷ trace_keys) c = remove_traces trace_keys (record c {
  emulated_transactions = delete trace_key c.emulated_transactions;
  emulated_messages = delete trace_key c.emulated_messages;
  emulated_traces = delete trace_key c.emulated_traces;
  emulated_actions = delete trace_key c.emulated_actions;
})

unfoldable pub actions_with_id : String → List ActionRow → List ActionRow
actions_with_id action_id [] = []
actions_with_id action_id (action ∷ actions) =
    let rest = actions_with_id action_id actions in
    if str_eq action.action_id action_id then action ∷ rest else rest

unfoldable pub filtered_actions : List String → List ActionRow → List ActionRow
filtered_actions [] actions = []
filtered_actions (action_id ∷ action_ids) actions =
    actions_with_id action_id actions ++ filtered_actions action_ids actions

-- FilterTraceActions
unfoldable pub filter_trace_actions :
    GoMap (List String) → EmulatedTracesContext → EmulatedTracesContext
filter_trace_actions [] c = c
filter_trace_actions ((trace_id, action_ids) ∷ trace_action_map) c =
    filter_trace_actions trace_action_map (record c {
      emulated_actions =
          insert trace_id (filtered_actions action_ids (entries trace_id c.emulated_actions))
            c.emulated_actions;
    })

-- The rows that a test holds of, in order.
unfoldable pub kept : (TransactionRow → Bool) → List TransactionRow → List TransactionRow
kept p [] = []
kept p (tx ∷ txs) = let rest = kept p txs in if p tx then tx ∷ rest else rest

-- if len(filtered_txs) > 0: the entry is written back, else it is deleted.
unfoldable pub write_back :
    String → List TransactionRow → GoMap (List TransactionRow) → GoMap (List TransactionRow)
write_back trace_id [] m = delete trace_id m
write_back trace_id (tx ∷ txs) m = insert trace_id (tx ∷ txs) m

abbrev pub differs_from : String → TransactionRow → Bool
differs_from tx_hash tx = not (str_eq tx.hash tx_hash)

-- One entry of the inner loop of RemoveTransactions.
unfoldable pub remove_from_entry :
    String → List TransactionRow → EmulatedTracesContext → EmulatedTracesContext
remove_from_entry trace_id filtered_txs c = record c {
  emulated_transactions = write_back trace_id filtered_txs c.emulated_transactions;
  emulated_messages = elim filtered_txs [
    | [] ↦ delete trace_id c.emulated_messages
    | ◌∷◌ tx txs ↦ c.emulated_messages
  ];
}

unfoldable pub remove_loop :
    String → GoMap (List TransactionRow) → EmulatedTracesContext → EmulatedTracesContext
remove_loop tx_hash [] c = c
remove_loop tx_hash ((trace_id, txs) ∷ snapshot) c =
    remove_loop tx_hash snapshot (remove_from_entry trace_id (kept (differs_from tx_hash) txs) c)

-- RemoveTransactions
unfoldable pub remove_transactions : List String → EmulatedTracesContext → EmulatedTracesContext
remove_transactions [] c = c
remove_transactions (tx_hash ∷ transaction_hashes) c =
    remove_transactions transaction_hashes (remove_loop tx_hash c.emulated_transactions c)

-- An AccountAddress is compared without the spaces around it.
unfoldable pub is_requested_account : List String → TransactionRow → Bool
is_requested_account [] tx = false
is_requested_account (account ∷ accounts) tx =
    let rest = is_requested_account accounts tx in
    if str_eq tx.account (trim account) then true else rest

-- The loop over the entries.
unfoldable pub keep_loop :
    (TransactionRow → Bool)
    → GoMap (List TransactionRow)
    → GoMap (List TransactionRow)
    → GoMap (List TransactionRow)
keep_loop p [] m = m
keep_loop p ((k, txs) ∷ snapshot) m = keep_loop p snapshot (write_back k (kept p txs) m)

-- FilterTransactionsByAccounts
unfoldable pub filter_transactions_by_accounts :
    List String → EmulatedTracesContext → EmulatedTracesContext
filter_transactions_by_accounts accounts c = record c {
  emulated_transactions =
      keep_loop (is_requested_account accounts) c.emulated_transactions c.emulated_transactions;
}
