-- ===== src/Index/Balances/Calculate.antt =====
-- CalculateBalanceChanges of ton-index-go/index/balances.go: the changes of a trace, and those of
-- each action. A panic is `none` or `panicked`. The rows of the three queries are parameters; of the
-- actions, the code ignores the error, so that they are a list.
use ton_indexer.Prelude.{
  ℕ, String, false, Option, none, some, List, [], ◌∷◌, if◌then◌else◌, str_eq, ◌>>=◌, get_elem?,
  Result, ok, err,
}
use ton_indexer.Prelude.Int.{ltb_ℤ, pos}
use ton_indexer.Prelude.GoMap.{GoMap, lookup, insert}
use ton_indexer.Index.Action.Models.{RawAction}
use ton_indexer.Index.Query.Request.{RequestSettings}
use ton_indexer.Index.Query.Sql.{IndexError}
use ton_indexer.Index.Query.Actions.{build_actions_query}
use ton_indexer.Index.Balances.{BalanceChanges, merge}
use ton_indexer.Index.Balances.Messages.{ShortMessage, ShortTransaction, TxMap, take_rows}
use ton_indexer.Index.Balances.Nodes.{Node, Graph, add_txs, empty_graph}
use ton_indexer.Index.Balances.Walk.{Run, done, panicked, out_of_fuel, walk_nodes}
use ton_indexer.Index.Balances.Visit.{visit_next, no_changes}
use ton_indexer.Index.Balances.Transfers.{
  WalletInfo, Payloads, settle_node, check_jetton_wallets, owner_wallets,
}

-- slices.SortFunc by compare: the greatest logical time first. Go leaves the order of equal times
-- open.
unfoldable pub insert_tx : ShortTransaction → List ShortTransaction → List ShortTransaction
insert_tx tx [] = tx ∷ []
insert_tx tx (t ∷ txs) =
    let rest = insert_tx tx txs in if ltb_ℤ tx.lt t.lt then t ∷ rest else tx ∷ t ∷ txs

unfoldable pub sort_txs : List ShortTransaction → List ShortTransaction
unfolding insert_tx
sort_txs [] = []
sort_txs (tx ∷ txs) = insert_tx tx (sort_txs txs)

unfoldable pub values : TxMap → List ShortTransaction
values [] = []
values ((hash, tx) ∷ txs) = tx ∷ values txs

-- A hash that the map lacks is a nil pointer, at which the sorting or the choice of the earliest
-- transaction panics.
unfoldable pub find_txs : List String → TxMap → Option (List ShortTransaction)
find_txs [] txs = some []
find_txs (hash ∷ hashes) txs =
    lookup hash txs >>= λ tx. find_txs hashes txs >>= λ rest. some (tx ∷ rest)

-- The last of the sorted ones is the earliest; it is left out if its message has a source.
unfoldable pub without_root : List ShortTransaction → Option (List ShortTransaction)
without_root [] = none
without_root (tx ∷ []) =
    tx.in_msg >>= λ msg. some (elim msg.source [ none ↦ tx ∷ [] | some source ↦ [] ])
without_root (tx ∷ t ∷ txs) = without_root (t ∷ txs) >>= λ rest. some (tx ∷ rest)

-- for _, tx := range transactions
unfoldable pub merge_node : Node → List ShortTransaction → BalanceChanges → Option BalanceChanges
merge_node node [] total = some total
merge_node node (tx ∷ txs) total =
    let merged = node.balance_changes >>= λ changes. merge_node node txs (merge total changes) in
    let rest = merge_node node txs total in if str_eq node.tx_hash tx.hash then merged else rest

-- for _, node := range nodes
unfoldable pub merge_nodes :
    GoMap ℕ → List Node → List ShortTransaction → BalanceChanges → Option BalanceChanges
unfolding merge_node
merge_nodes [] store txs total = some total
merge_nodes ((hash, n) ∷ nodes) store txs total =
    get_elem? store n >>= λ node. merge_node node txs total >>= merge_nodes nodes store txs

unfoldable pub action_changes : RawAction → TxMap → GoMap ℕ → List Node → Option BalanceChanges
unfolding find_txs without_root merge_nodes sort_txs
action_changes action txs nodes store = find_txs action.tx_hashes txs >>= λ found.
    without_root (sort_txs found) >>= λ rest. merge_nodes nodes store rest no_changes

unfoldable pub add_actions :
    List RawAction
    → TxMap
    → GoMap ℕ
    → List Node
    → GoMap BalanceChanges
    → Option (GoMap BalanceChanges)
unfolding action_changes
add_actions [] txs nodes store m = some m
add_actions (action ∷ actions) txs nodes store m =
    let skipped = add_actions actions txs nodes store m in
    let added = action_changes action txs nodes store >>= λ changes.
    add_actions actions txs nodes store (insert action.action_id changes m) in
    if str_eq action.type "contract_deploy" then skipped else added

abbrev pub Changes : Type 0
Changes = BalanceChanges × GoMap BalanceChanges

unfoldable pub last_hash : List ShortTransaction → Option String
last_hash [] = none
last_hash (tx ∷ []) = some tx.hash
last_hash (tx ∷ t ∷ txs) = last_hash (t ∷ txs)

-- A panic, or how the work goes on.
abbrev pub continue : {A B : Type 0} → Option A → (A → Run B) → Run B
continue none f = panicked
continue (some a) f = f a

abbrev pub after_walk : {A B : Type 0} → Run A → (A → Run B) → Run B
after_walk (done a) f = f a
after_walk panicked f = panicked
after_walk out_of_fuel f = out_of_fuel

abbrev pub if_ok : {E A B : Type 0} → Result E A → (A → Run (Result E B)) → Run (Result E B)
if_ok (err e) f = done (err e)
if_ok (ok a) f = f a

module _ (fuel : ℕ) (p : Payloads) (account_address_converter : String → Option String)
    (query_wallets : List String → Result String (List (Result String WalletInfo)))
    (actions : List RawAction) (txs : TxMap) where
  -- the second walk and the actions
  unfoldable pub settle_trace :
      Graph → ℕ → List Node → List WalletInfo → Run (Result String Changes)
  unfolding settle_node owner_wallets add_actions walk_nodes
  settle_trace g root store wallets =
      after_walk
        (walk_nodes (settle_node p account_address_converter wallets (owner_wallets wallets []))
          fuel (root ∷ []) (record { store = store; changes = no_changes }))
        (λ s.
          continue (add_actions actions txs g.nodes s.store [])
            (λ of_actions. done (ok (s.changes, of_actions))))

  -- both walks
  unfoldable pub calculate_from : Graph → ℕ → Run (Result String Changes)
  unfolding settle_trace visit_next check_jetton_wallets walk_nodes
  calculate_from g root =
      after_walk
        (walk_nodes (visit_next txs) fuel (root ∷ []) (record { store = g.store; candidates = [] }))
        (λ s. if_ok (check_jetton_wallets query_wallets s.candidates) (settle_trace g root s.store))

-- The tree of a trace, and its root.
unfoldable pub build_graph : TxMap → Option (Graph × ℕ)
unfolding sort_txs values last_hash add_txs
build_graph txs =
    let sorted = sort_txs (values txs) in
    add_txs sorted empty_graph >>= λ g.
    last_hash sorted >>= λ hash. lookup hash g.nodes >>= λ root. some (g, root)

abbrev no_settings : RequestSettings
no_settings = record {
  timeout = pos 0;
  is_testnet = false;
  v2_endpoint = "";
  v2_api_key = "";
  default_limit = pos 0;
  max_limit = pos 2147483647;
  max_trace_transactions = pos 0;
  debug_request = false;
  no_address_book = false;
  no_metadata = false;
}

unfoldable pub actions_query : String → Result IndexError String
unfolding build_actions_query
actions_query trace_id =
    build_actions_query
      (record {
        account_address = none;
        transaction_hash = none;
        message_hash = none;
        trace_id = some (trace_id ∷ []);
        action_id = none;
        mc_seqno = none;
        include_action_types = none;
        exclude_action_types = none;
      })
      (record { start_utime = none; end_utime = none }) (record { start_lt = none; end_lt = none })
      (record { limit = some (pos 2147483647); offset = none; sort = none }) no_settings

module _ (fuel : ℕ) (p : Payloads) (account_address_converter : String → Option String)
    (query_wallets : List String → Result String (List (Result String WalletInfo)))
    (query_actions : String → List RawAction) (trace_id : String) where
  -- from the sorted transactions on
  unfoldable pub calculate_trace : TxMap → Run (Result String Changes)
  unfolding build_graph calculate_from actions_query
  calculate_trace [] = done (err "trace not found")
  calculate_trace ((hash, tx) ∷ more) = elim (actions_query trace_id) [
    | err e ↦ done (err e.message)
    | ok query ↦ continue (build_graph ((hash, tx) ∷ more)) (λ g.
        calculate_from fuel p account_address_converter query_wallets (query_actions query)
          ((hash, tx) ∷ more) g.0 g.1)
  ]

  -- rows: what the query of fetchTrace returns
  unfoldable pub calculate_balance_changes :
      Result String (List (ShortTransaction × ShortMessage)) → Run (Result String Changes)
  unfolding calculate_trace take_rows
  calculate_balance_changes rows =
      if_ok rows (λ found. continue (take_rows found []) calculate_trace)
