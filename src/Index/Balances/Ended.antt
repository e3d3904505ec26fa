-- ===== src/Index/Balances/Ended.antt =====
-- CalculateBalanceChanges of ton-index-go/index/balances.go from its tree of messages on: it ends, and
-- its changes sum to zero.
use ton_indexer.Prelude.{
  ℕ, zero, ◌≤◌, ◌<◌, String, Option, none, some, List, [], ◌∷◌, ◌>>=◌, All, str_eq, Result, ok, err,
  IfOk, arith, Bool-cases, inl, inr,
}
use ton_indexer.Prelude.GoMap.{GoMap, insert}
use ton_indexer.Index.Action.Models.{RawAction}
use ton_indexer.Index.Balances.{BalanceChanges, merge}
use ton_indexer.Index.Balances.Messages.{ShortTransaction, TxMap}
use ton_indexer.Index.Balances.Nodes.{Node, Graph}
use ton_indexer.Index.Balances.Walk.{Run, Ends, finishes, crashes, walk_nodes-Ends, total_weight}
use ton_indexer.Index.Balances.Visit.{visit_next, no_changes}
use ton_indexer.Index.Balances.Transfers.{
  WalletInfo, Payloads, settle_node, check_jetton_wallets, owner_wallets,
}
use ton_indexer.Index.Balances.Calculate.{
  merge_node, merge_nodes, action_changes, add_actions, find_txs, without_root, sort_txs, Changes,
  continue, after_walk, if_ok, settle_trace, calculate_from,
}
use ton_indexer.Index.Balances.Sums.{
  IsZero, IfSome, value, no_value, IfSome-bind, IfSome-any, IfSome-if, merge-IsZero,
}
use ton_indexer.Index.Balances.Conserved.{ZeroNode, ZeroNode-at, no_changes-IsZero}
use ton_indexer.Index.Balances.Kept.{IsBalanced, IsSettled, visit_next-Keeps, settle_node-Keeps}

-- In the changes of the trace and of each action the values sum to zero, and so does each jetton.
pub record IsConserved (c : Changes) : Type 0 where
  pub trace : IsZero c.0
  pub of_actions : All (λ entry. IsZero entry.1) c.1

merged-IsZero :
    (o : Option BalanceChanges) (total : BalanceChanges)
    {f : BalanceChanges → Option BalanceChanges}
    → IsZero (elim o [ none ↦ no_changes | some changes ↦ changes ])
    → IsZero total
    → ((c : BalanceChanges) → IsZero c → IfSome IsZero (f c))
    → IfSome IsZero (o >>= λ changes. f (merge total changes))
merged-IsZero none total z t k = no_value
merged-IsZero (some changes) total z t k = k _ (merge-IsZero total changes t z)

merge_node-IsZero :
    (node : Node) (txs : List ShortTransaction) (total : BalanceChanges)
    → ZeroNode node
    → IsZero total
    → IfSome IsZero (merge_node node txs total)
unfolding merge_node
merge_node-IsZero node [] total z t = value t
merge_node-IsZero node (tx ∷ txs) total z t =
    IfSome-if (str_eq node.tx_hash tx.hash)
      (merged-IsZero node.balance_changes total z t (λ c. merge_node-IsZero node txs c z))
      (merge_node-IsZero node txs total z t)

module _ (store : List Node) (zeros : All ZeroNode store) where
  merge_nodes-IsZero :
      (nodes : GoMap ℕ) (txs : List ShortTransaction) (total : BalanceChanges)
      → IsZero total
      → IfSome IsZero (merge_nodes nodes store txs total)
  unfolding merge_nodes
  merge_nodes-IsZero [] txs total t = value t
  merge_nodes-IsZero ((hash, n) ∷ nodes) txs total t =
      IfSome-bind (ZeroNode-at store n zeros) (λ node z.
        IfSome-bind (merge_node-IsZero node txs total z t)
          (λ c y. merge_nodes-IsZero nodes txs c y))

  action_changes-IsZero :
      (action : RawAction) (txs : TxMap) (nodes : GoMap ℕ)
      → IfSome IsZero (action_changes action txs nodes store)
  unfolding action_changes
  action_changes-IsZero action txs nodes = IfSome-any (find_txs action.tx_hashes txs) (λ found.
      IfSome-any (without_root (sort_txs found))
        (λ rest. merge_nodes-IsZero nodes rest no_changes no_changes-IsZero))

  insert-All :
      (id : String) (c : BalanceChanges) (m : GoMap BalanceChanges)
      → IsZero c
      → All (λ entry. IsZero entry.1) m
      → All (λ entry. IsZero entry.1) (insert id c m)
  unfolding insert
  insert-All id c [] z a = (z, tt)
  insert-All id c ((k, old) ∷ m) z a = elim (Bool-cases (str_eq k id)) [
    | inl e ↦ rw e (z, a.1)
    | inr e ↦ rw e (a.0, insert-All id c m z a.1)
  ]

  add_actions-All :
      (actions : List RawAction) (txs : TxMap) (nodes : GoMap ℕ) (m : GoMap BalanceChanges)
      → All (λ entry. IsZero entry.1) m
      → IfSome (λ r. All (λ entry. IsZero entry.1) r) (add_actions actions txs nodes store m)
  unfolding add_actions
  add_actions-All [] txs nodes m a = value a
  add_actions-All (action ∷ actions) txs nodes m a =
      IfSome-if (str_eq action.type "contract_deploy") (add_actions-All actions txs nodes m a) (
        IfSome-bind (action_changes-IsZero action txs nodes) (λ changes z.
          add_actions-All actions txs nodes _ (insert-All action.action_id changes m z a)))

module _ {A B : Type 0} {Q : B → Type 0} where
  after_walk-Ends :
      {P : A → Type 0} {r : Run A} {f : A → Run B}
      → Ends P r
      → ((a : A) → P a → Ends Q (f a))
      → Ends Q (after_walk r f)
  after_walk-Ends (finishes p) k = k _ p
  after_walk-Ends crashes k = crashes

  pub continue-Ends :
      {P : A → Type 0} {o : Option A} {f : A → Run B}
      → IfSome P o
      → ((a : A) → P a → Ends Q (f a))
      → Ends Q (continue o f)
  continue-Ends (value p) k = k _ p
  continue-Ends no_value k = crashes

pub if_ok-Ends :
    {A B : Type 0} (Q : B → Type 0) (r : Result String A) {f : A → Run (Result String B)}
    → ((a : A) → Ends (λ b. IfOk Q b) (f a))
    → Ends (λ b. IfOk Q b) (if_ok r f)
if_ok-Ends Q (err e) k = finishes tt
if_ok-Ends Q (ok a) k = k a

module _ (w : ℕ → ℕ) (positive : (n : ℕ) → zero < w n) (fuel : ℕ) (p : Payloads)
    (convert : String → Option String)
    (query_wallets : List String → Result String (List (Result String WalletInfo)))
    (actions : List RawAction) (txs : TxMap) (g : Graph) (root : ℕ) (enough : w root ≤ fuel) where
  root_weight : total_weight w (root ∷ []) ≤ fuel
  root_weight = omega (arith, enough)

  settle_trace-Ends :
      (store : List Node) (wallets : List WalletInfo)
      → IsBalanced w store
      → Ends
          (λ r. IfOk IsConserved r)
          (settle_trace fuel p convert query_wallets actions txs g root store wallets)
  unfolding settle_trace
  settle_trace-Ends store wallets b =
      after_walk-Ends
        (walk_nodes-Ends (settle_node p convert wallets (owner_wallets wallets [])) (IsSettled w) w
          positive (settle_node-Keeps w p convert wallets (owner_wallets wallets [])) fuel
          (root ∷ []) (record { store = store; changes = no_changes }) root_weight
          (record { balanced = b; zero_total = no_changes-IsZero }))
        (λ s i.
          continue-Ends (add_actions-All s.store i.balanced.zero_nodes actions txs g.nodes [] tt)
            (λ of_actions a. finishes (record { trace = i.zero_total; of_actions = a })))

  pub calculate_from-Ends :
      IsBalanced w g.store
      → Ends
          (λ r. IfOk IsConserved r)
          (calculate_from fuel p convert query_wallets actions txs g root)
  unfolding calculate_from
  calculate_from-Ends b =
      after_walk-Ends
        (walk_nodes-Ends (visit_next txs) (λ s. IsBalanced w s.store) w positive
          (visit_next-Keeps w txs) fuel (root ∷ []) (record { store = g.store; candidates = [] })
          root_weight b)
        (λ s i.
          if_ok-Ends IsConserved (check_jetton_wallets query_wallets s.candidates)
            (λ wallets. settle_trace-Ends s.store wallets i))
