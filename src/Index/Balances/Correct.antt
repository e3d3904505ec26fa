-- ===== src/Index/Balances/Correct.antt =====
-- CalculateBalanceChanges of ton-index-go/index/balances.go as a whole: from the rows of a trace to
-- the changes.
use ton_indexer.Prelude.{
  ℕ, zero, ◌<◌, ◌≡◌, refl, String, Option, none, some, List, [], ◌∷◌, All, arith, Bool-cases, inl,
  inr, Result, ok, IfOk, ◌+◌, err,
}
use ton_indexer.Prelude.Int.{ltb_ℤ}
use ton_indexer.Prelude.GoMap.{lookup}
use ton_indexer.Index.Action.Models.{RawAction}
use ton_indexer.Index.Query.Sql.{IndexError}
use ton_indexer.Index.Balances.Messages.{ShortMessage, ShortTransaction, TxMap, take_rows}
use ton_indexer.Index.Balances.Nodes.{Node, Graph, empty_graph}
use ton_indexer.Index.Balances.Walk.{Run, done, Ends, finishes, crashes}
use ton_indexer.Index.Balances.Transfers.{WalletInfo, Payloads}
use ton_indexer.Index.Balances.Calculate.{
  insert_tx, sort_txs, values, last_hash, build_graph, Changes, continue, calculate_from,
  actions_query, calculate_trace, calculate_balance_changes,
}
use ton_indexer.Index.Balances.Sums.{IfSome, value, IfSome-bind, IfSome-any, IfSome-inv}
use ton_indexer.Index.Balances.Conserved.{IsWeight}
use ton_indexer.Index.Balances.Ended.{IsConserved, calculate_from-Ends}
use ton_indexer.Index.Balances.Tree.{HasOwnMessages, IsTree}
use ton_indexer.Index.Balances.Built.{HasWeight, add_txs-HasWeight}

module _ (Q : ShortTransaction → Type 0) where
  insert_tx-All :
      (tx : ShortTransaction) (txs : List ShortTransaction)
      → Q tx
      → All Q txs
      → All Q (insert_tx tx txs)
  unfolding insert_tx
  insert_tx-All tx [] q a = (q, tt)
  insert_tx-All tx (t ∷ txs) q a = elim (Bool-cases (ltb_ℤ tx.lt t.lt)) [
    | inl e ↦ rw e (a.0, insert_tx-All tx txs q a.1)
    | inr e ↦ rw e (q, a)
  ]

  sort_txs-All : (txs : List ShortTransaction) → All Q txs → All Q (sort_txs txs)
  unfolding sort_txs
  sort_txs-All [] a = tt
  sort_txs-All (tx ∷ txs) a = insert_tx-All tx (sort_txs txs) a.0 (sort_txs-All txs a.1)

  values-All : (txs : TxMap) → All (λ entry. Q entry.1) txs → All Q (values txs)
  unfolding values
  values-All [] a = tt
  values-All ((hash, tx) ∷ txs) a = (a.0, values-All txs a.1)

-- The transactions of a trace: each has a hash and messages with a hash of their own.
abbrev pub HaveOwnMessages : TxMap → Type 0
HaveOwnMessages txs = All (λ entry. HasOwnMessages entry.1) txs

empty_graph-IsTree : IsTree (λ n. 1) empty_graph
unfolding IsWeight lookup
empty_graph-IsTree = record {
  weight = λ n. omega arith;
  zero_nodes = tt;
  places = λ k c e. absurd (ground arith);
  next_places = λ n. tt;
  known = λ hash k e. absurd (ground arith);
}

build_graph-HasWeight :
    (txs : TxMap) → HaveOwnMessages txs → IfSome (λ built. HasWeight built.0) (build_graph txs)
unfolding build_graph
build_graph-HasWeight txs own =
    IfSome-bind
      (add_txs-HasWeight (sort_txs (values txs)) empty_graph
        (sort_txs-All HasOwnMessages (values txs) (values-All HasOwnMessages txs own))
        ((λ n. 1), empty_graph-IsTree))
      (λ g h.
        IfSome-any (last_hash (sort_txs (values txs)))
          (λ hash. IfSome-any (lookup hash g.nodes) (λ root. value h)))

positive : (w : ℕ → ℕ) (store : List Node) → IsWeight w store → (n : ℕ) → zero < w n
unfolding IsWeight
positive w store h n = omega (arith, h n)

-- With enough fuel, and with more, it ends: in an error, in a panic or with changes that sum to zero.
abbrev pub EndsWell : (ℕ → Run (Result String Changes)) → Type 0
EndsWell run = (bound : ℕ) × ((extra : ℕ) → Ends (λ r. IfOk IsConserved r) (run (bound + extra)))

module _ (p : Payloads) (convert : String → Option String)
    (query_wallets : List String → Result String (List (Result String WalletInfo)))
    (query_actions : String → List RawAction) (trace_id : String) where
  graph-Ends :
      (actions : List RawAction) (txs : TxMap) (o : Option (Graph × ℕ))
      → IfSome (λ built. HasWeight built.0) o
      → EndsWell (λ fuel.
        continue o (λ g. calculate_from fuel p convert query_wallets actions txs g.0 g.1))
  graph-Ends actions txs none h = (0, λ extra. crashes)
  graph-Ends actions txs (some (g, root)) h =
      let weighted = IfSome-inv (g, root) h refl in
      (
        weighted.0 root,
        λ extra.
            calculate_from-Ends weighted.0 (positive weighted.0 g.store weighted.1.weight)
              (weighted.0 root + extra) p convert query_wallets actions txs g root (omega arith)
              (record { weight = weighted.1.weight; zero_nodes = weighted.1.zero_nodes }),
      )

  queried-Ends :
      (txs : TxMap) (q : Result IndexError String)
      → HaveOwnMessages txs
      → EndsWell (λ fuel. elim q [
        | err e ↦ done (err e.message)
        | ok query ↦
            continue
              (build_graph txs)
              (λ g. calculate_from fuel p convert query_wallets (query_actions query) txs g.0 g.1)
      ])
  queried-Ends txs (err e) own = (0, λ extra. finishes tt)
  queried-Ends txs (ok query) own =
      graph-Ends (query_actions query) txs (build_graph txs) (build_graph-HasWeight txs own)

  trace-Ends :
      (txs : TxMap)
      → HaveOwnMessages txs
      → EndsWell (λ fuel. calculate_trace fuel p convert query_wallets query_actions trace_id txs)
  unfolding calculate_trace
  trace-Ends [] own = (0, λ extra. finishes tt)
  trace-Ends (entry ∷ more) own = queried-Ends (entry ∷ more) (actions_query trace_id) own

  -- When each transaction of the trace has a hash that is not empty, and its messages have hashes of
  -- their own, there is a fuel with which, and with more of which, CalculateBalanceChanges ends: in an
  -- error, in a panic, or with changes of the trace, and of each action, in which the values that
  -- the addresses gain and lose sum to zero modulo 2^64, and the amounts of each jetton to zero.
  pub calculate_balance_changes_correct :
      (rows : List (ShortTransaction × ShortMessage)) (txs : TxMap)
      → take_rows rows [] ≡ some txs
      → HaveOwnMessages txs
      → EndsWell (λ fuel.
        calculate_balance_changes fuel p convert query_wallets query_actions trace_id (ok rows))
  unfolding calculate_balance_changes
  calculate_balance_changes_correct rows txs e own = rw e (trace-Ends txs own)
