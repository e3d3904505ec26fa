-- ===== src/Index/Balances/Nodes.antt =====
-- The tree of messages in CalculateBalanceChanges of ton-index-go/index/balances.go. The nodes stand
-- in a store, and a pointer to a node is its place there. A panic is `none`.
use ton_indexer.Prelude.{
  ℕ, zero, suc, String, Option, none, some, List, [], ◌∷◌, ◌++◌, length, ◌>>=◌,
}
use ton_indexer.Prelude.GoMap.{GoMap, lookup, insert}
use ton_indexer.Index.Balances.{BalanceChanges}
use ton_indexer.Index.Balances.Messages.{ShortMessage, ShortTransaction}

pub record Node : Type 0 where
  pub msg : Option ShortMessage
  pub tx_hash : String
  pub next_nodes : List ℕ
  pub previous_node : Option ℕ
  pub balance_changes : Option BalanceChanges

unfoldable pub update_node : ℕ → (Node → Node) → List Node → List Node
update_node n f [] = []
update_node zero f (node ∷ store) = f node ∷ store
update_node (suc n) f (node ∷ store) = node ∷ update_node n f store

-- The store, and the variables nodes and msg_tx_map.
pub record Graph : Type 0 where
  pub store : List Node
  pub nodes : GoMap ℕ
  pub msg_tx_map : GoMap String

abbrev pub new_node : String → Option ShortMessage → Node
new_node tx_hash msg = record {
  msg = msg;
  tx_hash = tx_hash;
  next_nodes = [];
  previous_node = none;
  balance_changes = none;
}

-- n.AddNextNode(node), which sets the previous node as well
unfoldable pub add_next_node : ℕ → ℕ → List Node → List Node
unfolding update_node
add_next_node n child store =
    update_node child (λ c. record c { previous_node = some n })
      (update_node n (λ p. record p { next_nodes = p.next_nodes ++ child ∷ [] }) store)

-- msg_tx_map[*msg.Hash] = tx_hash
unfoldable pub note_message : String → ShortMessage → Graph → Option Graph
note_message tx_hash msg g =
    msg.hash >>= λ hash. some (record g { msg_tx_map = insert hash tx_hash g.msg_tx_map })

abbrev pub text_or_empty : Option String → String
text_or_empty none = ""
text_or_empty (some s) = s

-- A message to nobody gets a node of its own; another one leads to the transaction that took it, and
-- panics if there is none.
unfoldable pub add_out_msg : String → ℕ → ShortMessage → Graph → Option Graph
unfolding add_next_node note_message
add_out_msg tx_hash n msg g = elim msg.destination [
  | none ↦ note_message tx_hash msg (record g {
    store = add_next_node n (length g.store) (g.store ++ new_node tx_hash (some msg) ∷ []);
  })
  | some destination ↦ msg.hash >>= λ hash.
      lookup (text_or_empty (lookup hash g.msg_tx_map)) g.nodes >>= λ child.
      some (record g { store = add_next_node n child g.store })
]

unfoldable pub add_out_msgs : String → ℕ → List ShortMessage → Graph → Option Graph
unfolding add_out_msg
add_out_msgs tx_hash n [] g = some g
add_out_msgs tx_hash n (msg ∷ out_msgs) g =
    add_out_msg tx_hash n msg g >>= add_out_msgs tx_hash n out_msgs

unfoldable pub note_in_msg : ShortTransaction → Graph → Option Graph
unfolding note_message
note_in_msg tx g = elim tx.in_msg [ none ↦ some g | some msg ↦ note_message tx.hash msg g ]

unfoldable pub add_tx : ShortTransaction → Graph → Option Graph
unfolding note_in_msg add_out_msgs
add_tx tx g = elim (lookup tx.hash g.nodes) [
  | some n ↦ some g
  | none ↦
      note_in_msg tx (record g {
        store = g.store ++ new_node tx.hash tx.in_msg ∷ [];
        nodes = insert tx.hash (length g.store) g.nodes;
      })
      >>= add_out_msgs tx.hash (length g.store) tx.out_msgs
]

unfoldable pub add_txs : List ShortTransaction → Graph → Option Graph
unfolding add_tx
add_txs [] g = some g
add_txs (tx ∷ txs) g = add_tx tx g >>= add_txs txs

abbrev pub empty_graph : Graph
empty_graph = record { store = []; nodes = []; msg_tx_map = [] }
