-- ===== src/Index/Assemble.antt =====
-- AssembleTraceTxsFromMap of ton-index-go/index/crud.go: from the transactions of a trace, in their
-- order, to its tree. The nodes that the code points to stand in a store, and a pointer is a place
-- in it. Of a transaction and of a message there are the fields that the function reads; an empty
-- list of children and a nil one are the same here.
pub mod Laws
pub mod Linked
pub mod Tracked
pub mod Explained
use ton_indexer.Prelude.{
  ℕ, zero, suc, String, Bool, true, false, Option, none, some, List, [], ◌∷◌, ◌++◌, length, ◌>>=◌,
}
use ton_indexer.Prelude.GoMap.{GoMap, lookup, insert, delete}

pub record Message : Type 0 where
  pub msg_hash : String

pub record Transaction : Type 0 where
  pub in_msg : Option Message
  pub out_msgs : List Message

pub record TraceNode : Type 0 where
  pub transaction_hash : String
  pub in_msg_hash : String
  pub children : List ℕ

-- The store, and the variables of the function.
pub record Assembly : Type 0 where
  pub store : List TraceNode
  pub nodes : GoMap ℕ
  pub root : Option ℕ
  pub warning : Bool

abbrev pub start_assembly : Assembly
start_assembly = record { store = []; nodes = []; root = none; warning = false }

-- for _, msg := range tx.OutMsgs { nodes[msg.MsgHash] = &node }
unfoldable pub register : List Message → ℕ → GoMap ℕ → GoMap ℕ
register [] node nodes = nodes
register (msg ∷ out_msgs) node nodes = register out_msgs node (insert msg.msg_hash node nodes)

-- parent.Children = append(parent.Children, &node)
unfoldable pub append_child : ℕ → ℕ → List TraceNode → List TraceNode
append_child parent node [] = []
append_child zero node (n ∷ store) = record n { children = n.children ++ node ∷ [] } ∷ store
append_child (suc parent) node (n ∷ store) = n ∷ append_child parent node store

abbrev pub in_hash : Transaction → String
in_hash tx = elim tx.in_msg [ none ↦ "" | some in_msg ↦ in_msg.msg_hash ]

-- The transaction without a parent is the root, if there is none yet.
unfoldable pub take_root : Option ℕ → ℕ → Assembly → Assembly
take_root none node s = record s { root = some node }
take_root (some root) node s = record s { warning = true }

-- Where the node goes, after it is made and its messages are registered.
unfoldable pub link : String → ℕ → Assembly → Assembly
link in_msg_hash node s = elim (lookup in_msg_hash s.nodes) [
  | some parent ↦ record s {
    nodes = delete in_msg_hash s.nodes;
    store = append_child parent node s.store;
  }
  | none ↦ take_root s.root node s
]

-- One transaction.
unfoldable pub place : String → Transaction → Assembly → Assembly
place tx_hash tx s = link (in_hash tx) (length s.store) (record s {
  store =
      s.store
      ++ record { transaction_hash = tx_hash; in_msg_hash = in_hash tx; children = [] } ∷ [];
  nodes = register tx.out_msgs (length s.store) s.nodes;
})

-- The loop; a hash that the map does not have is a nil pointer, and a panic.
unfoldable pub place_all : List String → GoMap Transaction → Assembly → Option Assembly
place_all [] txs s = some s
place_all (tx_hash ∷ tx_order) txs s =
    lookup tx_hash txs >>= λ tx. place_all tx_order txs (place tx_hash tx s)

-- The warning is the error that is returned beside the root.
unfoldable pub assemble_trace_txs_from_map : List String → GoMap Transaction → Option Assembly
assemble_trace_txs_from_map tx_order txs = place_all tx_order txs start_assembly
