-- ===== src/Index/Balances/Messages.antt =====
-- The transactions and the messages of a trace in ton-index-go/index/balances.go, and fetchTrace,
-- which makes them of the rows of its query. A nil pointer is `none`, and so is a panic. The pointer
-- of a message to its transaction is the transaction's key in the map that fetchTrace returns.
use ton_indexer.Prelude.{
  ℕ, String, Option, none, some, List, [], ◌∷◌, ◌++◌, if◌then◌else◌, str_eq, ◌>>=◌,
}
use ton_indexer.Prelude.Int.{ℤ}
use ton_indexer.Prelude.GoMap.{GoMap, lookup, insert}

pub record ShortMessage : Type 0 where
  pub hash : Option String
  pub transaction_hash : Option String
  pub source : Option String
  pub destination : Option String
  pub opcode : Option ℤ
  pub value : Option ℕ
  pub direction : Option String
  pub fwd_fee : Option ℕ
  pub body : Option String
  pub transaction : Option String

pub record ShortTransaction : Type 0 where
  pub hash : String
  pub account : String
  pub total_fees : Option ℕ
  pub lt : ℤ
  pub out_msgs : List ShortMessage
  pub in_msg : Option ShortMessage

abbrev pub TxMap : Type 0
TxMap = GoMap ShortTransaction

-- The message is appended to those of its transaction, or is the one that came in.
attach : String → ShortMessage → ShortTransaction → ShortTransaction
attach direction m tx =
    if str_eq direction "out"
    then record tx { out_msgs = tx.out_msgs ++ m ∷ [] }
    else record tx { in_msg = some m }

add_new : ShortTransaction → TxMap → TxMap
add_new t txs = elim (lookup t.hash txs) [ none ↦ insert t.hash t txs | some tx ↦ txs ]

-- One row.
unfoldable pub take_row : ShortTransaction → ShortMessage → TxMap → Option TxMap
unfolding attach add_new
take_row t m txs = elim m.hash [
  | none ↦ some (add_new t txs)
  | some hash ↦ m.transaction_hash >>= λ tx_hash. lookup tx_hash (add_new t txs) >>= λ tx.
      m.direction >>= λ direction. some (
        insert tx_hash (attach direction (record m { transaction = some tx_hash }) tx)
          (add_new t txs))
]

unfoldable pub take_rows : List (ShortTransaction × ShortMessage) → TxMap → Option TxMap
unfolding take_row
take_rows [] txs = some txs
take_rows ((t, m) ∷ rows) txs = take_row t m txs >>= take_rows rows
