-- ===== src/Index/Balances/Visit.antt =====
-- The first walk of CalculateBalanceChanges in ton-index-go/index/balances.go: the fees and the value
-- of each message. A panic is `none`.
use ton_indexer.Prelude.{
  ℕ, String, Bool, false, Option, none, some, List, [], ◌∷◌, ◌++◌, if◌then◌else◌, str_eq, ◌>>=◌,
  get_elem?, ◌==◌,
}
use ton_indexer.Prelude.Int.{pos, negsuc}
use ton_indexer.Prelude.GoMap.{lookup}
use ton_indexer.Index.Balances.{BalanceChanges, add_value, add_fees, sub_int64}
use ton_indexer.Index.Balances.Messages.{ShortMessage, ShortTransaction, TxMap}
use ton_indexer.Index.Balances.Nodes.{Node, update_node}

abbrev pub no_changes : BalanceChanges
no_changes = record { value = []; fees = []; jettons = [] }

abbrev pub changes_of : Node → BalanceChanges
changes_of node = elim node.balance_changes [ none ↦ no_changes | some changes ↦ changes ]

-- *msg.Opcode == opcode, if there is one
abbrev pub has_opcode : ℕ → ShortMessage → Bool
has_opcode opcode msg = elim msg.opcode [
  | none ↦ false
  | some o ↦ elim o [ pos n ↦ n == opcode | negsuc n ↦ false ]
]

abbrev pub jetton_transfer : ℕ
jetton_transfer = 0x0f8a7ea5

abbrev pub internal_transfer : ℕ
internal_transfer = 0x178d4519

module _ (txs : TxMap) where
  -- msg.Transaction, which must not be nil
  unfoldable pub transaction_of : ShortMessage → Option ShortTransaction
  transaction_of msg = msg.transaction >>= λ hash. lookup hash txs

  -- The fee that the sender paid: that of the first message with the same hash.
  unfoldable pub add_forward_fee :
      ShortMessage → List ShortMessage → BalanceChanges → Option BalanceChanges
  add_forward_fee msg [] changes = some changes
  add_forward_fee msg (out_msg ∷ more) changes =
      let rest = add_forward_fee msg more changes in
      out_msg.hash >>= λ out_hash. msg.hash >>= λ hash.
      if str_eq out_hash hash
      then (msg.source >>= λ source. out_msg.fwd_fee >>= λ fee. some (add_fees source fee changes))
      else rest

  unfoldable pub add_sender_fee :
      Option Node → ShortMessage → BalanceChanges → Option BalanceChanges
  unfolding transaction_of add_forward_fee
  add_sender_fee none msg changes = some changes
  add_sender_fee (some previous) msg changes = elim previous.msg [
    | none ↦ some changes
    | some previous_msg ↦
        transaction_of previous_msg >>= λ tx. add_forward_fee msg tx.out_msgs changes
  ]

  unfoldable pub add_transfer : ShortMessage → BalanceChanges → Option BalanceChanges
  add_transfer msg changes = elim msg.value [
    | none ↦ some changes
    | some value ↦ msg.source >>= λ source. msg.destination >>= λ destination.
        some (add_value destination value (add_value source (sub_int64 0 value) changes))
  ]

  -- The fees of the messages to nobody are the receiver's.
  unfoldable pub add_external_fees : String → List ShortMessage → BalanceChanges → BalanceChanges
  add_external_fees destination [] changes = changes
  add_external_fees destination (out_msg ∷ more) changes = elim out_msg.fwd_fee [
    | none ↦ add_external_fees destination more changes
    | some fee ↦ elim out_msg.destination [
      | none ↦ add_external_fees destination more (add_fees destination fee changes)
      | some other ↦ add_external_fees destination more changes
    ]
  ]

  unfoldable pub add_incoming : ShortMessage → BalanceChanges → Option BalanceChanges
  unfolding transaction_of add_transfer add_external_fees
  add_incoming msg changes = msg.destination >>= λ destination. transaction_of msg >>= λ tx.
      tx.total_fees >>= λ fees. add_transfer msg (add_fees destination fees changes) >>= λ moved.
      some (add_external_fees destination tx.out_msgs moved)

  unfoldable pub message_changes :
      Option Node → ShortMessage → BalanceChanges → Option BalanceChanges
  unfolding add_sender_fee add_incoming
  message_changes previous msg changes = add_sender_fee previous msg changes >>= λ paid.
      msg.direction >>= λ direction.
      if str_eq direction "in" then add_incoming msg paid else some paid

-- jetton_wallet_candidates.Add, for the two kinds of transfer
unfoldable pub add_candidates : ShortMessage → List String → Option (List String)
add_candidates msg candidates =
    if has_opcode jetton_transfer msg
    then (msg.destination >>= λ destination. some (candidates ++ destination ∷ []))
    else if has_opcode internal_transfer msg
    then (msg.source >>= λ source.
        msg.destination >>= λ destination. some (candidates ++ source ∷ destination ∷ []))
    else some candidates

pub record Visits : Type 0 where
  pub store : List Node
  pub candidates : List String

abbrev pub node_at : Option ℕ → List Node → Option Node
node_at none store = none
node_at (some n) store = get_elem? store n

abbrev pub set_changes : BalanceChanges → Node → Node
set_changes changes node = record node { balance_changes = some changes }

-- the body of the loop
module _ (txs : TxMap) where
  unfoldable pub visit_message : ℕ → Node → ShortMessage → Visits → Option Visits
  unfolding message_changes add_candidates update_node
  visit_message n node msg s =
      message_changes txs (node_at node.previous_node s.store) msg (changes_of node) >>= λ changes.
      add_candidates msg s.candidates >>= λ candidates.
      some (record { store = update_node n (set_changes changes) s.store; candidates = candidates })

  unfoldable pub visit_node : ℕ → Node → Visits → Option Visits
  unfolding visit_message
  visit_node n node s = elim node.msg [ none ↦ some s | some msg ↦ visit_message n node msg s ]

  unfoldable pub visit_next : ℕ → Visits → Option (Visits × List ℕ)
  unfolding visit_node
  visit_next n s =
      get_elem? s.store n >>= λ node. visit_node n node s >>= λ after. some (after, node.next_nodes)
