-- ===== src/Index/Balances/Conserved.antt =====
-- The messages of a trace in ton-index-go/index/balances.go: what each step keeps.
use ton_indexer.Prelude.{
  ℕ, zero, suc, ◌<◌, ◌≡◌, refl, String, Option, none, some, List, [], ◌∷◌, get_elem?, All, str_eq,
}
use ton_indexer.Index.Balances.{BalanceChanges, add_fees}
use ton_indexer.Index.Balances.Messages.{ShortMessage, TxMap}
use ton_indexer.Index.Balances.Nodes.{Node, update_node}
use ton_indexer.Index.Balances.Walk.{total_weight}
use ton_indexer.Index.Balances.Visit.{
  no_changes, changes_of, add_forward_fee, add_sender_fee, add_transfer, add_external_fees,
  add_incoming, message_changes, set_changes, transaction_of,
}
use ton_indexer.Index.Balances.Sums.{
  IsZero, IfSome, value, no_value, IfSome-bind, IfSome-any, IfSome-if, IfSome-option,
  add_value-IsZero, add_fees-IsZero,
}

pub no_changes-IsZero : IsZero no_changes
no_changes-IsZero = record { sum_is_zero = refl; jettons_are_zero = λ jetton. refl }

abbrev pub ZeroNode : Node → Type 0
ZeroNode node = IsZero (changes_of node)

abbrev nodes_next : Option Node → List ℕ
nodes_next none = []
nodes_next (some node) = node.next_nodes

abbrev pub next_of : ℕ → List Node → List ℕ
next_of n store = nodes_next (get_elem? store n)

-- A weight that is greater than that of all next nodes together.
unfoldable pub IsWeight : (ℕ → ℕ) → List Node → Type 0
IsWeight w store = (n : ℕ) → total_weight w (next_of n store) < w n

module _ (c : BalanceChanges) where
  next_of-update :
      (n k : ℕ) (store : List Node)
      → next_of k (update_node n (set_changes c) store) ≡ next_of k store
  unfolding update_node
  next_of-update n k [] = refl
  next_of-update zero zero (node ∷ store) = refl
  next_of-update zero (suc k) (node ∷ store) = refl
  next_of-update (suc n) zero (node ∷ store) = refl
  next_of-update (suc n) (suc k) (node ∷ store) = next_of-update n k store

  pub update-IsWeight :
      (w : ℕ → ℕ) (n : ℕ) (store : List Node)
      → IsWeight w store
      → IsWeight w (update_node n (set_changes c) store)
  unfolding IsWeight
  update-IsWeight w n store h k = rw (next_of-update n k store) (h k)

  pub update-ZeroNode :
      (n : ℕ) (store : List Node)
      → IsZero c
      → All ZeroNode store
      → All ZeroNode (update_node n (set_changes c) store)
  unfolding update_node
  update-ZeroNode n [] z a = tt
  update-ZeroNode zero (node ∷ store) z a = (z, a.1)
  update-ZeroNode (suc n) (node ∷ store) z a = (a.0, update-ZeroNode n store z a.1)

pub ZeroNode-at :
    (store : List Node) (n : ℕ) → All ZeroNode store → IfSome ZeroNode (get_elem? store n)
ZeroNode-at [] n a = no_value
ZeroNode-at (node ∷ store) zero a = value a.0
ZeroNode-at (node ∷ store) (suc n) a = ZeroNode-at store n a.1

option-IsZero :
    {B : Type 0} {x : BalanceChanges} {f : B → BalanceChanges} (o : Option B)
    → IsZero x
    → ((b : B) → IsZero (f b))
    → IsZero (elim o [ none ↦ x | some b ↦ f b ])
option-IsZero none p q = p
option-IsZero (some b) p q = q b

module _ (txs : TxMap) where
  add_forward_fee-IsZero :
      (msg : ShortMessage) (out_msgs : List ShortMessage) (changes : BalanceChanges)
      → IsZero changes
      → IfSome IsZero (add_forward_fee txs msg out_msgs changes)
  unfolding add_forward_fee
  add_forward_fee-IsZero msg [] changes z = value z
  add_forward_fee-IsZero msg (out_msg ∷ more) changes z = IfSome-any out_msg.hash (λ out_hash.
      IfSome-any msg.hash (λ hash.
        IfSome-if (str_eq out_hash hash)
          (IfSome-any msg.source (λ source.
            IfSome-any out_msg.fwd_fee (λ fee. value (add_fees-IsZero source fee changes z))))
          (add_forward_fee-IsZero msg more changes z)))

  add_sender_fee-IsZero :
      (previous : Option Node) (msg : ShortMessage) (changes : BalanceChanges)
      → IsZero changes
      → IfSome IsZero (add_sender_fee txs previous msg changes)
  unfolding add_sender_fee
  add_sender_fee-IsZero none msg changes z = value z
  add_sender_fee-IsZero (some previous) msg changes z =
      IfSome-option previous.msg (value z) (λ previous_msg.
        IfSome-any (transaction_of txs previous_msg)
          (λ tx. add_forward_fee-IsZero msg tx.out_msgs changes z))

  add_transfer-IsZero :
      (msg : ShortMessage) (changes : BalanceChanges)
      → IsZero changes
      → IfSome IsZero (add_transfer txs msg changes)
  unfolding add_transfer
  add_transfer-IsZero msg changes z = IfSome-option msg.value (value z) (λ v.
      IfSome-any msg.source (λ source.
        IfSome-any msg.destination
          (λ destination. value (add_value-IsZero source destination v changes z))))

  add_external_fees-IsZero :
      (destination : String) (out_msgs : List ShortMessage) (changes : BalanceChanges)
      → IsZero changes
      → IsZero (add_external_fees txs destination out_msgs changes)
  unfolding add_external_fees
  add_external_fees-IsZero destination [] changes z = z
  add_external_fees-IsZero destination (out_msg ∷ more) changes z =
      option-IsZero out_msg.fwd_fee (add_external_fees-IsZero destination more changes z) (λ fee.
        option-IsZero out_msg.destination
          (add_external_fees-IsZero destination more (add_fees destination fee changes)
            (add_fees-IsZero destination fee changes z))
          (λ other. add_external_fees-IsZero destination more changes z))

  add_incoming-IsZero :
      (msg : ShortMessage) (changes : BalanceChanges)
      → IsZero changes
      → IfSome IsZero (add_incoming txs msg changes)
  unfolding add_incoming
  add_incoming-IsZero msg changes z = IfSome-any msg.destination (λ destination.
      IfSome-any (transaction_of txs msg) (λ tx. IfSome-any tx.total_fees (λ fees.
        IfSome-bind (add_transfer-IsZero msg _ (add_fees-IsZero destination fees changes z))
          (λ moved m. value (add_external_fees-IsZero destination tx.out_msgs moved m)))))

  pub message_changes-IsZero :
      (previous : Option Node) (msg : ShortMessage) (changes : BalanceChanges)
      → IsZero changes
      → IfSome IsZero (message_changes txs previous msg changes)
  unfolding message_changes
  message_changes-IsZero previous msg changes z =
      IfSome-bind (add_sender_fee-IsZero previous msg changes z) (λ paid p.
        IfSome-any msg.direction (λ direction.
          IfSome-if (str_eq direction "in") (add_incoming-IsZero msg paid p) (value p)))
