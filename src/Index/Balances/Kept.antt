-- ===== src/Index/Balances/Kept.antt =====
-- The bodies of the two walks in CalculateBalanceChanges of ton-index-go/index/balances.go: what they
-- keep.
use ton_indexer.Prelude.{
  ℕ, ◌<◌, ◌≡◌, String, Bool, true, false, Option, none, some, List, [], ◌>>=◌, get_elem?, All,
  if◌then◌else◌, arith, Option-cases, inl, inr,
}
use ton_indexer.Prelude.Base64.{decode_string}
use ton_indexer.Index.Balances.{BalanceChanges, merge}
use ton_indexer.Index.Balances.Messages.{ShortMessage, TxMap}
use ton_indexer.Index.Balances.Nodes.{Node, update_node}
use ton_indexer.Index.Balances.Walk.{total_weight, Keeps, keeps, crash}
use ton_indexer.Index.Balances.Visit.{
  Visits, visit_next, visit_node, visit_message, add_candidates, node_at, changes_of, set_changes,
  no_changes, has_opcode, jetton_transfer,
}
use ton_indexer.Index.Balances.Transfers.{
  WalletInfo, OwnerWallets, Payloads, TransferPayload, Totals, move_jettons, apply_transfer,
  apply_body, apply_message, add_node, settle_node,
}
use ton_indexer.Index.Balances.Sums.{
  IsZero, IfSome, value, no_value, IfSome-bind, IfSome-any, IfSome-inv, IfSome-if, IfSome-option,
  merge-IsZero, add_jetton-IsZero,
}
use ton_indexer.Index.Balances.Conserved.{
  ZeroNode, ZeroNode-at, IsWeight, update-IsWeight, update-ZeroNode, message_changes-IsZero,
}

-- The nodes: their weights, and the sums of their values.
pub record IsBalanced (w : ℕ → ℕ) (store : List Node) : Type 0 where
  pub weight : IsWeight w store
  pub zero_nodes : All ZeroNode store

update-IsBalanced :
    (w : ℕ → ℕ) (c : BalanceChanges) (n : ℕ) (store : List Node)
    → IsZero c
    → IsBalanced w store
    → IsBalanced w (update_node n (set_changes c) store)
update-IsBalanced w c n store z b = record {
  weight = update-IsWeight c w n store b.weight;
  zero_nodes = update-ZeroNode c n store z b.zero_nodes;
}

module _ (w : ℕ → ℕ) where
  weight_at :
      (n : ℕ) (store : List Node) (node : Node)
      → get_elem? store n ≡ some node
      → IsWeight w store
      → total_weight w node.next_nodes < w n
  unfolding IsWeight
  weight_at n store node e h = rw e at (h n)

  visit_node-IsBalanced :
      (txs : TxMap) (n : ℕ) (node : Node) (s : Visits)
      → ZeroNode node
      → IsBalanced w s.store
      → IfSome (λ after. IsBalanced w after.store) (visit_node txs n node s)
  unfolding visit_node visit_message
  visit_node-IsBalanced txs n node s z b = IfSome-option node.msg (value b) (λ msg.
      IfSome-bind
        (message_changes-IsZero txs (node_at node.previous_node s.store) msg (changes_of node) z)
        (λ changes c.
          IfSome-any (add_candidates msg s.candidates)
            (λ candidates. value (update-IsBalanced w changes n s.store c b))))

  -- A body that reads its node, and then appends the node's next nodes.
  node-Keeps :
      {S : Type 0} {P : S → Type 0} (n : ℕ) (store : List Node) {f : Node → Option (S × List ℕ)}
      → IsBalanced w store
      → ((node : Node)
          → ZeroNode node
          → total_weight w node.next_nodes < w n
          → Keeps P w n (f node))
      → Keeps P w n (get_elem? store n >>= f)
  node-Keeps n store b k = elim (Option-cases (get_elem? store n)) [
    | inl e ↦ rw e crash
    | inr (node, e) ↦ rw e (
        k node (IfSome-inv node (ZeroNode-at store n b.zero_nodes) e)
          (weight_at n store node e b.weight))
  ]

  followed :
      {S : Type 0} {P : S → Type 0} {n : ℕ} (next : List ℕ) {o : Option S}
      → IfSome P o
      → total_weight w next < w n
      → Keeps P w n (o >>= λ after. some (after, next))
  followed next (value p) h = keeps p h
  followed next no_value h = crash

  pub visit_next-Keeps :
      (txs : TxMap) (n : ℕ) (s : Visits)
      → IsBalanced w s.store
      → Keeps (λ after. IsBalanced w after.store) w n (visit_next txs n s)
  unfolding visit_next
  visit_next-Keeps txs n s b =
      node-Keeps n s.store b
        (λ node z h. followed node.next_nodes (visit_node-IsBalanced txs n node s z b) h)

-- What the second walk keeps.
pub record IsSettled (w : ℕ → ℕ) (s : Totals) : Type 0 where
  pub balanced : IsBalanced w s.store
  pub zero_total : IsZero s.changes

module _ (w : ℕ → ℕ) (p : Payloads) (convert : String → Option String) (wallets : List WalletInfo)
    (owners : OwnerWallets) where
  move_jettons-IsZero :
      (transfer : TransferPayload) (msg : ShortMessage) (changes : BalanceChanges)
      → IsZero changes
      → IfSome IsZero (move_jettons p convert wallets owners transfer msg changes)
  unfolding move_jettons
  move_jettons-IsZero transfer msg changes z = IfSome-any msg.source (λ source.
      IfSome-any msg.destination
        (λ wallet. value (add_jetton-IsZero _ _ _ transfer.amount changes z)))

  Applied : Bool × List Node → Type 0
  Applied a = IsBalanced w a.1

  module _ (n : ℕ) (node : Node) (z : ZeroNode node) (store : List Node)
      (b : IsBalanced w store) where
    apply_changes-Applied :
        (o : Option BalanceChanges) (msg : ShortMessage) (transfer : TransferPayload) (fine : Bool)
        → IsZero (elim o [ none ↦ no_changes | some changes ↦ changes ])
        → IfSome Applied (
            o >>= λ changes. move_jettons p convert wallets owners transfer msg changes >>= λ moved.
            some (fine, update_node n (set_changes moved) store))
    unfolding Applied
    apply_changes-Applied none msg transfer fine y = no_value
    apply_changes-Applied (some changes) msg transfer fine y =
        IfSome-bind (move_jettons-IsZero transfer msg changes y)
          (λ moved m. value (update-IsBalanced w moved n store m b))

    apply_transfer-Applied :
        (msg : ShortMessage) (payload : TransferPayload × Bool)
        → IfSome Applied (apply_transfer p convert wallets owners n node msg payload store)
    unfolding apply_transfer
    apply_transfer-Applied msg (transfer, fine) =
        apply_changes-Applied node.balance_changes msg transfer fine z

    apply_body-Applied :
        (msg : ShortMessage) (body : String)
        → IfSome Applied (apply_body p convert wallets owners n node msg body store)
    unfolding apply_body Applied
    apply_body-Applied msg body = IfSome-option (decode_string body) (value b) (λ bytes.
        IfSome-option (p.from_boc bytes) (value b)
          (λ cell. apply_transfer-Applied msg (p.load_transfer cell)))

    apply_message-Applied :
        (msg : Option ShortMessage)
        → IfSome Applied (apply_message p convert wallets owners n node msg store)
    unfolding apply_message Applied
    apply_message-Applied none = value b
    apply_message-Applied (some msg) =
        IfSome-option msg.body (value b) (λ body.
          IfSome-if (has_opcode jetton_transfer msg) (apply_body-Applied msg body) (value b))

  counted-Keeps :
      (n : ℕ) (o : Option BalanceChanges) (total : BalanceChanges) (store : List Node)
      (next : List ℕ)
      → IsZero (elim o [ none ↦ no_changes | some changes ↦ changes ])
      → IsZero total
      → IsBalanced w store
      → total_weight w next < w n
      → Keeps (IsSettled w) w n (
          some (elim o [
            | none ↦ (record { store = store; changes = total }, next)
            | some changes ↦ (record { store = store; changes = merge total changes }, next)
          ]))
  counted-Keeps n none total store next y t b h = keeps (record { balanced = b; zero_total = t }) h
  counted-Keeps n (some changes) total store next y t b h =
      keeps (record { balanced = b; zero_total = merge-IsZero total changes t y }) h

  add_node-Keeps :
      (n : ℕ) (total : BalanceChanges) (store : List Node)
      → IsZero total
      → IsBalanced w store
      → Keeps (IsSettled w) w n (add_node p convert wallets owners n total store)
  unfolding add_node
  add_node-Keeps n total store t b =
      node-Keeps w n store b
        (λ node z h. counted-Keeps n node.balance_changes total store node.next_nodes z t b h)

  went_on-Keeps :
      (n : ℕ) (s : Totals) (a : Bool × List Node)
      → IsZero s.changes
      → IsBalanced w a.1
      → Keeps (IsSettled w) w n (
          if a.0
          then add_node p convert wallets owners n s.changes a.1
          else some (record s { store = a.1 }, []))
  unfolding IsWeight
  went_on-Keeps n s (true, store) t b = add_node-Keeps n s.changes store t b
  went_on-Keeps n s (false, store) t b =
      keeps (record { balanced = b; zero_total = t }) (omega (arith, b.weight n))

  bind-Keeps :
      {A : Type 0} {Q : A → Type 0} (n : ℕ) {o : Option A} {f : A → Option (Totals × List ℕ)}
      → IfSome Q o
      → ((a : A) → Q a → Keeps (IsSettled w) w n (f a))
      → Keeps (IsSettled w) w n (o >>= f)
  bind-Keeps n (value q) k = k _ q
  bind-Keeps n no_value k = crash

  pub settle_node-Keeps :
      (n : ℕ) (s : Totals)
      → IsSettled w s
      → Keeps (IsSettled w) w n (settle_node p convert wallets owners n s)
  unfolding settle_node Applied
  settle_node-Keeps n s i = node-Keeps w n s.store i.balanced (λ node z h.
      bind-Keeps n (apply_message-Applied n node z s.store i.balanced node.msg)
        (λ applied b. went_on-Keeps n s applied i.zero_total b))
