-- ===== src/Index/Assemble/Linked.antt =====
-- AssembleTraceTxsFromMap of ton-index-go/index/crud.go: the messages that its transactions send, and
-- the nodes that receive them.
use ton_indexer.Prelude.{
  ℕ, zero, suc, ◌+◌, ◌<◌, ◌≤◌, ◌≡◌, refl, ap, sym, ◌∙◌, String, Option, none, some, List, [], ◌∷◌,
  ◌++◌, map, length, get_elem?, All, All-imp, All-append, if◌then◌else◌, str_eq, count, arith,
  Bool-cases, inl, inr,
}
use ton_indexer.Prelude.GoMap.{GoMap, lookup, insert, lookup-insert}
use ton_indexer.Index.Assemble.{Message, Transaction, TraceNode, register, append_child, in_hash}
use ton_indexer.Index.Assemble.Laws.{hashes}

abbrev pub in_hashes : List TraceNode → List String
in_hashes store = map (λ n. n.in_msg_hash) store

pub in_hashes-append_child :
    (p j : ℕ) (store : List TraceNode) → in_hashes (append_child p j store) ≡ in_hashes store
unfolding append_child
in_hashes-append_child p j [] = refl
in_hashes-append_child zero j (n ∷ store) = refl
in_hashes-append_child (suc p) j (n ∷ store) =
    ap (◌∷◌ n.in_msg_hash) (in_hashes-append_child p j store)

pub in_hashes-append :
    (store : List TraceNode) (n : TraceNode)
    → in_hashes (store ++ n ∷ []) ≡ in_hashes store ++ n.in_msg_hash ∷ []
in_hashes-append [] n = refl
in_hashes-append (x ∷ store) n = ap (◌∷◌ x.in_msg_hash) (in_hashes-append store n)

abbrev pub out_hashes : Option Transaction → List String
out_hashes none = []
out_hashes (some tx) = map (λ (m : Message). m.msg_hash) tx.out_msgs

abbrev pub received_by : Option Transaction → String
received_by none = ""
received_by (some tx) = in_hash tx

abbrev pub is_hash : String → Option String → ℕ
is_hash k none = 0
is_hash k (some h) = if str_eq h k then 1 else 0

-- 1 if the root has the message, else 0.
abbrev pub root_has : String → List TraceNode → Option ℕ → ℕ
root_has k store none = 0
root_has k store (some r) = is_hash k (get_elem? (in_hashes store) r)

pub root_has-append_child :
    (k : String) (p j : ℕ) (store : List TraceNode) (root : Option ℕ)
    → root_has k (append_child p j store) root ≡ root_has k store root
root_has-append_child k p j store none = refl
root_has-append_child k p j store (some r) =
    ap (λ hs. is_hash k (get_elem? hs r)) (in_hashes-append_child p j store)

pub get_elem?-append :
    {A : Type 0} (l m : List A) (i : ℕ) (x : A)
    → get_elem? l i ≡ some x
    → get_elem? (l ++ m) i ≡ some x
get_elem?-append [] m i x h = absurd (ground arith)
get_elem?-append (y ∷ l) m zero x h = h
get_elem?-append (y ∷ l) m (suc i) x h = get_elem?-append l m i x h

pub get_elem?-last : {A : Type 0} (l : List A) (x : A) → get_elem? (l ++ x ∷ []) (length l) ≡ some x
get_elem?-last [] x = refl
get_elem?-last (y ∷ l) x = get_elem?-last l x

pub length-map : {A B : Type 0} (f : A → B) (l : List A) → length (map f l) ≡ length l
length-map f [] = refl
length-map f (x ∷ l) = ap suc (length-map f l)

pub map-snoc :
    {A B : Type 0} (f : A → B) (l : List A) (x : A) → map f (l ++ x ∷ []) ≡ map f l ++ f x ∷ []
map-snoc f [] x = refl
map-snoc f (y ∷ l) x = ap (◌∷◌ (f y)) (map-snoc f l x)

abbrev pub points_to : String → GoMap ℕ → ℕ
points_to k nodes = elim (lookup k nodes) [ none ↦ 0 | some p ↦ 1 ]

pub root_has-append :
    (k : String) (store : List TraceNode) (n : TraceNode) (root : Option ℕ)
    → ((r : ℕ) → root ≡ some r → (h : String) × (get_elem? (in_hashes store) r ≡ some h))
    → root_has k (store ++ n ∷ []) root ≡ root_has k store root
root_has-append k store n none rooted = refl
root_has-append k store n (some r) rooted =
    let (h, e) = rooted r refl in
    ap (is_hash k) (
      ap (λ hs. get_elem? hs r) (in_hashes-append store n)
      ∙ get_elem?-append (in_hashes store) (n.in_msg_hash ∷ []) r h e
      ∙ sym e)

pub points_to-some :
    (k : String) (p : ℕ) (nodes : GoMap ℕ) → lookup k nodes ≡ some p → points_to k nodes ≡ 1
points_to-some k p nodes e = rw (e, points_to) refl

pub points_to-insert :
    (k h : String) (node : ℕ) (nodes : GoMap ℕ)
    → points_to k (insert h node nodes) ≤ points_to k nodes + (if str_eq h k then 1 else 0)
points_to-insert k h node nodes = elim (Bool-cases (str_eq h k)) [
  | inl e ↦ ground (arith, lookup-insert h k node nodes)
  | inr e ↦ ground (arith, lookup-insert h k node nodes)
]

-- Each registered message adds one entry at most.
pub points_to-register :
    (k : String) (out_msgs : List Message) (node : ℕ) (nodes : GoMap ℕ)
    → points_to k (register out_msgs node nodes)
      ≤ points_to k nodes + count k (map (λ (m : Message). m.msg_hash) out_msgs)
unfolding register count
points_to-register k [] node nodes = omega arith
points_to-register k (msg ∷ out_msgs) node nodes = omega (
  arith,
  points_to-register k out_msgs node (insert msg.msg_hash node nodes),
  points_to-insert k msg.msg_hash node nodes,
)

module _ (txs : GoMap Transaction) where
  -- How often a transaction sends a message.
  abbrev pub sent_by : String → String → ℕ
  sent_by tx_hash k = count k (out_hashes (lookup tx_hash txs))

  abbrev pub sent : String → List String → ℕ
  sent k [] = 0
  sent k (tx_hash ∷ order) = sent_by tx_hash k + sent k order

  pub sent-append :
      (k tx_hash : String) (order : List String)
      → sent k (order ++ tx_hash ∷ []) ≡ sent k order + sent_by tx_hash k
  sent-append k tx_hash [] = omega arith
  sent-append k tx_hash (h ∷ order) = omega (arith, sent-append k tx_hash order)

  -- The node of the child has a message that the transaction sends.
  abbrev pub Comes : List String → String → ℕ → Type 0
  Comes received tx_hash child =
      (k : String) × (get_elem? received child ≡ some k) × (0 < sent_by tx_hash k)

  abbrev pub AllCome : List String → List TraceNode → Type 0
  AllCome received store = All (λ n. All (Comes received n.transaction_hash) n.children) store

  pub AllCome-append :
      (received : List String) (k : String) (store : List TraceNode)
      → AllCome received store
      → AllCome (received ++ k ∷ []) store
  AllCome-append received k [] a = tt
  AllCome-append received k (n ∷ store) a = (
    All-imp _ _ n.children (λ i c. (c.0, get_elem?-append received (k ∷ []) i c.0 c.1, c.2)) a.0,
    AllCome-append received k store a.1,
  )

  pub AllCome-append_child :
      (received : List String) (p child : ℕ) (tx_hash : String) (store : List TraceNode)
      → get_elem? (hashes store) p ≡ some tx_hash
      → Comes received tx_hash child
      → AllCome received store
      → AllCome received (append_child p child store)
  unfolding append_child
  AllCome-append_child received p child tx_hash [] e c a = tt
  AllCome-append_child received zero child tx_hash (n ∷ store) e c a =
      let same : n.transaction_hash ≡ tx_hash = cc e in
      (All-append _ n.children (child ∷ []) a.0 (rw same c, tt), a.1)
  AllCome-append_child received (suc p) child tx_hash (n ∷ store) e c a =
      (a.0, AllCome-append_child received p child tx_hash store e c a.1)

  -- What the map of messages points to.
  abbrev pub PointsToSender : List String → GoMap ℕ → Type 0
  PointsToSender order nodes =
      (k : String) (p : ℕ)
      → lookup k nodes ≡ some p
      → (tx_hash : String) × (get_elem? order p ≡ some tx_hash) × (0 < sent_by tx_hash k)

  pub register-PointsToSender :
      (order : List String) (tx_hash : String) (node : ℕ) (out_msgs : List Message)
      (nodes : GoMap ℕ)
      → get_elem? order node ≡ some tx_hash
      → ((k : String)
          → 0 < count k (map (λ (m : Message). m.msg_hash) out_msgs)
          → 0 < sent_by tx_hash k)
      → PointsToSender order nodes
      → PointsToSender order (register out_msgs node nodes)
  unfolding register count
  register-PointsToSender order tx_hash node [] nodes e all h = h
  register-PointsToSender order tx_hash node (msg ∷ out_msgs) nodes e all h =
      register-PointsToSender order tx_hash node out_msgs _ e (λ k c. all k (omega (arith, c)))
        λ k p q. elim (Bool-cases (str_eq msg.msg_hash k)) [
          | inl b ↦
              let same : node ≡ p =
                cc (rw b at (sym (lookup-insert msg.msg_hash k node nodes) ∙ q)) in
              (tx_hash, rw (← same) e, all k (rw b (omega arith)))
          | inr b ↦ h k p (rw b at (sym (lookup-insert msg.msg_hash k node nodes) ∙ q))
        ]
