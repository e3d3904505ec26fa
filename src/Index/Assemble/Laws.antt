-- ===== src/Index/Assemble/Laws.antt =====
-- AssembleTraceTxsFromMap of ton-index-go/index/crud.go: where the nodes stand.
use ton_indexer.Prelude.{
  ℕ, zero, suc, ◌+◌, ◌<◌, ◌≡◌, refl, ap, ◌∙◌, String, false, Option, none, some, List, [], ◌∷◌,
  ◌++◌, map, append_assoc, append-nil, length, length-append, All, Yields, yields, Yields-at,
  if◌then◌else◌, ltb, ◌==◌, arith, Option-cases, inl, inr,
}
use ton_indexer.Prelude.GoMap.{GoMap, lookup, delete, lookup-insert, lookup-delete}
use ton_indexer.Index.Assemble.{
  Message, Transaction, TraceNode, Assembly, start_assembly, register, append_child, in_hash,
  take_root, link, place, place_all,
}

-- How often a place stands in a list.
unfoldable pub occurrences : ℕ → List ℕ → ℕ
occurrences i [] = 0
occurrences i (j ∷ js) = (if j == i then 1 else 0) + occurrences i js

-- How often a node is a child.
unfoldable pub parents : ℕ → List TraceNode → ℕ
parents i [] = 0
parents i (n ∷ store) = occurrences i n.children + parents i store

abbrev pub as_root : ℕ → Option ℕ → ℕ
as_root i none = 0
as_root i (some j) = if j == i then 1 else 0

abbrev pub hashes : List TraceNode → List String
hashes store = map (λ n. n.transaction_hash) store

occurrences-append :
    (i j : ℕ) (js : List ℕ)
    → occurrences i (js ++ j ∷ []) ≡ occurrences i js + (if j == i then 1 else 0)
unfolding occurrences
occurrences-append i j [] = omega arith
occurrences-append i j (k ∷ js) = omega (arith, occurrences-append i j js)

parents-append :
    (i : ℕ) (h k : String) (store : List TraceNode)
    → parents i (store ++ record { transaction_hash = h; in_msg_hash = k; children = [] } ∷ [])
      ≡ parents i store
unfolding parents occurrences
parents-append i h k [] = refl
parents-append i h k (n ∷ store) = ap (◌+◌ (occurrences i n.children)) (parents-append i h k store)

parents-append_child :
    (i p j : ℕ) (store : List TraceNode)
    → p < length store
    → parents i (append_child p j store) ≡ parents i store + (if j == i then 1 else 0)
unfolding parents append_child
parents-append_child i p j [] h = absurd (omega arith)
parents-append_child i zero j (n ∷ store) h = omega (arith, occurrences-append i j n.children)
parents-append_child i (suc p) j (n ∷ store) h =
    omega (arith, parents-append_child i p j store (omega arith))

length-append_child :
    (p j : ℕ) (store : List TraceNode) → length (append_child p j store) ≡ length store
unfolding append_child
length-append_child p j [] = refl
length-append_child zero j (n ∷ store) = refl
length-append_child (suc p) j (n ∷ store) = ap suc (length-append_child p j store)

pub hashes-append_child :
    (p j : ℕ) (store : List TraceNode) → hashes (append_child p j store) ≡ hashes store
unfolding append_child
hashes-append_child p j [] = refl
hashes-append_child zero j (n ∷ store) = refl
hashes-append_child (suc p) j (n ∷ store) =
    ap (◌∷◌ n.transaction_hash) (hashes-append_child p j store)

pub hashes-append :
    (store : List TraceNode) (n : TraceNode)
    → hashes (store ++ n ∷ []) ≡ hashes store ++ n.transaction_hash ∷ []
hashes-append [] n = refl
hashes-append (x ∷ store) n = ap (◌∷◌ x.transaction_hash) (hashes-append store n)

-- The nodes that the map points to are there.
abbrev PointsBelow : ℕ → GoMap ℕ → Type 0
PointsBelow size nodes = (k : String) (p : ℕ) → lookup k nodes ≡ some p → p < size

register-PointsBelow :
    (out_msgs : List Message) (node : ℕ) (nodes : GoMap ℕ)
    → PointsBelow (suc node) nodes
    → PointsBelow (suc node) (register out_msgs node nodes)
unfolding register
register-PointsBelow [] node nodes h = h
register-PointsBelow (msg ∷ out_msgs) node nodes h =
    register-PointsBelow out_msgs node _
      λ k p e. ground (arith, lookup-insert msg.msg_hash k node nodes, h k p, e)

-- Unless there was a warning, each node is the root or the child of one node, and not both.
pub record Places (order : List String) (s : Assembly) : Type 0 where
  pub all : hashes s.store ≡ order
  pub below : PointsBelow (length s.store) s.nodes
  pub once :
      s.warning ≡ false
      → (i : ℕ) → parents i s.store + as_root i s.root ≡ (if ltb i (length s.store) then 1 else 0)

-- The same when the last node is made and not linked.
record AlmostPlaces (order : List String) (node : ℕ) (s : Assembly) : Type 0 where
  all : hashes s.store ≡ order
  size : length s.store ≡ suc node
  below : PointsBelow (suc node) s.nodes
  once :
      s.warning ≡ false
      → (i : ℕ) → parents i s.store + as_root i s.root ≡ (if ltb i node then 1 else 0)

take_root-Places :
    (order : List String) (root : Option ℕ) (node : ℕ) (s : Assembly)
    → s.root ≡ root
    → AlmostPlaces order node s
    → Places order (take_root root node s)
unfolding take_root
take_root-Places order none node s e h = record {
  all = h.all;
  below = λ k p q. ground (arith, h.size, h.below k p q);
  once = λ quiet i. ground (arith, h.size, ap (as_root i) e, h.once quiet i);
}
take_root-Places order (some root) node s e h = record {
  all = h.all;
  below = λ k p q. ground (arith, h.size, h.below k p q);
  once = λ quiet i. absurd (ground (arith, quiet));
}

delete-PointsBelow :
    (k : String) (size : ℕ) (nodes : GoMap ℕ)
    → PointsBelow size nodes
    → PointsBelow size (delete k nodes)
delete-PointsBelow k size nodes h = λ j p e. ground (arith, lookup-delete k j nodes, h j p, e)

link-Places :
    (order : List String) (k : String) (node : ℕ) (s : Assembly)
    → AlmostPlaces order node s
    → Places order (link k node s)
unfolding link
link-Places order k node s h = elim (Option-cases (lookup k s.nodes)) [
  | inl n ↦ rw (n, link) (take_root-Places order s.root node s refl h)
  | inr (parent, e) ↦
      let inside : parent < length s.store = omega (arith, h.size, h.below k parent e) in
      rw (e, link)
        (record {
          all = hashes-append_child parent node s.store ∙ h.all;
          below = λ j p q. omega (
            arith,
            h.size,
            length-append_child parent node s.store,
            delete-PointsBelow k (suc node) s.nodes h.below j p q,
          );
          once = λ quiet i. ground (
            arith,
            h.size,
            length-append_child parent node s.store,
            parents-append_child i parent node s.store inside,
            h.once quiet i,
          );
        })
]

pub place-Places :
    (order : List String) (tx_hash : String) (tx : Transaction) (s : Assembly)
    → Places order s
    → Places (order ++ tx_hash ∷ []) (place tx_hash tx s)
unfolding place
place-Places order tx_hash tx s h =
    link-Places (order ++ tx_hash ∷ []) (in_hash tx) (length s.store) _ (record {
      all = hashes-append s.store _ ∙ ap (λ hs. hs ++ tx_hash ∷ []) h.all;
      size = omega (
        arith,
        length-append s.store
            (record { transaction_hash = tx_hash; in_msg_hash = in_hash tx; children = [] } ∷ []),
      );
      below =
          register-PointsBelow tx.out_msgs (length s.store) s.nodes
            λ k p e. omega (arith, h.below k p e);
      once = λ quiet i.
          ap (λ x. x + as_root i s.root) (parents-append i tx_hash (in_hash tx) s.store)
          ∙ h.once quiet i;
    })

-- The map has each of the hashes.
abbrev pub HasAll : List String → GoMap Transaction → Type 0
HasAll tx_order txs = All (λ h. (tx : Transaction) × (lookup h txs ≡ some tx)) tx_order

-- What each transaction keeps holds at the end.
pub place_all-keeps :
    {P : List String → Assembly → Type 0} (txs : GoMap Transaction)
    → ((order : List String) (tx_hash : String) (tx : Transaction) (s : Assembly)
        → lookup tx_hash txs ≡ some tx
        → P order s
        → P (order ++ tx_hash ∷ []) (place tx_hash tx s))
    → (tx_order done : List String) (s : Assembly) → HasAll tx_order txs
    → P done s
    → Yields (P (done ++ tx_order)) (place_all tx_order txs s)
unfolding place_all
place_all-keeps txs step [] done s has h = rw (append-nil done) (yields h)
place_all-keeps txs step (tx_hash ∷ tx_order) done s has h =
    let (tx, e) = has.0 in
    Yields-at _ e (
      rw (append_assoc done (tx_hash ∷ []) tx_order) at (
        place_all-keeps txs step tx_order (done ++ tx_hash ∷ []) _ has.1
          (step done tx_hash tx s e h)))

pub start-Places : Places [] start_assembly
unfolding parents lookup
start-Places = record {
  all = refl;
  below = λ k p e. absurd (ground (arith, e));
  once = λ quiet i. ground arith;
}
