-- ===== src/Index/Balances/Shape.antt =====
-- The next nodes in the store of nodes in ton-index-go/index/balances.go, as the store grows.
use ton_indexer.Prelude.{
  ℕ, zero, suc, ◌≡◌, ◌≢◌, refl, ap, ◌∙◌, List, [], ◌∷◌, ◌++◌, length, All, arith,
}
use ton_indexer.Index.Balances.Nodes.{Node, update_node, add_next_node}
use ton_indexer.Index.Balances.Walk.{total_weight}
use ton_indexer.Index.Balances.Conserved.{ZeroNode, next_of}

-- A change of a node that leaves its next nodes and its changes alone.
module _ (f : Node → Node) where
  length-update : (n : ℕ) (store : List Node) → length (update_node n f store) ≡ length store
  unfolding update_node
  length-update n [] = refl
  length-update zero (node ∷ store) = refl
  length-update (suc n) (node ∷ store) = ap suc (length-update n store)

  ZeroNode-update :
      (n : ℕ) (store : List Node)
      → ((node : Node) → ZeroNode node → ZeroNode (f node))
      → All ZeroNode store
      → All ZeroNode (update_node n f store)
  unfolding update_node
  ZeroNode-update n [] h a = tt
  ZeroNode-update zero (node ∷ store) h a = (h node a.0, a.1)
  ZeroNode-update (suc n) (node ∷ store) h a = (a.0, ZeroNode-update n store h a.1)

  -- Another node is the same.
  next_of-other :
      (n k : ℕ) (store : List Node) → k ≢ n → next_of k (update_node n f store) ≡ next_of k store
  unfolding update_node
  next_of-other n k [] h = refl
  next_of-other zero zero (node ∷ store) h = absurd (h refl)
  next_of-other zero (suc k) (node ∷ store) h = refl
  next_of-other (suc n) zero (node ∷ store) h = refl
  next_of-other (suc n) (suc k) (node ∷ store) h = next_of-other n k store (λ e. h (ap suc e))

  next_of-same :
      (n k : ℕ) (store : List Node)
      → ((node : Node) → (f node).next_nodes ≡ node.next_nodes)
      → next_of k (update_node n f store) ≡ next_of k store
  unfolding update_node
  next_of-same n k [] h = refl
  next_of-same zero zero (node ∷ store) h = h node
  next_of-same zero (suc k) (node ∷ store) h = refl
  next_of-same (suc n) zero (node ∷ store) h = refl
  next_of-same (suc n) (suc k) (node ∷ store) h = next_of-same n k store h

  next_of-All :
      (Q : ℕ → Type 0) (n k : ℕ) (store : List Node)
      → ((node : Node) → All Q node.next_nodes → All Q (f node).next_nodes)
      → All Q (next_of k store)
      → All Q (next_of k (update_node n f store))
  unfolding update_node
  next_of-All Q n k [] h a = a
  next_of-All Q zero zero (node ∷ store) h a = h node a
  next_of-All Q zero (suc k) (node ∷ store) h a = a
  next_of-All Q (suc n) zero (node ∷ store) h a = a
  next_of-All Q (suc n) (suc k) (node ∷ store) h a = next_of-All Q n k store h a

All-snoc : (Q : ℕ → Type 0) (l : List ℕ) (c : ℕ) → All Q l → Q c → All Q (l ++ c ∷ [])
All-snoc Q [] c a q = (q, tt)
All-snoc Q (x ∷ l) c a q = (a.0, All-snoc Q l c a.1 q)

module _ (n child : ℕ) (store : List Node) where
  pub length-add_next_node : length (add_next_node n child store) ≡ length store
  unfolding add_next_node
  length-add_next_node = length-update _ child (update_node n _ store) ∙ length-update _ n store

  pub ZeroNode-add_next_node : All ZeroNode store → All ZeroNode (add_next_node n child store)
  unfolding add_next_node
  ZeroNode-add_next_node a =
      ZeroNode-update _ child _ (λ node z. z) (ZeroNode-update _ n store (λ node z. z) a)

  pub next_of-add_next_node :
      (k : ℕ) → k ≢ n → next_of k (add_next_node n child store) ≡ next_of k store
  unfolding add_next_node
  next_of-add_next_node k h = next_of-same _ child k _ (λ node. refl) ∙ next_of-other _ n k store h

  pub All-add_next_node :
      (Q : ℕ → Type 0) (k : ℕ)
      → Q child
      → All Q (next_of k store)
      → All Q (next_of k (add_next_node n child store))
  unfolding add_next_node
  All-add_next_node Q k q a =
      next_of-All _ Q child k _ (λ node b. b)
        (next_of-All _ Q n k store (λ node b. All-snoc Q node.next_nodes child b q) a)

-- A new node has no next nodes.
pub next_of-append :
    (k : ℕ) (store : List Node) (node : Node)
    → node.next_nodes ≡ []
    → next_of k (store ++ node ∷ []) ≡ next_of k store
next_of-append zero [] node h = h
next_of-append (suc k) [] node h = refl
next_of-append zero (x ∷ store) node h = refl
next_of-append (suc k) (x ∷ store) node h = next_of-append k store node h

pub ZeroNode-append :
    (store : List Node) (node : Node)
    → All ZeroNode store
    → ZeroNode node
    → All ZeroNode (store ++ node ∷ [])
ZeroNode-append [] node a z = (z, tt)
ZeroNode-append (x ∷ store) node a z = (a.0, ZeroNode-append store node a.1 z)

-- The weight of a node that is not in a list does not count there.
pub total_weight-change :
    (w : ℕ → ℕ) (v : ℕ → ℕ) (p : ℕ) (l : List ℕ)
    → ((n : ℕ) → n ≢ p → v n ≡ w n)
    → All (λ c. c ≢ p) l
    → total_weight v l ≡ total_weight w l
total_weight-change w v p [] h a = refl
total_weight-change w v p (c ∷ l) h a = omega (arith, h c a.0, total_weight-change w v p l h a.1)
