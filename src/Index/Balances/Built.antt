-- ===== src/Index/Balances/Built.antt =====
-- The loop over the transactions in CalculateBalanceChanges of ton-index-go/index/balances.go builds a
-- tree with a weight.
use ton_indexer.Prelude.{
  ℕ, suc, ◌<◌, ◌≡◌, ◌≢◌, refl, sym, ◌∙◌, String, true, Option, none, some, List, [], ◌∷◌, ◌++◌,
  length, length-append, All, All-imp, arith, if◌then◌else◌, ◌==◌, ==_iff, str_eq, eq_iff,
  Bool-cases, Option-cases, inl, inr, ◌⊎◌, subst,
}
use ton_indexer.Prelude.GoMap.{GoMap, lookup, insert, lookup-insert, lookup-insert-same}
use ton_indexer.Index.Balances.Messages.{ShortMessage, ShortTransaction}
use ton_indexer.Index.Balances.Nodes.{
  Node, Graph, new_node, note_message, add_out_msgs, note_in_msg, add_tx, add_txs,
}
use ton_indexer.Index.Balances.Walk.{total_weight}
use ton_indexer.Index.Balances.Sums.{IfSome, value, IfSome-bind, IfSome-map}
use ton_indexer.Index.Balances.Conserved.{IsWeight, next_of, no_changes-IsZero}
use ton_indexer.Index.Balances.Shape.{next_of-append, ZeroNode-append, total_weight-change}
use ton_indexer.Index.Balances.Tree.{
  HaveNewHashes, no_messages, new_message, HasOwnMessages, in_hashes, IsTree, IsGrowing,
  note_message-IsGrowing, add_out_msg-IsGrowing,
}

-- A graph with some weight.
abbrev pub HasWeight : Graph → Type 0
HasWeight g = (w : ℕ → ℕ) × IsTree w g

module _ (w : ℕ → ℕ) (t : String) (p : ℕ) where
  Grows : Graph → Type 0
  Grows g = (hashes : List String) × IsGrowing w t p hashes g

  add_out_msgs-Grows :
      (named : t ≢ "") {hashes : List String} {msgs : List ShortMessage} (g : Graph)
      → HaveNewHashes hashes msgs
      → IsGrowing w t p hashes g
      → IfSome Grows (add_out_msgs t p msgs g)
  unfolding add_out_msgs Grows
  add_out_msgs-Grows named g no_messages i = value (_, i)
  add_out_msgs-Grows named g (new_message new rest) i =
      IfSome-bind (add_out_msg-IsGrowing w t p _ g _ named new i)
        (λ after j. add_out_msgs-Grows named after rest j)

  note_in_msg-IsGrowing :
      (o : Option ShortMessage) (g : Graph)
      → IsGrowing w t p [] g
      → IfSome
          (IsGrowing w t p (in_hashes o))
          (elim o [ none ↦ some g | some msg ↦ note_message t msg g ])
  note_in_msg-IsGrowing none g i = value i
  note_in_msg-IsGrowing (some msg) g i = note_message-IsGrowing w t p [] g msg i

  -- The weight of the new transaction is that of its next nodes, and one more.
  grown : List Node → ℕ → ℕ
  grown store n = if n == p then suc (total_weight w (next_of p store)) else w n

  grown-other : (store : List Node) (n : ℕ) → n ≢ p → grown store n ≡ w n
  unfolding grown
  grown-other store n h = ground arith

  grown-weight :
      (store : List Node) (n : ℕ)
      → (n ≢ p → total_weight w (next_of n store) < w n)
      → total_weight w (next_of n store) < grown store n
  unfolding grown
  grown-weight store n h = elim (Bool-cases (n == p)) [
    | inl e ↦ rw e (
        subst (λ k. total_weight w (next_of k store) < suc (total_weight w (next_of p store)))
          (sym ((==_iff n p).0 e)) (omega arith))
    | inr e ↦ rw e (h (λ same. ground arith))
  ]

  grown-IsTree :
      (hashes : List String) (g : Graph) → IsGrowing w t p hashes g → IsTree (grown g.store) g
  unfolding IsWeight
  grown-IsTree hashes g i = record {
    weight = λ n.
        rw
          (total_weight-change w (grown g.store) p (next_of n g.store) (grown-other g.store)
            (i.no_child n))
          (grown-weight g.store n (i.weight n));
    zero_nodes = i.zero_nodes;
    places = i.places;
    next_places = i.next_places;
    known = i.known;
  }

-- The places of the transactions, with one more.
module _ (t : String) (p : ℕ) (nodes : GoMap ℕ) where
  lookup-new :
      (k : String) (c : ℕ)
      → lookup k (insert t p nodes) ≡ some c
      → ((str_eq t k ≡ true) × (p ≡ c)) ⊎ (lookup k nodes ≡ some c)
  lookup-new k c e = elim (Bool-cases (str_eq t k)) [
    | inl b ↦ inl (b, cc (rw b at (sym (lookup-insert t k p nodes) ∙ e)))
    | inr b ↦ inr (rw b at (sym (lookup-insert t k p nodes) ∙ e))
  ]

  kept-new : (k : String) → lookup k nodes ≢ none → lookup k (insert t p nodes) ≢ none
  kept-new k h e = elim (Bool-cases (str_eq t k)) [
    | inl b ↦ some-ne p (rw b at (sym (lookup-insert t k p nodes) ∙ e))
    | inr b ↦ h (rw b at (sym (lookup-insert t k p nodes) ∙ e))
  ]
    where
      some-ne : (c : ℕ) → some c ≢ none
      some-ne c q = ground arith

present-new : (t : String) (p : ℕ) (nodes : GoMap ℕ) → lookup t (insert t p nodes) ≢ none
present-new t p nodes e = ground (arith, lookup-insert-same t p nodes)

new_tx-IsGrowing :
    (w : ℕ → ℕ) (tx : ShortTransaction) (g : Graph)
    → lookup tx.hash g.nodes ≡ none
    → IsTree w g
    → IsGrowing w tx.hash (length g.store) [] (record g {
      store = g.store ++ new_node tx.hash tx.in_msg ∷ [];
      nodes = insert tx.hash (length g.store) g.nodes;
    })
unfolding IsWeight
new_tx-IsGrowing w tx g absent i =
    let node = new_node tx.hash tx.in_msg in
    let longer = length-append g.store (node ∷ []) in
    record {
      weight = λ n h. rw (next_of-append n g.store node refl) (i.weight n);
      zero_nodes = ZeroNode-append g.store node i.zero_nodes no_changes-IsZero;
      places = λ k c e. elim (lookup-new tx.hash (length g.store) g.nodes k c e) [
        | inl (b, same) ↦ omega (arith, longer, same)
        | inr old ↦ omega (arith, longer, i.places k c old)
      ];
      next_places = λ n. rw (next_of-append n g.store node refl) (
          All-imp (λ c. c < length g.store) (λ c. c < length (g.store ++ node ∷ []))
            (next_of n g.store) (λ c h. omega (arith, longer, h)) (i.next_places n));
      known = λ hash k e. kept-new tx.hash (length g.store) g.nodes k (i.known hash k e);
      in_store = omega (arith, longer);
      only = λ k e. elim (lookup-new tx.hash (length g.store) g.nodes k _ e) [
        | inl (b, same) ↦ sym ((eq_iff tx.hash k).0 b)
        | inr old ↦ absurd (omega (arith, i.places k _ old))
      ];
      present = λ e. present-new tx.hash (length g.store) g.nodes e;
      noted = λ hash e. absurd (i.known hash tx.hash e absent);
      no_child = λ n. rw (next_of-append n g.store node refl) (
          All-imp (λ c. c < length g.store) (λ c. c ≢ length g.store) (next_of n g.store)
            (λ c h same. omega (arith, h, same)) (i.next_places n));
    }

add_tx-HasWeight :
    (tx : ShortTransaction) (g : Graph)
    → HasOwnMessages tx
    → HasWeight g
    → IfSome HasWeight (add_tx tx g)
unfolding add_tx note_in_msg Grows
add_tx-HasWeight tx g own (w, i) = elim (Option-cases (lookup tx.hash g.nodes)) [
  | inr (n, e) ↦ rw (e, add_tx) (value (w, i))
  | inl e ↦
      rw (e, add_tx)
        (IfSome-bind
          (note_in_msg-IsGrowing w tx.hash (length g.store) tx.in_msg _
            (new_tx-IsGrowing w tx g e i))
          (λ noted j.
            IfSome-map (add_out_msgs-Grows w tx.hash (length g.store) own.named noted own.own j)
              (λ after k. (
                grown w tx.hash (length g.store) after.store,
                grown-IsTree w tx.hash (length g.store) k.0 after k.1,
              ))))
]

pub add_txs-HasWeight :
    (txs : List ShortTransaction) (g : Graph)
    → All HasOwnMessages txs
    → HasWeight g
    → IfSome HasWeight (add_txs txs g)
unfolding add_txs
add_txs-HasWeight [] g own h = value h
add_txs-HasWeight (tx ∷ txs) g own h =
    IfSome-bind (add_tx-HasWeight tx g own.0 h) (λ after k. add_txs-HasWeight txs after own.1 k)
