-- ===== src/Index/Balances/Tree.antt =====
-- The tree of messages that CalculateBalanceChanges of ton-index-go/index/balances.go builds has a
-- weight that decreases from a node to its next nodes, so that the walks over it end.
use ton_indexer.Prelude.{
  ℕ, ◌<◌, ◌≡◌, ◌≢◌, refl, sym, ap, ◌∙◌, subst, String, true, false, Option, none, some, List, [],
  ◌∷◌, ◌++◌, length, length-append, contains, All, All-imp, arith, str_eq, Bool-cases, Option-cases,
  inl, inr,
}
use ton_indexer.Prelude.GoMap.{lookup, insert, lookup-insert}
use ton_indexer.Index.Balances.Messages.{ShortMessage, ShortTransaction}
use ton_indexer.Index.Balances.Nodes.{
  Graph, new_node, add_next_node, note_message, text_or_empty, add_out_msg,
}
use ton_indexer.Index.Balances.Walk.{total_weight}
use ton_indexer.Index.Balances.Sums.{IfSome, value, no_value, IfSome-option, IfSome-known}
use ton_indexer.Index.Balances.Conserved.{ZeroNode, IsWeight, next_of, no_changes-IsZero}
use ton_indexer.Index.Balances.Shape.{
  length-add_next_node, ZeroNode-add_next_node, next_of-add_next_node, All-add_next_node,
  next_of-append, ZeroNode-append,
}

-- The hash of a message, before those of others.
abbrev pub and_hash : ShortMessage → List String → List String
and_hash msg hashes = elim msg.hash [ none ↦ hashes | some hash ↦ hash ∷ hashes ]

-- The messages have other hashes than those, and than each other.
pub data HaveNewHashes : List String → List ShortMessage → Type 0 where
  no_messages : {hashes : List String} → HaveNewHashes hashes []
  new_message :
      {hashes : List String} {msg : ShortMessage} {msgs : List ShortMessage}
      → ((hash : String) → msg.hash ≡ some hash → contains hashes hash ≡ false)
      → HaveNewHashes (and_hash msg hashes) msgs
      → HaveNewHashes hashes (msg ∷ msgs)

abbrev pub in_hashes : Option ShortMessage → List String
in_hashes none = []
in_hashes (some msg) = and_hash msg []

-- A transaction with a hash, whose messages have a hash each.
pub record HasOwnMessages (tx : ShortTransaction) : Type 0 where
  pub named : tx.hash ≢ ""
  pub own : HaveNewHashes (in_hashes tx.in_msg) tx.out_msgs

-- A graph between two transactions.
pub record IsTree (w : ℕ → ℕ) (g : Graph) : Type 0 where
  pub weight : IsWeight w g.store
  pub zero_nodes : All ZeroNode g.store
  pub places : (k : String) (c : ℕ) → lookup k g.nodes ≡ some c → c < length g.store
  pub next_places : (n : ℕ) → All (λ c. c < length g.store) (next_of n g.store)
  pub known : (hash k : String) → lookup hash g.msg_tx_map ≡ some k → lookup k g.nodes ≢ none

-- A graph while the transaction t stands at the place p and its messages are added.
pub record IsGrowing (w : ℕ → ℕ) (t : String) (p : ℕ) (hashes : List String) (g : Graph)
    : Type 0 where
  pub weight : (n : ℕ) → n ≢ p → total_weight w (next_of n g.store) < w n
  pub zero_nodes : All ZeroNode g.store
  pub places : (k : String) (c : ℕ) → lookup k g.nodes ≡ some c → c < length g.store
  pub next_places : (n : ℕ) → All (λ c. c < length g.store) (next_of n g.store)
  pub known : (hash k : String) → lookup hash g.msg_tx_map ≡ some k → lookup k g.nodes ≢ none
  pub in_store : p < length g.store
  pub only : (k : String) → lookup k g.nodes ≡ some p → k ≡ t
  pub present : lookup t g.nodes ≢ none
  pub noted : (hash : String) → lookup hash g.msg_tx_map ≡ some t → contains hashes hash ≡ true
  pub no_child : (n : ℕ) → All (λ c. c ≢ p) (next_of n g.store)

module _ (w : ℕ → ℕ) (t : String) (p : ℕ) where
  -- A next node that is another node.
  linked-IsGrowing :
      (hashes : List String) (g : Graph) (child : ℕ)
      → child ≢ p
      → child < length g.store
      → IsGrowing w t p hashes g
      → IsGrowing w t p hashes (record g { store = add_next_node p child g.store })
  linked-IsGrowing hashes g child other inside i =
      let same = length-add_next_node p child g.store in
      record {
        weight = λ n h. rw (next_of-add_next_node p child g.store n h) (i.weight n h);
        zero_nodes = ZeroNode-add_next_node p child g.store i.zero_nodes;
        places = λ k c e. rw same (i.places k c e);
        next_places = λ n. rw same (
            All-add_next_node p child g.store (λ c. c < length g.store) n inside (i.next_places n));
        known = i.known;
        in_store = rw same i.in_store;
        only = i.only;
        present = i.present;
        noted = i.noted;
        no_child = λ n. All-add_next_node p child g.store (λ c. c ≢ p) n other (i.no_child n);
      }

  appended-IsGrowing :
      (hashes : List String) (g : Graph) (msg : Option ShortMessage)
      → IsGrowing w t p hashes g
      → IsGrowing w t p hashes (record g { store = g.store ++ new_node t msg ∷ [] })
  appended-IsGrowing hashes g msg i =
      let longer = length-append g.store (new_node t msg ∷ []) in
      record {
        weight = λ n h. rw (next_of-append n g.store (new_node t msg) refl) (i.weight n h);
        zero_nodes = ZeroNode-append g.store (new_node t msg) i.zero_nodes no_changes-IsZero;
        places = λ k c e. omega (arith, longer, i.places k c e);
        next_places = λ n. rw (next_of-append n g.store (new_node t msg) refl) (
            All-imp (λ c. c < length g.store) (λ c. c < length (g.store ++ new_node t msg ∷ []))
              (next_of n g.store) (λ c h. omega (arith, longer, h)) (i.next_places n));
        known = i.known;
        in_store = omega (arith, longer, i.in_store);
        only = i.only;
        present = i.present;
        noted = i.noted;
        no_child = λ n. rw (next_of-append n g.store (new_node t msg) refl) (i.no_child n);
      }

  noted-IsGrowing :
      (hashes : List String) (g : Graph) (hash : String)
      → IsGrowing w t p hashes g
      → IsGrowing w t p (hash ∷ hashes) (record g { msg_tx_map = insert hash t g.msg_tx_map })
  unfolding contains
  noted-IsGrowing hashes g hash i = record {
    weight = i.weight;
    zero_nodes = i.zero_nodes;
    places = i.places;
    next_places = i.next_places;
    known = λ h k e. elim (Bool-cases (str_eq hash h)) [
      | inl b ↦
          let same : t ≡ k = cc (rw b at (sym (lookup-insert hash h t g.msg_tx_map) ∙ e)) in
          subst (λ j. lookup j g.nodes ≢ none) same i.present
      | inr b ↦ i.known h k (rw b at (sym (lookup-insert hash h t g.msg_tx_map) ∙ e))
    ];
    in_store = i.in_store;
    only = i.only;
    present = i.present;
    noted = λ h e. elim (Bool-cases (str_eq hash h)) [
      | inl b ↦ rw b refl
      | inr b ↦ rw b (i.noted h (rw b at (sym (lookup-insert hash h t g.msg_tx_map) ∙ e)))
    ];
    no_child = i.no_child;
  }

  pub note_message-IsGrowing :
      (hashes : List String) (g : Graph) (msg : ShortMessage)
      → IsGrowing w t p hashes g
      → IfSome (IsGrowing w t p (and_hash msg hashes)) (note_message t msg g)
  unfolding note_message
  note_message-IsGrowing hashes g msg i = elim (Option-cases msg.hash) [
    | inl e ↦ rw e no_value
    | inr (hash, e) ↦ rw e (value (noted-IsGrowing hashes g hash i))
  ]

  -- More hashes may have been seen.
  contains-and_hash :
      (msg : ShortMessage) (hashes : List String) (k : String)
      → contains hashes k ≡ true
      → contains (and_hash msg hashes) k ≡ true
  unfolding contains
  contains-and_hash msg hashes k h = elim (Option-cases msg.hash) [
    | inl e ↦ rw e h
    | inr (hash, e) ↦ rw e (ground arith)
  ]

  widened-IsGrowing :
      (msg : ShortMessage) (hashes : List String) (g : Graph)
      → IsGrowing w t p hashes g
      → IsGrowing w t p (and_hash msg hashes) g
  widened-IsGrowing msg hashes g i = record {
    weight = i.weight;
    zero_nodes = i.zero_nodes;
    places = i.places;
    next_places = i.next_places;
    known = i.known;
    in_store = i.in_store;
    only = i.only;
    present = i.present;
    noted = λ h e. contains-and_hash msg hashes h (i.noted h e);
    no_child = i.no_child;
  }

  -- A message that is new leads to another node.
  child-ne :
      (hashes : List String) (g : Graph) (hash : String) (child : ℕ)
      → t ≢ ""
      → IsGrowing w t p hashes g
      → contains hashes hash ≡ false
      → lookup (text_or_empty (lookup hash g.msg_tx_map)) g.nodes ≡ some child
      → child ≢ p
  child-ne hashes g hash child named i new e same =
      let found : text_or_empty (lookup hash g.msg_tx_map) ≡ t = i.only _ (e ∙ ap some same) in
      elim (Option-cases (lookup hash g.msg_tx_map)) [
        | inl m ↦ named (sym (rw m at found))
        | inr (k, m) ↦
            let k_is : k ≡ t = rw m at found in ground (arith, i.noted hash (m ∙ ap some k_is))
      ]

  pub add_out_msg-IsGrowing :
      (hashes : List String) (g : Graph) (msg : ShortMessage)
      → t ≢ ""
      → ((hash : String) → msg.hash ≡ some hash → contains hashes hash ≡ false)
      → IsGrowing w t p hashes g
      → IfSome (IsGrowing w t p (and_hash msg hashes)) (add_out_msg t p msg g)
  unfolding add_out_msg
  add_out_msg-IsGrowing hashes g msg named new i =
      let longer = length-append g.store (new_node t (some msg) ∷ []) in
      IfSome-option msg.destination
        (note_message-IsGrowing hashes _ msg (
          linked-IsGrowing hashes _ (length g.store) (omega (arith, i.in_store))
            (omega (arith, longer)) (appended-IsGrowing hashes g (some msg) i)))
        (λ destination. IfSome-known msg.hash (λ hash e.
          IfSome-known (lookup (text_or_empty (lookup hash g.msg_tx_map)) g.nodes) (λ child f.
            value (
              widened-IsGrowing msg hashes _ (
                linked-IsGrowing hashes g child
                  (child-ne hashes g hash child named i (new hash e) f) (i.places _ child f) i)))))
