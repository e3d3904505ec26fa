-- ===== src/Index/Assemble/Tracked.antt =====
-- AssembleTraceTxsFromMap of ton-index-go/index/crud.go: which node is whose child.
use ton_indexer.Prelude.{
  ℕ, ◌+◌, ◌≤◌, ◌≡◌, refl, ap, sym, ◌∙◌, String, false, Option, none, some, List, [], ◌∷◌, ◌++◌, map,
  length, get_elem?, All-append, if◌then◌else◌, str_eq, eq_iff, count, count-append,
  count-singleton, arith, Option-cases, Bool-cases, inl, inr,
}
use ton_indexer.Prelude.GoMap.{GoMap, lookup, delete, lookup-delete}
use ton_indexer.Index.Assemble.{Transaction, TraceNode, Assembly, in_hash, take_root, link, place}
use ton_indexer.Index.Assemble.Laws.{hashes, hashes-append, hashes-append_child}
use ton_indexer.Index.Assemble.Linked.{
  in_hashes, in_hashes-append_child, in_hashes-append, out_hashes, received_by, root_has,
  root_has-append_child, get_elem?-append, root_has-append, get_elem?-last, length-map, map-snoc,
  points_to, points_to-some, points_to-register, sent_by, sent, sent-append, AllCome,
  AllCome-append, AllCome-append_child, PointsToSender, register-PointsToSender,
}

module _ (txs : GoMap Transaction) where
  -- The nodes have the messages of their transactions, and a child is below the transaction that
  -- sent its message. Unless there was a warning, no more nodes than the root and one for each time
  -- that it was sent have a message.
  pub record Follows (order : List String) (s : Assembly) : Type 0 where
    pub received : in_hashes s.store ≡ map (λ h. received_by (lookup h txs)) order
    pub from_sender : AllCome txs (in_hashes s.store) s.store
    pub sent_once :
        s.warning ≡ false
        → (k : String) → count k (in_hashes s.store) ≤ sent txs k order + root_has k s.store s.root

  -- The same between two transactions, with what the map of messages points to.
  pub record Tracks (order : List String) (s : Assembly) : Type 0 where
    pub received : in_hashes s.store ≡ map (λ h. received_by (lookup h txs)) order
    pub from_sender : AllCome txs (in_hashes s.store) s.store
    pub points : PointsToSender txs (hashes s.store) s.nodes
    pub rooted :
        (r : ℕ) → s.root ≡ some r → (k : String) × (get_elem? (in_hashes s.store) r ≡ some k)
    pub unused :
        s.warning ≡ false
        → (k : String)
        → count k (in_hashes s.store) + points_to k s.nodes
          ≤ sent txs k order + root_has k s.store s.root

  -- And when the last node, with the message `last`, is made and not linked.
  pub record Waits (order : List String) (last : String) (node : ℕ) (s : Assembly) : Type 0 where
    pub received : in_hashes s.store ≡ map (λ h. received_by (lookup h txs)) order
    pub from_sender : AllCome txs (in_hashes s.store) s.store
    pub points : PointsToSender txs (hashes s.store) s.nodes
    pub rooted :
        (r : ℕ) → s.root ≡ some r → (k : String) × (get_elem? (in_hashes s.store) r ≡ some k)
    pub at_node : get_elem? (in_hashes s.store) node ≡ some last
    pub unused :
        s.warning ≡ false
        → (k : String)
        → count k (in_hashes s.store) + points_to k s.nodes
          ≤ sent txs k order + root_has k s.store s.root + (if str_eq last k then 1 else 0)

  take_root-Tracks :
      (order : List String) (last : String) (root : Option ℕ) (node : ℕ) (s : Assembly)
      → s.root ≡ root
      → Waits order last node s
      → Tracks order (take_root root node s)
  unfolding take_root
  take_root-Tracks order last none node s e w = record {
    received = w.received;
    from_sender = w.from_sender;
    points = w.points;
    rooted = λ r q. let same : node ≡ r = cc q in (last, rw (← same) w.at_node);
    unused = λ quiet k. let u = rw e at (w.unused quiet k) in rw (w.at_node) (omega (arith, u));
  }
  take_root-Tracks order last (some root) node s e w = record {
    received = w.received;
    from_sender = w.from_sender;
    points = w.points;
    rooted = w.rooted;
    unused = λ quiet k. absurd (ground (arith, quiet));
  }

  points_to-delete :
      (k h : String) (nodes : GoMap ℕ)
      → points_to k (delete h nodes) ≡ (if str_eq h k then 0 else points_to k nodes)
  points_to-delete k h nodes = ground (arith, lookup-delete h k nodes)

  link-Tracks :
      (order : List String) (last : String) (node : ℕ) (s : Assembly)
      → Waits order last node s
      → Tracks order (link last node s)
  unfolding link
  link-Tracks order last node s w = elim (Option-cases (lookup last s.nodes)) [
    | inl n ↦ rw (n, link) (take_root-Tracks order last s.root node s refl w)
    | inr (parent, e) ↦
        let same = in_hashes-append_child parent node s.store in
        let (sender, at_parent, sends) = w.points last parent e in
        rw (e, link)
          (record {
            received = same ∙ w.received;
            from_sender = rw same (
                AllCome-append_child txs (in_hashes s.store) parent node sender s.store at_parent
                  (last, w.at_node, sends) w.from_sender);
            points = λ k p q.
                rw (hashes-append_child parent node s.store)
                  (w.points k p (ground (arith, q, lookup-delete last k s.nodes)));
            rooted = λ r q. rw same (w.rooted r q);
            unused = λ quiet k.
                let u = w.unused quiet k in
                let deleted = points_to-delete k last s.nodes in
                let root = root_has-append_child k parent node s.store s.root in
                rw same (elim (Bool-cases (str_eq last k)) [
                  | inl b ↦
                      let d = rw b at deleted in
                      let v = rw b at u in
                      let there : points_to k s.nodes ≡ 1 =
                        points_to-some k parent s.nodes
                          (ap (λ j. lookup j s.nodes) (sym ((eq_iff last k).0 b)) ∙ e) in
                      omega (arith, d, v, root, there)
                  | inr b ↦
                      let d = rw b at deleted in let v = rw b at u in omega (arith, d, v, root)
                ]);
          })
  ]

  pub place-Tracks :
      (order : List String) (tx_hash : String) (tx : Transaction) (s : Assembly)
      → lookup tx_hash txs ≡ some tx
      → hashes s.store ≡ order
      → Tracks order s
      → Tracks (order ++ tx_hash ∷ []) (place tx_hash tx s)
  unfolding place
  place-Tracks order tx_hash tx s e all t =
      let node = length s.store in
      let last = in_hash tx in
      let made : TraceNode = record {
        transaction_hash = tx_hash;
        in_msg_hash = last;
        children = [];
      } in
      let longer = in_hashes-append s.store made in
      let named = hashes-append s.store made in
      let at_node : get_elem? (in_hashes (s.store ++ made ∷ [])) node ≡ some last =
        rw (longer, ← length-map (λ (n : TraceNode). n.in_msg_hash) s.store)
          (get_elem?-last (in_hashes s.store) last) in
      let at_hash : get_elem? (hashes (s.store ++ made ∷ [])) node ≡ some tx_hash =
        rw (named, ← length-map (λ (n : TraceNode). n.transaction_hash) s.store)
          (get_elem?-last (hashes s.store) tx_hash) in
      link-Tracks (order ++ tx_hash ∷ []) last node _ (record {
        received =
            longer
            ∙ ap (λ hs. hs ++ last ∷ []) t.received
            ∙ sym (
                map-snoc (λ h. received_by (lookup h txs)) order tx_hash
                ∙ ap (λ o. map (λ h. received_by (lookup h txs)) order ++ received_by o ∷ []) e);
        from_sender = rw longer (
            All-append _ s.store (made ∷ [])
              (AllCome-append txs (in_hashes s.store) last s.store t.from_sender) (tt, tt));
        points =
            register-PointsToSender txs (hashes (s.store ++ made ∷ [])) tx_hash node tx.out_msgs
              s.nodes at_hash (λ k c. rw e c)
              (λ k p q.
                let (h, a, b) = t.points k p q in
                (h, rw named (get_elem?-append (hashes s.store) (tx_hash ∷ []) p h a), b));
        rooted = λ r q.
            let (k, a) = t.rooted r q in
            (k, rw longer (get_elem?-append (in_hashes s.store) (last ∷ []) r k a));
        at_node = at_node;
        unused = λ quiet k.
            let sends : sent_by txs tx_hash k ≡ count k (out_hashes (some tx)) =
              ap (λ o. count k (out_hashes o)) e in
            let counted : count k (in_hashes (s.store ++ made ∷ []))
                ≡ count k (in_hashes s.store) + count k (last ∷ []) =
              ap (count k) longer ∙ count-append k (in_hashes s.store) (last ∷ []) in
            omega (
              arith,
              t.unused quiet k,
              counted,
              count-singleton k last,
              sends,
              sent-append txs k tx_hash order,
              points_to-register k tx.out_msgs node s.nodes,
              root_has-append k s.store made s.root t.rooted,
            );
      })
