-- ===== src/Index/Assemble/Explained.antt =====
-- AssembleTraceTxsFromMap of ton-index-go/index/crud.go: what it does, its warning included.
use ton_indexer.Prelude.{
  ℕ, ◌+◌, ◌<◌, ◌≡◌, ◌≢◌, refl, ap, ◌∙◌, String, false, Option, none, some, List, [], ◌∷◌, ◌++◌,
  append_assoc, map, length, Yields, Yields-map, if◌then◌else◌, str_eq, eq_iff, count, count-append,
  count-singleton, arith, Option-cases, Bool-cases, inl, inr, ◌⊎◌, ltb,
}
use ton_indexer.Prelude.GoMap.{GoMap, lookup, insert, delete, lookup-insert, lookup-delete}
use ton_indexer.Index.Assemble.{
  Message, Transaction, TraceNode, Assembly, start_assembly, register, in_hash, take_root, link,
  place, assemble_trace_txs_from_map,
}
use ton_indexer.Index.Assemble.Laws.{Places, HasAll, place-Places, place_all-keeps, start-Places}
use ton_indexer.Index.Assemble.Linked.{
  in_hashes, in_hashes-append, in_hashes-append_child, out_hashes, received_by, points_to, sent_by,
  sent, sent-append,
}
use ton_indexer.Index.Assemble.Tracked.{Follows, Tracks, place-Tracks}

points_to-inserted :
    (k h : String) (node : ℕ) (nodes : GoMap ℕ)
    → points_to k (insert h node nodes) ≡ (if str_eq h k then 1 else points_to k nodes)
points_to-inserted k h node nodes = ground (arith, lookup-insert h k node nodes)

points_to-registered :
    (k : String) (out_msgs : List Message) (node : ℕ) (nodes : GoMap ℕ)
    → 0 < points_to k nodes + count k (map (λ (m : Message). m.msg_hash) out_msgs)
    → 0 < points_to k (register out_msgs node nodes)
unfolding register count
points_to-registered k [] node nodes h = omega (arith, h)
points_to-registered k (msg ∷ out_msgs) node nodes h =
    points_to-registered k out_msgs node (insert msg.msg_hash node nodes)
      (ground (arith, h, points_to-inserted k msg.msg_hash node nodes))

points_to-other :
    (k h : String) (nodes : GoMap ℕ)
    → str_eq h k ≡ false
    → points_to k (delete h nodes) ≡ points_to k nodes
points_to-other k h nodes e = ground (arith, lookup-delete h k nodes, e)

module _ (txs : GoMap Transaction) where
  abbrev pub received : String → String
  received tx_hash = received_by (lookup tx_hash txs)

  -- A transaction, not the first, whose message neither it nor one before it sends, or that one
  -- before it received as well.
  pub record IsBroken (order : List String) : Type 0 where
    pub before : List String
    pub tx_hash : String
    pub later : List String
    pub parts : order ≡ before ++ tx_hash ∷ later
    pub not_first : before ≢ []
    pub reason :
        (sent txs (received tx_hash) (before ++ tx_hash ∷ []) ≡ 0)
        ⊎ (0 < count (received tx_hash) (map received before))

  later-IsBroken : (order : List String) (h : String) → IsBroken order → IsBroken (order ++ h ∷ [])
  later-IsBroken order h b = record {
    before = b.before;
    tx_hash = b.tx_hash;
    later = b.later ++ h ∷ [];
    parts = ap (λ o. o ++ h ∷ []) b.parts ∙ append_assoc b.before (b.tx_hash ∷ b.later) (h ∷ []);
    not_first = b.not_first;
    reason = b.reason;
  }

  -- A message that was sent and that no node has is in the map.
  record Explains (order : List String) (s : Assembly) : Type 0 where
    available :
        (k : String)
        → 0 < sent txs k order
        → count k (in_hashes s.store) ≡ 0
        → 0 < points_to k s.nodes
    explained : (s.warning ≡ false) ⊎ IsBroken order

  link-Explains :
      (order : List String) (last : String) (node : ℕ) (s : Assembly)
      → Explains order s
      → 0 < count last (in_hashes s.store)
      → (lookup last s.nodes ≡ none → (r : ℕ) → s.root ≡ some r → IsBroken order)
      → Explains order (link last node s)
  unfolding link take_root
  link-Explains order last node s x own broken = elim (Option-cases (lookup last s.nodes)) [
    | inl n ↦ rw (n, link) (rooted s.root refl n)
    | inr (parent, e) ↦
        rw (e, link)
          (record {
            available = λ k p q.
                let q' = rw (in_hashes-append_child parent node s.store) at q in
                elim (Bool-cases (str_eq last k)) [
                  | inl b ↦ absurd (let o = rw ((eq_iff last k).0 b) at own in omega (arith, o, q'))
                  | inr b ↦ omega (arith, points_to-other k last s.nodes b, x.available k p q')
                ];
            explained = x.explained;
          })
  ]
    where
      rooted :
          (root : Option ℕ)
          → s.root ≡ root
          → lookup last s.nodes ≡ none
          → Explains order (take_root root node s)
      rooted none e n = record { available = x.available; explained = x.explained }
      rooted (some r) e n = record { available = x.available; explained = inr (broken n r e) }

  place-Explains :
      (order : List String) (tx_hash : String) (tx : Transaction) (s : Assembly)
      → lookup tx_hash txs ≡ some tx
      → Tracks txs order s
      → Explains order s
      → Explains (order ++ tx_hash ∷ []) (place tx_hash tx s)
  unfolding place
  place-Explains order tx_hash tx s e t x =
      let node = length s.store in
      let last = in_hash tx in
      let made : TraceNode = record {
        transaction_hash = tx_hash;
        in_msg_hash = last;
        children = [];
      } in
      let registered = register tx.out_msgs node s.nodes in
      let sends : (k : String) → sent_by txs tx_hash k ≡ count k (out_hashes (some tx)) =
        λ k. ap (λ o. count k (out_hashes o)) e in
      let counted : (k : String)
          → count k (in_hashes (s.store ++ made ∷ []))
            ≡ count k (in_hashes s.store) + (if str_eq last k then 1 else 0) =
        λ k.
          ap (count k) (in_hashes-append s.store made)
          ∙ count-append k (in_hashes s.store) (last ∷ [])
          ∙ ap (λ c. count k (in_hashes s.store) + c) (count-singleton k last) in
      let available : (k : String)
          → 0 < sent txs k (order ++ tx_hash ∷ [])
          → count k (in_hashes s.store) ≡ 0
          → 0 < points_to k registered =
        λ k p q.
          points_to-registered k tx.out_msgs node s.nodes
            (elim (Bool-cases (ltb 0 (sent txs k order))) [
              | inl b ↦ let there = x.available k (ground (arith, b)) q in omega (arith, there)
              | inr b ↦ ground (arith, b, p, sent-append txs k tx_hash order, sends k)
            ]) in
      let same : received tx_hash ≡ last = ap received_by e in
      let before_has : count last (in_hashes s.store) ≡ count last (map received order) =
        ap (count last) t.received in
      link-Explains (order ++ tx_hash ∷ []) last node _
        (record {
          available = λ k p q. available k p (omega (arith, q, counted k));
          explained = (elim x.explained [
            | inl quiet ↦ inl quiet
            | inr b ↦ inr (later-IsBroken order tx_hash b)
          ]);
        })
        (ground (arith, counted last, eq_iff last last))
        (λ n r q. record {
          before = order;
          tx_hash = tx_hash;
          later = [];
          parts = refl;
          not_first = λ empty.
              let (h, a) = t.rooted r q in
              let nothing : in_hashes s.store ≡ [] = t.received ∙ ap (map received) empty in
              let b = rw nothing at a in ground arith;
          reason = rw same (elim (Bool-cases (ltb 0 (sent txs last (order ++ tx_hash ∷ [])))) [
            | inr b ↦ inl (ground (arith, b))
            | inl b ↦ elim (Bool-cases (ltb 0 (count last (in_hashes s.store)))) [
              | inl c ↦ inr (ground (arith, c, before_has))
              | inr c ↦ absurd (
                  let there = available last (ground (arith, b)) (ground (arith, c)) in
                  ground (arith, there, n))
            ]
          ]);
        })

  -- What holds between two transactions.
  Grows : List String → Assembly → Type 0
  Grows order s = Places order s × Tracks txs order s × Explains order s

  Tracks-Follows : (order : List String) (s : Assembly) → Tracks txs order s → Follows txs order s
  Tracks-Follows order s t = record {
    received = t.received;
    from_sender = t.from_sender;
    sent_once = λ quiet k. omega (arith, t.unused quiet k);
  }

  -- When the map has each transaction of the order, AssembleTraceTxsFromMap does not panic. It makes
  -- one node for each transaction, in the order given, with its incoming message. Each child stands
  -- below a transaction that sends the message which the child's transaction received. If there is
  -- no warning, then each node is either the root or the child of exactly one node, once, and never
  -- both; and, beside the root, no more nodes have a message than transactions send it. There is a
  -- warning only if some transaction after the first received a message that neither it nor one
  -- before it sends, or that one before it received as well.
  pub assemble_trace_txs_from_map_correct :
      (tx_order : List String)
      → HasAll tx_order txs
      → Yields
          (λ s.
            Places tx_order s × Follows txs tx_order s × ((s.warning ≡ false) ⊎ IsBroken tx_order))
          (assemble_trace_txs_from_map tx_order txs)
  unfolding assemble_trace_txs_from_map Grows lookup count
  assemble_trace_txs_from_map_correct tx_order has =
      Yields-map
        (place_all-keeps {P = Grows} txs
          (λ order tx_hash tx s e h. (
            place-Places order tx_hash tx s h.0,
            place-Tracks txs order tx_hash tx s e h.0.all h.1,
            place-Explains order tx_hash tx s e h.1 h.2,
          ))
          tx_order [] start_assembly has
          (
            start-Places,
            record {
              received = refl;
              from_sender = tt;
              points = λ k p e. absurd (ground (arith, e));
              rooted = λ r e. absurd (ground (arith, e));
              unused = λ quiet k. omega arith;
            },
            record { available = λ k p q. absurd (omega (arith, p)); explained = inl refl },
          ))
        (λ s h. (h.0, Tracks-Follows tx_order s h.1, h.2.explained))
