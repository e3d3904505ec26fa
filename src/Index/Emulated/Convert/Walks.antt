-- ===== src/Index/Emulated/Convert/Walks.antt =====
-- ConvertHSet of ton-index-go/index/emulated/models.go: which nodes the trace has.
use ton_indexer.Prelude.{
  ℕ, zero, suc, ◌≤◌, ◌<◌, Result-cases, ◌≡◌, refl, sym, ap, ◌∙◌, String, none, some, List, [], ◌∷◌,
  ◌++◌, map, append-nil, Result, ok, err, arith, All, All-append, Yields, yields, Yields-bind,
  Option-cases, inl, inr, ◌⊎◌,
}
use ton_indexer.Prelude.GoMap.{GoMap, lookup}
use ton_indexer.Index.Emulated.Models.{TraceNode}
use ton_indexer.Index.Emulated.Actions.{Action}
use ton_indexer.Index.Emulated.Convert.{
  Codec, ConvertError, Trace, Walk, raise_to, has, next_keys, visit, no_root_node, missing_key,
  bad_node, bad_actions, no_root_node, missing_key, bad_node, bad_actions, start_walk, stamp, walk,
  convert_actions, finish, after_walk, convert_hset,
}
use ton_indexer.Index.Emulated.Convert.Nodes.{
  greatest, children, keys, total, greatest-append, children-append, keys-append, move_on, spent,
  total-singleton,
}

module _ (codec : Codec) (m : GoMap String) where
  -- The node is what the field of its key holds, with the key and the trace's id filled in.
  unfoldable pub IsRead : TraceNode → Type 0
  IsRead n =
      (node_data : String) × (node : TraceNode) × (lookup n.key m ≡ some node_data)
      × (codec.unmarshal_node node_data ≡ ok node)
      × (n ≡ record node { key = n.key; trace_id = n.trace_id })

  -- Each node that is a field has a weight above that of the nodes it sends messages to: the hash
  -- is a forest. With it the walk ends.
  unfoldable pub IsWeighed : (String → ℕ) → Type 0
  IsWeighed w =
      (key node_data : String) (node : TraceNode)
      → lookup key m ≡ some node_data
      → codec.unmarshal_node node_data ≡ ok node
      → suc (total w (next_keys m node.transaction.out_msgs)) ≤ w key

  -- What the loop keeps.
  pub record WalksFrom (root : String) (queue : List String) (s : Walk) : Type 0 where
    pub order : keys s.txs ++ queue ≡ root ∷ children m s.txs
    pub lt_max : s.end_lt ≡ greatest (λ n. n.transaction.lt) s.txs
    pub utime_max : s.end_utime ≡ greatest (λ n. n.transaction.now) s.txs
    pub seqno_max : s.mc_seqno_end ≡ greatest (λ n. n.mc_block_seqno) s.txs
    pub reads : All IsRead s.txs

  visit-WalksFrom :
      (root key : String) (queue : List String) (s : Walk) (node_data : String) (node : TraceNode)
      → lookup key m ≡ some node_data
      → codec.unmarshal_node node_data ≡ ok node
      → WalksFrom root (key ∷ queue) s
      → WalksFrom root (queue ++ next_keys m node.transaction.out_msgs) (visit root key node s)
  unfolding visit IsRead
  visit-WalksFrom root key queue s node_data node found decoded inv = record {
    order =
        ap (λ ks. ks ++ (queue ++ next_keys m node.transaction.out_msgs)) (keys-append s.txs _)
        ∙ move_on (keys s.txs) key queue _
        ∙ ap (λ ks. ks ++ next_keys m node.transaction.out_msgs) inv.order
        ∙ ap (◌∷◌ root) (sym (children-append m s.txs _));
    lt_max = ap (λ x. raise_to x node.transaction.lt) inv.lt_max ∙ sym (greatest-append _ s.txs _);
    utime_max =
        ap (λ x. raise_to x node.transaction.now) inv.utime_max ∙ sym (greatest-append _ s.txs _);
    seqno_max =
        ap (λ x. raise_to x node.mc_block_seqno) inv.seqno_max ∙ sym (greatest-append _ s.txs _);
    reads = All-append IsRead s.txs _ inv.reads ((node_data, node, found, decoded, refl), tt);
  }

  -- Why the conversion failed.
  pub Explains : ConvertError → Type 0
  Explains no_root_node = lookup "root_node" m ≡ none
  Explains (missing_key key) = lookup key m ≡ none
  Explains (bad_node e) =
      (key : String) × (node_data : String) × (lookup key m ≡ some node_data)
      × (codec.unmarshal_node node_data ≡ err e)
  Explains (bad_actions e) =
      (actions_data : String) × (lookup "actions" m ≡ some actions_data)
      × (codec.unmarshal_actions actions_data ≡ err e)

  pub IsWalked : String → Result ConvertError Walk → Type 0
  IsWalked root (err e) = Explains e
  IsWalked root (ok s) = WalksFrom root [] s

  pub walk_correct :
      (root : String) (w : String → ℕ) (fuel : ℕ) (queue : List String) (s : Walk)
      → IsWeighed w
      → total w queue < fuel
      → WalksFrom root queue s
      → Yields (IsWalked root) (walk codec m root fuel queue s)
  unfolding walk IsWalked Explains IsWeighed
  walk_correct root w fuel [] s weighed enough inv = yields inv
  walk_correct root w zero (key ∷ queue) s weighed enough inv = absurd (omega arith)
  walk_correct root w (suc fuel) (key ∷ queue) s weighed enough inv =
      elim (Option-cases (lookup key m)) [
        | inl missing ↦ rw (missing, walk) (yields missing)
        | inr (node_data, found) ↦
            rw (found, walk)
              (elim (Result-cases (codec.unmarshal_node node_data)) [
                | inl (e, bad) ↦ rw (bad, walk) (yields (key, node_data, found, bad))
                | inr (node, decoded) ↦
                    rw (decoded, walk)
                      (walk_correct root w fuel _ _ weighed
                        (spent w fuel key queue _ (weighed key node_data node found decoded) enough)
                        (visit-WalksFrom root key queue s node_data node found decoded inv))
              ])
      ]

  start_walk-WalksFrom : (root : String) → WalksFrom root (root ∷ []) start_walk
  unfolding greatest children
  start_walk-WalksFrom root = record {
    order = refl;
    lt_max = refl;
    utime_max = refl;
    seqno_max = refl;
    reads = tt;
  }

  -- The action carries the trace's id, its key and the greatest times of its nodes.
  pub record IsStamped (t : Trace) (a : Action) : Type 0 where
    pub same_trace : a.trace_id ≡ t.trace_id
    pub same_hash : a.trace_external_hash ≡ t.external_hash
    pub end_lt : a.trace_end_lt ≡ some (greatest (λ n. n.transaction.lt) t.nodes)
    pub end_utime : a.trace_end_utime ≡ some (greatest (λ n. n.transaction.now) t.nodes)
    pub seqno : a.trace_mc_seqno_end ≡ some (greatest (λ n. n.mc_block_seqno) t.nodes)

  -- The actions are those of the field "actions", stamped; none when there is no such field.
  unfoldable pub IsSent : Trace → Type 0
  IsSent t =
      (actions : List Action) × (s : Walk) × (t.actions ≡ map (stamp t.external_hash s) actions)
      × ((actions ≡ [])
          ⊎ ((bytes : String) × (lookup "actions" m ≡ some bytes)
              × (codec.unmarshal_actions bytes ≡ ok actions)))

  pub record IsTraceOf (t : Trace) : Type 0 where
    pub root : lookup "root_node" m ≡ some t.external_hash
    pub order : keys t.nodes ≡ t.external_hash ∷ children m t.nodes
    pub reads : All IsRead t.nodes
    pub classified : t.classified ≡ has (lookup "actions" m)
    pub stamped : All (IsStamped t) t.actions
    pub sent : IsSent t

  unfoldable pub IsConverted : Result ConvertError Trace → Type 0
  IsConverted (err e) = Explains e
  IsConverted (ok t) = IsTraceOf t

  map-stamp-IsStamped :
      (root : String) (s : Walk) (t : Trace) (actions : List Action)
      → WalksFrom root [] s
      → t.trace_id ≡ s.walk_trace_id
      → t.external_hash ≡ root
      → t.nodes ≡ s.txs
      → All (IsStamped t) (map (stamp root s) actions)
  unfolding stamp
  map-stamp-IsStamped root s t [] inv p q r = tt
  map-stamp-IsStamped root s t (a ∷ actions) inv p q r = (
    record {
      same_trace = sym p;
      same_hash = sym q;
      end_lt = rw r (ap some inv.lt_max);
      end_utime = rw r (ap some inv.utime_max);
      seqno = rw r (ap some inv.seqno_max);
    },
    map-stamp-IsStamped root s t actions inv p q r,
  )

  finish-IsConverted :
      (root : String) (s : Walk)
      → lookup "root_node" m ≡ some root
      → WalksFrom root [] s
      → IsConverted (finish codec m root s)
  unfolding finish convert_actions IsConverted Explains IsSent
  finish-IsConverted root s e inv = elim (Option-cases (lookup "actions" m)) [
    | inl n ↦
        rw (n, IsConverted)
          (record {
            root = e;
            order = rw (append-nil (keys s.txs)) at inv.order;
            reads = inv.reads;
            sent = ([], s, refl, inl refl);
            classified = refl;
            stamped = tt;
          })
    | inr (bytes, b) ↦ elim (Result-cases (codec.unmarshal_actions bytes)) [
      | inl (e', bad) ↦ rw (b, IsConverted) (rw (bad, IsConverted) (bytes, b, bad))
      | inr (actions, good) ↦
          rw (b, IsConverted)
            (rw (good, IsConverted)
              (record {
                root = e;
                order = rw (append-nil (keys s.txs)) at inv.order;
                reads = inv.reads;
                sent = (actions, s, refl, inr (bytes, b, good));
                classified = refl;
                stamped = map-stamp-IsStamped root s _ actions inv refl refl refl;
              }))
    ]
  ]

  after_walk-IsConverted :
      (root : String) (r : Result ConvertError Walk)
      → lookup "root_node" m ≡ some root
      → IsWalked root r
      → IsConverted (after_walk codec m root r)
  unfolding after_walk IsWalked IsConverted
  after_walk-IsConverted root (err e) h walked = walked
  after_walk-IsConverted root (ok s) h walked = finish-IsConverted root s h walked

  -- Whatever the fields of the hash, if they form a forest by the weight `w` and the fuel is above
  -- the root's weight, ConvertHSet returns. If it returns an error, the error names what is wrong
  -- with the hash. If it returns a trace, then the keys of its nodes are, in order and with nothing
  -- left out, the root and the outgoing messages of its nodes that have a field; each node is what
  -- the field of its key decodes to; the trace is classified if and only if it has a field
  -- "actions"; and each action carries the trace's id and root and the greatest logical time, time
  -- and masterchain number of the nodes.
  pub convert_hset_correct :
      (fuel : ℕ) (w : String → ℕ)
      → IsWeighed w
      → ((root : String) → lookup "root_node" m ≡ some root → w root < fuel)
      → Yields IsConverted (convert_hset codec fuel m)
  unfolding convert_hset IsConverted Explains
  convert_hset_correct fuel w weighed enough = elim (Option-cases (lookup "root_node" m)) [
    | inl n ↦ rw (n, convert_hset) (yields n)
    | inr (root, e) ↦
        rw (e, convert_hset)
          (Yields-bind
            (walk_correct root w fuel (root ∷ []) start_walk weighed
              (total-singleton w root (enough root e)) (start_walk-WalksFrom root))
            (λ r walked. yields (after_walk-IsConverted root r e walked)))
  ]
