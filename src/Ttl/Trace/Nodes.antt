-- ===== src/Ttl/Trace/Nodes.antt =====
-- Which nodes readTrace finds.
use ton_indexer.Prelude.{
  String, true, false, str_eq, ◌↔◌, Option, none, some, [], ◌∷◌, ◌≡◌, refl, ◌∙◌, ◌⊎◌, arith, eq_iff,
  if◌then◌else◌, Bool-cases, Option-cases, inl, inr, ◌>>=◌, Result, ok, err,
}
use ton_indexer.Prelude.Text.{has_substring}
use ton_indexer.Prelude.Substring.{HasPart, has_substring-HasPart}
use ton_indexer.Prelude.GoMap.{GoMap, lookup, insert, lookup-insert, IsUnique}
use ton_indexer.Ttl.Trace.{
  TraceNode, TraceData, ReadError, unmarshal_failed, root_node_missing, is_skipped, read_nodes,
  read_fields,
}

-- The names of fields that hold no node, as the loop of readTrace has them.
pub data IsReserved (key : String) : Type 0 where
  is_root : key ≡ "root_node" → IsReserved key
  is_limit : key ≡ "depth_limit_exceeded" → IsReserved key
  has_colon : HasPart key ":" → IsReserved key
  has_actions : HasPart key "actions" → IsReserved key

is_skipped-IsReserved : (key : String) → (is_skipped key ≡ true) ↔ IsReserved key
unfolding is_skipped
is_skipped-IsReserved key = (
  λ h. elim (Bool-cases (str_eq key "root_node")) [
    | inl e ↦ is_root ((eq_iff key "root_node").0 e)
    | inr e ↦ elim (Bool-cases (str_eq key "depth_limit_exceeded")) [
      | inl e1 ↦ is_limit ((eq_iff key "depth_limit_exceeded").0 e1)
      | inr e1 ↦ elim (Bool-cases (has_substring key ":")) [
        | inl e2 ↦ has_colon ((has_substring-HasPart key ":").0 e2)
        | inr e2 ↦ has_actions ((has_substring-HasPart key "actions").0 (ground arith))
      ]
    ]
  ],
  reserved,
)
  where
    reserved : IsReserved key → is_skipped key ≡ true
    reserved (is_root e) = ground (arith, eq_iff key "root_node")
    reserved (is_limit e) = ground (arith, eq_iff key "depth_limit_exceeded")
    reserved (has_colon p) = ground (arith, (has_substring-HasPart key ":").1 p)
    reserved (has_actions p) = ground (arith, (has_substring-HasPart key "actions").1 p)

module _ (unmarshal : String → Option TraceNode) where
  or_old : Option TraceNode → Option TraceNode → Option TraceNode
  or_old none old = old
  or_old (some node) old = some node

  no_old : (o : Option TraceNode) (k : String) → or_old o (lookup k []) ≡ o
  unfolding or_old lookup
  no_old none k = refl
  no_old (some node) k = refl

  -- The node that a field of the hash stands for.
  abbrev pub node_of : GoMap String → String → Option TraceNode
  node_of fields k = if is_skipped k then none else (lookup k fields >>= unmarshal)

  lookup-read_nodes :
      (fields : GoMap String) (old nodes : GoMap TraceNode)
      → IsUnique fields
      → read_nodes unmarshal fields old ≡ ok nodes
      → (k : String) → lookup k nodes ≡ or_old (node_of fields k) (lookup k old)
  unfolding read_nodes or_old lookup
  lookup-read_nodes [] old nodes u e k = ground arith
  lookup-read_nodes ((key, value) ∷ rest) old nodes u e k = elim (Bool-cases (is_skipped key)) [
    | inl skip ↦ ground (arith, eq_iff key k, lookup-read_nodes rest old nodes u.1 (rw skip at e) k)
    | inr keep ↦ elim (Option-cases (unmarshal value)) [
      | inl bad ↦ absurd (ground arith)
      | inr (node, good) ↦ ground (
        arith,
        eq_iff key k,
        lookup-insert key k node old,
        lookup-read_nodes rest (insert key node old) nodes u.1 (ground arith) k,
      )
    ]
  ]

  -- A field that should hold a node and does not unmarshal.
  abbrev pub BadField : GoMap String → String → Type 0
  BadField fields k =
      (is_skipped k ≡ false) × ((v : String) × (lookup k fields ≡ some v) × (unmarshal v ≡ none))

  BadField-cons :
      (key value : String) (rest : GoMap String) (k : String)
      → lookup key rest ≡ none
      → BadField rest k
      → BadField ((key, value) ∷ rest) k
  unfolding lookup
  BadField-cons key value rest k new (kept, (v, found, bad)) =
      (kept, (v, ground (arith, eq_iff key k), bad))

  BadField-head :
      (key value : String) (rest : GoMap String)
      → is_skipped key ≡ false
      → unmarshal value ≡ none
      → BadField ((key, value) ∷ rest) key
  unfolding lookup
  BadField-head key value rest kept bad = (kept, (value, ground (arith, eq_iff key key), bad))

  read_nodes-err :
      (fields : GoMap String) (old : GoMap TraceNode) (e : ReadError)
      → IsUnique fields
      → read_nodes unmarshal fields old ≡ err e
      → (k : String) × (e ≡ unmarshal_failed k) × BadField fields k
  unfolding read_nodes
  read_nodes-err [] old e u h = absurd (ground arith)
  read_nodes-err ((key, value) ∷ rest) old e u h = elim (Bool-cases (is_skipped key)) [
    | inl skip ↦
        let (k, at_k, bad) = read_nodes-err rest old e u.1 (rw skip at h) in
        (k, at_k, BadField-cons key value rest k u.0 bad)
    | inr keep ↦ elim (Option-cases (unmarshal value)) [
      | inl bad ↦ (key, ground arith, BadField-head key value rest keep bad)
      | inr (node, good) ↦
          let (k, at_k, bad) = read_nodes-err rest (insert key node old) e u.1 (ground arith) in
          (k, at_k, BadField-cons key value rest k u.0 bad)
    ]
  ]

  -- What a trace or an error that was read says of the fields of the hash.
  abbrev pub ReadsAs : GoMap String → String → Result ReadError TraceData → Type 0
  ReadsAs fields hash_key (ok d) =
      (lookup "root_node" fields ≡ some d.root_node_key)
      × ((k : String) → lookup k d.nodes ≡ node_of fields k)
  ReadsAs fields hash_key (err e) =
      ((e ≡ root_node_missing hash_key) × (lookup "root_node" fields ≡ none))
      ⊎ ((k : String) × (e ≡ unmarshal_failed k) × BadField fields k)

  read_fields-ReadsAs :
      (fields : GoMap String) (hash_key : String)
      → IsUnique fields
      → ReadsAs fields hash_key (read_fields unmarshal fields hash_key)
  unfolding read_fields
  read_fields-ReadsAs fields hash_key u = elim (Option-cases (lookup "root_node" fields)) [
    | inl e ↦ rw (e, read_fields) (inl (refl, e))
    | inr (root, e) ↦ rw (e, read_fields) (nodes_read root e (read_nodes unmarshal fields []) refl)
  ]
    where
      nodes_read :
          (root : String)
          → lookup "root_node" fields ≡ some root
          → (r : Result ReadError (GoMap TraceNode)) → read_nodes unmarshal fields [] ≡ r
          → ReadsAs fields hash_key (elim r as (λ _. Result ReadError TraceData) [
            | ok nodes ↦ ok (record { root_node_key = root; nodes = nodes })
            | err e ↦ err e
          ])
      nodes_read root e (ok nodes) r =
          (e, λ k. lookup-read_nodes fields [] nodes u r k ∙ no_old (node_of fields k) k)
      nodes_read root e (err x) r = inr (read_nodes-err fields [] x u r)

  -- What readTrace makes of the fields of a hash, each with its own name. If it is a trace, its root
  -- key is the field root_node, and its nodes are what the fields that are not skipped unmarshal to.
  -- If it is an error, then root_node is missing, or the named field is not skipped and does not
  -- unmarshal. Skipped are exactly root_node, depth_limit_exceeded, and the names with a ':' or with
  -- the word actions in them.
  pub read_fields_correct :
      (fields : GoMap String) (hash_key : String)
      → IsUnique fields
      → ReadsAs fields hash_key (read_fields unmarshal fields hash_key)
        × ((k : String) → (is_skipped k ≡ true) ↔ IsReserved k)
  read_fields_correct fields hash_key u =
      (read_fields-ReadsAs fields hash_key u, is_skipped-IsReserved)
