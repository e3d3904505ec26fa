-- ===== src/Ttl/Trace.antt =====
-- Traces as ton-trace-ttl-tracker/main.go reads them from Redis, and the TTL that each gets.
pub mod Nodes
pub mod Policy
use ton_indexer.Prelude.{
  ℕ, ◌+◌, String, Bool, true, false, ◌||◌, ◌&&◌, Option, none, some, List, [], ◌∷◌, ◌==◌, str_eq,
  if◌then◌else◌, Result, ok, err,
}
use ton_indexer.Prelude.Text.{has_substring}
use ton_indexer.Prelude.GoMap.{GoMap, lookup, insert}
use ton_indexer.Ttl.World.{World, RedisError, Duration}

pub record TrMessage : Type 0 where
  pub hash : String

pub record Transaction : Type 0 where
  pub account : String
  pub out_msgs : List TrMessage

pub record TraceNode : Type 0 where
  pub transaction : Transaction
  pub emulated : Bool

pub record TraceData : Type 0 where
  pub root_node_key : String
  pub nodes : GoMap TraceNode

pub data ReadError : Type 0 where
  hgetall_failed : String → RedisError → ReadError
  root_node_missing : String → ReadError
  unmarshal_failed : String → ReadError

-- The fields of a trace's hash that hold no node.
unfoldable pub is_skipped : String → Bool
unfolding has_substring
is_skipped key =
    str_eq key "root_node"
    || str_eq key "depth_limit_exceeded"
    || has_substring key ":"
    || has_substring key "actions"

-- `unmarshal` is msgpack.Unmarshal into a TraceNode; `none` is its error.
module _ (unmarshal : String → Option TraceNode) where
  unfoldable pub read_nodes : GoMap String → GoMap TraceNode → Result ReadError (GoMap TraceNode)
  read_nodes [] nodes = ok nodes
  read_nodes ((key, value) ∷ rest) nodes =
      let skip = read_nodes rest nodes in
      let read = elim (unmarshal value) as (λ _. Result ReadError (GoMap TraceNode)) [
        | none ↦ err (unmarshal_failed key)
        | some node ↦ read_nodes rest (insert key node nodes)
      ] in
      if is_skipped key then skip else read

  unfoldable pub read_fields : GoMap String → String → Result ReadError TraceData
  unfolding read_nodes
  read_fields fields hash_key = elim (lookup "root_node" fields) [
    | none ↦ err (root_node_missing hash_key)
    | some root ↦ elim (read_nodes fields []) [
      | ok nodes ↦ ok (record { root_node_key = root; nodes = nodes })
      | err e ↦ err e
    ]
  ]

  -- readTrace
  unfoldable pub read_trace : (w : World) → String → w.State → Result ReadError TraceData × w.State
  unfolding read_fields
  read_trace w hash_key s =
      let (reply, s') = w.hgetall hash_key s in
      (
        elim reply [
          | err e ↦ err (hgetall_failed hash_key e)
          | ok fields ↦ read_fields fields hash_key
        ],
        s',
      )

pub record Ttls : Type 0 where
  pub default_trace_ttl : Duration
  pub synthetic_trace_ttl : Duration
  pub completed_trace_ttl : Duration

-- The counts `emulated` and `nonEmulated` of the loop.
unfoldable pub count_nodes : GoMap TraceNode → ℕ × ℕ → ℕ × ℕ
count_nodes [] n = n
count_nodes ((key, node) ∷ nodes) (emulated, non_emulated) =
    count_nodes nodes
      (if node.emulated then (emulated + 1, non_emulated) else (emulated, non_emulated + 1))

-- The TTL that setupTraceTtl chooses; the data is nil if the trace could not be read.
unfoldable pub trace_ttl : Ttls → Option TraceData → Duration
unfolding count_nodes
trace_ttl ttls none = ttls.default_trace_ttl
trace_ttl ttls (some d) =
    let root_emulated = elim (lookup d.root_node_key d.nodes) as (λ _. Bool) [
      | none ↦ false
      | some root ↦ root.emulated
    ] in
    if root_emulated
    then ttls.synthetic_trace_ttl
    else if (count_nodes d.nodes (0, 0)).0 == 0
    then ttls.completed_trace_ttl
    else ttls.default_trace_ttl
