-- ===== src/Index/Emulated/Convert.antt =====
-- ConvertHSet of ton-index-go/index/emulated/models.go: from the fields of a trace's Redis hash to
-- the trace. The walk over the messages has no set of visited keys, so it is on fuel: the model
-- returns `none` when the fuel is used up.
pub mod Nodes
pub mod Walks
use ton_indexer.Prelude.{
  ℕ, zero, suc, ◌+◌, ◌<◌, ◌≤◌, ◌≡◌, String, Bool, true, false, not, ◌&&◌, ◌>>=◌, Option, none, some,
  List, [], ◌∷◌, ◌++◌, map, Result, ok, err, if◌then◌else◌, ltb, str_eq, max,
}
use ton_indexer.Prelude.GoMap.{GoMap, lookup}
use ton_indexer.Prelude.Base64.{encode_to_string}
use ton_indexer.Index.Emulated.Models.{TraceNode, TrMessage, Hash}
use ton_indexer.Index.Emulated.Actions.{Action}

-- What the package takes from msgpack and from tonutils-go: `cell_hash` is cell.FromBOC, and the
-- hash of the cell.
pub record Codec : Type 0 where
  pub unmarshal_node : String → Result String TraceNode
  pub unmarshal_actions : String → Result String (List Action)
  pub cell_hash : List ℕ → Result String Hash

pub data ConvertError : Type 0 where
  no_root_node : ConvertError
  missing_key : String → ConvertError
  bad_node : String → ConvertError
  bad_actions : String → ConvertError

pub record Trace : Type 0 where
  pub trace_id : Option String
  pub external_hash : String
  pub nodes : List TraceNode
  pub classified : Bool
  pub actions : List Action

-- The variables of the loop, but for the queue.
pub record Walk : Type 0 where
  pub txs : List TraceNode
  pub end_lt : ℕ
  pub end_utime : ℕ
  pub mc_seqno_end : ℕ
  pub walk_trace_id : Option String

abbrev pub raise_to : ℕ → ℕ → ℕ
raise_to old new = if ltb old new then new else old

abbrev pub has {ℓ} : {A : Type ℓ} → Option A → Bool
has none = false
has (some a) = true

-- The keys of the messages that the hash has a node for.
unfoldable pub next_keys : GoMap String → List TrMessage → List String
next_keys trace_hash [] = []
next_keys trace_hash (out_msg ∷ out_msgs) =
    let next_key = encode_to_string out_msg.hash in
    let rest = next_keys trace_hash out_msgs in
    if has (lookup next_key trace_hash) then next_key ∷ rest else rest

-- One round of the loop, after the node is read.
unfoldable pub visit : String → String → TraceNode → Walk → Walk
visit root key node s =
    let trace_id =
      (if str_eq key root && not node.emulated
        then some (encode_to_string node.transaction.hash)
        else s.walk_trace_id) in
    record {
      txs = s.txs ++ record node { key = key; trace_id = trace_id } ∷ [];
      end_lt = raise_to s.end_lt node.transaction.lt;
      end_utime = raise_to s.end_utime node.transaction.now;
      mc_seqno_end = raise_to s.mc_seqno_end node.mc_block_seqno;
      walk_trace_id = trace_id;
    }

abbrev pub start_walk : Walk
start_walk = record { txs = []; end_lt = 0; end_utime = 0; mc_seqno_end = 0; walk_trace_id = none }

-- The loop over the actions.
unfoldable pub stamp : String → Walk → Action → Action
stamp root s action = record action {
  trace_end_utime = some s.end_utime;
  trace_end_lt = some s.end_lt;
  trace_mc_seqno_end = some s.mc_seqno_end;
  trace_external_hash = root;
  trace_id = s.walk_trace_id;
}

module _ (codec : Codec) where
  -- The loop over the queue.
  unfoldable pub walk :
      GoMap String → String → ℕ → List String → Walk → Option (Result ConvertError Walk)
  walk trace_hash root fuel [] s = some (ok s)
  walk trace_hash root zero (key ∷ queue) s = none
  walk trace_hash root (suc fuel) (key ∷ queue) s = elim (lookup key trace_hash) [
    | none ↦ some (err (missing_key key))
    | some node_data ↦ elim (codec.unmarshal_node node_data) [
      | err e ↦ some (err (bad_node e))
      | ok node ↦
          walk trace_hash root fuel (queue ++ next_keys trace_hash node.transaction.out_msgs)
            (visit root key node s)
    ]
  ]

  unfoldable pub convert_actions : GoMap String → String → Walk → Result ConvertError (List Action)
  convert_actions trace_hash root s = elim (lookup "actions" trace_hash) [
    | none ↦ ok []
    | some actions_bytes ↦ elim (codec.unmarshal_actions actions_bytes) [
      | err e ↦ err (bad_actions e)
      | ok actions ↦ ok (map (stamp root s) actions)
    ]
  ]

  -- After the loop.
  unfoldable pub finish : GoMap String → String → Walk → Result ConvertError Trace
  finish trace_hash root s = elim (convert_actions trace_hash root s) [
    | err e ↦ err e
    | ok actions ↦ ok (record {
      trace_id = s.walk_trace_id;
      external_hash = root;
      nodes = s.txs;
      classified = has (lookup "actions" trace_hash);
      actions = actions;
    })
  ]

  unfoldable pub after_walk :
      GoMap String → String → Result ConvertError Walk → Result ConvertError Trace
  after_walk trace_hash root (err e) = err e
  after_walk trace_hash root (ok s) = finish trace_hash root s

  unfoldable pub convert_hset : ℕ → GoMap String → Option (Result ConvertError Trace)
  convert_hset fuel trace_hash = elim (lookup "root_node" trace_hash) [
    | none ↦ some (err no_root_node)
    | some root ↦ walk trace_hash root fuel (root ∷ []) start_walk >>= λ r.
        some (after_walk trace_hash root r)
  ]
