-- ===== src/Ttl/Trace/Policy.antt =====
-- The TTL by the state of the trace.
use ton_indexer.Prelude.{
  ℕ, ◌+◌, ◌≤◌, Bool, true, false, ◌&&◌, not, Option, none, some, [], ◌∷◌, ◌≡◌, refl, arith, ◌==◌,
  if◌then◌else◌,
}
use ton_indexer.Prelude.GoMap.{GoMap, lookup}
use ton_indexer.Ttl.Trace.{TraceNode, TraceData, Ttls, count_nodes, trace_ttl}
use ton_indexer.Ttl.World.{Duration}

-- No node of the trace is emulated.
pub all_confirmed : GoMap TraceNode → Bool
all_confirmed [] = true
all_confirmed ((key, node) ∷ nodes) = not node.emulated && all_confirmed nodes

root_of : Option TraceNode → Bool
root_of none = false
root_of (some node) = node.emulated

-- The root of the trace is there and is emulated.
pub is_synthetic : TraceData → Bool
unfolding root_of
is_synthetic d = root_of (lookup d.root_node_key d.nodes)

count_nodes_grows : (nodes : GoMap TraceNode) (e n : ℕ) → e ≤ (count_nodes nodes (e, n)).0
unfolding count_nodes
count_nodes_grows [] e n = omega arith
count_nodes_grows ((key, node) ∷ nodes) e n =
    ground (arith, count_nodes_grows nodes (e + 1) n, count_nodes_grows nodes e (n + 1))

count_nodes-zero :
    (nodes : GoMap TraceNode) (n : ℕ) → ((count_nodes nodes (0, n)).0 == 0) ≡ all_confirmed nodes
unfolding count_nodes all_confirmed
count_nodes-zero [] n = refl
count_nodes-zero ((key, node) ∷ nodes) n =
    ground (arith, count_nodes_grows nodes 1 n, count_nodes-zero nodes (n + 1))

abbrev pub ttl_by_state : Ttls → Option TraceData → Duration
ttl_by_state ttls none = ttls.default_trace_ttl
ttl_by_state ttls (some d) =
    if is_synthetic d
    then ttls.synthetic_trace_ttl
    else if all_confirmed d.nodes
    then ttls.completed_trace_ttl
    else ttls.default_trace_ttl

-- setupTraceTtl gives a trace that could not be read the default TTL, one whose root is emulated the
-- synthetic one, one with no emulated node at all the one of completed traces, and any other the
-- default.
pub trace_ttl-ttl_by_state :
    (ttls : Ttls) (read : Option TraceData) → trace_ttl ttls read ≡ ttl_by_state ttls read
unfolding trace_ttl is_synthetic
trace_ttl-ttl_by_state ttls none = refl
trace_ttl-ttl_by_state ttls (some d) = ground (arith, count_nodes-zero d.nodes 0)
