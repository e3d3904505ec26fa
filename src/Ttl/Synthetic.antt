-- ===== src/Ttl/Synthetic.antt =====
-- SyntheticTracesTracker of ton-trace-ttl-tracker/main.go: account -> set of trace ids. The mutex
-- makes each method one step.
pub mod Laws
use ton_indexer.Prelude.{ℕ, Option, none, some, String, List, [], ◌∷◌, ◌==◌, if◌then◌else◌}
use ton_indexer.Prelude.GoMap.{GoMap, lookup, insert, delete}
use ton_indexer.MapSet.{MapSet}

module _ (sets : MapSet) where
  open sets use {Carrier, new_set, add, remove, contains_one, cardinality, iter}

  -- NewSyntheticTracesTracker
  abbrev pub new_synthetic_traces_tracker : GoMap Carrier
  new_synthetic_traces_tracker = []

  unfoldable pub set_or_new : Option Carrier → Carrier
  set_or_new none = new_set
  set_or_new (some s) = s

  -- AddSyntheticTrace
  unfoldable pub add_synthetic_trace : GoMap Carrier → String → String → GoMap Carrier
  unfolding set_or_new
  add_synthetic_trace m account trace_id =
      insert account (add (set_or_new (lookup account m)) trace_id) m

  -- GetSyntheticTraces
  unfoldable pub get_synthetic_traces : GoMap Carrier → String → List String
  get_synthetic_traces m account = elim (lookup account m) [ none ↦ [] | some s ↦ iter s ]

  -- ClearSyntheticTraces
  unfoldable pub clear_synthetic_traces : GoMap Carrier → String → GoMap Carrier × List String
  clear_synthetic_traces m account = elim (lookup account m) [
    | none ↦ (m, [])
    | some s ↦ (delete account m, iter s)
  ]

  -- RemoveTrace: the loop ends at the first account that has the trace.
  unfoldable pub remove_trace : GoMap Carrier → String → GoMap Carrier
  remove_trace [] trace_id = []
  remove_trace ((account, s) ∷ m) trace_id =
      let rest = remove_trace m trace_id in
      if contains_one s trace_id
      then (if cardinality (remove s trace_id) == 0 then m else (account, remove s trace_id) ∷ m)
      else (account, s) ∷ rest
