-- ===== src/Ttl/Examples.antt =====
-- Tests, and the theorems of this part at concrete inputs.
use ton_indexer.Prelude.{
  ℕ, zero, suc, ◌+◌, ◌≡◌, ◌≢◌, ◌↔◌, ◌∙◌, refl, String, Bool, true, false, not, ◌&&◌, Option, none,
  some, List, [], ◌∷◌, Yields, arith, ok, err, if◌then◌else◌, str_eq, contains, eq_iff, Bool-cases,
  inl, map, inr, ltb,
}
use ton_indexer.Prelude.GoMap.{GoMap, lookup, insert, delete, IsUnique}
use ton_indexer.Prelude.Text.{lacks, split}
use ton_indexer.MapSet.Listed.{list_sets}
use ton_indexer.Ttl.Heap.{KeyExpiry, heap_push, heap_pop, swap, less}
use ton_indexer.Ttl.Heap.Order.{IsHeap}
use ton_indexer.Ttl.Expiry.{ExpiryTracker, add, get_expired}
use ton_indexer.Ttl.Expiry.Deadlines.{Call, track, report, follow, total}
use ton_indexer.Ttl.Expiry.Invariant.{entry, IsValid}
use ton_indexer.Ttl.Expiry.Expired.{Reports, get_expired_correct}
use ton_indexer.Ttl.Expiry.Refine.{
  serve, deadlines, counts, seen, serve-follow, tracked_key-reported_once,
}
use ton_indexer.Ttl.World.{World, failure}
use ton_indexer.Ttl.Trace.{TraceNode, TraceData, is_skipped, read_fields, trace_ttl}
use ton_indexer.Ttl.Trace.Nodes.{IsReserved, ReadsAs, read_fields_correct}
use ton_indexer.Ttl.Trace.Policy.{ttl_by_state, trace_ttl-ttl_by_state}
use ton_indexer.Ttl.Tracker.{
  Tracker, Settings, Event, trace_message, refaccs_message, tick, setup_trace_ttl,
  handle_trace_emulation_status, handle_expired_keys, step, run,
}
use ton_indexer.Ttl.Tracker.Messages.{
  Scheduled, setup_trace_ttl_correct, Tracked, handle_emulated_root, Ended, handle_confirmed_root,
}
use ton_indexer.Ttl.Tracker.Expiring.{
  Ticked, handle_expired_keys_correct, AllWellFormed, run_keeps, refaccs_message_panics,
}
use ton_indexer.Ttl.Retry.{out_of_fuel, delete_key_with_retry}
use ton_indexer.Ttl.Retry.Laws.{delete_key_with_retry_total}
use ton_indexer.Ttl.SortedSet.{SortedSets}
use ton_indexer.Ttl.Cleanup.{
  has_key, is_member, extract_trace_keys_from_member, find_stalled_keys, find_stalled_members,
  find_stalled_set_items,
}
use ton_indexer.Ttl.Cleanup.Stalled.{IsStalled, find_stalled_keys_sound}
use mathlib.Core.List.{mem-cons_self, mem-cons_of_mem}

abbrev early : KeyExpiry
early = entry "early" 5

abbrev late : KeyExpiry
late = entry "late" 9

abbrev two : ExpiryTracker
two = record {
  heap = early ∷ late ∷ entry "late" 12 ∷ [];
  latest_expiries = ("early", 5) ∷ ("late", 12) ∷ [];
}

two-IsHeap : IsHeap two.heap
two-IsHeap zero p q = absurd (omega arith)
two-IsHeap (suc zero) p q = omega arith
two-IsHeap (suc (suc zero)) p q = omega arith
two-IsHeap (suc (suc (suc c))) p q = absurd (omega arith)

two-IsValid : IsValid two
unfolding lookup
two-IsValid = record {
  ordered = two-IsHeap;
  covers = λ k t e. elim (Bool-cases (str_eq "early" k)) [
    | inl p ↦
        let same : entry k t ≡ early = ground (arith, eq_iff "early" k) in rw same mem-cons_self
    | inr p ↦
        let same : entry k t ≡ entry "late" 12 =
          ground (arith, eq_iff "late" k, eq_iff "early" k) in
        rw same (mem-cons_of_mem early (mem-cons_of_mem late mem-cons_self))
  ];
}

run_two :
    get_expired two 10
    ≡ some
        (record { heap = entry "late" 12 ∷ []; latest_expiries = ("late", 12) ∷ [] }, "early" ∷ [])
unfolding get_expired lookup delete heap_pop less swap
run_two = refl

-- The entry of "early" in the heap is stale once it is tracked again.
abbrev calls : List Call
calls = report 4 ∷ track "early" 11 ∷ report 10 ∷ report 12 ∷ []

serve_test :
    serve calls two
    ≡ some (record { heap = []; latest_expiries = [] }, [] ∷ [] ∷ ("early" ∷ "late" ∷ []) ∷ [])
unfolding serve add get_expired insert lookup delete heap_push heap_pop less swap
serve_test = refl

serve-follow_example : Yields (λ r. seen r ≡ follow calls (deadlines two)) (serve calls two)
serve-follow_example = serve-follow calls two two-IsValid

tracked_key-reported_once_example :
    Yields
      (λ r. (total "late" (map counts r.1) ≡ 1) × (deadlines r.0 "late" ≡ none))
      (serve (track "late" 12 ∷ calls) two)
tracked_key-reported_once_example =
    tracked_key-reported_once "late" 12 calls two two-IsValid refl refl

get_expired_correct_example : Yields (Reports 10 two []) (get_expired two 10)
get_expired_correct_example = get_expired_correct 10 two two-IsValid

-- A clock that shows the state, and a Redis of one hash and one sorted set that fails to delete
-- three times.
abbrev fields : GoMap String
fields = ("root_node", "r") ∷ ("r", "emulated") ∷ ("m", "confirmed") ∷ ("x:y", "skipped") ∷ []

abbrev toy : World
toy = record {
  State = ℕ;
  now = λ s. (s, s);
  sleep = λ d s. s + d;
  cancelled = λ s. false;
  hgetall = λ k s. (ok fields, s);
  hexists = λ k f s. (ok true, s);
  del = λ k s. (if ltb s 3 then err (failure "down") else ok tt, s);
  zrange = λ k s. (ok ("early:1" ∷ []), s);
  zrem = λ k gone s. (ok tt, s);
  smembers = λ k s. (ok [], s);
  srem = λ k gone s. (ok tt, s);
  key_type = λ k s. (ok "zset", s);
  scan = λ c s. (ok ("early" ∷ [], 0), s);
}

abbrev settings : Settings
settings = record {
  ttls = record { default_trace_ttl = 60; synthetic_trace_ttl = 30; completed_trace_ttl = 20 };
  retries = record { max_retries = 3; base_delay = 1; max_delay = 8 };
}

abbrev node : String → Bool → TraceNode
node account emulated = record {
  transaction = record { account = account; out_msgs = [] };
  emulated = emulated;
}

abbrev unmarshal : String → Option TraceNode
unmarshal value = some (node "a" (str_eq value "emulated"))

abbrev trace : Bool → TraceData
trace emulated = record { root_node_key = "r"; nodes = ("r", node "a" emulated) ∷ [] }

abbrev tracker : Tracker list_sets
tracker = record {
  expiry = two;
  addresses = ("early", "a" ∷ "b" ∷ []) ∷ [];
  synthetic = ("a", "early" ∷ []) ∷ [];
}

setup_trace_ttl_correct_example :
    Yields
      (Scheduled list_sets toy unmarshal settings tracker "new" (some (trace true)) 4)
      (setup_trace_ttl list_sets toy unmarshal settings tracker "new" (some (trace true)) 4)
setup_trace_ttl_correct_example =
    setup_trace_ttl_correct list_sets toy unmarshal settings tracker "new" (some (trace true)) 4
      two-IsValid

abbrev emulated_root : TraceNode
emulated_root = node "a" true

abbrev confirmed_root : TraceNode
confirmed_root = node "a" false

handle_emulated_root_example :
    Yields
      (Tracked list_sets toy unmarshal settings tracker "new" "a")
      (handle_trace_emulation_status list_sets toy unmarshal settings tracker "new" (trace true) 4)
unfolding lookup
handle_emulated_root_example =
    handle_emulated_root list_sets toy unmarshal settings tracker "new" (trace true) emulated_root 4
      refl refl

handle_confirmed_root_example :
    Yields
      (Ended list_sets toy unmarshal settings tracker "new" "a")
      (handle_trace_emulation_status list_sets toy unmarshal settings tracker "new" (trace false) 4)
unfolding lookup
handle_confirmed_root_example =
    handle_confirmed_root list_sets toy unmarshal settings tracker "new" (trace false)
      confirmed_root 4 two-IsValid refl refl

handle_expired_keys_correct_example :
    Yields
      (λ r. Ticked list_sets toy unmarshal settings 10 tracker r.0)
      (handle_expired_keys list_sets toy unmarshal settings tracker 10)
handle_expired_keys_correct_example =
    handle_expired_keys_correct list_sets toy unmarshal settings tracker 10 two-IsValid

abbrev events : List Event
events = trace_message "new" ∷ refaccs_message "a;new" ∷ tick ∷ []

events_well_formed : AllWellFormed list_sets toy unmarshal settings events
unfolding split
events_well_formed = (tt, (omega arith, (tt, tt)))

run_keeps_example :
    Yields (λ r. IsValid r.0.expiry) (run list_sets toy unmarshal settings events tracker 10)
run_keeps_example =
    run_keeps list_sets toy unmarshal settings events tracker 10 events_well_formed two-IsValid

refaccs_message_panics_example :
    step list_sets toy unmarshal settings (refaccs_message "no separator") tracker 10 ≡ none
unfolding lacks
refaccs_message_panics_example =
    refaccs_message_panics list_sets toy unmarshal settings "no separator" tracker 10 refl

fields-IsUnique : IsUnique fields
unfolding lookup
fields-IsUnique = (refl, (refl, (refl, (refl, tt))))

read_fields_correct_example :
    ReadsAs unmarshal fields "key" (read_fields unmarshal fields "key")
    × ((k : String) → (is_skipped k ≡ true) ↔ IsReserved k)
read_fields_correct_example = read_fields_correct unmarshal fields "key" fields-IsUnique

trace_ttl-ttl_by_state_example :
    trace_ttl settings.ttls (some (trace false)) ≡ ttl_by_state settings.ttls (some (trace false))
trace_ttl-ttl_by_state_example = trace_ttl-ttl_by_state settings.ttls (some (trace false))

delete_key_with_retry_total_example :
    (delete_key_with_retry toy settings.retries "k" 0).0 ≢ out_of_fuel
delete_key_with_retry_total_example = delete_key_with_retry_total toy settings.retries "k" 0

find_stalled_keys_sound_example : IsStalled toy (λ s. []) (("k", tt) ∷ []) (("k", tt) ∷ []) "k"
unfolding find_stalled_keys lookup contains
find_stalled_keys_sound_example =
    find_stalled_keys_sound toy (λ s. []) (("k", tt) ∷ []) (("k", tt) ∷ []) 0 "k" refl

abbrev contents : GoMap (GoMap Bool)
contents = ("set", ("k:1", true) ∷ ("plain", true) ∷ []) ∷ []

-- The member without ':' has no trace key and stays.
stalled_items_test :
    find_stalled_set_items toy (λ s. []) contents contents 0 ≡ ("set", "k:1" ∷ []) ∷ []
unfolding find_stalled_set_items find_stalled_members extract_trace_keys_from_member is_member split
    has_key lookup
stalled_items_test = refl

-- A Redis of one sorted set, which is the state.
without_all : List String → List String → List String
without_all gone [] = []
without_all gone (x ∷ l) =
    let rest = without_all gone l in if contains gone x then rest else x ∷ rest

abbrev one_set : World
one_set = record {
  State = List String;
  now = λ s. (0, s);
  sleep = λ d s. s;
  cancelled = λ s. false;
  hgetall = λ k s. (ok [], s);
  hexists = λ k f s. (ok false, s);
  del = λ k s. (ok tt, s);
  zrange = λ k s. (ok s, s);
  zrem = λ k gone s. (ok tt, without_all gone s);
  smembers = λ k s. (ok [], s);
  srem = λ k gone s. (ok tt, s);
  key_type = λ k s. (ok "zset", s);
  scan = λ c s. (ok ([], 0), s);
}

contains-without_all :
    (gone l : List String) (x : String)
    → contains (without_all gone l) x ≡ (contains l x && not (contains gone x))
unfolding contains without_all
contains-without_all gone [] x = refl
contains-without_all gone (y ∷ l) x = ground (arith, contains-without_all gone l x, eq_iff y x)

one_set-SortedSets : SortedSets one_set
one_set-SortedSets = record {
  zrange_again = λ a members s e. e;
  zrange-zrem = λ a members gone s read done.
      (without_all gone s, refl, λ x. contains-without_all gone s x ∙ ground (arith, read));
}
