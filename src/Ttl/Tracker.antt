-- ===== src/Ttl/Tracker.antt =====
-- RedisTTLTracker of ton-trace-ttl-tracker/main.go: what it does with a message of each channel
-- and with a tick of its timer. An outer `none` is a panic.
pub mod Messages
pub mod Expiring
use ton_indexer.Prelude.{
  ℕ, ◌+◌, String, Bool, Option, none, some, List, [], ◌∷◌, ◌++◌, str_eq, get_elem?, if◌then◌else◌,
  ◌>>=◌, ok, err, Result,
}
use ton_indexer.Prelude.Text.{split, concat}
use ton_indexer.Prelude.GoMap.{GoMap, lookup, insert}
use ton_indexer.MapSet.{MapSet}
use ton_indexer.Ttl.Heap.{Time}
use ton_indexer.Ttl.World.{World, RedisError}
use ton_indexer.Ttl.Expiry.{ExpiryTracker, new_expiry_tracker, add, get_expired}
use ton_indexer.Ttl.Synthetic.{add_synthetic_trace, clear_synthetic_traces, remove_trace}
use ton_indexer.Ttl.Addresses.{merge_addresses, get_addresses, remove_key}
use ton_indexer.Ttl.Trace.{TraceNode, TraceData, Ttls, ReadError, read_trace, trace_ttl}
use ton_indexer.Ttl.Retry.{
  Retries, Outcome, deleted, exceeded, context_error, out_of_fuel, delete_key_with_retry,
}
use ton_indexer.Ttl.SortedSet.{SetError, remove_keys_from_sorted_set}

pub record Settings : Type 0 where
  pub ttls : Ttls
  pub retries : Retries

-- addressToKeys[addr] = append(addressToKeys[addr], key), for each address
unfoldable pub note_key : String → List String → GoMap (List String) → GoMap (List String)
note_key key [] m = m
note_key key (addr ∷ addresses) m = note_key key addresses (elim (lookup addr m) [
  | none ↦ insert addr (key ∷ []) m
  | some keys ↦ insert addr (keys ++ key ∷ []) m
])

unfoldable pub node_accounts : GoMap TraceNode → List String
node_accounts [] = []
node_accounts ((key, node) ∷ nodes) = node.transaction.account ∷ node_accounts nodes

module _ (sets : MapSet) where
  pub record Tracker : Type 0 where
    pub expiry : ExpiryTracker
    pub addresses : GoMap sets.Carrier
    pub synthetic : GoMap sets.Carrier

  -- NewRedisTTLTracker
  abbrev pub new_tracker : Tracker
  new_tracker = record { expiry = new_expiry_tracker; addresses = []; synthetic = [] }

-- A message of the channel of traces or of referenced accounts, or a tick of the timer.
pub data Event : Type 0 where
  trace_message : String → Event
  refaccs_message : String → Event
  tick : Event

module _ (sets : MapSet) (w : World) (unmarshal : String → Option TraceNode)
    (settings : Settings) where
  open w use {State}

  -- setupTraceTtl
  unfoldable pub setup_trace_ttl :
      Tracker sets → String → Option TraceData → State → Option (Tracker sets × State)
  setup_trace_ttl t hash_key read s = do
    let ttl = trace_ttl settings.ttls read
    let (now, s') = w.now s
    e ← add t.expiry hash_key (now + ttl)
    some (record t { expiry = e }, s')

  -- The loop of handleTraceEmulationStatus over the cleared traces: each but the new one expires
  -- at once.
  unfoldable pub expire_cleared :
      String → List String → ExpiryTracker → State → Option (ExpiryTracker × State)
  expire_cleared hash_key [] e s = some (e, s)
  expire_cleared hash_key (trace_id ∷ cleared) e s =
      let skip = expire_cleared hash_key cleared e s in
      let expire = (do
        let (now, s') = w.now s
        e' ← add e trace_id now
        expire_cleared hash_key cleared e' s') in
      if str_eq trace_id hash_key then skip else expire

  -- handleTraceEmulationStatus
  unfoldable pub handle_trace_emulation_status :
      Tracker sets → String → TraceData → State → Option (Tracker sets × State)
  unfolding expire_cleared
  handle_trace_emulation_status t hash_key d s = elim (lookup d.root_node_key d.nodes) [
    | none ↦ some (t, s)
    | some root ↦
        let account = root.transaction.account in
        if root.emulated
        then some
            (record t { synthetic = add_synthetic_trace sets t.synthetic account hash_key }, s)
        else (do
          let (synthetic, cleared) = clear_synthetic_traces sets t.synthetic account
          (e, s') ← expire_cleared hash_key cleared t.expiry s
          some (record t { expiry = e; synthetic = synthetic }, s'))
  ]

  -- collectAndMergeAddresses
  unfoldable pub collect_and_merge_addresses : Tracker sets → String → TraceData → Tracker sets
  unfolding node_accounts
  collect_and_merge_addresses t hash_key d = record t {
    addresses = merge_addresses sets t.addresses hash_key (node_accounts d.nodes);
  }

  -- What follows the reading of a trace: on an error the key gets its default TTL, and no more.
  unfoldable pub take_trace :
      Tracker sets → String → Result ReadError TraceData → State → Option (Tracker sets × State)
  take_trace t key (err e) s = setup_trace_ttl t key none s
  take_trace t key (ok d) s = do
    (t1, s1) ← setup_trace_ttl t key (some d) s
    (t2, s2) ← handle_trace_emulation_status t1 key d s1
    some (collect_and_merge_addresses t2 key d, s2)

  -- listenForKeys, on a message of the channel of new traces
  unfoldable pub on_trace_message : Tracker sets → String → State → Option (Tracker sets × State)
  on_trace_message t key s =
      let (read, s') = read_trace unmarshal w key s in take_trace t key read s'

  -- listenForKeys, on a message of the channel of referenced accounts: tokens[0] and tokens[1]
  -- panic if the message has no ';'
  unfoldable pub on_refaccs_message : Tracker sets → String → Option (Tracker sets)
  on_refaccs_message t payload = do
    let tokens = split b';' payload
    account ← get_elem? tokens 0
    trace_id ← get_elem? tokens 1
    some (record t { addresses = merge_addresses sets t.addresses trace_id (account ∷ []) })

  -- collectAddressesAndDeleteHash
  unfoldable pub collect_addresses_and_delete_hash :
      GoMap sets.Carrier → String → State → GoMap sets.Carrier × List String × Outcome × State
  collect_addresses_and_delete_hash collected hash_key s =
      let addresses = sets.iter (get_addresses sets collected hash_key) in
      let (outcome, s') = delete_key_with_retry w settings.retries hash_key s in
      (remove_key sets collected hash_key, addresses, outcome, s')

  -- The first loop of handleExpiredKeys. The addresses of a key whose deletion fails are dropped.
  unfoldable pub gather_addresses :
      List String
      → Tracker sets
      → GoMap (List String)
      → State
      → Tracker sets × GoMap (List String) × State
  unfolding note_key
  gather_addresses [] t address_to_keys s = (t, address_to_keys, s)
  gather_addresses (key ∷ keys) t address_to_keys s =
      let synthetic = remove_trace sets t.synthetic key in
      let (collected, addresses, outcome, s') =
        collect_addresses_and_delete_hash t.addresses key s in
      gather_addresses keys (record t { synthetic = synthetic; addresses = collected })
        (elim outcome [ deleted ↦ note_key key addresses address_to_keys | _ ↦ address_to_keys ]) s'

  -- The two loops of handleExpiredKeys over the addresses; an error is logged and passed over.
  unfoldable pub clean_sorted_sets : String → GoMap (List String) → State → State
  clean_sorted_sets prefix [] s = s
  clean_sorted_sets prefix ((addr, keys) ∷ rest) s =
      clean_sorted_sets prefix rest (remove_keys_from_sorted_set w (concat prefix addr) keys s).1

  -- handleExpiredKeys, from its early return on
  unfoldable pub clean_up : List String → Tracker sets → State → Tracker sets × State
  unfolding gather_addresses clean_sorted_sets
  clean_up [] t s = (t, s)
  clean_up (key ∷ keys) t s =
      let (t', address_to_keys, s') = gather_addresses (key ∷ keys) t [] s in
      (t', clean_sorted_sets "_aai:" address_to_keys (clean_sorted_sets "" address_to_keys s'))

  -- handleExpiredKeys
  unfoldable pub handle_expired_keys : Tracker sets → State → Option (Tracker sets × State)
  handle_expired_keys t s = do
    let (now, s') = w.now s
    (e, expired) ← get_expired t.expiry now
    some (clean_up expired (record t { expiry = e }) s')

  -- One round of listenForKeys or of periodicExpiryCheck.
  unfoldable pub step : Event → Tracker sets → State → Option (Tracker sets × State)
  step (trace_message key) t s = on_trace_message t key s
  step (refaccs_message payload) t s = do t' ← on_refaccs_message t payload; some (t', s)
  step tick t s = handle_expired_keys t s

  -- The rounds that a schedule of the two goroutines makes, in turn.
  unfoldable pub run : List Event → Tracker sets → State → Option (Tracker sets × State)
  run [] t s = some (t, s)
  run (e ∷ events) t s = do (t', s') ← step e t s; run events t' s'
