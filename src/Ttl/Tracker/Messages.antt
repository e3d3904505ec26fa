-- ===== src/Ttl/Tracker/Messages.antt =====
-- What the handlers of listenForKeys do with a tracker.
use ton_indexer.Prelude.{
  ◌+◌, ◌≡◌, refl, String, true, false, ◌||◌, ◌&&◌, not, Option, none, some, List, [], ◌∷◌, str_eq,
  eq_iff, if◌then◌else◌, arith, Yields, yields, Yields-bind, Yields-map, Yields-if, Bool-cases,
  Option-cases, inl, inr, contains, ok, err, Result,
}
use ton_indexer.Prelude.GoMap.{lookup}
use ton_indexer.MapSet.{MapSet}
use ton_indexer.Ttl.World.{World}
use ton_indexer.Ttl.Expiry.{ExpiryTracker}
use ton_indexer.Ttl.Expiry.Invariant.{IsValid, add_correct}
use ton_indexer.Ttl.Trace.{ReadError, read_trace, TraceNode, TraceData}
use ton_indexer.Ttl.Trace.Policy.{ttl_by_state, trace_ttl-ttl_by_state}
use ton_indexer.Ttl.Synthetic.{clear_synthetic_traces}
use ton_indexer.Ttl.Synthetic.Laws.{
  holds, clear_synthetic_traces_correct, holds-add_synthetic_trace,
}
use ton_indexer.Ttl.Tracker.{
  Tracker, Settings, setup_trace_ttl, on_trace_message, take_trace, collect_and_merge_addresses,
  expire_cleared, handle_trace_emulation_status,
}

module _ (sets : MapSet) (w : World) (unmarshal : String → Option TraceNode)
    (settings : Settings) where
  open w use {State}

  -- The key expires when the TTL of its trace has passed.
  pub record Scheduled (t : Tracker sets) (key : String) (read : Option TraceData) (s : State)
      (r : Tracker sets × State) : Type 0 where
    pub valid : IsValid r.0.expiry
    pub latest :
        (k : String)
        → lookup k r.0.expiry.latest_expiries ≡ (
            if str_eq key k
            then some ((w.now s).0 + ttl_by_state settings.ttls read)
            else lookup k t.expiry.latest_expiries)
    pub addresses : r.0.addresses ≡ t.addresses
    pub synthetic : r.0.synthetic ≡ t.synthetic

  -- setupTraceTtl on a valid tracker does not panic: the key expires when the TTL that its trace gets
  -- by its state has passed from now, and nothing else of the tracker is changed.
  pub setup_trace_ttl_correct :
      (t : Tracker sets) (key : String) (read : Option TraceData) (s : State)
      → IsValid t.expiry
      → Yields (Scheduled t key read s) (setup_trace_ttl sets w unmarshal settings t key read s)
  unfolding setup_trace_ttl
  setup_trace_ttl_correct t key read s v = rw (trace_ttl-ttl_by_state settings.ttls read) (
      Yields-bind (add_correct t.expiry key _ v) λ e a.
        yields (record { valid = a.valid; latest = a.latest; addresses = refl; synthetic = refl }))

  -- After the loop over the cleared traces: each but the new one has an expiry that the clock
  -- showed in the loop, and every other key has the one that it had.
  pub record Expired (key : String) (cleared : List String) (e : ExpiryTracker)
      (r : ExpiryTracker × State) : Type 0 where
    pub valid : IsValid r.0
    pub others :
        (k : String)
        → (contains cleared k && not (str_eq k key)) ≡ false
        → lookup k r.0.latest_expiries ≡ lookup k e.latest_expiries
    pub expired :
        (k : String)
        → (contains cleared k && not (str_eq k key)) ≡ true
        → (s : State) × (lookup k r.0.latest_expiries ≡ some (w.now s).0)

  expire_cleared_correct :
      (key : String) (cleared : List String) (e : ExpiryTracker) (s : State)
      → IsValid e
      → Yields (Expired key cleared e) (expire_cleared sets w unmarshal settings key cleared e s)
  unfolding expire_cleared contains
  expire_cleared_correct key [] e s v =
      yields (record { valid = v; others = λ k h. refl; expired = λ k h. absurd (ground arith) })
  expire_cleared_correct key (x ∷ cleared) e s v =
      Yields-if (str_eq x key)
        (λ own. Yields-map (expire_cleared_correct key cleared e s v) λ r p. record {
          valid = p.valid;
          others = λ k h. p.others k (ground (arith, eq_iff x key, eq_iff k key, eq_iff x k));
          expired = λ k h. p.expired k (ground (arith, eq_iff x key, eq_iff k key, eq_iff x k));
        })
        (λ other. Yields-bind (add_correct e x (w.now s).0 v) λ e' a.
          Yields-map (expire_cleared_correct key cleared e' (w.now s).1 a.valid) λ r p. record {
            valid = p.valid;
            others = λ k h.
                ground (arith, eq_iff x key, eq_iff k key, eq_iff x k, p.others k, a.latest k);
            expired = λ k h. elim (Bool-cases (contains cleared k)) [
              | inl again ↦ p.expired k (ground arith)
              | inr last ↦ (s, ground (arith, eq_iff x k, p.others k, a.latest k))
            ];
          })

  -- The synthetic traces of the account are ended by a trace with the key.
  pub record Ended (t : Tracker sets) (key account : String) (r : Tracker sets × State)
      : Type 0 where
    pub valid : IsValid r.0.expiry
    pub addresses : r.0.addresses ≡ t.addresses
    pub traces :
        (a u : String)
        → holds sets r.0.synthetic a u
          ≡ (if str_eq account a then false else holds sets t.synthetic a u)
    pub others :
        (k : String)
        → (holds sets t.synthetic account k && not (str_eq k key)) ≡ false
        → lookup k r.0.expiry.latest_expiries ≡ lookup k t.expiry.latest_expiries
    pub expired :
        (k : String)
        → (holds sets t.synthetic account k && not (str_eq k key)) ≡ true
        → (s : State) × (lookup k r.0.expiry.latest_expiries ≡ some (w.now s).0)

  -- If the root of a trace is not emulated, handleTraceEmulationStatus on a valid tracker does not
  -- panic and ends the synthetic traces of the root's account: the account has none any more, each
  -- of them but the new trace itself gets an expiry that the clock showed, and the expiries of all
  -- other keys, the traces of other accounts and the addresses stay.
  pub handle_confirmed_root :
      (t : Tracker sets) (key : String) (d : TraceData) (root : TraceNode) (s : State)
      → IsValid t.expiry
      → lookup d.root_node_key d.nodes ≡ some root
      → root.emulated ≡ false
      → Yields
          (Ended t key root.transaction.account)
          (handle_trace_emulation_status sets w unmarshal settings t key d s)
  unfolding handle_trace_emulation_status
  handle_confirmed_root t key d root s v found confirmed =
      let account = root.transaction.account in
      let c = clear_synthetic_traces_correct sets t.synthetic account in
      let cleared = (clear_synthetic_traces sets t.synthetic account).1 in
      rw (found, handle_trace_emulation_status)
        (rw confirmed (
          Yields-bind (expire_cleared_correct key cleared t.expiry s v) λ r p. yields (record {
            valid = p.valid;
            addresses = refl;
            traces = c.left;
            others = λ k h. p.others k (rw (c.returned k) h);
            expired = λ k h. p.expired k (rw (c.returned k) h);
          })))

  -- An emulated root is tracked for its account, and nothing else changes.
  pub record Tracked (t : Tracker sets) (key account : String) (r : Tracker sets × State)
      : Type 0 where
    pub expiry : r.0.expiry ≡ t.expiry
    pub addresses : r.0.addresses ≡ t.addresses
    pub traces :
        (a u : String)
        → holds sets r.0.synthetic a u
          ≡ ((str_eq account a && str_eq key u) || holds sets t.synthetic a u)

  -- When the root of a trace is found and is emulated, handleTraceEmulationStatus does not panic; it
  -- adds the trace to the synthetic traces of the root's account, and leaves the other synthetic
  -- traces, the expiries and the addresses as they were.
  pub handle_emulated_root :
      (t : Tracker sets) (key : String) (d : TraceData) (root : TraceNode) (s : State)
      → lookup d.root_node_key d.nodes ≡ some root
      → root.emulated ≡ true
      → Yields
          (Tracked t key root.transaction.account)
          (handle_trace_emulation_status sets w unmarshal settings t key d s)
  unfolding handle_trace_emulation_status
  handle_emulated_root t key d root s found emulated =
      rw (found, handle_trace_emulation_status)
        (rw emulated (
          yields (record {
            expiry = refl;
            addresses = refl;
            traces = holds-add_synthetic_trace sets t.synthetic root.transaction.account key;
          })))

  handle_keeps :
      (t : Tracker sets) (key : String) (d : TraceData) (s : State)
      → IsValid t.expiry
      → Yields
          (λ r. IsValid r.0.expiry)
          (handle_trace_emulation_status sets w unmarshal settings t key d s)
  unfolding handle_trace_emulation_status
  handle_keeps t key d s v = elim (Option-cases (lookup d.root_node_key d.nodes)) [
    | inl e ↦ rw (e, handle_trace_emulation_status) (yields v)
    | inr (root, e) ↦ elim (Bool-cases root.emulated) [
      | inl emulated ↦
          Yields-map (handle_emulated_root t key d root s e emulated) λ r p. rw p.expiry v
      | inr confirmed ↦
          Yields-map (handle_confirmed_root t key d root s v e confirmed) λ r p. p.valid
    ]
  ]

  take_trace_keeps :
      (t : Tracker sets) (key : String) (read : Result ReadError TraceData) (s : State)
      → IsValid t.expiry
      → Yields (λ r. IsValid r.0.expiry) (take_trace sets w unmarshal settings t key read s)
  unfolding take_trace collect_and_merge_addresses
  take_trace_keeps t key (err e) s v =
      Yields-map (setup_trace_ttl_correct t key none s v) λ r p. p.valid
  take_trace_keeps t key (ok d) s v =
      Yields-bind (setup_trace_ttl_correct t key (some d) s v)
        λ (t1, s1) p. Yields-bind (handle_keeps t1 key d s1 p.valid) λ (t2, s2) v2. yields v2

  -- A message of the channel of traces never makes a valid tracker panic, and keeps it valid.
  pub on_trace_message_keeps :
      (t : Tracker sets) (key : String) (s : State)
      → IsValid t.expiry
      → Yields (λ r. IsValid r.0.expiry) (on_trace_message sets w unmarshal settings t key s)
  unfolding on_trace_message
  on_trace_message_keeps t key s v =
      take_trace_keeps t key (read_trace unmarshal w key s).0 (read_trace unmarshal w key s).1 v
