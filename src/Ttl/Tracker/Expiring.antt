-- ===== src/Ttl/Tracker/Expiring.antt =====
-- handleExpiredKeys, and runs of the tracker.
use ton_indexer.Prelude.{
  ◌<◌, ◌≡◌, refl, fun_ext, ◌∙◌, String, Bool, true, false, ◌&&◌, not, Option, none, some, List, [],
  ◌∷◌, if◌then◌else◌, arith, length, get_elem?, Yields, yields, Yields-bind, Yields-map, contains,
  count, ◌==◌, ◌>>=◌,
}
use ton_indexer.Prelude.Text.{split, lacks, split-lacks}
use ton_indexer.Prelude.GoMap.{GoMap, lookup, IsUnique}
use ton_indexer.MapSet.{MapSet}
use ton_indexer.Ttl.Heap.{Time}
use ton_indexer.Ttl.World.{World}
use ton_indexer.Ttl.Expiry.{ExpiryTracker}
use ton_indexer.Ttl.Expiry.Invariant.{IsValid}
use ton_indexer.Ttl.Expiry.Deadlines.{due}
use ton_indexer.Ttl.Expiry.Expired.{Reports, get_expired_correct}
use ton_indexer.Ttl.Trace.{TraceNode}
use ton_indexer.Ttl.Addresses.{merge_addresses, get_addresses, remove_key, get_addresses-remove_key}
use ton_indexer.Ttl.Synthetic.{remove_trace}
use ton_indexer.Ttl.Synthetic.Laws.{holds, IsSole, holds-remove_trace, remove_trace-IsUnique}
use ton_indexer.Ttl.Tracker.{
  Tracker, Settings, Event, trace_message, refaccs_message, tick, collect_addresses_and_delete_hash,
  gather_addresses, clean_up, handle_expired_keys, on_refaccs_message, step, run,
}
use ton_indexer.Ttl.Tracker.Messages.{on_trace_message_keeps}

contains-count :
    (k : String) (l : List String) → contains l k ≡ (if count k l == 0 then false else true)
unfolding contains count
contains-count k [] = refl
contains-count k (x ∷ l) = ground (arith, contains-count k l)

module _ (sets : MapSet) (w : World) (unmarshal : String → Option TraceNode)
    (settings : Settings) where
  open w use {State}

  -- The addresses collected for a key.
  abbrev pub collected : Tracker sets → String → String → Bool
  collected t k a = sets.contains_one (get_addresses sets t.addresses k) a

  -- Each account is in the map of synthetic traces once, and each trace is in one set at most.
  pub record IsSound (t : Tracker sets) : Type 0 where
    pub unique : IsUnique t.synthetic
    pub sole : (u : String) → IsSole sets t.synthetic u

  -- The keys are forgotten, and nothing else.
  pub record Forgets (gone : String → Bool) (t r : Tracker sets) : Type 0 where
    pub addresses : (k a : String) → collected r k a ≡ (if gone k then false else collected t k a)
    pub sound : IsSound t → IsSound r
    pub synthetic :
        IsSound t
        → (a u : String) → holds sets r.synthetic a u ≡ (not (gone u) && holds sets t.synthetic a u)

  remove_trace-IsSound :
      (t : Tracker sets) (key : String) (addresses : GoMap sets.Carrier)
      → IsSound t
      → IsSound (record t { synthetic = remove_trace sets t.synthetic key; addresses = addresses })
  remove_trace-IsSound t key addresses h = record {
    unique = remove_trace-IsUnique sets t.synthetic key h.unique;
    sole = λ u a b p q.
        let here = holds-remove_trace sets t.synthetic key h.unique (h.sole key) in
        h.sole u a b (ground (arith, here a u)) (ground (arith, here b u));
  }

  gather_addresses-Forgets :
      (keys : List String) (t : Tracker sets) (m : GoMap (List String)) (s : State)
      → ((gather_addresses sets w unmarshal settings keys t m s).0.expiry ≡ t.expiry)
        × Forgets (contains keys) t (gather_addresses sets w unmarshal settings keys t m s).0
  unfolding gather_addresses collect_addresses_and_delete_hash contains
  gather_addresses-Forgets [] t m s =
      (refl, record { addresses = λ k a. refl; sound = λ h. h; synthetic = λ h a u. refl })
  gather_addresses-Forgets (key ∷ keys) t m s =
      let (same, f) =
        gather_addresses-Forgets keys
          (record t {
            synthetic = remove_trace sets t.synthetic key;
            addresses = remove_key sets t.addresses key;
          })
          _ _ in
      (
        same,
        record {
          addresses = λ k a.
              f.addresses k a ∙ ground (arith, get_addresses-remove_key sets t.addresses key k a);
          sound = λ h. f.sound (remove_trace-IsSound t key _ h);
          synthetic = λ h a u.
              f.synthetic (remove_trace-IsSound t key _ h) a u
              ∙ ground (arith, holds-remove_trace sets t.synthetic key h.unique (h.sole key) a u);
        },
      )

  clean_up-Forgets :
      (keys : List String) (t : Tracker sets) (s : State)
      → ((clean_up sets w unmarshal settings keys t s).0.expiry ≡ t.expiry)
        × Forgets (contains keys) t (clean_up sets w unmarshal settings keys t s).0
  unfolding clean_up gather_addresses
  clean_up-Forgets [] t s = gather_addresses-Forgets [] t [] s
  clean_up-Forgets (key ∷ keys) t s = gather_addresses-Forgets (key ∷ keys) t [] s

  -- After a tick at which the clock shows `now`: the keys that were due are not tracked any more,
  -- their addresses are forgotten and their synthetic traces too; all else is as before.
  pub record Ticked (now : Time) (t r : Tracker sets) : Type 0 where
    pub valid : IsValid r.expiry
    pub latest :
        (k : String)
        → lookup k r.expiry.latest_expiries ≡ (
            if due now (lookup k t.expiry.latest_expiries)
            then none
            else lookup k t.expiry.latest_expiries)
    pub forgets : Forgets (λ k. due now (lookup k t.expiry.latest_expiries)) t r

  reported_once :
      (now : Time) (t : Tracker sets) (e : ExpiryTracker) (expired : List String)
      → Reports now t.expiry [] (e, expired)
      → contains expired ≡ (λ k. due now (lookup k t.expiry.latest_expiries))
  unfolding count
  reported_once now t e expired p =
      fun_ext λ k. ground (arith, contains-count k expired, p.reported k)

  -- handleExpiredKeys on a valid tracker does not panic, whatever Redis answers, and forgets exactly
  -- the keys that are due.
  pub handle_expired_keys_correct :
      (t : Tracker sets) (s : State)
      → IsValid t.expiry
      → Yields (λ r. Ticked (w.now s).0 t r.0) (handle_expired_keys sets w unmarshal settings t s)
  unfolding handle_expired_keys
  handle_expired_keys_correct t s v =
      Yields-bind (get_expired_correct (w.now s).0 t.expiry v) λ (e, expired) p.
        let (same, f) = clean_up-Forgets expired (record t { expiry = e }) (w.now s).1 in
        yields (record {
          valid = rw same p.valid;
          latest = λ k. rw same (p.left k);
          forgets = rw (← reported_once (w.now s).0 t e expired p) (record {
            addresses = f.addresses;
            sound = λ h. f.sound (record { unique = h.unique; sole = h.sole });
            synthetic = λ h. f.synthetic (record { unique = h.unique; sole = h.sole });
          });
        })

  -- A message of referenced accounts has the form account;trace.
  abbrev pub IsWellFormed : Event → Type 0
  IsWellFormed (refaccs_message payload) = 1 < length (split b';' payload)
  IsWellFormed (trace_message key) = Unit
  IsWellFormed tick = Unit

  abbrev pub AllWellFormed : List Event → Type 0
  AllWellFormed [] = Unit
  AllWellFormed (e ∷ events) = IsWellFormed e × AllWellFormed events

  on_refaccs_message_keeps :
      (t : Tracker sets) (payload : String)
      → 1 < length (split b';' payload)
      → Yields (λ r. r.expiry ≡ t.expiry) (on_refaccs_message sets w unmarshal settings t payload)
  unfolding on_refaccs_message
  on_refaccs_message_keeps t payload h = go (split b';' payload) h
    where
      go :
          (tokens : List String)
          → 1 < length tokens
          → Yields
              (λ (r : Tracker sets). r.expiry ≡ t.expiry)
              (do
                account ← get_elem? tokens 0
                trace_id ← get_elem? tokens 1
                some (record t {
                  addresses = merge_addresses sets t.addresses trace_id (account ∷ []);
                }))
      go [] p = absurd (omega arith)
      go (a ∷ []) p = absurd (omega arith)
      go (a ∷ b ∷ rest) p = yields refl

  step_keeps :
      (e : Event) (t : Tracker sets) (s : State)
      → IsWellFormed e
      → IsValid t.expiry
      → Yields (λ r. IsValid r.0.expiry) (step sets w unmarshal settings e t s)
  unfolding step
  step_keeps (trace_message key) t s h v =
      on_trace_message_keeps sets w unmarshal settings t key s v
  step_keeps (refaccs_message payload) t s h v =
      Yields-bind (on_refaccs_message_keeps t payload h) λ r e. yields (rw e v)
  step_keeps tick t s h v = Yields-map (handle_expired_keys_correct t s v) λ r p. p.valid

  -- From a valid tracker, no run of well-formed messages and ticks panics, whatever Redis and the
  -- clock answer, and the tracker stays valid.
  pub run_keeps :
      (events : List Event) (t : Tracker sets) (s : State)
      → AllWellFormed events
      → IsValid t.expiry
      → Yields (λ r. IsValid r.0.expiry) (run sets w unmarshal settings events t s)
  unfolding run
  run_keeps [] t s h v = yields v
  run_keeps (e ∷ events) t s h v =
      Yields-bind (step_keeps e t s h.0 v) λ (t', s') v'. run_keeps events t' s' h.1 v'

  -- A message of referenced accounts without a ';' makes listenForKeys panic.
  pub refaccs_message_panics :
      (payload : String) (t : Tracker sets) (s : State)
      → lacks b';' payload ≡ true
      → step sets w unmarshal settings (refaccs_message payload) t s ≡ none
  unfolding step on_refaccs_message
  refaccs_message_panics payload t s h = rw (split-lacks b';' payload h)
