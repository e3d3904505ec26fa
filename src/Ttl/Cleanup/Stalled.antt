-- ===== src/Ttl/Cleanup/Stalled.antt =====
-- Which keys cleanup deletes.
use ton_indexer.Prelude.{
  ◌≡◌, String, true, false, ◌||◌, ◌&&◌, not, none, [], ◌∷◌, str_eq, eq_iff, ok, arith, contains,
  Bool-cases, inl, inr,
}
use ton_indexer.Prelude.GoMap.{GoMap, lookup}
use ton_indexer.Ttl.Heap.{Time}
use ton_indexer.Ttl.World.{World}
use ton_indexer.Ttl.Cleanup.{has_key, is_key_being_tracked, is_trace_data_key, find_stalled_keys}

module _ (w : World) (latest_at : w.State → GoMap Time) where
  open w use {State}

  -- The key was in both snapshots, and when it was looked at it was not tracked and had the field
  -- root_node.
  pub record IsStalled (old_keys new_keys : GoMap (Unit {0})) (key : String) : Type 0 where
    pub in_old : has_key key old_keys ≡ true
    pub in_new : has_key key new_keys ≡ true
    pub seen : State
    pub untracked : lookup key (latest_at seen) ≡ none
    pub is_trace : (w.hexists key "root_node" seen).0 ≡ ok true

  has_key-cons :
      (k key : String) (old_keys : GoMap (Unit {0}))
      → has_key key ((k, tt) ∷ old_keys) ≡ (str_eq k key || has_key key old_keys)
  unfolding lookup
  has_key-cons k key old_keys = ground arith

  untracked_lookup :
      (key : String) (s : State)
      → is_key_being_tracked w latest_at key s ≡ false
      → lookup key (latest_at s) ≡ none
  unfolding is_key_being_tracked
  untracked_lookup key s h = ground arith

  trace_reply :
      (key : String) (s : State)
      → (is_trace_data_key w latest_at key s).0 ≡ true
      → (w.hexists key "root_node" s).0 ≡ ok true
  unfolding is_trace_data_key
  trace_reply key s h = ground arith

  widen :
      (k key : String) (old_keys new_keys : GoMap (Unit {0}))
      → IsStalled old_keys new_keys key
      → IsStalled ((k, tt) ∷ old_keys) new_keys key
  widen k key old_keys new_keys h = record {
    in_old = ground (arith, has_key-cons k key old_keys, h.in_old);
    in_new = h.in_new;
    seen = h.seen;
    untracked = h.untracked;
    is_trace = h.is_trace;
  }

  -- cleanup deletes only keys that were in both snapshots, and that were not tracked and held a
  -- trace when it looked at them.
  pub find_stalled_keys_sound :
      (old_keys new_keys : GoMap (Unit {0})) (s : State) (key : String)
      → contains (find_stalled_keys w latest_at old_keys new_keys s).0 key ≡ true
      → IsStalled old_keys new_keys key
  unfolding find_stalled_keys contains
  find_stalled_keys_sound [] new_keys s key h = absurd (ground arith)
  find_stalled_keys_sound ((k, u) ∷ old_keys) new_keys s key h =
      elim (Bool-cases (has_key k new_keys && not (is_key_being_tracked w latest_at k s))) [
        | inr passed ↦
            widen k key old_keys new_keys
              (find_stalled_keys_sound old_keys new_keys s key (rw passed at h))
        | inl candidate ↦
            let s' = (is_trace_data_key w latest_at k s).1 in
            elim (Bool-cases (is_trace_data_key w latest_at k s).0) [
              | inr no_trace ↦
                  widen k key old_keys new_keys
                    (find_stalled_keys_sound old_keys new_keys s' key (ground arith))
              | inl trace ↦ elim (Bool-cases (str_eq k key)) [
                | inl here ↦ rw (← (eq_iff k key).0 here) (record {
                  in_old = ground (arith, has_key-cons k k old_keys, eq_iff k k);
                  in_new = ground arith;
                  seen = s;
                  untracked = untracked_lookup k s (ground arith);
                  is_trace = trace_reply k s trace;
                })
                | inr later ↦
                    widen k key old_keys new_keys
                      (find_stalled_keys_sound old_keys new_keys s' key (ground arith))
              ]
            ]
      ]
