-- ===== src/Ttl/Expiry.antt =====
-- ExpiryTracker of ton-trace-ttl-tracker/main.go. The mutex makes each method one step.
pub mod Deadlines
pub mod Invariant
pub mod Expired
pub mod Refine
use ton_indexer.Prelude.{
  ℕ, zero, suc, Option, none, some, String, List, [], ◌∷◌, ◌++◌, ltb, if◌then◌else◌, length,
  get_elem?, ◌>>=◌,
}
use ton_indexer.Prelude.GoMap.{GoMap, lookup, insert, delete}
use ton_indexer.Ttl.Heap.{Time, KeyExpiry, ExpiryMinHeap, heap_push, heap_pop}

pub record ExpiryTracker : Type 0 where
  pub heap : ExpiryMinHeap
  pub latest_expiries : GoMap Time

-- NewExpiryTracker
abbrev pub new_expiry_tracker : ExpiryTracker
new_expiry_tracker = record { heap = []; latest_expiries = [] }

-- Add
unfoldable pub add : ExpiryTracker → String → Time → Option ExpiryTracker
add et key expiry_time = do
  let latest = insert key expiry_time et.latest_expiries
  h ← heap_push et.heap (record { key = key; expiry_time = expiry_time })
  some (record { heap = h; latest_expiries = latest })

-- The body of the loop of GetExpired after its Pop: the entry is skipped if its key is not tracked
-- or has a later expiry, and else reported.
unfoldable pub settle : KeyExpiry → ExpiryTracker → List String → ExpiryTracker × List String
settle popped et expired = elim (lookup popped.key et.latest_expiries) [
  | none ↦ (et, expired)
  | some latest ↦ if ltb popped.expiry_time latest then (et, expired) else (
    record et { latest_expiries = delete popped.key et.latest_expiries },
    expired ++ popped.key ∷ [],
  )
]

-- The loop of GetExpired. Each round takes an entry out of the heap, so the length of the heap is
-- fuel enough.
unfoldable pub get_expired_loop :
    ℕ → ExpiryTracker → Time → List String → Option (ExpiryTracker × List String)
get_expired_loop zero et now expired = elim (get_elem? et.heap 0) [
  | none ↦ some (et, expired)
  | some top ↦ if ltb now top.expiry_time then some (et, expired) else none
]
get_expired_loop (suc fuel) et now expired = elim (get_elem? et.heap 0) [
  | none ↦ some (et, expired)
  | some top ↦
      let round = (do
        (popped, h) ← heap_pop et.heap
        let s = settle popped (record et { heap = h }) expired
        get_expired_loop fuel s.0 now s.1) in
      if ltb now top.expiry_time then some (et, expired) else round
]

-- GetExpired
unfoldable pub get_expired : ExpiryTracker → Time → Option (ExpiryTracker × List String)
unfolding get_expired_loop settle
get_expired et now = get_expired_loop (length et.heap) et now []
