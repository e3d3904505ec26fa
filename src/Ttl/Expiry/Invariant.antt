-- ===== src/Ttl/Expiry/Invariant.antt =====
-- The invariant of ExpiryTracker, and Add.
use mathlib.Core.List.Perm
use mathlib.Core.List.{mem-cons_self, mem-cons_of_mem}
use ton_indexer.Prelude.{
  ◌≡◌, some, String, ◌∷◌, Mem, Perm, arith, if◌then◌else◌, Yields, yields, Yields-bind, Bool-cases,
  eq_iff, str_eq, inl, inr,
}
use ton_indexer.Prelude.GoMap.{GoMap, lookup, insert, lookup-insert}
use ton_indexer.Ttl.Heap.{Time, KeyExpiry, ExpiryMinHeap}
use ton_indexer.Ttl.Heap.Order.{IsHeap}
use ton_indexer.Ttl.Heap.Laws.{heap_push_correct}
use ton_indexer.Ttl.Expiry.{ExpiryTracker, add}

abbrev pub entry : String → Time → KeyExpiry
entry k t = record { key = k; expiry_time = t }

-- The latest expiry of each tracked key is an entry of the heap.
abbrev pub Covers : ExpiryMinHeap → GoMap Time → Type 0
Covers h latest = (k : String) (t : Time) → lookup k latest ≡ some t → Mem (entry k t) h

pub record IsValid (et : ExpiryTracker) : Type 0 where
  pub ordered : IsHeap et.heap
  pub covers : Covers et.heap et.latest_expiries

-- The state after Add: the key has the new expiry, and every other key the one that it had.
pub record Added (et : ExpiryTracker) (key : String) (t : Time) (et' : ExpiryTracker) : Type 0 where
  pub valid : IsValid et'
  pub latest :
      (k : String)
      → lookup k et'.latest_expiries
        ≡ (if str_eq key k then some t else lookup k et.latest_expiries)
  pub same : Perm et'.heap (entry key t ∷ et.heap)

insert-Covers :
    (h : ExpiryMinHeap) (latest : GoMap Time) (key : String) (t : Time)
    → Covers h latest
    → Covers (entry key t ∷ h) (insert key t latest)
insert-Covers h latest key t c = λ k u e. elim (Bool-cases (str_eq key k)) [
  | inl same ↦
      let here : entry k u ≡ entry key t =
        ground (arith, lookup-insert key k t latest, eq_iff key k) in
      rw here mem-cons_self
  | inr other ↦ mem-cons_of_mem (entry key t) (c k u (ground (arith, lookup-insert key k t latest)))
]

-- Add on a valid tracker does not panic, keeps the tracker valid, sets the expiry of the key and
-- leaves that of every other key.
pub add_correct :
    (et : ExpiryTracker) (key : String) (t : Time)
    → IsValid et
    → Yields (Added et key t) (add et key t)
unfolding add
add_correct et key t v = Yields-bind (heap_push_correct et.heap (entry key t) v.ordered) λ h p.
    yields (record {
      valid = record {
        ordered = p.ordered;
        covers = λ k u e.
            (Perm.mem_iff p.same).1 (insert-Covers et.heap et.latest_expiries key t v.covers k u e);
      };
      latest = λ k. lookup-insert key k t et.latest_expiries;
      same = p.same;
    })
