-- ===== src/Ttl/Heap/Laws.antt =====
-- heap.Push and heap.Pop as a whole.
use mathlib.Core.List.Perm
use mathlib.Core.List.{not-mem-nil, forall_mem-cons}
use native.Mathlib.Bridge.{le_prop}
use ton_indexer.Prelude.{
  ℕ, suc, ◌-◌, ◌≤◌, ◌<◌, ◌≡◌, [], ◌∷◌, ◌++◌, Mem, Perm, some, arith, length, take, length-append,
  get_or-append, get_or-take, length-take_le, take-append-get_or, length-perm, snoc-perm,
  get_elem?-get_or, Yields, yields, Yields-map, Yields-bind,
}
use ton_indexer.Ttl.Heap.{Time, KeyExpiry, ExpiryMinHeap, pop_back, heap_push, heap_pop}
use ton_indexer.Ttl.Heap.Order.{
  zero_entry, at, time_at, parent, IsHeap, exchange, swap_in_range, at-exchange, exchange-perm,
  length-exchange, root_least,
}
use ton_indexer.Ttl.Heap.Up.{UpInv, up_restores}
use ton_indexer.Ttl.Heap.Down.{DownInv, Sifted, down_restores}

-- A heap of the entries of `h` and `x`.
pub record Pushed (h : ExpiryMinHeap) (x : KeyExpiry) (h' : ExpiryMinHeap) : Type 0 where
  pub ordered : IsHeap h'
  pub same : Perm h' (x ∷ h)

push_back-UpInv :
    (h : ExpiryMinHeap) (x : KeyExpiry) → IsHeap h → UpInv (h ++ x ∷ []) (length (h ++ x ∷ []) - 1)
push_back-UpInv h x o =
    let size = length-append h (x ∷ []) in
    let old = get_or-append h (x ∷ []) in
    record {
      inside = omega (arith, size);
      edges = λ c p q r. ground (arith, size, o c, old c zero_entry, old (parent c) zero_entry);
      bridged = λ c p q. omega (arith, size);
    }

-- heap.Push keeps the heap order, adds exactly the entry, and does not panic.
pub heap_push_correct :
    (h : ExpiryMinHeap) (x : KeyExpiry) → IsHeap h → Yields (Pushed h x) (heap_push h x)
unfolding heap_push
heap_push_correct h x o =
    Yields-map (up_restores (h ++ x ∷ []) _ (push_back-UpInv h x o))
      λ h' (ordered, same). record { ordered = ordered; same = Perm.trans same (snoc-perm h x) }

-- The entry that Pop returned is the first one, and no entry is earlier.
pub record Popped (h : ExpiryMinHeap) (r : KeyExpiry × ExpiryMinHeap) : Type 0 where
  pub first : r.0 ≡ at h 0
  pub ordered : IsHeap r.1
  pub same : Perm (r.0 ∷ r.1) h

pop_back_last :
    (h : ExpiryMinHeap) (n : ℕ) → length h ≡ suc n → pop_back h ≡ some (at h n, take n h)
unfolding pop_back
pop_back_last [] n e = absurd (omega arith)
pop_back_last (x ∷ h) n e =
    let l : length h ≡ n = omega arith in
    rw (l, get_elem?-get_or (x ∷ h) n zero_entry (omega arith))

module _ (h : ExpiryMinHeap) (n : ℕ) (size : length h ≡ suc n) (o : IsHeap h) where
  swapped-DownInv : DownInv n (exchange h 0 n) 0
  swapped-DownInv =
      let look = at-exchange h 0 n (omega arith) (omega arith) in
      record {
        within = omega (arith, length-exchange h 0 n);
        edges = λ c p q r. ground (arith, o c, look c, look (parent c));
        bridged = λ c p q r s. omega arith;
      }

  cut_correct :
      (h' : ExpiryMinHeap) → Sifted n (exchange h 0 n) h' → Yields (Popped h) (pop_back h')
  cut_correct h' s =
      let long : length h' ≡ suc n = omega (arith, length-perm s.same, length-exchange h 0 n) in
      let first : at h' n ≡ at h 0 =
        ground (arith, s.kept n, at-exchange h 0 n (omega arith) (omega arith) n) in
      let look = get_or-take n h' in
      rw (pop_back_last h' n long) (
        yields (record {
          first = first;
          ordered = λ c p q. ground (
            arith,
            length-take_le n h',
            s.ordered c,
            look c zero_entry,
            look (parent c) zero_entry,
          );
          same = Perm.trans (Perm.symm (snoc-perm (take n h') (at h' n))) (
              rw (take-append-get_or n h' zero_entry long)
                (Perm.trans s.same (exchange-perm h 0 n (omega arith) (omega arith))));
        }))

-- heap.Pop on a heap that is not empty takes out its first entry, which is a least one, leaves a
-- heap of the others, and does not panic.
pub heap_pop_correct :
    (h : ExpiryMinHeap) → IsHeap h → 0 < length h → Yields (Popped h) (heap_pop h)
unfolding heap_pop
heap_pop_correct h o p =
    let n = length h - 1 in
    let size : length h ≡ suc n = omega arith in
    rw (swap_in_range h 0 n p (omega arith)) (
      Yields-bind (down_restores n (exchange h 0 n) 0 (swapped-DownInv h n size o))
        (cut_correct h n size o))

le_of_mem :
    (h : ExpiryMinHeap) (t : Time)
    → ((i : ℕ) → i < length h → t ≤ time_at h i)
    → (x : KeyExpiry) → Mem x h
    → t ≤ x.expiry_time
le_of_mem [] t f = λ x m. absurd (not-mem-nil m)
le_of_mem (y ∷ h) t f =
    (forall_mem-cons λ x. le_prop).1
      (f 0 (omega arith), le_of_mem h t λ i p. f (suc i) (omega arith))

-- No entry of a heap is earlier than its first.
pub first_least :
    (h : ExpiryMinHeap) → IsHeap h → (x : KeyExpiry) → Mem x h → time_at h 0 ≤ x.expiry_time
first_least h o = le_of_mem h (time_at h 0) (λ i. root_least h i o)
