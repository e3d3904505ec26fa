-- ===== src/Ttl/Heap/Up.antt =====
-- heap.up on ExpiryMinHeap.
use mathlib.Core.List.Perm
use ton_indexer.Prelude.{
  ℕ, zero, suc, ◌+◌, ◌≤◌, ◌<◌, ◌≢◌, Perm, arith, ltb, ◌==◌, length, Yields, yields, Yields-map,
  Yields-if,
}
use ton_indexer.Ttl.Heap.{ExpiryMinHeap, up_loop, up}
use ton_indexer.Ttl.Heap.Order.{
  time_at, parent, IsHeap, IsBridged, exchange, less_in_range, swap_in_range, at-exchange,
  exchange-perm, length-exchange,
}

-- Only the edge above `i` may be out of order.
pub record UpInv (h : ExpiryMinHeap) (i : ℕ) : Type 0 where
  pub inside : i < length h
  pub edges : (c : ℕ) → 0 < c → c < length h → c ≢ i → time_at h (parent c) ≤ time_at h c
  pub bridged : IsBridged (length h) h i

exchange-UpInv :
    (h : ExpiryMinHeap) (i : ℕ)
    → UpInv h i
    → 0 < i
    → time_at h i < time_at h (parent i)
    → UpInv (exchange h (parent i) i) (parent i)
exchange-UpInv h i v pos below =
    grind (arith, length-exchange h (parent i) i, at-exchange h (parent i) i)

abbrev Restored : ExpiryMinHeap → ExpiryMinHeap → Type 0
Restored h h' = IsHeap h' × Perm h' h

up_loop_restores :
    (k : ℕ) (h : ExpiryMinHeap) (i : ℕ) → i < k → UpInv h i → Yields (Restored h) (up_loop k h i)
unfolding up_loop
up_loop_restores zero h i f v = absurd (omega arith)
up_loop_restores (suc k) h i f v =
    let above : parent i < length h = omega arith in
    rw (less_in_range h i (parent i) v.inside above) (
      Yields-if (parent i == i) (λ root. yields (λ c p q. v.edges c p q (ground arith), Perm.rfl))
        (λ inner.
          Yields-if (ltb (time_at h i) (time_at h (parent i)))
            (λ below. rw (swap_in_range h (parent i) i above v.inside) (
              Yields-map
                (up_loop_restores k (exchange h (parent i) i) (parent i) (ground arith)
                  (exchange-UpInv h i v (ground arith) (ground arith)))
                λ h' (o, p). (o, Perm.trans p (exchange-perm h (parent i) i above v.inside))))
            (λ settled. yields (λ c p q. ground (arith, v.edges c), Perm.rfl))))

-- `up` turns a slice with one entry too low in the tree into a heap of the same entries.
pub up_restores : (h : ExpiryMinHeap) (i : ℕ) → UpInv h i → Yields (Restored h) (up h i)
unfolding up
up_restores h i v = up_loop_restores (i + 1) h i (omega arith) v
