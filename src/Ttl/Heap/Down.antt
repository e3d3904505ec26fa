-- ===== src/Ttl/Heap/Down.antt =====
-- heap.down on the first `n` entries of an ExpiryMinHeap.
use mathlib.Core.List.Perm
use ton_indexer.Prelude.{
  ℕ, zero, suc, ◌+◌, ◌-◌, ◌*◌, ◌≤◌, ◌<◌, ◌≡◌, ◌≢◌, ◌⊎◌, refl, Perm, arith, ltb, leb, length, Yields,
  yields, Yields-map, Yields-if, Yields-bind,
}
use ton_indexer.Ttl.Heap.{ExpiryMinHeap, lesser_child, down_loop, down}
use ton_indexer.Ttl.Heap.Order.{
  at, time_at, parent, IsOrdered, IsBridged, exchange, less_in_range, swap_in_range, at-exchange,
  exchange-perm, length-exchange,
}

-- Among the first `n` entries, only the edges below `i` may be out of order.
pub record DownInv (n : ℕ) (h : ExpiryMinHeap) (i : ℕ) : Type 0 where
  pub within : n ≤ length h
  pub edges : (c : ℕ) → 0 < c → c < n → parent c ≢ i → time_at h (parent c) ≤ time_at h c
  pub bridged : IsBridged n h i

record IsLesserChild (n : ℕ) (h : ExpiryMinHeap) (i m : ℕ) : Type 0 where
  inside : m < n
  child : (m ≡ 2 * i + 1) ⊎ (m ≡ 2 * i + 2)
  least : (c : ℕ) → 0 < c → c < n → parent c ≡ i → time_at h m ≤ time_at h c

lesser_child-IsLesserChild :
    (n : ℕ) (h : ExpiryMinHeap) (i : ℕ)
    → n ≤ length h
    → 2 * i + 1 < n
    → Yields (IsLesserChild n h i) (lesser_child h i n)
unfolding lesser_child
lesser_child-IsLesserChild n h i w b =
    grind (arith, less_in_range h (2 * i + 1 + 1) (2 * i + 1), yields)

exchange-DownInv :
    (n : ℕ) (h : ExpiryMinHeap) (i m : ℕ)
    → DownInv n h i
    → IsLesserChild n h i m
    → time_at h m < time_at h i
    → DownInv n (exchange h i m) m
exchange-DownInv n h i m v s below =
    let swapped = at-exchange h i m (omega arith) (omega arith) in
    record {
      within = omega (arith, length-exchange h i m);
      edges = λ c p q r.
          ground (arith, swapped c, swapped (parent c), v.edges c, v.bridged m, s.least c);
      bridged = λ c p q r t. ground (arith, swapped c, swapped (parent m), v.edges c);
    }

-- `h'` holds the entries of `h`, with those before `n` in heap order and the others in place.
pub record Sifted (n : ℕ) (h h' : ExpiryMinHeap) : Type 0 where
  pub ordered : IsOrdered n h'
  pub same : Perm h' h
  pub kept : (c : ℕ) → n ≤ c → at h' c ≡ at h c

down_loop_restores :
    (k n : ℕ) (h : ExpiryMinHeap) (i : ℕ)
    → n - i < k
    → DownInv n h i
    → Yields (Sifted n h) (down_loop k h i n)
unfolding down_loop
down_loop_restores zero n h i f v = absurd (omega arith)
down_loop_restores (suc k) n h i f v =
    Yields-if (leb n (2 * i + 1))
      (λ leaf. yields (record {
        ordered = λ c p q. ground (arith, v.edges c);
        same = Perm.rfl;
        kept = λ c p. refl;
      }))
      (λ inner. Yields-bind (lesser_child-IsLesserChild n h i v.within (ground arith)) λ m s.
        let hm : m < length h = omega arith in
        let hi : i < length h = omega arith in
        rw (less_in_range h m i hm hi) (
          Yields-if (ltb (time_at h m) (time_at h i))
            (λ below. rw (swap_in_range h i m hi hm) (
              Yields-map
                (down_loop_restores k n (exchange h i m) m (omega arith)
                  (exchange-DownInv n h i m v s (ground arith)))
                λ h' t. record {
                  ordered = t.ordered;
                  same = Perm.trans t.same (exchange-perm h i m hi hm);
                  kept = λ c p. ground (arith, t.kept c, at-exchange h i m hi hm c);
                }))
            (λ settled. yields (record {
              ordered = λ c p q. ground (arith, v.edges c, s.least c);
              same = Perm.rfl;
              kept = λ c p. refl;
            }))))

-- `down` orders a tree in which one entry is too high.
pub down_restores :
    (n : ℕ) (h : ExpiryMinHeap) (i : ℕ) → DownInv n h i → Yields (Sifted n h) (down h i n)
unfolding down
down_restores n h i v = down_loop_restores (n + 1) n h i (omega arith) v
