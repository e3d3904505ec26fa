-- ===== src/Ttl/Heap/Order.antt =====
-- The heap order of ExpiryMinHeap, and its Less and Swap at indices in range.
use mathlib.Core.List.Perm
use ton_indexer.Prelude.{
  ℕ, zero, suc, ◌-◌, ◌/◌, ◌≤◌, ◌<◌, ◌≡◌, some, Perm, arith, ltb, ◌==◌, if◌then◌else◌, length,
  get_or, set, get_or-set, length-set, set-perm, get_elem?-get_or,
}
use ton_indexer.Ttl.Heap.{Time, KeyExpiry, ExpiryMinHeap, less, swap}

abbrev pub zero_entry : KeyExpiry
zero_entry = record { key = ""; expiry_time = 0 }

abbrev pub at : ExpiryMinHeap → ℕ → KeyExpiry
at h i = get_or h i zero_entry

abbrev pub time_at : ExpiryMinHeap → ℕ → Time
time_at h i = (at h i).expiry_time

abbrev pub parent : ℕ → ℕ
parent c = (c - 1) / 2

-- Every edge among the first `n` entries is in order.
abbrev pub IsOrdered : ℕ → ExpiryMinHeap → Type 0
IsOrdered n h = (c : ℕ) → 0 < c → c < n → time_at h (parent c) ≤ time_at h c

abbrev pub IsHeap : ExpiryMinHeap → Type 0
IsHeap h = IsOrdered (length h) h

-- The edges past `i`, from its parent to its children, are in order.
abbrev pub IsBridged : ℕ → ExpiryMinHeap → ℕ → Type 0
IsBridged n h i =
    (c : ℕ) → 0 < c → c < n → parent c ≡ i → 0 < i → time_at h (parent i) ≤ time_at h c

unfoldable pub exchange : ExpiryMinHeap → ℕ → ℕ → ExpiryMinHeap
exchange h i j = set (set h i (at h j)) j (at h i)

module _ (h : ExpiryMinHeap) (i j : ℕ) (hi : i < length h) (hj : j < length h) where
  pub less_in_range : less h i j ≡ some (ltb (time_at h i) (time_at h j))
  unfolding less
  less_in_range = rw (get_elem?-get_or h i zero_entry hi, get_elem?-get_or h j zero_entry hj)

  pub swap_in_range : swap h i j ≡ some (exchange h i j)
  unfolding swap exchange
  swap_in_range = rw (get_elem?-get_or h i zero_entry hi, get_elem?-get_or h j zero_entry hj)

  pub at-exchange :
      (c : ℕ)
      → at (exchange h i j) c ≡ (if j == c then at h i else if i == c then at h j else at h c)
  unfolding exchange
  at-exchange c = rw (
    get_or-set (set h i (at h j)) j c (at h i) zero_entry (rw length-set hj),
    get_or-set h i c (at h j) zero_entry hi,
  )

  -- Both writes trade an entry for the other one.
  pub exchange-perm : Perm (exchange h i j) h
  unfolding exchange
  exchange-perm =
      let first = set-perm h i (at h j) zero_entry hi in
      let second =
        set-perm (set h i (at h j)) j (at h i) zero_entry
          (omega (arith, length-set h i (at h j))) in
      let kept : at (set h i (at h j)) j ≡ at h j =
        ground (arith, get_or-set h i j (at h j) zero_entry) in
      Perm.cons_inv (Perm.trans (rw kept at second) first)

pub length-exchange : (h : ExpiryMinHeap) (i j : ℕ) → length (exchange h i j) ≡ length h
unfolding exchange
length-exchange h i j = simp length-set

root_least_below :
    (k n : ℕ) (h : ExpiryMinHeap) (i : ℕ)
    → IsOrdered n h
    → i < k
    → i < n
    → time_at h 0 ≤ time_at h i
root_least_below zero n h i o f p = absurd (omega arith)
root_least_below (suc k) n h i o f p = ground (arith, o i, root_least_below k n h (parent i) o)

pub root_least : (h : ExpiryMinHeap) (i : ℕ) → IsHeap h → i < length h → time_at h 0 ≤ time_at h i
root_least h i o p = root_least_below (suc i) (length h) h i o (omega arith) p
