-- ===== src/Ttl/Heap.antt =====
-- ExpiryMinHeap of ton-trace-ttl-tracker/main.go, and the container/heap routines that it is used
-- with. Times are numbers of nanoseconds. An index out of range panics.
pub mod Order
mod Up
mod Down
pub mod Laws
use ton_indexer.Prelude.{
  ℕ, zero, suc, ◌+◌, ◌-◌, ◌*◌, ◌/◌, ◌<◌, ◌≡◌, refl, String, Bool, true, false, ◌||◌, ◌&&◌, not,
  Option, none, some, List, [], ◌∷◌, ◌++◌, arith, ltb, leb, ◌==◌, if◌then◌else◌, length, get_elem?,
  get_or, set, take, get_elem?-get_or, ◌>>=◌,
}

-- An instant, as its distance in nanoseconds from a fixed origin: Before is <, After is >.
abbrev pub Time : Type 0
Time = ℕ

pub record KeyExpiry : Type 0 where
  pub key : String
  pub expiry_time : Time

abbrev pub ExpiryMinHeap : Type 0
ExpiryMinHeap = List KeyExpiry

-- h[i].ExpiryTime.Before(h[j].ExpiryTime)
unfoldable pub less : ExpiryMinHeap → ℕ → ℕ → Option Bool
less h i j = do a ← get_elem? h i; b ← get_elem? h j; some (ltb a.expiry_time b.expiry_time)

-- h[i], h[j] = h[j], h[i]
unfoldable pub swap : ExpiryMinHeap → ℕ → ℕ → Option ExpiryMinHeap
swap h i j = do a ← get_elem? h i; b ← get_elem? h j; some (set (set h i b) j a)

unfoldable pub push_back : ExpiryMinHeap → KeyExpiry → ExpiryMinHeap
push_back h x = h ++ x ∷ []

-- old[n-1], and old[0 : n-1]; the index -1 of an empty slice panics
unfoldable pub pop_back : ExpiryMinHeap → Option (KeyExpiry × ExpiryMinHeap)
pop_back [] = none
pop_back (x ∷ h) = do item ← get_elem? (x ∷ h) (length h); some (item, take (length h) (x ∷ h))

-- heap.up
unfoldable pub up_loop : ℕ → ExpiryMinHeap → ℕ → Option ExpiryMinHeap
up_loop zero h j = none
up_loop (suc k) h j =
    let i = (j - 1) / 2 in
    let move = (do b ← less h j i; if b then (do h' ← swap h i j; up_loop k h' i) else some h) in
    if i == j then some h else move

unfoldable pub up : ExpiryMinHeap → ℕ → Option ExpiryMinHeap
unfolding up_loop
up h j = up_loop (j + 1) h j

-- The lesser child of `i` below `n`: the right one only if it is below the left one.
unfoldable pub lesser_child : ExpiryMinHeap → ℕ → ℕ → Option ℕ
lesser_child h i n =
    if ltb (2 * i + 1 + 1) n
    then (do b ← less h (2 * i + 1 + 1) (2 * i + 1); some (if b then 2 * i + 1 + 1 else 2 * i + 1))
    else some (2 * i + 1)

-- heap.down
unfoldable pub down_loop : ℕ → ExpiryMinHeap → ℕ → ℕ → Option ExpiryMinHeap
down_loop zero h i n = none
down_loop (suc k) h i n =
    let move = (do
      j ← lesser_child h i n
      b ← less h j i
      if b then (do h' ← swap h i j; down_loop k h' j n) else some h) in
    if leb n (2 * i + 1) then some h else move

unfoldable pub down : ExpiryMinHeap → ℕ → ℕ → Option ExpiryMinHeap
unfolding down_loop lesser_child
down h i n = down_loop (n + 1) h i n

-- heap.Push
unfoldable pub heap_push : ExpiryMinHeap → KeyExpiry → Option ExpiryMinHeap
unfolding push_back up
heap_push h x = let h' = push_back h x in up h' (length h' - 1)

-- heap.Pop
unfoldable pub heap_pop : ExpiryMinHeap → Option (KeyExpiry × ExpiryMinHeap)
unfolding pop_back down
heap_pop h = do let n = length h - 1; h' ← swap h 0 n; h'' ← down h' 0 n; pop_back h''
