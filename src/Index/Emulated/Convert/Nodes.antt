-- ===== src/Index/Emulated/Convert/Nodes.antt =====
-- ConvertHSet of ton-index-go/index/emulated/models.go: the keys of a list of nodes, the messages
-- they send on, and the greatest value of a column.
use ton_indexer.Prelude.{
  ℕ, suc, ◌+◌, ◌≤◌, ◌<◌, ◌≡◌, refl, sym, ap, ◌∙◌, String, List, [], ◌∷◌, ◌++◌, map, append_assoc,
  append-nil, max, arith,
}
use ton_indexer.Prelude.GoMap.{GoMap}
use ton_indexer.Index.Emulated.Models.{TraceNode}
use ton_indexer.Index.Emulated.Convert.{raise_to, next_keys}

-- The greatest value of a column of the nodes, 0 when there is none.
unfoldable pub greatest : (TraceNode → ℕ) → List TraceNode → ℕ
greatest f [] = 0
greatest f (n ∷ ns) = max (f n) (greatest f ns)

-- The keys of the messages that the nodes send on, in order.
unfoldable pub children : GoMap String → List TraceNode → List String
children trace_hash [] = []
children trace_hash (n ∷ ns) = next_keys trace_hash n.transaction.out_msgs ++ children trace_hash ns

abbrev pub keys : List TraceNode → List String
keys ns = map (λ n. n.key) ns

unfoldable pub total : (String → ℕ) → List String → ℕ
total w [] = 0
total w (k ∷ ks) = w k + total w ks

raise_to-max : (a b : ℕ) → raise_to a b ≡ max a b
raise_to-max a b = ground arith

pub greatest-append :
    (f : TraceNode → ℕ) (ns : List TraceNode) (n : TraceNode)
    → greatest f (ns ++ n ∷ []) ≡ raise_to (greatest f ns) (f n)
unfolding greatest
greatest-append f [] n = omega (arith, raise_to-max 0 (f n))
greatest-append f (m ∷ ns) n = omega (
  arith,
  greatest-append f ns n,
  raise_to-max (greatest f ns) (f n),
  raise_to-max (max (f m) (greatest f ns)) (f n),
)

pub greatest-append_max :
    (f : TraceNode → ℕ) (ns : List TraceNode) (n : TraceNode)
    → greatest f (ns ++ n ∷ []) ≡ max (greatest f ns) (f n)
greatest-append_max f ns n = greatest-append f ns n ∙ raise_to-max (greatest f ns) (f n)

pub children-append :
    (m : GoMap String) (ns : List TraceNode) (n : TraceNode)
    → children m (ns ++ n ∷ []) ≡ children m ns ++ next_keys m n.transaction.out_msgs
unfolding children
children-append m [] n = append-nil _
children-append m (x ∷ ns) n =
    ap (◌++◌ (next_keys m x.transaction.out_msgs)) (children-append m ns n)
    ∙ sym (append_assoc _ (children m ns) _)

pub keys-append :
    (ns : List TraceNode) (n : TraceNode) → keys (ns ++ n ∷ []) ≡ keys ns ++ n.key ∷ []
keys-append [] n = refl
keys-append (x ∷ ns) n = ap (◌∷◌ x.key) (keys-append ns n)

pub move_on {ℓ} :
    {A : Type ℓ} (xs : List A) (x : A) (ys zs : List A)
    → xs ++ x ∷ [] ++ (ys ++ zs) ≡ xs ++ x ∷ ys ++ zs
move_on [] x ys zs = refl
move_on (a ∷ xs) x ys zs = ap (◌∷◌ a) (move_on xs x ys zs)

total-append : (w : String → ℕ) (xs ys : List String) → total w (xs ++ ys) ≡ total w xs + total w ys
unfolding total
total-append w [] ys = omega arith
total-append w (x ∷ xs) ys = omega (arith, total-append w xs ys)

pub spent :
    (w : String → ℕ) (fuel : ℕ) (key : String) (queue next : List String)
    → suc (total w next) ≤ w key
    → total w (key ∷ queue) < suc fuel
    → total w (queue ++ next) < fuel
unfolding total
spent w fuel key queue next h k = omega (arith, total-append w queue next)

pub total-singleton :
    (w : String → ℕ) (key : String) {fuel : ℕ} → w key < fuel → total w (key ∷ []) < fuel
unfolding total
total-singleton w key h = omega arith
