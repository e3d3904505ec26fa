-- ===== src/Index/Balances/Walk.antt =====
-- The two walks of CalculateBalanceChanges in ton-index-go/index/balances.go over the tree of
-- messages: a queue of nodes, on fuel.
use ton_indexer.Prelude.{
  ℕ, zero, suc, ◌+◌, ◌≤◌, ◌<◌, ◌≡◌, Option, none, some, List, [], ◌∷◌, ◌++◌, arith,
}

-- How a walk ends: with a state, in a panic, or when the model is out of fuel.
pub data Run (A : Type 0) : Type 0 where
  done : A → Run A
  panicked : Run A
  out_of_fuel : Run A

-- the body of the loop: the state after a node, and the nodes that it appends to the queue
module _ {S : Type 0} (body : ℕ → S → Option (S × List ℕ)) where
  unfoldable pub walk_nodes : ℕ → List ℕ → S → Run S
  walk_nodes fuel [] s = done s
  walk_nodes zero (n ∷ queue) s = out_of_fuel
  walk_nodes (suc fuel) (n ∷ queue) s = elim (body n s) [
    | none ↦ panicked
    | some (after, next) ↦ walk_nodes fuel (queue ++ next) after
  ]

-- The run ends, and a state at its end satisfies P.
pub data Ends {S : Type 0} (P : S → Type 0) : Run S → Type 0 where
  finishes : {s : S} → P s → Ends P (done s)
  crashes : Ends P panicked

abbrev pub total_weight : (ℕ → ℕ) → List ℕ → ℕ
total_weight w [] = 0
total_weight w (n ∷ queue) = w n + total_weight w queue

total_weight-append :
    (w : ℕ → ℕ) (a b : List ℕ) → total_weight w (a ++ b) ≡ total_weight w a + total_weight w b
total_weight-append w [] b = omega arith
total_weight-append w (n ∷ a) b = omega (arith, total_weight-append w a b)

-- What a body keeps: the invariant, and less weight in the nodes that it appends than in its node.
pub data Keeps {S : Type 0} (P : S → Type 0) (w : ℕ → ℕ) (n : ℕ)
    : Option (S × List ℕ) → Type 0 where
  keeps : {s : S} {next : List ℕ} → P s → total_weight w next < w n → Keeps P w n (some (s, next))
  crash : Keeps P w n none

-- A walk ends if its fuel is the weight of its queue, and keeps the invariant of its body.
module _ {S : Type 0} (body : ℕ → S → Option (S × List ℕ)) (P : S → Type 0) (w : ℕ → ℕ)
    (positive : (n : ℕ) → 0 < w n) (kept : (n : ℕ) (s : S) → P s → Keeps P w n (body n s)) where
  step-Ends :
      (fuel n : ℕ) (queue : List ℕ) {o : Option (S × List ℕ)}
      → total_weight w (n ∷ queue) ≤ suc fuel
      → ((next : List ℕ) (s : S)
          → total_weight w next ≤ fuel
          → P s
          → Ends P (walk_nodes body fuel next s))
      → Keeps P w n o
      → Ends P (elim o [
        | none ↦ panicked
        | some (after, next) ↦ walk_nodes body fuel (queue ++ next) after
      ])
  step-Ends fuel n queue h rest (keeps {s} {next} p less) =
      rest (queue ++ next) s (omega (arith, total_weight-append w queue next)) p
  step-Ends fuel n queue h rest crash = crashes

  pub walk_nodes-Ends :
      (fuel : ℕ) (queue : List ℕ) (s : S)
      → total_weight w queue ≤ fuel
      → P s
      → Ends P (walk_nodes body fuel queue s)
  unfolding walk_nodes
  walk_nodes-Ends fuel [] s h p = finishes p
  walk_nodes-Ends zero (n ∷ queue) s h p = absurd (omega (arith, positive n))
  walk_nodes-Ends (suc fuel) (n ∷ queue) s h p =
      step-Ends fuel n queue h (λ next after. walk_nodes-Ends fuel next after) (kept n s p)
