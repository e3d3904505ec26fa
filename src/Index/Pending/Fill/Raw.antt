-- ===== src/Index/Pending/Fill/Raw.antt =====
-- FillFromRawData of ton-index-go/index/pending.go, for all the traces it is given.
use ton_indexer.Prelude.{ℕ, ◌<◌, ◌≡◌, String, none, some, List, [], All, ok}
use ton_indexer.Prelude.GoMap.{GoMap, lookup}
use ton_indexer.Index.Emulated.Models.{TraceNode}
use ton_indexer.Index.Emulated.Actions.{Action}
use ton_indexer.Index.Emulated.Convert.{Codec}
use ton_indexer.Index.Emulated.Convert.Walks.{IsWeighed}
use ton_indexer.Index.Pending.{EmulatedTracesContext}
use ton_indexer.Index.Pending.Fill.{Outcome}
use ton_indexer.Index.Pending.Fill.Laws.{IsReady, Holds}
use ton_indexer.Index.Pending.Fill.Traces.{HasTimes}

module _ (codec : Codec) where
  -- What the fields of a hash hold: a field that is read as a node has a complete one with an
  -- incoming message, and the actions of the field "actions" have their times.
  pub record IsSafe (m : GoMap String) : Type 0 where
    pub nodes :
        (key data_of : String) (n : TraceNode)
        → lookup key m ≡ some data_of
        → codec.unmarshal_node data_of ≡ ok n
        → IsReady n
    pub actions :
        (data_of : String) (l : List Action)
        → lookup "actions" m ≡ some data_of
        → codec.unmarshal_actions data_of ≡ ok l
        → All HasTimes l

  -- The hash is a forest, and the fuel is enough for its root.
  pub record IsWalkable (fuel : ℕ) (m : GoMap String) : Type 0 where
    pub weight : String → ℕ
    pub weighed : IsWeighed codec m weight
    pub enough : (root : String) → lookup "root_node" m ≡ some root → weight root < fuel

  abbrev hash_at : String → GoMap (GoMap String) → GoMap String
  hash_at key raw = elim (lookup key raw) [ none ↦ [] | some m ↦ m ]

  abbrev raw_of : String → EmulatedTracesContext → GoMap String
  raw_of key c = hash_at key c.emulated_transactions_raw

  abbrev StillHolds : EmulatedTracesContext → Outcome EmulatedTracesContext → Type 0
  StillHolds c r = Holds c r.0

  -- Each hash of the context can be walked over, and its fields hold what they should.
  abbrev Walkable : ℕ → EmulatedTracesContext → Type 0
  Walkable fuel c = (key : String) → IsWalkable fuel (raw_of key c) × IsSafe (raw_of key c)
