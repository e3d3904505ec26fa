-- ===== src/Index/ReadExamples.antt =====
-- The theorems on the reading of traces from Redis and on their assembly, at concrete inputs.
use ton_indexer.Prelude.{
  ◌≡◌, ◌⊎◌, refl, String, false, none, some, List, [], ◌∷◌, ok, err, Yields, if◌then◌else◌,
  contains,
}
use ton_indexer.Prelude.Text.{split}
use ton_indexer.Prelude.GoMap.{GoMap, lookup, insert}
use ton_indexer.Index.Assemble.{Transaction, assemble_trace_txs_from_map}
use ton_indexer.Index.Assemble.Laws.{HasAll, Places}
use ton_indexer.Index.Assemble.Tracked.{Follows}
use ton_indexer.Index.Assemble.Explained.{IsBroken, assemble_trace_txs_from_map_correct}
use ton_indexer.Index.Emulated.Repository.{
  Reader, two_parts, listed, add_action, action_ids, load_raw_traces, get_action_ids_by_account,
}
use ton_indexer.Index.Emulated.Repository.Laws.{
  Grouped, IsQuiet, or_else, fields_of, load_raw_traces_correct, get_action_ids_by_account_correct,
}

-- A trace of three transactions: the first sends a message to each of the others.
abbrev first : Transaction
first = record {
  in_msg = some (record { msg_hash = "m0" });
  out_msgs = record { msg_hash = "m1" } ∷ record { msg_hash = "m2" } ∷ [];
}

abbrev answer : String → Transaction
answer msg_hash = record { in_msg = some (record { msg_hash = msg_hash }); out_msgs = [] }

abbrev txs : GoMap Transaction
txs = ("a", first) ∷ ("b", answer "m1") ∷ ("c", answer "m2") ∷ []

abbrev tx_order : List String
tx_order = "a" ∷ "b" ∷ "c" ∷ []

txs-HasAll : HasAll tx_order txs
unfolding lookup
txs-HasAll = ((first, refl), ((answer "m1", refl), ((answer "m2", refl), tt)))

assemble_trace_txs_from_map_correct_example :
    Yields
      (λ s.
        Places tx_order s × Follows txs tx_order s × ((s.warning ≡ false) ⊎ IsBroken txs tx_order))
      (assemble_trace_txs_from_map tx_order txs)
assemble_trace_txs_from_map_correct_example =
    assemble_trace_txs_from_map_correct txs tx_order txs-HasAll

-- A Redis with one trace, and the same members in each sorted set.
abbrev members : List String
members = "t:x" ∷ "bad" ∷ "u:y" ∷ "t:z" ∷ []

abbrev reader : Reader
reader = record {
  State = GoMap (GoMap String);
  hgetall = λ k s. ((elim (lookup k s) [ none ↦ [] | some m ↦ m ], none), s);
  get = λ k s. (err "nil", s);
  zrevrange = λ k s. (ok members, s);
}

abbrev stored : GoMap (GoMap String)
stored = ("t", ("root_node", "r") ∷ []) ∷ []

stored-IsQuiet : IsQuiet reader stored
stored-IsQuiet = λ k. refl

load_raw_traces_correct_example : lookup "t" (load_raw_traces reader ("s" ∷ "t" ∷ []) stored).0 ≡ (
    if contains ("s" ∷ "t" ∷ []) "t"
    then or_else reader (fields_of reader "t" stored) none
    else none)
load_raw_traces_correct_example =
    load_raw_traces_correct reader "t" ("s" ∷ "t" ∷ []) stored stored-IsQuiet

get_action_ids_by_account_correct_example :
    (actions : GoMap (List String)) × ((get_action_ids_by_account reader "0:aa" stored).0
      ≡ ok actions)
    × ((t : String) → Grouped t members (listed (lookup t actions)))
get_action_ids_by_account_correct_example =
    get_action_ids_by_account_correct reader "0:aa" stored members refl

-- The actions of "t" are x and z, and that of "u" is y.
actions_test :
    (get_action_ids_by_account reader "0:aa" stored).0
    ≡ ok (("t", "x" ∷ "z" ∷ []) ∷ ("u", "y" ∷ []) ∷ [])
unfolding get_action_ids_by_account action_ids add_action two_parts split lookup insert
actions_test = refl
