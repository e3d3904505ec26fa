-- ===== src/Index/Emulated/Repository.antt =====
-- EmulatedTracesRepository of ton-index-go/index/emulated/repository.go: the reading of traces from
-- Redis. The log is left out.
pub mod Laws
use ton_indexer.Prelude.{
  ℕ, String, Bool, true, false, Option, none, some, List, [], ◌∷◌, ◌++◌, Result, ok, err,
  if◌then◌else◌,
}
use ton_indexer.Prelude.Text.{concat, split}
use ton_indexer.Prelude.GoMap.{GoMap, lookup, insert}

-- The commands that the repository uses. HGetAll gives its map and, beside it, an error.
pub record Reader : Type 1 where
  pub State : Type 0
  pub hgetall : String → State → (GoMap String × Option String) × State
  pub get : String → State → Result String String × State
  -- the members of ZRevRangeWithScores(key, 0, -1)
  pub zrevrange : String → State → Result String (List String) × State

-- result[trace_id] = fields, if there are any
unfoldable pub put_fields : String → GoMap String → GoMap (GoMap String) → GoMap (GoMap String)
put_fields trace_id [] result = result
put_fields trace_id (field ∷ fields) result = insert trace_id (field ∷ fields) result

-- The parts of a member of a sorted set, trace and action; a member of another form is passed over.
unfoldable pub two_parts : List String → Option (String × String)
two_parts (first ∷ second ∷ []) = some (first, second)
two_parts parts = none

unfoldable pub trace_ids : List String → List String
trace_ids [] = []
trace_ids (key ∷ keys) =
    let rest = trace_ids keys in
    elim (two_parts (split b':' key)) [ none ↦ rest | some parts ↦ parts.0 ∷ rest ]

abbrev pub listed : Option (List String) → List String
listed none = []
listed (some ids) = ids

-- actions[trace_id] = append(actions[trace_id], action_id), to an empty list if the key is new
unfoldable pub add_action : String × String → GoMap (List String) → GoMap (List String)
add_action parts actions = insert parts.0 (listed (lookup parts.0 actions) ++ parts.1 ∷ []) actions

unfoldable pub action_ids : List String → GoMap (List String) → GoMap (List String)
action_ids [] actions = actions
action_ids (key ∷ keys) actions =
    action_ids keys
      (elim (two_parts (split b':' key)) [ none ↦ actions | some parts ↦ add_action parts actions ])

module _ (r : Reader) where
  open r use {State}

  -- LoadRawTraces: an error of a read is logged, and its map is still looked at.
  unfoldable pub load_loop :
      List String → GoMap (GoMap String) → State → GoMap (GoMap String) × State
  load_loop [] result s = (result, s)
  load_loop (trace_id ∷ rest) result s =
      let (reply, s') = r.hgetall trace_id s in
      load_loop rest (put_fields trace_id reply.0 result) s'

  unfoldable pub load_raw_traces : List String → State → GoMap (GoMap String) × State
  load_raw_traces ids s = load_loop ids [] s

  -- A hash that was not found: it may be the normalized hash of a trace.
  unfoldable pub load_normalized :
      String → GoMap (GoMap String) → State → GoMap (GoMap String) × State
  load_normalized hash result s =
      let (reply, s') = r.get (concat "tr_in_msg:" hash) s in
      elim reply [
        | err e ↦ (result, s')
        | ok normalized_hash ↦
            let (fields, s'') = r.hgetall normalized_hash s' in
            elim fields.1 [
              | some e ↦ (result, s'')
              | none ↦ (put_fields normalized_hash fields.0 result, s'')
            ]
      ]

  unfoldable pub load_missing : String → GoMap (GoMap String) → State → GoMap (GoMap String) × State
  load_missing hash result s = elim (lookup hash result) [
    | some fields ↦ (result, s)
    | none ↦ load_normalized hash result s
  ]

  unfoldable pub load_rest :
      List String → GoMap (GoMap String) → State → GoMap (GoMap String) × State
  load_rest [] result s = (result, s)
  load_rest (hash ∷ hashes) result s =
      let (result', s') = load_missing hash result s in load_rest hashes result' s'

  -- LoadRawTracesByExtMsg
  unfoldable pub load_raw_traces_by_ext_msg : List String → State → GoMap (GoMap String) × State
  load_raw_traces_by_ext_msg hashes s =
      let (result, s') = load_raw_traces hashes s in load_rest hashes result s'

  -- GetTraceIdsByAccount
  unfoldable pub get_trace_ids_by_account : String → State → Result String (List String) × State
  get_trace_ids_by_account account s =
      let (reply, s') = r.zrevrange account s in
      (elim reply [ err e ↦ err e | ok keys ↦ ok (trace_ids keys) ], s')

  -- GetActionIdsByAccount
  unfoldable pub get_action_ids_by_account :
      String → State → Result String (GoMap (List String)) × State
  get_action_ids_by_account account s =
      let (reply, s') = r.zrevrange (concat "_aai:" account) s in
      (elim reply [ err e ↦ err e | ok keys ↦ ok (action_ids keys []) ], s')
