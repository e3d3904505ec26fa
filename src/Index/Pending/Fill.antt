-- ===== src/Index/Pending/Fill.antt =====
-- FillFromRawData of ton-index-go/index/pending.go. A `none` is a panic, or a hash whose walk did
-- not end on the fuel; the context is returned with the error, if there is one.
pub mod Emulated
pub mod Laws
pub mod Traces
pub mod Raw
use ton_indexer.Prelude.{
  ℕ, ◌+◌, ◌%◌, ◌^◌, max, String, Bool, true, false, not, ◌&&◌, ◌||◌, Option, none, some, List, [],
  ◌∷◌, ◌++◌, str_eq, if◌then◌else◌, ◌>>=◌, Result, ok, err,
}
use ton_indexer.Prelude.GoMap.{GoMap, lookup, insert}
use ton_indexer.Index.Emulated.Models.{TraceNode}
use ton_indexer.Index.Emulated.Actions.{Action}
use ton_indexer.Index.Emulated.Rows.{
  TransactionRow, TraceRow, ActionRow, MessageRow, MessageContentRow,
}
use ton_indexer.Index.Emulated.Convert.{Codec, Trace, convert_hset, has}
use ton_indexer.Index.Emulated.Transactions.{StatusError, get_transaction_row}
use ton_indexer.Index.Emulated.ActionRows.{get_action_row}
use ton_indexer.Index.Emulated.Messages.{HashError, Gathered, get_messages}
use ton_indexer.Index.Pending.{EmulatedTracesContext, entries}

pub data FillError : Type 0 where
  status_error : StatusError → FillError
  hash_error : HashError → FillError
  action_error : String → FillError

-- The variables of the loop over the nodes, and the context.
pub record Filling : Type 0 where
  pub ctx : EmulatedTracesContext
  pub trace_row : TraceRow
  pub max_lt : ℕ
  pub max_utime : ℕ
  pub max_mc_seqno : ℕ
  pub message_count : ℕ
  pub transaction_count : ℕ
  pub pending_messages : ℕ

-- uint16
abbrev pub increment : ℕ → ℕ
increment n = (n + 1) % 2 ^ 16

-- m[key] = append(m[key], row)
unfoldable pub append_row {ℓ} : {V : Type ℓ} → String → V → GoMap (List V) → GoMap (List V)
append_row key row m = insert key (entries key m ++ row ∷ []) m

-- for k, v := range from { m[k] = v }
unfoldable pub insert_all {ℓ} : {V : Type ℓ} → GoMap V → GoMap V → GoMap V
insert_all [] m = m
insert_all ((k, v) ∷ from) m = insert_all from (insert k v m)

-- The row before the loop over the nodes.
unfoldable pub first_trace_row : String → Trace → TraceRow
first_trace_row trace_key trace = record {
  trace_key = trace_key;
  trace_id = trace.trace_id;
  external_hash = some trace.external_hash;
  mc_seqno_start = 0;
  mc_seqno_end = 0;
  start_lt = 0;
  start_utime = 0;
  end_lt = 0;
  end_utime = 0;
  trace_state = "pending";
  messages = 0;
  transactions = 0;
  pending_messages = 0;
  classification_state = if trace.classified then "ok" else "unclassified";
}

-- One message of a node.
unfoldable pub fill_message :
    String → TraceNode → Bool → TransactionRow → MessageRow → Filling → Filling
fill_message trace_key node should_save row msg s =
    let external = not (has msg.source) in
    let counted = external || str_eq msg.direction "out" in
    record s {
      trace_row =
          if str_eq node.key trace_key && external
          then record s.trace_row { external_hash = some msg.msg_hash }
          else s.trace_row;
      ctx =
          if should_save
          then record s.ctx { emulated_messages = append_row row.hash msg s.ctx.emulated_messages }
          else s.ctx;
      message_count = if counted then increment s.message_count else s.message_count;
      pending_messages =
          if counted && node.emulated then increment s.pending_messages else s.pending_messages;
    }

unfoldable pub fill_messages :
    String → TraceNode → Bool → TransactionRow → List MessageRow → Filling → Filling
fill_messages trace_key node should_save row [] s = s
fill_messages trace_key node should_save row (msg ∷ msgs) s =
    fill_messages trace_key node should_save row msgs
      (fill_message trace_key node should_save row msg s)

-- The node's row: the start of the trace, the maxima, and the saved transaction.
unfoldable pub fill_transaction :
    String → Trace → TraceNode → Bool → TransactionRow → ℕ → ℕ → Filling → Filling
fill_transaction trace_key trace node should_save row now mc_block_seqno s = record s {
  trace_row =
      if str_eq node.key trace.external_hash
      then record s.trace_row {
        start_lt = row.lt;
        start_utime = now;
        mc_seqno_start = mc_block_seqno;
      }
      else s.trace_row;
  max_lt = max s.max_lt row.lt;
  max_utime = max s.max_utime now;
  max_mc_seqno = max s.max_mc_seqno mc_block_seqno;
  ctx =
      if should_save
      then record s.ctx {
        emulated_transactions = append_row trace_key row s.ctx.emulated_transactions;
        tx_hash_trace_external_hash =
            insert row.hash trace.external_hash s.ctx.tx_hash_trace_external_hash;
      }
      else s.ctx;
}

-- The contents of a saved node, and the count of its transaction.
unfoldable pub fill_contents : Bool → Gathered → Filling → Filling
fill_contents should_save g s = record s {
  ctx =
      if should_save
      then record s.ctx {
        emulated_message_contents = insert_all g.message_contents s.ctx.emulated_message_contents;
        emulated_message_init_states = insert_all g.init_states s.ctx.emulated_message_init_states;
      }
      else s.ctx;
  transaction_count = increment s.transaction_count;
}

-- After the loop over the nodes.
unfoldable pub close_trace : String → Filling → EmulatedTracesContext
close_trace trace_key s = record s.ctx {
  emulated_traces =
      insert trace_key
        (record s.trace_row {
          end_lt = s.max_lt;
          end_utime = s.max_utime;
          mc_seqno_end = s.max_mc_seqno;
          transactions = s.transaction_count;
          messages = s.message_count;
          pending_messages = s.pending_messages;
        })
        s.ctx.emulated_traces;
}

abbrev pub Outcome : Type 0 → Type 0
Outcome A = A × Option FillError

unfoldable pub fill_actions :
    String → List Action → EmulatedTracesContext → Option (Outcome EmulatedTracesContext)
fill_actions trace_key [] c = some (c, none)
fill_actions trace_key (a ∷ actions) c = get_action_row a >>= λ r. elim r [
  | err e ↦ some (c, some (action_error e))
  | ok row ↦
      fill_actions trace_key actions
        (record c { emulated_actions = append_row trace_key row c.emulated_actions })
]

abbrev pub should_save : EmulatedTracesContext → TraceNode → Bool
should_save c node = not (c.emulated_only && not node.emulated)

unfoldable pub start_filling : String → Trace → EmulatedTracesContext → Filling
start_filling trace_key trace c = record {
  ctx = record c { trace_keys = c.trace_keys ++ trace_key ∷ [] };
  trace_row = first_trace_row trace_key trace;
  max_lt = 0;
  max_utime = 0;
  max_mc_seqno = 0;
  message_count = 0;
  transaction_count = 0;
  pending_messages = 0;
}

module _ (codec : Codec) where
  -- One node, after its row is made.
  unfoldable pub fill_node_messages :
      String → TraceNode → Bool → TransactionRow → Filling → Option (Outcome Filling)
  fill_node_messages trace_key node saved row s = get_messages codec node >>= λ r. elim r [
    | err e ↦ some (s, some (hash_error e))
    | ok g ↦
        some (fill_contents saved g (fill_messages trace_key node saved row g.messages s), none)
  ]

  unfoldable pub fill_node : String → Trace → TraceNode → Filling → Option (Outcome Filling)
  fill_node trace_key trace node s = get_transaction_row node >>= λ r. elim r [
    | err e ↦ some (s, some (status_error e))
    | ok row ↦ row.now >>= λ now. row.mc_block_seqno >>= λ mc_block_seqno.
        let saved = should_save s.ctx node in
        fill_node_messages trace_key node saved row
          (fill_transaction trace_key trace node saved row now mc_block_seqno s)
  ]

  -- The loop over the nodes.
  unfoldable pub fill_nodes : String → Trace → List TraceNode → Filling → Option (Outcome Filling)
  fill_nodes trace_key trace [] s = some (s, none)
  fill_nodes trace_key trace (node ∷ nodes) s = fill_node trace_key trace node s >>= λ r. elim r.1 [
    | some e ↦ some (r.0, some e)
    | none ↦ fill_nodes trace_key trace nodes r.0
  ]

  -- One trace, after ConvertHSet.
  unfoldable pub fill_trace :
      String → Trace → EmulatedTracesContext → Option (Outcome EmulatedTracesContext)
  fill_trace trace_key trace c =
      fill_nodes trace_key trace trace.nodes (start_filling trace_key trace c) >>= λ r. elim r.1 [
        | some e ↦ some (r.0.ctx, some e)
        | none ↦ fill_actions trace_key trace.actions (close_trace trace_key r.0)
      ]

  -- The trace of a key; one that does not convert is passed over.
  unfoldable pub fill_key :
      ℕ → String → EmulatedTracesContext → Option (Outcome EmulatedTracesContext)
  fill_key fuel trace_key c =
      convert_hset codec fuel
        (elim (lookup trace_key c.emulated_transactions_raw) [ none ↦ [] | some m ↦ m ])
      >>= λ r. elim r [ err e ↦ some (c, none) | ok trace ↦ fill_trace trace_key trace c ]

  unfoldable pub fill_keys :
      ℕ → GoMap (GoMap String) → EmulatedTracesContext → Option (Outcome EmulatedTracesContext)
  fill_keys fuel [] c = some (c, none)
  fill_keys fuel ((trace_key, m) ∷ raw_data) c = fill_key fuel trace_key c >>= λ r. elim r.1 [
    | some e ↦ some (r.0, some e)
    | none ↦ fill_keys fuel raw_data r.0
  ]

  -- FillFromRawData
  unfoldable pub fill_from_raw_data :
      ℕ → GoMap (GoMap String) → EmulatedTracesContext → Option (Outcome EmulatedTracesContext)
  fill_from_raw_data fuel raw_data c =
      fill_keys fuel raw_data
        (record c { emulated_transactions_raw = insert_all raw_data c.emulated_transactions_raw })
