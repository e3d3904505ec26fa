-- ===== src/Index/Pending/Fill/Traces.antt =====
-- FillFromRawData of ton-index-go/index/pending.go: what it makes of a trace, and that it ends.
use ton_indexer.Prelude.{
  ℕ, ◌%◌, ◌^◌, ◌≡◌, refl, String, Option, none, some, List, [], ◌∷◌, ◌++◌, append_assoc, append-nil,
  All, length, Result, ok, err, Yields, yields, Yields-bind, Yields-at,
}
use ton_indexer.Prelude.GoMap.{lookup, lookup-insert-same}
use ton_indexer.Index.Emulated.Models.{TraceNode}
use ton_indexer.Index.Emulated.Actions.{Action}
use ton_indexer.Index.Emulated.Rows.{TraceRow, ActionRow}
use ton_indexer.Index.Emulated.ActionRows.{get_action_row}
use ton_indexer.Index.Emulated.Convert.{Codec, Trace}
use ton_indexer.Index.Emulated.Convert.Nodes.{greatest}
use ton_indexer.Index.Pending.{EmulatedTracesContext}
use ton_indexer.Index.Pending.Fill.{
  FillError, action_error, Outcome, Filling, fill_nodes, fill_actions, append_row, close_trace,
  start_filling, fill_trace,
}
use ton_indexer.Index.Pending.Fill.Emulated.{OnlyEmulated}
use ton_indexer.Index.Pending.Fill.Laws.{
  IsReady, Fills, Holds, NodeOutcome, filled, failed, fill_node-NodeOutcome,
}

after_node :
    {c : EmulatedTracesContext} {ns ms : List TraceNode} {k : Filling → Option (Outcome Filling)}
    (r : Outcome Filling)
    → NodeOutcome c ns r
    → ((s : Filling) → Fills c ns s → Yields (NodeOutcome c ms) (k s))
    → Yields (NodeOutcome c ms) (elim r.1 [ some e ↦ some (r.0, some e) | none ↦ k r.0 ])
after_node r (filled f) go = go _ f
after_node r (failed h) go = yields (failed h)

-- The action has its four times.
pub record HasTimes (a : Action) : Type 0 where
  pub start_lt : (n : ℕ) × (a.start_lt ≡ some n)
  pub end_lt : (n : ℕ) × (a.end_lt ≡ some n)
  pub start_utime : (n : ℕ) × (a.start_utime ≡ some n)
  pub end_utime : (n : ℕ) × (a.end_utime ≡ some n)

abbrev AnyRow : Result String ActionRow → Type 0
AnyRow r = Unit

get_action_row_total : (a : Action) → HasTimes a → Yields AnyRow (get_action_row a)
unfolding get_action_row
get_action_row_total a t =
    Yields-at _ t.start_lt.1
      (Yields-at _ t.end_lt.1 (Yields-at _ t.start_utime.1 (Yields-at _ t.end_utime.1 (yields tt))))

-- The row sums up the nodes of the trace.
pub record SumsUp (t : Trace) (row : TraceRow) : Type 0 where
  pub end_lt : row.end_lt ≡ greatest (λ n. n.transaction.lt) t.nodes
  pub end_utime : row.end_utime ≡ greatest (λ n. n.transaction.now) t.nodes
  pub mc_seqno_end : row.mc_seqno_end ≡ greatest (λ n. n.mc_block_seqno) t.nodes
  pub transactions : row.transactions ≡ length t.nodes % 2 ^ 16

pub data TraceOutcome (c : EmulatedTracesContext) (key : String) (t : Trace)
    : Outcome EmulatedTracesContext → Type 0 where
  shown :
      {c' : EmulatedTracesContext}
      → Holds c c'
      → (row : TraceRow) → lookup key c'.emulated_traces ≡ some row
      → SumsUp t row
      → TraceOutcome c key t (c', none)
  stopped :
      {c' : EmulatedTracesContext} {e : FillError} → Holds c c' → TraceOutcome c key t (c', some e)

fill_actions-TraceOutcome :
    (c : EmulatedTracesContext) (key : String) (t : Trace) (row : TraceRow) (actions : List Action)
    (c' : EmulatedTracesContext)
    → All HasTimes actions
    → Holds c c'
    → lookup key c'.emulated_traces ≡ some row
    → SumsUp t row
    → Yields (TraceOutcome c key t) (fill_actions key actions c')
unfolding fill_actions
fill_actions-TraceOutcome c key t row [] c' times h e sums = yields (shown h row e sums)
fill_actions-TraceOutcome c key t row (a ∷ actions) c' times h e sums =
    Yields-bind (get_action_row_total a times.0) λ r any. after r (λ new.
      fill_actions-TraceOutcome c key t row actions
        (record c' { emulated_actions = append_row key new c'.emulated_actions }) times.1
        (record { emulated = h.emulated; raw = h.raw }) e sums)
  where
    after :
        {k : ActionRow → Option (Outcome EmulatedTracesContext)} (r : Result String ActionRow)
        → ((new : ActionRow) → Yields (TraceOutcome c key t) (k new))
        → Yields
            (TraceOutcome c key t)
            (elim r [ err e ↦ some (c', some (action_error e)) | ok new ↦ k new ])
    after (err e) go = yields (stopped h)
    after (ok new) go = go new

abbrev closed_row : Filling → TraceRow
closed_row s = record s.trace_row {
  end_lt = s.max_lt;
  end_utime = s.max_utime;
  mc_seqno_end = s.max_mc_seqno;
  transactions = s.transaction_count;
  messages = s.message_count;
  pending_messages = s.pending_messages;
}

closed :
    (key : String) (s : Filling)
    → lookup key (close_trace key s).emulated_traces ≡ some (closed_row s)
unfolding close_trace
closed key s = lookup-insert-same key (closed_row s) s.ctx.emulated_traces

module _ (codec : Codec) where
  fill_nodes-NodeOutcome :
      (c : EmulatedTracesContext) (key : String) (trace : Trace) (nodes ns : List TraceNode)
      (s : Filling)
      → All IsReady nodes
      → Fills c ns s
      → Yields (NodeOutcome c (ns ++ nodes)) (fill_nodes codec key trace nodes s)
  unfolding fill_nodes
  fill_nodes-NodeOutcome c key trace [] ns s ready inv = rw (append-nil ns) (yields (filled inv))
  fill_nodes-NodeOutcome c key trace (node ∷ nodes) ns s ready inv =
      Yields-bind (fill_node-NodeOutcome c ns node codec key trace s ready.0 inv) λ r o.
        after_node r o λ s' inv'.
          rw (append_assoc ns (node ∷ []) nodes) at
            (fill_nodes-NodeOutcome c key trace nodes (ns ++ node ∷ []) s' ready.1 inv')

  -- For a trace whose nodes are complete and have an incoming message, and whose actions have their
  -- times, the filling of the trace ends without a panic. Whether or not it stops at an error, the
  -- raw data stays and, in a context for emulated transactions only, every stored transaction is
  -- still emulated. When it does not stop, the trace's key has a row whose end time, end masterchain
  -- number and number of transactions (modulo 2^16) are those of the trace's nodes.
  pub fill_trace_correct :
      (c : EmulatedTracesContext) (key : String) (t : Trace)
      → All IsReady t.nodes
      → All HasTimes t.actions
      → OnlyEmulated c
      → Yields (TraceOutcome c key t) (fill_trace codec key t c)
  unfolding fill_trace start_filling close_trace greatest
  fill_trace_correct c key t ready times only =
      Yields-bind
        (fill_nodes-NodeOutcome c key t t.nodes [] (start_filling key t c) ready (record {
          emulated = only;
          raw = refl;
          lt = refl;
          utime = refl;
          seqno = refl;
          count = refl;
        }))
        close
    where
      close :
          (r : Outcome Filling)
          → NodeOutcome c t.nodes r
          → Yields (TraceOutcome c key t) (elim r.1 [
            | some e ↦ some (r.0.ctx, some e)
            | none ↦ fill_actions key t.actions (close_trace key r.0)
          ])
      close r (failed h) = yields (stopped h)
      close r (filled f) =
          fill_actions-TraceOutcome c key t _ t.actions (close_trace key r.0) times
            (record { emulated = f.emulated; raw = f.raw }) (closed key r.0)
            (record {
              end_lt = f.lt;
              end_utime = f.utime;
              mc_seqno_end = f.seqno;
              transactions = f.count;
            })
