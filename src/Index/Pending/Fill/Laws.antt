-- ===== src/Index/Pending/Fill/Laws.antt =====
-- FillFromRawData of ton-index-go/index/pending.go: the row of a trace, and the invariant of the
-- context.
use ton_indexer.Prelude.{
  ℕ, ◌+◌, ◌%◌, ◌^◌, max, ◌≡◌, sym, ap, ◌∙◌, subst, String, Bool, true, none, some, List, [], ◌∷◌,
  ◌++◌, length, Result, ok, err, Yields, yields, Yields-bind, Yields-at, IfOk, ◌>>=◌, length-append,
  arith,
}
use ton_indexer.Index.Emulated.Models.{TraceNode, TrMessage}
use ton_indexer.Index.Emulated.Rows.{TransactionRow}
use ton_indexer.Index.Emulated.Convert.{Codec, Trace}
use ton_indexer.Index.Emulated.Convert.Nodes.{greatest, greatest-append_max}
use ton_indexer.Index.Emulated.Messages.{HashError, Gathered}
use ton_indexer.Index.Emulated.Messages.Total.{get_messages_total}
use ton_indexer.Index.Emulated.Transactions.{StatusError}
use ton_indexer.Index.Emulated.Transactions.Laws.{IsComplete, Shows, get_transaction_row-Shows}
use ton_indexer.Index.Pending.{EmulatedTracesContext}
use ton_indexer.Index.Pending.Fill.{
  FillError, status_error, hash_error, Outcome, Filling, should_save, fill_messages,
  fill_transaction, fill_contents, fill_node_messages, fill_node,
}
use ton_indexer.Index.Pending.Fill.Emulated.{
  OnlyEmulated, AllEmulated, Kept, fill_messages-kept, fill_contents-kept, should_save-emulated,
  fill_transaction-OnlyEmulated, fill_transaction-numbers,
}

-- The node is complete and has an incoming message.
pub record IsReady (n : TraceNode) : Type 0 where
  pub complete : IsComplete n
  pub in_msg : (m : TrMessage) × (n.transaction.in_msg ≡ some m)

-- What the loop over the nodes keeps, after the nodes `ns`.
pub record Fills (c : EmulatedTracesContext) (ns : List TraceNode) (s : Filling) : Type 0 where
  pub emulated : OnlyEmulated s.ctx
  pub raw : s.ctx.emulated_transactions_raw ≡ c.emulated_transactions_raw
  pub lt : s.max_lt ≡ greatest (λ n. n.transaction.lt) ns
  pub utime : s.max_utime ≡ greatest (λ n. n.transaction.now) ns
  pub seqno : s.max_mc_seqno ≡ greatest (λ n. n.mc_block_seqno) ns
  pub count : s.transaction_count ≡ length ns % 2 ^ 16

-- The invariant of the context, and its raw data.
pub record Holds (c c' : EmulatedTracesContext) : Type 0 where
  pub emulated : OnlyEmulated c'
  pub raw : c'.emulated_transactions_raw ≡ c.emulated_transactions_raw

pub data NodeOutcome (c : EmulatedTracesContext) (ns : List TraceNode)
    : Outcome Filling → Type 0 where
  filled : {s : Filling} → Fills c ns s → NodeOutcome c ns (s, none)
  failed : {s : Filling} {e : FillError} → Holds c s.ctx → NodeOutcome c ns (s, some e)

-- The loop's facts before and after the transaction's row, with the count behind by one.
module _ (c : EmulatedTracesContext) (ns : List TraceNode) (node : TraceNode) where
  pub record HalfFills (s : Filling) : Type 0 where
    pub emulated : OnlyEmulated s.ctx
    pub raw : s.ctx.emulated_transactions_raw ≡ c.emulated_transactions_raw
    pub lt : s.max_lt ≡ greatest (λ n. n.transaction.lt) (ns ++ node ∷ [])
    pub utime : s.max_utime ≡ greatest (λ n. n.transaction.now) (ns ++ node ∷ [])
    pub seqno : s.max_mc_seqno ≡ greatest (λ n. n.mc_block_seqno) (ns ++ node ∷ [])
    pub count : s.transaction_count ≡ length ns % 2 ^ 16

  fill_transaction-HalfFills :
      (key : String) (trace : Trace) (row : TransactionRow) (s : Filling)
      → Shows node row
      → Fills c ns s
      → HalfFills (
          fill_transaction key trace node
            (should_save s.ctx node)
            row
            node.transaction.now
            node.mc_block_seqno
            s)
  fill_transaction-HalfFills key trace row s shows inv =
      let saved = should_save s.ctx node in
      let e =
        fill_transaction-numbers key trace node saved row node.transaction.now node.mc_block_seqno
          s in
      record {
        emulated =
            fill_transaction-OnlyEmulated key trace node saved row _ _ s
              (λ h only. ap (λ x. x.emulated) shows ∙ should_save-emulated _ node.emulated h only)
              inv.emulated;
        raw = ap (λ x. x.raw) e ∙ inv.raw;
        lt =
            ap (λ x. x.lt) e
            ∙ ap (λ x. max x row.lt) inv.lt
            ∙ ap (λ x. max (greatest (λ n. n.transaction.lt) ns) x.lt) shows
            ∙ sym (greatest-append_max _ ns node);
        utime =
            ap (λ x. x.utime) e
            ∙ ap (λ x. max x node.transaction.now) inv.utime
            ∙ sym (greatest-append_max _ ns node);
        seqno =
            ap (λ x. x.seqno) e
            ∙ ap (λ x. max x node.mc_block_seqno) inv.seqno
            ∙ sym (greatest-append_max _ ns node);
        count = ap (λ x. x.count) e ∙ inv.count;
      }

  count_up :
      (ns : List TraceNode) (node : TraceNode) (k : ℕ)
      → k ≡ length ns % 2 ^ 16
      → (k + 1) % 2 ^ 16 ≡ length (ns ++ node ∷ []) % 2 ^ 16
  count_up ns node k e = omega (arith, e, length-append ns (node ∷ []))

  fill_contents-Fills :
      (key : String) (saved : Bool) (row : TransactionRow) (g : Gathered) (s : Filling)
      → HalfFills s
      → Fills c
          (ns ++ node ∷ [])
          (fill_contents saved g (fill_messages key node saved row g.messages s))
  fill_contents-Fills key saved row g s half =
      let e =
        fill_contents-kept saved g (fill_messages key node saved row g.messages s)
        ∙ ap (λ (k : Kept). record k { count = (k.count + 1) % 2 ^ 16 })
            (fill_messages-kept key node saved row g.messages s) in
      record {
        emulated = subst (λ k. k.only ≡ true → AllEmulated k.transactions) (sym e) half.emulated;
        raw = ap (λ x. x.raw) e ∙ half.raw;
        lt = ap (λ x. x.lt) e ∙ half.lt;
        utime = ap (λ x. x.utime) e ∙ half.utime;
        seqno = ap (λ x. x.seqno) e ∙ half.seqno;
        count = ap (λ x. x.count) e ∙ count_up ns node _ half.count;
      }

  module _ (codec : Codec) where
    fill_node_messages-NodeOutcome :
        (key : String) (saved : Bool) (row : TransactionRow) (s : Filling)
        → IsReady node
        → HalfFills s
        → Yields (NodeOutcome c (ns ++ node ∷ [])) (fill_node_messages codec key node saved row s)
    unfolding fill_node_messages
    fill_node_messages-NodeOutcome key saved row s ready half =
        let (m, e) = ready.in_msg in Yields-bind (get_messages_total codec node m e) λ r t. go r
      where
        go :
            (r : Result HashError Gathered)
            → Yields (NodeOutcome c (ns ++ node ∷ [])) (elim r [
              | err e ↦ some (s, some (hash_error e))
              | ok g ↦
                  some (fill_contents saved g (fill_messages key node saved row g.messages s), none)
            ])
        go (err e) = yields (failed (record { emulated = half.emulated; raw = half.raw }))
        go (ok g) = yields (filled (fill_contents-Fills key saved row g s half))

    pub fill_node-NodeOutcome :
        (key : String) (trace : Trace) (s : Filling)
        → IsReady node
        → Fills c ns s
        → Yields (NodeOutcome c (ns ++ node ∷ [])) (fill_node codec key trace node s)
    unfolding fill_node
    fill_node-NodeOutcome key trace s ready inv =
        Yields-bind (get_transaction_row-Shows node ready.complete) go
      where
        go :
            (r : Result StatusError TransactionRow)
            → IfOk (Shows node) r
            → Yields (NodeOutcome c (ns ++ node ∷ [])) (elim r [
              | err e ↦ some (s, some (status_error e))
              | ok row ↦ row.now >>= λ now. row.mc_block_seqno >>= λ mc_block_seqno.
                  fill_node_messages codec key node (should_save s.ctx node) row (
                    fill_transaction key trace node
                      (should_save s.ctx node)
                      row
                      now
                      mc_block_seqno
                      s)
            ])
        go (err e) t = yields (failed (record { emulated = inv.emulated; raw = inv.raw }))
        go (ok row) shows = Yields-at _ (ap (λ x. x.now) shows) (
            Yields-at _ (ap (λ x. x.mc_block_seqno) shows) (
              fill_node_messages-NodeOutcome key (should_save s.ctx node) row _ ready
                (fill_transaction-HalfFills key trace row s shows inv)))
