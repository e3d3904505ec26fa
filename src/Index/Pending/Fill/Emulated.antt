-- ===== src/Index/Pending/Fill/Emulated.antt =====
-- FillFromRawData of ton-index-go/index/pending.go: the transactions that it saves, and the numbers
-- that its loops keep.
use ton_indexer.Prelude.{
  ℕ, ◌+◌, ◌%◌, ◌^◌, max, ◌≡◌, refl, ◌∙◌, String, Bool, true, false, not, ◌&&◌, List, [], ◌∷◌, All,
  All-append, Bool-cases, inl, inr, str_eq, arith,
}
use ton_indexer.Prelude.GoMap.{GoMap, lookup, insert}
use ton_indexer.Index.Emulated.Models.{TraceNode}
use ton_indexer.Index.Emulated.Rows.{TransactionRow, MessageRow}
use ton_indexer.Index.Emulated.Convert.{Trace}
use ton_indexer.Index.Emulated.Messages.{Gathered}
use ton_indexer.Index.Pending.{EmulatedTracesContext, entries}
use ton_indexer.Index.Pending.Fill.{
  Filling, append_row, fill_message, fill_messages, fill_transaction, fill_contents,
}

abbrev pub AllEmulated : GoMap (List TransactionRow) → Type 0
AllEmulated m = All (λ entry. All (λ (row : TransactionRow). row.emulated ≡ true) entry.1) m

abbrev pub OnlyEmulated : EmulatedTracesContext → Type 0
OnlyEmulated c = c.emulated_only ≡ true → AllEmulated c.emulated_transactions

entries-emulated :
    (key : String) (m : GoMap (List TransactionRow))
    → AllEmulated m
    → All (λ (row : TransactionRow). row.emulated ≡ true) (entries key m)
unfolding lookup
entries-emulated key [] p = tt
entries-emulated key ((k, rows) ∷ m) p = elim (Bool-cases (str_eq k key)) [
  | inl e ↦ rw (e, entries) p.0
  | inr e ↦ rw (e, entries) (entries-emulated key m p.1)
]

insert-AllEmulated :
    (key : String) (rows : List TransactionRow) (m : GoMap (List TransactionRow))
    → All (λ (row : TransactionRow). row.emulated ≡ true) rows
    → AllEmulated m
    → AllEmulated (insert key rows m)
unfolding insert
insert-AllEmulated key rows [] q p = (q, tt)
insert-AllEmulated key rows ((k, old) ∷ m) q p = elim (Bool-cases (str_eq k key)) [
  | inl e ↦ rw e (q, p.1)
  | inr e ↦ rw e (p.0, insert-AllEmulated key rows m q p.1)
]

pub append_row-AllEmulated :
    (key : String) (row : TransactionRow) (m : GoMap (List TransactionRow))
    → row.emulated ≡ true
    → AllEmulated m
    → AllEmulated (append_row key row m)
unfolding append_row
append_row-AllEmulated key row m q p =
    insert-AllEmulated key _ m
      (All-append _ (entries key m) (row ∷ []) (entries-emulated key m p) (q, tt)) p

-- What the parts of the loop body keep: the saved transactions, the maxima and the count.
pub record Kept : Type 0 where
  pub transactions : GoMap (List TransactionRow)
  pub only : Bool
  pub raw : GoMap (GoMap String)
  pub lt : ℕ
  pub utime : ℕ
  pub seqno : ℕ
  pub count : ℕ

abbrev pub kept_of : Filling → Kept
kept_of s = record {
  transactions = s.ctx.emulated_transactions;
  only = s.ctx.emulated_only;
  raw = s.ctx.emulated_transactions_raw;
  lt = s.max_lt;
  utime = s.max_utime;
  seqno = s.max_mc_seqno;
  count = s.transaction_count;
}

fill_message-kept :
    (key : String) (node : TraceNode) (saved : Bool) (row : TransactionRow) (msg : MessageRow)
    (s : Filling)
    → kept_of (fill_message key node saved row msg s) ≡ kept_of s
unfolding fill_message
fill_message-kept key node true row msg s = refl
fill_message-kept key node false row msg s = refl

pub fill_messages-kept :
    (key : String) (node : TraceNode) (saved : Bool) (row : TransactionRow) (msgs : List MessageRow)
    (s : Filling)
    → kept_of (fill_messages key node saved row msgs s) ≡ kept_of s
unfolding fill_messages
fill_messages-kept key node saved row [] s = refl
fill_messages-kept key node saved row (msg ∷ msgs) s =
    fill_messages-kept key node saved row msgs _ ∙ fill_message-kept key node saved row msg s

pub fill_contents-kept :
    (saved : Bool) (g : Gathered) (s : Filling)
    → kept_of (fill_contents saved g s)
      ≡ record (kept_of s) { count = (s.transaction_count + 1) % 2 ^ 16 }
unfolding fill_contents
fill_contents-kept true g s = refl
fill_contents-kept false g s = refl

-- The transaction of a node is saved if the context may hold it.
pub should_save-emulated :
    (only emulated : Bool) → not (only && not emulated) ≡ true → only ≡ true → emulated ≡ true
should_save-emulated true true h e = refl
should_save-emulated true false h e = h
should_save-emulated false emulated h e = absurd (ground (arith, e))

pub fill_transaction-OnlyEmulated :
    (key : String) (trace : Trace) (node : TraceNode) (saved : Bool) (row : TransactionRow)
    (now seqno : ℕ) (s : Filling)
    → (saved ≡ true → s.ctx.emulated_only ≡ true → row.emulated ≡ true)
    → OnlyEmulated s.ctx
    → OnlyEmulated (fill_transaction key trace node saved row now seqno s).ctx
unfolding fill_transaction
fill_transaction-OnlyEmulated key trace node true row now seqno s e inv =
    λ only. append_row-AllEmulated key row s.ctx.emulated_transactions (e refl only) (inv only)
fill_transaction-OnlyEmulated key trace node false row now seqno s e inv = inv

-- The numbers that the loop keeps, after a node.
pub record Numbers : Type 0 where
  pub raw : GoMap (GoMap String)
  pub lt : ℕ
  pub utime : ℕ
  pub seqno : ℕ
  pub count : ℕ

abbrev pub numbers_of : Filling → Numbers
numbers_of s = record {
  raw = s.ctx.emulated_transactions_raw;
  lt = s.max_lt;
  utime = s.max_utime;
  seqno = s.max_mc_seqno;
  count = s.transaction_count;
}

pub fill_transaction-numbers :
    (key : String) (trace : Trace) (node : TraceNode) (saved : Bool) (row : TransactionRow)
    (now seqno : ℕ) (s : Filling)
    → numbers_of (fill_transaction key trace node saved row now seqno s) ≡ record {
      raw = s.ctx.emulated_transactions_raw;
      lt = max s.max_lt row.lt;
      utime = max s.max_utime now;
      seqno = max s.max_mc_seqno seqno;
      count = s.transaction_count;
    }
unfolding fill_transaction
fill_transaction-numbers key trace node true row now seqno s = refl
fill_transaction-numbers key trace node false row now seqno s = refl
