-- ===== src/Index/Pending/Filters/Laws.antt =====
-- EmulatedTracesContext of ton-index-go/index/pending.go: what the operations that take rows out
-- leave.
use ton_indexer.Prelude.{
  ◌≡◌, refl, sym, ap, ◌∙◌, String, Bool, true, false, not, ◌&&◌, subst, Option, none, some, List,
  [], ◌∷◌, str_eq, eq_iff, if◌then◌else◌, arith, contains, Bool-cases, Option-cases, inl, inr,
  filter, map,
}
use ton_indexer.Prelude.GoMap.{
  GoMap, lookup, lookup-insert, lookup-delete, IsUnique, insert-IsUnique, delete-IsUnique,
}
use ton_indexer.Prelude.Text.{trim}
use ton_indexer.Index.Emulated.Rows.{TransactionRow}
use ton_indexer.Index.Pending.{EmulatedTracesContext, entries}
use ton_indexer.Index.Pending.Filters.{
  kept, write_back, keep_loop, differs_from, remove_from_entry, remove_loop, remove_transactions,
  is_requested_account, filter_transactions_by_accounts,
}

-- An entry of the map that holds no row is deleted.
abbrev pub unless_empty : List TransactionRow → Option (List TransactionRow)
unless_empty [] = none
unless_empty (tx ∷ txs) = some (tx ∷ txs)

lookup-write_back :
    (k key : String) (l : List TransactionRow) (m : GoMap (List TransactionRow))
    → lookup key (write_back k l m) ≡ (if str_eq k key then unless_empty l else lookup key m)
unfolding write_back
lookup-write_back k key [] m = lookup-delete k key m
lookup-write_back k key (tx ∷ txs) m = lookup-insert k key (tx ∷ txs) m

write_back-IsUnique :
    (k : String) (l : List TransactionRow) (m : GoMap (List TransactionRow))
    → IsUnique m
    → IsUnique (write_back k l m)
unfolding write_back
write_back-IsUnique k [] m u = delete-IsUnique k m u
write_back-IsUnique k (tx ∷ txs) m u = insert-IsUnique k (tx ∷ txs) m u

keep_loop-IsUnique :
    (p : TransactionRow → Bool) (snapshot m : GoMap (List TransactionRow))
    → IsUnique m
    → IsUnique (keep_loop p snapshot m)
unfolding keep_loop
keep_loop-IsUnique p [] m u = u
keep_loop-IsUnique p ((k, txs) ∷ snapshot) m u =
    keep_loop-IsUnique p snapshot _ (write_back-IsUnique k (kept p txs) m u)

-- What the loop leaves under a key that has had the entry `o`.
left_of :
    (TransactionRow → Bool)
    → Option (List TransactionRow)
    → Option (List TransactionRow)
    → Option (List TransactionRow)
left_of p none before = before
left_of p (some txs) before = unless_empty (kept p txs)

lookup-keep_loop :
    (p : TransactionRow → Bool) (snapshot m : GoMap (List TransactionRow)) (key : String)
    → IsUnique snapshot
    → lookup key (keep_loop p snapshot m) ≡ left_of p (lookup key snapshot) (lookup key m)
unfolding keep_loop lookup left_of
lookup-keep_loop p [] m key u = refl
lookup-keep_loop p ((k, txs) ∷ snapshot) m key u =
    lookup-keep_loop p snapshot (write_back k (kept p txs) m) key u.1
    ∙ ap (left_of p (lookup key snapshot)) (lookup-write_back k key (kept p txs) m)
    ∙ elim (Bool-cases (str_eq k key)) [
      | inl e ↦
          let missing : lookup key snapshot ≡ none = cc (u.0, (eq_iff k key).0 e) in
          rw (e, missing) refl
      | inr e ↦ rw e refl
    ]

lookup-kept_map :
    (p : TransactionRow → Bool) (m : GoMap (List TransactionRow)) (key : String)
    → IsUnique m
    → lookup key (keep_loop p m m) ≡ unless_empty (kept p (entries key m))
unfolding left_of kept
lookup-kept_map p m key u = lookup-keep_loop p m m key u ∙ (elim (Option-cases (lookup key m)) [
  | inl n ↦ rw (n, entries) refl
  | inr (txs, e) ↦ rw (e, entries) refl
])

remove_loop-keep_loop :
    (h : String) (snapshot : GoMap (List TransactionRow)) (c : EmulatedTracesContext)
    → (remove_loop h snapshot c).emulated_transactions
      ≡ keep_loop (differs_from h) snapshot c.emulated_transactions
unfolding remove_loop keep_loop remove_from_entry
remove_loop-keep_loop h [] c = refl
remove_loop-keep_loop h ((k, txs) ∷ snapshot) c =
    remove_loop-keep_loop h snapshot (remove_from_entry k (kept (differs_from h) txs) c)

entries-unless_empty :
    (key : String) (m : GoMap (List TransactionRow)) (l : List TransactionRow)
    → lookup key m ≡ unless_empty l
    → entries key m ≡ l
entries-unless_empty key m [] e = rw (e, entries) refl
entries-unless_empty key m (tx ∷ txs) e = rw (e, entries) refl

kept-kept :
    (p q r : TransactionRow → Bool) (txs : List TransactionRow)
    → ((tx : TransactionRow) → r tx ≡ (q tx && p tx))
    → kept p (kept q txs) ≡ kept r txs
unfolding kept
kept-kept p q r [] same = refl
kept-kept p q r (tx ∷ txs) same = elim (Bool-cases (q tx)) [
  | inl e ↦ elim (Bool-cases (p tx)) [
    | inl f ↦ rw e (rw f (rw (same tx) (rw e (rw f (ap (◌∷◌ tx) (kept-kept p q r txs same))))))
    | inr f ↦ rw e (rw f (rw (same tx) (rw e (rw f (kept-kept p q r txs same)))))
  ]
  | inr e ↦ rw e (rw (same tx) (rw e (kept-kept p q r txs same)))
]

kept-all :
    (p : TransactionRow → Bool) (txs : List TransactionRow)
    → ((tx : TransactionRow) → p tx ≡ true)
    → kept p txs ≡ txs
unfolding kept
kept-all p [] all = refl
kept-all p (tx ∷ txs) all = rw (all tx) (ap (◌∷◌ tx) (kept-all p txs all))

abbrev pub is_spared : List String → TransactionRow → Bool
is_spared hashes tx = not (contains hashes tx.hash)

is_spared-cons :
    (hash : String) (hashes : List String) (tx : TransactionRow)
    → is_spared (hash ∷ hashes) tx ≡ (differs_from hash tx && is_spared hashes tx)
unfolding contains
is_spared-cons hash hashes tx = ground (arith, eq_iff tx.hash hash, eq_iff hash tx.hash)

kept-filter :
    (p q : TransactionRow → Bool) (txs : List TransactionRow)
    → ((tx : TransactionRow) → p tx ≡ q tx)
    → kept p txs ≡ filter q txs
unfolding kept
kept-filter p q [] same = refl
kept-filter p q (tx ∷ txs) same = rw (same tx, kept-filter p q txs same) refl

-- The account of the transaction is one of those, without the spaces around them.
abbrev pub has_account : List String → TransactionRow → Bool
has_account accounts tx = contains (map trim accounts) tx.account

is_requested_account-has_account :
    (accounts : List String) (tx : TransactionRow)
    → is_requested_account accounts tx ≡ has_account accounts tx
unfolding is_requested_account contains
is_requested_account-has_account [] tx = refl
is_requested_account-has_account (account ∷ accounts) tx = ground (
  arith,
  is_requested_account-has_account accounts tx,
  eq_iff tx.account (trim account),
  eq_iff (trim account) tx.account,
)

-- When each trace key has one entry, FilterTransactionsByAccounts leaves of each trace the
-- transactions whose account is one of the requested ones, without the spaces around these, all of
-- them and in their order, and a trace that none is left of has no entry.
pub filter_transactions_by_accounts_correct :
    (accounts : List String) (c : EmulatedTracesContext) (trace_key : String)
    → IsUnique c.emulated_transactions
    → lookup trace_key (filter_transactions_by_accounts accounts c).emulated_transactions
      ≡ unless_empty (filter (has_account accounts) (entries trace_key c.emulated_transactions))
unfolding filter_transactions_by_accounts
filter_transactions_by_accounts_correct accounts c trace_key u =
    lookup-kept_map (is_requested_account accounts) c.emulated_transactions trace_key u
    ∙ ap unless_empty (
        kept-filter (is_requested_account accounts) (has_account accounts) _
          (is_requested_account-has_account accounts))

remove_transactions-kept :
    (hashes : List String) (c : EmulatedTracesContext) (trace_key : String)
    → IsUnique c.emulated_transactions
    → entries trace_key (remove_transactions hashes c).emulated_transactions
      ≡ kept (is_spared hashes) (entries trace_key c.emulated_transactions)
unfolding remove_transactions contains
remove_transactions-kept [] c trace_key u = sym (kept-all (is_spared []) _ λ tx. refl)
remove_transactions-kept (hash ∷ hashes) c trace_key u =
    let same = remove_loop-keep_loop hash c.emulated_transactions c in
    remove_transactions-kept hashes (remove_loop hash c.emulated_transactions c) trace_key (
      subst IsUnique (sym same)
        (keep_loop-IsUnique (differs_from hash) c.emulated_transactions c.emulated_transactions u))
    ∙ ap (λ m. kept (is_spared hashes) (entries trace_key m)) same
    ∙ ap (kept (is_spared hashes)) (
        entries-unless_empty trace_key _ _
          (lookup-kept_map (differs_from hash) c.emulated_transactions trace_key u))
    ∙ kept-kept (is_spared hashes) (differs_from hash) (is_spared (hash ∷ hashes)) _
        (is_spared-cons hash hashes)

-- When each trace key has one entry, RemoveTransactions leaves of each trace the transactions whose
-- hash is not one of those given, all of them and in their order.
pub remove_transactions_correct :
    (hashes : List String) (c : EmulatedTracesContext) (trace_key : String)
    → IsUnique c.emulated_transactions
    → entries trace_key (remove_transactions hashes c).emulated_transactions
      ≡ filter (is_spared hashes) (entries trace_key c.emulated_transactions)
remove_transactions_correct hashes c trace_key u =
    remove_transactions-kept hashes c trace_key u
    ∙ kept-filter (is_spared hashes) (is_spared hashes) _ (λ tx. refl)

entry-messages :
    (k h : String) (l : List TransactionRow) (c : EmulatedTracesContext)
    → str_eq k h ≡ false
    → lookup h (remove_from_entry k l c).emulated_messages ≡ lookup h c.emulated_messages
unfolding remove_from_entry
entry-messages k h [] c e =
    lookup-delete k h c.emulated_messages
    ∙ ap (λ b. if b then none else lookup h c.emulated_messages) e
entry-messages k h (tx ∷ txs) c e = refl

loop-messages :
    (hash h : String) (snapshot : GoMap (List TransactionRow)) (c : EmulatedTracesContext)
    → lookup h snapshot ≡ none
    → lookup h (remove_loop hash snapshot c).emulated_messages ≡ lookup h c.emulated_messages
unfolding remove_loop lookup
loop-messages hash h [] c n = refl
loop-messages hash h ((k, txs) ∷ snapshot) c n = elim (Bool-cases (str_eq k h)) [
  | inl e ↦ absurd (ground (arith, rw e at n))
  | inr e ↦
      loop-messages hash h snapshot _ (rw e at n)
      ∙ entry-messages k h (kept (differs_from hash) txs) c e
]

loop-missing :
    (hash h : String) (c : EmulatedTracesContext)
    → IsUnique c.emulated_transactions
    → lookup h c.emulated_transactions ≡ none
    → lookup h (remove_loop hash c.emulated_transactions c).emulated_transactions ≡ none
unfolding kept
loop-missing hash h c u n =
    ap (lookup h) (remove_loop-keep_loop hash c.emulated_transactions c)
    ∙ lookup-kept_map (differs_from hash) c.emulated_transactions h u
    ∙ rw (n, entries) refl

-- RemoveTransactions leaves the messages of every transaction hash that is not the key of a trace,
-- those of the removed transactions among them.
remove_transactions-emulated_messages :
    (hashes : List String) (c : EmulatedTracesContext) (h : String)
    → IsUnique c.emulated_transactions
    → lookup h c.emulated_transactions ≡ none
    → lookup h (remove_transactions hashes c).emulated_messages ≡ lookup h c.emulated_messages
unfolding remove_transactions
remove_transactions-emulated_messages [] c h u n = refl
remove_transactions-emulated_messages (hash ∷ hashes) c h u n =
    remove_transactions-emulated_messages hashes (remove_loop hash c.emulated_transactions c) h
      (subst IsUnique (sym (remove_loop-keep_loop hash c.emulated_transactions c))
        (keep_loop-IsUnique (differs_from hash) c.emulated_transactions c.emulated_transactions u))
      (loop-missing hash h c u n)
    ∙ loop-messages hash h c.emulated_transactions c n
