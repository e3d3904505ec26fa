-- ===== src/Index/Query/Transactions/Laws.antt =====
-- buildTransactionsQuery of ton-index-go/index/crud.go and the texts of its request.
use ton_indexer.Prelude.{String, Bool, none, some, [], ◌∷◌, All, ◌≡◌, refl}
use mathlib.Core.Option.{map as map_option}
use ton_indexer.Index.Query.Request.{
  BlockRequest, TransactionRequest, MessageRequest, UtimeRequest, LtRequest, LimitRequest,
  RequestSettings, Slice,
}
use ton_indexer.Index.Query.Sql.{is_some, has_one, by_time}
use ton_indexer.Index.Query.Skeleton.{Same, Same-closed, SameAll, same_nil, same_cons, QuoteFree}
use ton_indexer.Index.Query.Redact.{redact, redact_slice, IfSome, Same-filter_by_array, Same-if}
use ton_indexer.Index.Query.Parts.{same_rules, redact_laws}
use ton_indexer.Index.Query.Outcome.{
  outline, SameResult, same_ok, SameResult-then, SameResult-outline, limit_query-Same,
  sort_order_or-Same,
}
use ton_indexer.Index.Query.Messages.Laws.{redact_messages, MessageIsFree}
use ton_indexer.Index.Query.Transactions.{
  build_transactions_query, transaction_filters, account_filters, transaction_order, by_message,
}

-- The request with its texts hidden.
unfoldable pub redact_transactions : TransactionRequest → TransactionRequest
redact_transactions r = record r {
  account = redact_slice (r.account);
  hash = map_option redact (r.hash);
}

-- No text of the request has a quote.
pub record TransactionIsFree (r : TransactionRequest) : Type 0 where
  pub account_free : IfSome (All QuoteFree) (r.account)
  pub hash_free : IfSome QuoteFree (r.hash)

SameAll-account_filters :
    (v : Slice String)
    → IfSome (All QuoteFree) v
    → SameAll (account_filters v) (account_filters (redact_slice v))
unfolding account_filters redact_slice
SameAll-account_filters none h = same_nil
SameAll-account_filters (some []) h = same_nil
SameAll-account_filters (some (v ∷ [])) (h, _) = search (same_rules, h)
SameAll-account_filters (some (v ∷ v' ∷ more)) h =
    same_cons (Same-filter_by_array "T.account" (v ∷ v' ∷ more) (Same-closed _ refl) h) same_nil

transaction_filters-redact :
    (blk : BlockRequest) (r : TransactionRequest) (msg : MessageRequest) (utime : UtimeRequest)
    (lt : LtRequest)
    → TransactionIsFree r
    → MessageIsFree msg
    → SameAll
        (transaction_filters blk r msg utime lt)
        (transaction_filters blk (redact_transactions r) (redact_messages msg) utime lt)
unfolding transaction_filters redact_transactions redact_messages
transaction_filters-redact blk r msg utime lt h k =
    search (same_rules, SameAll-account_filters) depth 32 fits 9000

by_message-redact : (msg : MessageRequest) → by_message (redact_messages msg) ≡ by_message msg
unfolding by_message redact_messages
by_message-redact msg = simp redact_laws

transaction_order-redact :
    (blk : BlockRequest) (r : TransactionRequest) (now : Bool) (so : String)
    → transaction_order blk (redact_transactions r) now so ≡ transaction_order blk r now so
unfolding transaction_order redact_transactions
transaction_order-redact blk r now so = simp redact_laws

Same-transaction_order :
    (blk : BlockRequest) (r : TransactionRequest) (now : Bool) (s t : String)
    → Same s t
    → Same (transaction_order blk r now s) (transaction_order blk r now t)
unfolding transaction_order
Same-transaction_order blk r now s t p = Same-if (is_some (r.lt)) (search same_rules depth 12) (
    Same-if (is_some (r.hash)) (Same-closed "" refl) (
      Same-if (has_one (r.account)) (search same_rules depth 12) (
        Same-if (is_some (blk.mc_seqno)) (search same_rules depth 12)
          (search same_rules depth 12))))

build_transactions_query-Same :
    (blk : BlockRequest) (r : TransactionRequest) (msg : MessageRequest) (utime : UtimeRequest)
    (lt : LtRequest) (lim : LimitRequest) (settings : RequestSettings)
    → TransactionIsFree r
    → MessageIsFree msg
    → SameResult (build_transactions_query blk r msg utime lt lim settings) (
        build_transactions_query blk
          (redact_transactions r)
          (redact_messages msg)
          utime
          lt
          lim
          settings)
unfolding build_transactions_query
build_transactions_query-Same blk r msg utime lt lim settings h k =
    SameResult-then (limit_query-Same lim settings) λ l l' p.
      SameResult-then (sort_order_or-Same "desc" (lim.sort) (Same-closed "desc" refl)) λ o o' q.
        rw (by_message-redact msg, transaction_order-redact blk r (by_time utime) o')
          (same_ok (
            search
              (same_rules, transaction_filters-redact blk r msg utime lt, Same-transaction_order)
              depth 30 fits 9000))

-- When no text of the two requests has a quote, the query built from them and the query built from
-- the requests with their texts hidden are the same outside of their literals, or both are the same
-- error.
pub build_transactions_query-redact :
    (blk : BlockRequest) (r : TransactionRequest) (msg : MessageRequest) (utime : UtimeRequest)
    (lt : LtRequest) (lim : LimitRequest) (settings : RequestSettings)
    → TransactionIsFree r
    → MessageIsFree msg
    → outline (build_transactions_query blk r msg utime lt lim settings)
      ≡ outline (
          build_transactions_query blk
            (redact_transactions r)
            (redact_messages msg)
            utime
            lt
            lim
            settings)
build_transactions_query-redact blk r msg utime lt lim settings h k =
    SameResult-outline (build_transactions_query-Same blk r msg utime lt lim settings h k)
