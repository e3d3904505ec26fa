-- ===== src/Index/Query/Messages/Laws.antt =====
-- buildMessagesQuery of ton-index-go/index/crud.go and the texts of its request.
use ton_indexer.Prelude.{String, All, ◌≡◌, refl, str_eq, Bool-cases, inl, inr}
use mathlib.Core.Option.{map as map_option}
use ton_indexer.Index.Query.Request.{
  MessageRequest, UtimeRequest, LtRequest, LimitRequest, RequestSettings,
}
use ton_indexer.Index.Query.Skeleton.{Same, Same-closed, Same-concat, SameAll, QuoteFree}
use ton_indexer.Index.Query.Redact.{redact, redact_slice, IfSome, null-redact, Same-redact}
use ton_indexer.Index.Query.Parts.{same_rules}
use ton_indexer.Index.Query.Outcome.{
  outline, SameResult, same_ok, SameResult-then, SameResult-outline, limit_query-Same,
  sort_order_or-Same,
}
use ton_indexer.Index.Query.Messages.{
  build_messages_query, message_filters, nullable_filter, message_order_column, message_columns,
}

-- The request with its texts hidden.
unfoldable pub redact_messages : MessageRequest → MessageRequest
redact_messages r = record r {
  direction = map_option redact (r.direction);
  message_hash = redact_slice (r.message_hash);
  source = map_option redact (r.source);
  destination = map_option redact (r.destination);
  body_hash = map_option redact (r.body_hash);
}

-- No text of the request has a quote.
pub record MessageIsFree (r : MessageRequest) : Type 0 where
  pub direction_free : IfSome QuoteFree (r.direction)
  pub message_hash_free : IfSome (All QuoteFree) (r.message_hash)
  pub source_free : IfSome QuoteFree (r.source)
  pub destination_free : IfSome QuoteFree (r.destination)
  pub body_hash_free : IfSome QuoteFree (r.body_hash)

Same-nullable_filter :
    (clmn s : String)
    → Same clmn clmn
    → QuoteFree s
    → Same (nullable_filter clmn s) (nullable_filter clmn (redact s))
unfolding nullable_filter
Same-nullable_filter clmn s c h = elim (Bool-cases (str_eq s "null")) [
  | inl e ↦ rw (null-redact s, e) (search (Same-concat, Same-closed))
  | inr e ↦ rw (null-redact s, e) (search (Same-concat, Same-closed, Same-redact))
]

message_filters-redact :
    (r : MessageRequest) (utime : UtimeRequest) (lt : LtRequest) (column : String)
    → Same column column
    → MessageIsFree r
    → SameAll
        (message_filters r utime lt column)
        (message_filters (redact_messages r) utime lt column)
unfolding message_filters redact_messages
message_filters-redact r utime lt column c h =
    search (same_rules, Same-nullable_filter) depth 24 fits 5000

Same-message_columns : Same message_columns message_columns
unfolding message_columns
Same-message_columns = search (Same-concat, Same-closed)

Same-order_column :
    (utime : UtimeRequest) → Same (message_order_column utime) (message_order_column utime)
Same-order_column utime = search same_rules

build_messages_query-Same :
    (r : MessageRequest) (utime : UtimeRequest) (lt : LtRequest) (lim : LimitRequest)
    (settings : RequestSettings)
    → MessageIsFree r
    → SameResult
        (build_messages_query r utime lt lim settings)
        (build_messages_query (redact_messages r) utime lt lim settings)
unfolding build_messages_query
build_messages_query-Same r utime lt lim settings h =
    SameResult-then (limit_query-Same lim settings) λ l l' p.
      SameResult-then (sort_order_or-Same "desc" (lim.sort) (Same-closed "desc" refl)) λ o o' q.
        same_ok (
          search
            (same_rules, Same-message_columns, message_filters-redact r utime lt, Same-order_column)
            depth 24 fits 5000)

-- When no text of the request has a quote, the query built from it and the query built from the
-- request with its texts hidden are the same outside of their literals, or both are the same error.
pub build_messages_query-redact :
    (r : MessageRequest) (utime : UtimeRequest) (lt : LtRequest) (lim : LimitRequest)
    (settings : RequestSettings)
    → MessageIsFree r
    → outline (build_messages_query r utime lt lim settings)
      ≡ outline (build_messages_query (redact_messages r) utime lt lim settings)
build_messages_query-redact r utime lt lim settings h =
    SameResult-outline (build_messages_query-Same r utime lt lim settings h)
