-- ===== src/Index/Query/Traces/Laws.antt =====
-- buildTracesQuery of ton-index-go/index/crud.go and the texts of its request.
use ton_indexer.Prelude.{String, Bool, Option, none, some, All, ◌≡◌, refl, Bool-cases, inl, inr}
use mathlib.Core.Option.{map as map_option}
use ton_indexer.Prelude.Int.{ℤ}
use ton_indexer.Index.Query.Request.{
  TracesRequest, UtimeRequest, LtRequest, LimitRequest, RequestSettings,
}
use ton_indexer.Index.Query.Sql.{by_time, is_empty}
use ton_indexer.Index.Query.Skeleton.{
  Same, Same-closed, Same-concat, SameAll, same_nil, same_cons, QuoteFree,
}
use ton_indexer.Index.Query.Redact.{redact, redact_slice, IfSome, Same-redact, is_empty-redact}
use ton_indexer.Index.Query.Parts.{same_rules, redact_laws}
use ton_indexer.Index.Query.Outcome.{
  outline, SameResult, same_ok, SameResult-then, SameResult-outline, limit_query-Same,
  sort_order_or-Same,
}
use ton_indexer.Index.Query.Traces.{
  build_traces_query, trace_filters, account_filters, complete_filters, trace_from, trace_distinct,
}

-- The request with its texts hidden.
unfoldable pub redact_traces : TracesRequest → TracesRequest
redact_traces r = record r {
  account_address = map_option redact (r.account_address);
  trace_id = redact_slice (r.trace_id);
  transaction_hash = redact_slice (r.transaction_hash);
  message_hash = redact_slice (r.message_hash);
}

-- No text of the request has a quote.
pub record TracesIsFree (r : TracesRequest) : Type 0 where
  pub account_address_free : IfSome QuoteFree (r.account_address)
  pub trace_id_free : IfSome (All QuoteFree) (r.trace_id)
  pub transaction_hash_free : IfSome (All QuoteFree) (r.transaction_hash)
  pub message_hash_free : IfSome (All QuoteFree) (r.message_hash)

SameAll-account_filters :
    (v : Option String)
    → IfSome QuoteFree v
    → SameAll (account_filters v) (account_filters (map_option redact v))
unfolding account_filters
SameAll-account_filters none h = same_nil
SameAll-account_filters (some s) h = elim (Bool-cases (is_empty s)) [
  | inl e ↦ rw (is_empty-redact s, e) same_nil
  | inr e ↦
      rw (is_empty-redact s, e)
        (same_cons (Same-concat (Same-closed "T.account = " refl) (Same-redact s h)) same_nil)
]

SameAll-complete_filters : (v : Option ℤ) → SameAll (complete_filters v) (complete_filters v)
unfolding complete_filters
SameAll-complete_filters none = same_nil
SameAll-complete_filters (some n) = search same_rules

trace_filters-redact :
    (r : TracesRequest) (utime : UtimeRequest) (lt : LtRequest)
    → TracesIsFree r
    → SameAll (trace_filters r utime lt) (trace_filters (redact_traces r) utime lt)
unfolding trace_filters redact_traces
trace_filters-redact r utime lt h =
    search (same_rules, SameAll-account_filters, SameAll-complete_filters) depth 24 fits 9000

trace_from-redact : (r : TracesRequest) → trace_from (redact_traces r) ≡ trace_from r
unfolding trace_from redact_traces
trace_from-redact r = simp redact_laws

trace_distinct-redact :
    (r : TracesRequest) (now : Bool) → trace_distinct (redact_traces r) now ≡ trace_distinct r now
unfolding trace_distinct redact_traces
trace_distinct-redact r now = simp redact_laws

Same-trace_from : (r : TracesRequest) → Same (trace_from r) (trace_from r)
unfolding trace_from
Same-trace_from r = search (same_rules) depth 24 fits 9000

Same-trace_distinct :
    (r : TracesRequest) (now : Bool) → Same (trace_distinct r now) (trace_distinct r now)
unfolding trace_distinct
Same-trace_distinct r now = search (same_rules) depth 24 fits 9000

build_traces_query-Same :
    (r : TracesRequest) (utime : UtimeRequest) (lt : LtRequest) (lim : LimitRequest)
    (settings : RequestSettings)
    → TracesIsFree r
    → SameResult
        (build_traces_query r utime lt lim settings)
        (build_traces_query (redact_traces r) utime lt lim settings)
unfolding build_traces_query
build_traces_query-Same r utime lt lim settings h =
    SameResult-then (limit_query-Same lim settings) λ l l' p.
      SameResult-then (sort_order_or-Same "desc" (lim.sort) (Same-closed "desc" refl)) λ o o' q.
        rw (trace_from-redact r, trace_distinct-redact r (by_time utime))
          (same_ok (
            search
              (same_rules, trace_filters-redact r utime lt, Same-trace_from, Same-trace_distinct)
              depth 30 fits 9000))

-- When no text of the request has a quote, the query built from it and the query built from the
-- request with its texts hidden are the same outside of their literals, or both are the same error.
pub build_traces_query-redact :
    (r : TracesRequest) (utime : UtimeRequest) (lt : LtRequest) (lim : LimitRequest)
    (settings : RequestSettings)
    → TracesIsFree r
    → outline (build_traces_query r utime lt lim settings)
      ≡ outline (build_traces_query (redact_traces r) utime lt lim settings)
build_traces_query-redact r utime lt lim settings h =
    SameResult-outline (build_traces_query-Same r utime lt lim settings h)
