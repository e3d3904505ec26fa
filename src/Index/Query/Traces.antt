-- ===== src/Index/Query/Traces.antt =====
-- buildTracesQuery of ton-index-go/index/crud.go.
pub mod Laws
use ton_indexer.Prelude.{
  ℕ, zero, suc, String, Bool, true, false, not, Option, none, some, List, [], ◌∷◌, ◌++◌, Result, ok,
  err, ◌==◌, if◌then◌else◌, str_eq, ◌||◌, ◌&&◌,
}
use ton_indexer.Prelude.Int.{ℤ, pos}
use ton_indexer.Prelude.Text.{has_substring}
use ton_indexer.Prelude.Format.{format_int}
use ton_indexer.Index.Query.Sql.{
  ◌<>◌, ◌>>?◌, IndexError, sort_order_or, get_sort_order, limit_query, literal, filter_by_array,
  opt_filter, slice_filter, array_filter, nonempty_filter, either_filter, has_values, has_one,
  has_text, is_some, where_query, time_filters, by_time, owner_filters, message_hash_filters,
  replaced_by, flag_filter, sort_or_desc, is_empty, pair_filters,
}
use ton_indexer.Index.Query.Request.{
  TracesRequest, UtimeRequest, LtRequest, LimitRequest, RequestSettings, Slice,
}

abbrev pub trace_columns : String
trace_columns =
    "E.trace_id, E.external_hash, E.mc_seqno_start, E.mc_seqno_end, \n\t\t\t\t\t\t   E.start_lt, E.start_utime, E.end_lt, E.end_utime, \n\t\t\t\t\t\t   E.state, E.edges_, E.nodes_, E.pending_edges_, E.classification_state"

unfoldable pub complete_filters : Option ℤ → List String
complete_filters none = []
complete_filters (some v) = "E.state = 'complete'" ∷ ("E.mc_seqno_end = " <> format_int v) ∷ []

-- the account, if the text is not empty
unfoldable pub account_filters : Option String → List String
account_filters none = []
account_filters (some v) = if is_empty v then [] else ("T.account = " <> literal v) ∷ []

unfoldable pub trace_filters : TracesRequest → UtimeRequest → LtRequest → List String
unfolding account_filters complete_filters
trace_filters r utime_req lt_req =
    time_filters "E.end_utime" "E.end_lt" utime_req lt_req
    ++ account_filters (r.account_address)
    ++ slice_filter "T.hash" (r.transaction_hash)
    ++ message_hash_filters (r.message_hash)
    ++ slice_filter "E.trace_id" (r.trace_id)
    ++ complete_filters (r.mc_seqno)

unfoldable pub trace_from : TracesRequest → String
trace_from r =
    if has_values (r.message_hash)
    then "traces as E join messages as M on E.trace_id = M.trace_id"
    else if is_some (r.transaction_hash) || has_text (r.account_address)
    then "traces as E join transactions as T on E.trace_id = T.trace_id"
    else "traces as E"

-- what stands before the columns: a join may find a trace several times
unfoldable pub trace_distinct : TracesRequest → Bool → String
trace_distinct r order_by_now =
    if has_values (r.message_hash) || is_some (r.transaction_hash) || has_text (r.account_address)
    then (if order_by_now
        then "distinct on (E.end_utime, E.trace_id) "
        else "distinct on (E.end_lt, E.trace_id) ")
    else ""

unfoldable pub build_traces_query :
    TracesRequest
    → UtimeRequest
    → LtRequest
    → LimitRequest
    → RequestSettings
    → Result IndexError String
unfolding trace_filters trace_from trace_distinct
build_traces_query trace_req utime_req lt_req lim_req settings =
    limit_query lim_req settings >>? λ limit. sort_order_or "desc" (lim_req.sort) >>? λ sort_order.
    ok (
      "select "
      <> trace_distinct trace_req (by_time utime_req)
      <> trace_columns
      <> " from "
      <> trace_from trace_req
      <> where_query (trace_filters trace_req utime_req lt_req)
      <> " order by "
      <> (if by_time utime_req then "E.end_utime " else "E.end_lt ")
      <> sort_order
      <> ", E.trace_id "
      <> sort_order
      <> limit)
