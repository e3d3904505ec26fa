-- ===== src/Index/Query/Messages.antt =====
-- buildMessagesQuery of ton-index-go/index/crud.go.
pub mod Laws
use ton_indexer.Prelude.{
  ℕ, zero, suc, String, Bool, true, false, not, Option, none, some, List, [], ◌∷◌, ◌++◌, Result, ok,
  err, ◌==◌, if◌then◌else◌, str_eq, ◌||◌, ◌&&◌,
}
use ton_indexer.Prelude.Int.{ℤ, pos}
use ton_indexer.Prelude.Text.{has_substring}
use ton_indexer.Prelude.Format.{format_int}
use ton_indexer.Index.Query.Sql.{
  ◌<>◌, ◌>>?◌, IndexError, sort_order_or, get_sort_order, limit_query, literal, filter_by_array,
  opt_filter, slice_filter, array_filter, nonempty_filter, either_filter, has_values, has_one,
  has_text, is_some, where_query, time_filters, by_time, owner_filters, message_hash_filters,
  replaced_by, flag_filter, sort_or_desc, is_empty, pair_filters,
}
use ton_indexer.Index.Query.Request.{
  MessageRequest, UtimeRequest, LtRequest, LimitRequest, RequestSettings, Slice,
}

abbrev pub rest_columns : String
rest_columns =
    "M.trace_id, M.source, M.destination, M.value, \n\t\tM.value_extra_currencies, M.fwd_fee, M.ihr_fee, M.created_lt, M.created_at, M.opcode, M.ihr_disabled, M.bounce, \n\t\tM.bounced, M.import_fee, M.body_hash, M.init_state_hash, M.msg_hash_norm"

abbrev pub tx_hash_columns : String
tx_hash_columns =
    ", \n\t\tmax(case when M.direction='in' then M.tx_hash else null end) as in_tx_hash, \n\t\tmax(case when M.direction='out' then M.tx_hash else null end) as out_tx_hash"

abbrev pub content_joins : String
content_joins =
    ") as MM \n\tleft join message_contents as B on MM.body_hash = B.hash\n\tleft join message_contents as I on MM.init_state_hash = I.hash;"

unfoldable pub message_columns : String
message_columns = "'', 0, M.msg_hash, '', " <> rest_columns <> tx_hash_columns

-- The text null asks for a message without this address.
unfoldable pub nullable_filter : String → String → String
nullable_filter clmn v = if str_eq v "null" then clmn <> " is NULL" else clmn <> " = " <> literal v

abbrev pub message_hash_filter : Slice String → List String
message_hash_filter v = opt_filter v (either_filter "M.msg_hash" "M.msg_hash_norm")

abbrev pub message_order_column : UtimeRequest → String
message_order_column utime_req = if by_time utime_req then "M.created_at" else "M.created_lt"

unfoldable pub message_filters : MessageRequest → UtimeRequest → LtRequest → String → List String
unfolding nullable_filter
message_filters msg_req utime_req lt_req order_col =
    opt_filter (msg_req.direction) (λ v. "M.direction = " <> literal v)
    ++ opt_filter (msg_req.source) (nullable_filter "M.source")
    ++ opt_filter (msg_req.destination) (nullable_filter "M.destination")
    ++ opt_filter (msg_req.opcode) (λ v. "M.opcode = " <> format_int v)
    ++ message_hash_filter (msg_req.message_hash)
    ++ opt_filter (msg_req.body_hash) (λ v. "M.body_hash = " <> literal v)
    ++ opt_filter (utime_req.start_utime) (λ v. "M.created_at >= " <> format_int (pos v))
    ++ opt_filter (utime_req.end_utime) (λ v. "M.created_at <= " <> format_int (pos v))
    ++ opt_filter (lt_req.start_lt) (λ v. "M.created_lt >= " <> format_int (pos v))
    ++ opt_filter (lt_req.end_lt) (λ v. "M.created_lt <= " <> format_int (pos v))
    ++ flag_filter (msg_req.exclude_externals) (order_col <> " is not NULL")
    ++ flag_filter (msg_req.only_externals) (order_col <> " is NULL")

unfoldable pub build_messages_query :
    MessageRequest
    → UtimeRequest
    → LtRequest
    → LimitRequest
    → RequestSettings
    → Result IndexError String
unfolding message_columns message_filters
build_messages_query msg_req utime_req lt_req lim_req settings =
    limit_query lim_req settings >>? λ limit. sort_order_or "desc" (lim_req.sort) >>? λ sort_order.
    let order_col = message_order_column utime_req in
    ok (
      "select MM.*, B.*, I.* from ("
      <> "select"
      <> message_columns
      <> " from "
      <> " messages as M "
      <> where_query (message_filters msg_req utime_req lt_req order_col)
      <> " group by M.msg_hash, "
      <> rest_columns
      <> " order by "
      <> order_col
      <> " "
      <> sort_order
      <> ", M.msg_hash "
      <> sort_order
      <> limit
      <> content_joins)
