-- ===== src/Index/Query/Accounts.antt =====
-- buildAccountStatesQuery of ton-index-go/index/crud.go.
pub mod Laws
use ton_indexer.Prelude.{
  ℕ, zero, suc, String, Bool, true, false, not, Option, none, some, List, [], ◌∷◌, ◌++◌, Result, ok,
  err, ◌==◌, if◌then◌else◌, str_eq, ◌||◌, ◌&&◌,
}
use ton_indexer.Prelude.Int.{ℤ, pos}
use ton_indexer.Prelude.Text.{has_substring}
use ton_indexer.Prelude.Format.{format_int}
use ton_indexer.Index.Query.Sql.{
  ◌<>◌, ◌>>?◌, IndexError, sort_order_or, get_sort_order, limit_query, literal, filter_by_array,
  opt_filter, slice_filter, array_filter, nonempty_filter, either_filter, has_values, has_one,
  has_text, is_some, where_query, time_filters, by_time, owner_filters, message_hash_filters,
  replaced_by, flag_filter, sort_or_desc, is_empty, pair_filters,
}
use ton_indexer.Index.Query.Request.{
  AccountRequest, UtimeRequest, LtRequest, LimitRequest, RequestSettings, Slice,
}

abbrev pub account_columns : String
account_columns =
    "A.account, A.hash, A.balance, A.balance_extra_currencies, A.account_status, A.frozen_hash, A.last_trans_hash, A.last_trans_lt, A.data_hash, A.code_hash, "

unfoldable pub account_filters : AccountRequest → List String
account_filters r =
    slice_filter "A.account" (r.account_address) ++ slice_filter "A.code_hash" (r.code_hash)

unfoldable pub without_boc : Option Bool → Bool
without_boc (some false) = true
without_boc _ = false

unfoldable pub build_account_states_query :
    AccountRequest → LimitRequest → RequestSettings → Result IndexError String
unfolding account_filters without_boc
build_account_states_query account_req lim_req settings = limit_query lim_req settings >>? λ limit.
    ok (
      "select "
      <> account_columns
      <> (if without_boc (account_req.include_boc) then "NULL, NULL" else "A.data_boc, A.code_boc")
      <> " from "
      <> "latest_account_states as A"
      <> where_query (account_filters account_req)
      <> limit)
