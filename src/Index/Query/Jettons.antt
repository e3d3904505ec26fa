-- ===== src/Index/Query/Jettons.antt =====
-- buildJettonMastersQuery, buildJettonWalletsQuery, buildJettonTransfersQuery and
-- buildJettonBurnsQuery of ton-index-go/index/crud.go.
pub mod Laws
use ton_indexer.Prelude.{
  ℕ, zero, suc, String, Bool, true, false, not, Option, none, some, List, [], ◌∷◌, ◌++◌, Result, ok,
  err, ◌==◌, if◌then◌else◌, str_eq, ◌||◌, ◌&&◌,
}
use ton_indexer.Prelude.Int.{ℤ, pos}
use ton_indexer.Prelude.Text.{has_substring}
use ton_indexer.Prelude.Format.{format_int}
use ton_indexer.Index.Query.Sql.{
  ◌<>◌, ◌>>?◌, IndexError, sort_order_or, get_sort_order, limit_query, literal, filter_by_array,
  opt_filter, slice_filter, array_filter, nonempty_filter, either_filter, has_values, has_one,
  has_text, is_some, where_query, time_filters, by_time, owner_filters, message_hash_filters,
  replaced_by, flag_filter, sort_or_desc, is_empty, pair_filters,
}
use ton_indexer.Index.Query.Request.{
  JettonMasterRequest, JettonWalletRequest, JettonTransferRequest, JettonBurnRequest, UtimeRequest,
  LtRequest, LimitRequest, RequestSettings, Slice,
}

abbrev pub master_columns : String
master_columns =
    " J.address, J.total_supply, J.mintable, J.admin_address, J.jetton_content, \n\t\tJ.jetton_wallet_code_hash, J.code_hash, J.data_hash, J.last_transaction_lt"

abbrev pub wallet_columns : String
wallet_columns =
    "J.address, J.balance, J.owner, J.jetton, J.last_transaction_lt, J.code_hash, J.data_hash, \n\t\tJ.mintless_is_claimed, J.mintless_amount, J.mintless_start_from, J.mintless_expire_at, MJM.custom_payload_api_uri"

abbrev pub transfer_columns : String
transfer_columns =
    "T.tx_hash, T.tx_lt, T.tx_now, T.tx_aborted, T.query_id,\n\t\tT.amount, T.source, T.destination, T.jetton_wallet_address, T.jetton_master_address, T.response_destination, T.custom_payload,\n\t\tT.forward_ton_amount, T.forward_payload, T.trace_id"

abbrev pub burn_columns : String
burn_columns =
    "T.tx_hash, T.tx_lt, T.tx_now, T.tx_aborted, T.query_id,\n\t\tT.owner, T.jetton_wallet_address, T.jetton_master_address, T.amount, T.response_destination, T.custom_payload, T.trace_id"

unfoldable pub master_filters : JettonMasterRequest → List String
master_filters r =
    slice_filter "J.address" (r.master_address) ++ slice_filter "J.admin_address" (r.admin_address)

unfoldable pub build_jetton_masters_query :
    JettonMasterRequest → LimitRequest → RequestSettings → Result IndexError String
unfolding master_filters
build_jetton_masters_query jetton_req lim_req settings = limit_query lim_req settings >>? λ limit.
    ok (
      "select"
      <> master_columns
      <> " from "
      <> " jetton_masters as J"
      <> where_query (master_filters jetton_req)
      <> (if is_some (jetton_req.master_address) then "" else " order by id asc")
      <> limit)

-- One jetton is compared as it is, several by filterByArray.
unfoldable pub jetton_address_filters : Slice String → List String
unfolding array_filter
jetton_address_filters none = []
jetton_address_filters (some []) = []
jetton_address_filters (some (v ∷ [])) = ("J.jetton = " <> literal v) ∷ []
jetton_address_filters (some (v ∷ v' ∷ more)) = array_filter "J.jetton" (v ∷ v' ∷ more)

unfoldable pub wallet_filters : JettonWalletRequest → List String
unfolding jetton_address_filters
wallet_filters r =
    slice_filter "J.address" (r.address)
    ++ slice_filter "J.owner" (r.owner_address)
    ++ jetton_address_filters (r.jetton_address)
    ++ flag_filter (r.exclude_zero_balance) "J.balance + coalesce(mintless_amount, 0) > 0"

-- The assignments to orderby_query, the last one first.
unfoldable pub wallet_order : JettonWalletRequest → String → String → String
wallet_order r sort_column sort_order =
    if has_one (r.jetton_address)
    then " order by J.jetton, " <> sort_column <> " " <> sort_order
    else if is_some (r.owner_address)
    then " order by J.owner, " <> sort_column <> " " <> sort_order
    else if is_some (r.address)
    then " order by J.address asc"
    else " order by " <> sort_column <> " " <> sort_order

unfoldable pub build_jetton_wallets_query :
    JettonWalletRequest → LimitRequest → RequestSettings → Result IndexError String
unfolding wallet_filters wallet_order
build_jetton_wallets_query jetton_req lim_req settings = limit_query lim_req settings >>? λ limit.
    sort_order_or "asc" (lim_req.sort) >>? λ sort_order. ok (
      "select "
      <> wallet_columns
      <> " from "
      <> "jetton_wallets as J left join mintless_jetton_masters as MJM on J.jetton = MJM.address"
      <> where_query (wallet_filters jetton_req)
      <> wallet_order jetton_req (if is_some (lim_req.sort) then "J.balance" else "J.id") sort_order
      <> limit)

unfoldable pub transfer_filters : JettonTransferRequest → UtimeRequest → LtRequest → List String
transfer_filters r utime_req lt_req =
    "T.tx_aborted is false"
      ∷ owner_filters "T.source" "T.destination" (r.owner_address) (r.direction)
    ++ slice_filter "T.jetton_wallet_address" (r.jetton_wallet)
    ++ opt_filter (r.jetton_master) (λ v. "T.jetton_master_address = " <> literal v)
    ++ time_filters "T.tx_now" "T.tx_lt" utime_req lt_req

unfoldable pub build_jetton_transfers_query :
    JettonTransferRequest
    → UtimeRequest
    → LtRequest
    → LimitRequest
    → RequestSettings
    → Result IndexError String
unfolding transfer_filters
build_jetton_transfers_query transfer_req utime_req lt_req lim_req settings =
    limit_query lim_req settings >>? λ limit.
    get_sort_order (sort_or_desc (lim_req.sort)) >>? λ sort_order. ok (
      "select "
      <> transfer_columns
      <> " from "
      <> "jetton_transfers as T"
      <> where_query (transfer_filters transfer_req utime_req lt_req)
      <> " order by "
      <> (if by_time utime_req then "T.tx_now" else "T.tx_lt")
      <> " "
      <> sort_order
      <> limit)

unfoldable pub burn_filters : JettonBurnRequest → UtimeRequest → LtRequest → List String
burn_filters r utime_req lt_req =
    slice_filter "T.owner" (r.owner_address)
    ++ slice_filter "T.jetton_wallet_address" (r.jetton_wallet)
    ++ opt_filter (r.jetton_master) (λ v. "T.jetton_master_address = " <> literal v)
    ++ time_filters "T.tx_now" "T.tx_lt" utime_req lt_req

unfoldable pub build_jetton_burns_query :
    JettonBurnRequest
    → UtimeRequest
    → LtRequest
    → LimitRequest
    → RequestSettings
    → Result IndexError String
unfolding burn_filters
build_jetton_burns_query burn_req utime_req lt_req lim_req settings =
    limit_query lim_req settings >>? λ limit.
    get_sort_order (sort_or_desc (lim_req.sort)) >>? λ sort_order. ok (
      "select "
      <> burn_columns
      <> " from "
      <> "jetton_burns as T"
      <> where_query (burn_filters burn_req utime_req lt_req)
      <> " order by "
      <> (if by_time utime_req then "T.tx_now" else "T.tx_lt")
      <> " "
      <> sort_order
      <> limit)
