-- ===== src/Index/Query/Actions.antt =====
-- buildActionsQuery of ton-index-go/index/crud.go.
pub mod Laws
use ton_indexer.Prelude.{
  ℕ, zero, suc, String, Bool, true, false, not, Option, none, some, List, [], ◌∷◌, ◌++◌, Result, ok,
  err, ◌==◌, if◌then◌else◌, str_eq, ◌||◌, ◌&&◌,
}
use ton_indexer.Prelude.Int.{ℤ, pos}
use ton_indexer.Prelude.Text.{has_substring}
use ton_indexer.Prelude.Format.{format_int}
use ton_indexer.Index.Query.Sql.{
  ◌<>◌, ◌>>?◌, IndexError, sort_order_or, get_sort_order, limit_query, literal, filter_by_array,
  opt_filter, slice_filter, array_filter, nonempty_filter, either_filter, has_values, has_one,
  has_text, is_some, where_query, time_filters, by_time, owner_filters, message_hash_filters,
  replaced_by, flag_filter, sort_or_desc, is_empty, pair_filters,
}
use ton_indexer.Index.Query.Request.{
  ActionRequest, UtimeRequest, LtRequest, LimitRequest, RequestSettings, Slice,
}

abbrev pub action_columns : String
action_columns =
    "A.trace_id, A.action_id, A.start_lt, A.end_lt, A.start_utime, A.end_utime, \n\t\tA.trace_end_lt, A.trace_end_utime, A.trace_mc_seqno_end, A.source, A.source_secondary,\n\t\tA.destination, A.destination_secondary, A.asset, A.asset_secondary, A.asset2, A.asset2_secondary, A.opcode, A.tx_hashes,\n\t\tA.type, (A.ton_transfer_data).content, (A.ton_transfer_data).encrypted, A.value, A.amount,\n\t\t(A.jetton_transfer_data).response_destination, (A.jetton_transfer_data).forward_amount, (A.jetton_transfer_data).query_id,\n\t\t(A.jetton_transfer_data).custom_payload, (A.jetton_transfer_data).forward_payload, (A.jetton_transfer_data).comment,\n\t\t(A.jetton_transfer_data).is_encrypted_comment, (A.nft_transfer_data).is_purchase, (A.nft_transfer_data).price,\n\t\t(A.nft_transfer_data).query_id, (A.nft_transfer_data).custom_payload, (A.nft_transfer_data).forward_payload,\n\t\t(A.nft_transfer_data).forward_amount, (A.nft_transfer_data).response_destination, (A.nft_transfer_data).nft_item_index,\n\t\t(A.jetton_swap_data).dex, (A.jetton_swap_data).sender, ((A.jetton_swap_data).dex_incoming_transfer).amount,\n\t\t((A.jetton_swap_data).dex_incoming_transfer).asset, ((A.jetton_swap_data).dex_incoming_transfer).source,\n\t\t((A.jetton_swap_data).dex_incoming_transfer).destination, ((A.jetton_swap_data).dex_incoming_transfer).source_jetton_wallet,\n\t\t((A.jetton_swap_data).dex_incoming_transfer).destination_jetton_wallet, ((A.jetton_swap_data).dex_outgoing_transfer).amount,\n\t\t((A.jetton_swap_data).dex_outgoing_transfer).asset, ((A.jetton_swap_data).dex_outgoing_transfer).source,\n\t\t((A.jetton_swap_data).dex_outgoing_transfer).destination, ((A.jetton_swap_data).dex_outgoing_transfer).source_jetton_wallet,\n\t\t((A.jetton_swap_data).dex_outgoing_transfer).destination_jetton_wallet, (A.jetton_swap_data).peer_swaps,\n\t\t(A.change_dns_record_data).key, (A.change_dns_record_data).value_schema, (A.change_dns_record_data).value,\n\t\t(A.change_dns_record_data).flags, (A.nft_mint_data).nft_item_index,\n\t\t(A.dex_withdraw_liquidity_data).dex,\n\t\t(A.dex_withdraw_liquidity_data).amount1,\n\t\t(A.dex_withdraw_liquidity_data).amount2,\n\t\t(A.dex_withdraw_liquidity_data).asset1_out,\n\t\t(A.dex_withdraw_liquidity_data).asset2_out,\n\t\t(A.dex_withdraw_liquidity_data).user_jetton_wallet_1,\n\t\t(A.dex_withdraw_liquidity_data).user_jetton_wallet_2,\n\t\t(A.dex_withdraw_liquidity_data).dex_jetton_wallet_1,\n\t\t(A.dex_withdraw_liquidity_data).dex_jetton_wallet_2,\n\t\t(A.dex_withdraw_liquidity_data).lp_tokens_burnt,\n\t\t(A.dex_deposit_liquidity_data).dex,\n\t\t(A.dex_deposit_liquidity_data).amount1,\n\t\t(A.dex_deposit_liquidity_data).amount2,\n\t\t(A.dex_deposit_liquidity_data).asset1,\n\t\t(A.dex_deposit_liquidity_data).asset2,\n\t\t(A.dex_deposit_liquidity_data).user_jetton_wallet_1,\n\t\t(A.dex_deposit_liquidity_data).user_jetton_wallet_2,\n\t\t(A.dex_deposit_liquidity_data).lp_tokens_minted,\n\t\t(A.staking_data).provider,\n\t\t(A.staking_data).ts_nft,\n\t\t(A.staking_data).tokens_burnt,\n\t\t(A.staking_data).tokens_minted,\n\t\tA.success,\n\t\tA.trace_external_hash,\n\t\tA.value_extra_currencies"

abbrev pub account_distinct_utime : String
account_distinct_utime =
    "distinct on (AA.trace_end_utime, AA.trace_id, AA.action_end_utime, AA.action_id) "

abbrev pub account_distinct_lt : String
account_distinct_lt = "distinct on (AA.trace_end_lt, AA.trace_id, AA.action_end_lt, AA.action_id) "

abbrev pub action_distinct_utime : String
action_distinct_utime = "distinct on (A.trace_end_utime, A.trace_id, A.end_utime, A.action_id) "

abbrev pub action_distinct_lt : String
action_distinct_lt = "distinct on (A.trace_end_lt, A.trace_id, A.end_lt, A.action_id) "

unfoldable pub complete_filters : Option ℤ → List String
complete_filters none = []
complete_filters (some v) = "E.state = 'complete'" ∷ ("E.mc_seqno_end = " <> format_int v) ∷ []

unfoldable pub account_filters : Option String → List String
account_filters none = []
account_filters (some v) =
    if is_empty v then [] else ("AA.account = " <> literal v <> "::tonaddr") ∷ []

-- a type of action to leave out
unfoldable pub not_filters : List String → List String
not_filters [] = []
not_filters (s ∷ rest) = ("not (" <> s <> ")") ∷ []

abbrev pub field : Bool → String → String → String
field join_accounts joined plain = if join_accounts then joined else plain

unfoldable pub action_filters : ActionRequest → UtimeRequest → LtRequest → List String
unfolding account_filters not_filters complete_filters
action_filters r utime_req lt_req =
    let joined = has_text (r.account_address) in
    time_filters (field joined "AA.trace_end_utime" "A.trace_end_utime")
      (field joined "AA.trace_end_lt" "A.trace_end_lt") utime_req lt_req
    ++ account_filters (r.account_address)
    ++ slice_filter "T.hash" (r.transaction_hash)
    ++ message_hash_filters (r.message_hash)
    ++ slice_filter "A.type" (r.include_action_types)
    ++ not_filters (slice_filter "A.type" (r.exclude_action_types))
    ++ complete_filters (r.mc_seqno)

-- An action or a trace that is given by its id replaces the other filters.
unfoldable pub all_filters : ActionRequest → UtimeRequest → LtRequest → List String
unfolding action_filters
all_filters r utime_req lt_req =
    replaced_by
      (replaced_by (action_filters r utime_req lt_req) (slice_filter "A.action_id" (r.action_id)))
      (slice_filter "A.trace_id" (r.trace_id))
    ++ "A.end_lt is not NULL" ∷ []

-- The assignments to from_query, the last one first.
unfoldable pub action_from : ActionRequest → String
action_from r =
    if is_some (r.trace_id) || is_some (r.action_id)
    then "actions as A"
    else if is_some (r.mc_seqno)
    then "actions as A join traces as E on A.trace_id = E.trace_id"
    else if has_values (r.message_hash)
    then "actions as A join messages as M on A.trace_id = M.trace_id and array[M.tx_hash::tonhash] @> A.tx_hashes"
    else if is_some (r.transaction_hash)
    then "actions as A join transactions as T on A.trace_id = T.trace_id and A.tx_hashes @> array[T.hash::tonhash]"
    else if has_text (r.account_address)
    then "action_accounts as AA join actions as A on A.trace_id = AA.trace_id and A.action_id = AA.action_id"
    else "actions as A"

-- The assignments to clmn_query, the last one first, by what stands before the columns.
unfoldable pub action_distinct : ActionRequest → Bool → String
action_distinct r order_by_now =
    if is_some (r.action_id) || is_some (r.mc_seqno)
    then ""
    else if has_values (r.message_hash) || is_some (r.transaction_hash)
    then (if order_by_now then action_distinct_utime else action_distinct_lt)
    else if has_text (r.account_address)
    then (if order_by_now then account_distinct_utime else account_distinct_lt)
    else ""

unfoldable pub order_query : String → String → String → String → String → String
order_query c₁ c₂ c₃ c₄ so =
    " order by " <> c₁ <> " " <> so <> ", " <> c₂ <> " " <> so <> ", " <> c₃ <> " " <> so <> ", "
    <> c₄ <> " " <> so

unfoldable pub action_order : Bool → Bool → String → String
unfolding order_query
action_order by_account order_by_now so =
    if by_account
    then (if order_by_now
        then order_query "AA.trace_end_utime" "AA.trace_id" "AA.action_end_utime" "AA.action_id" so
        else order_query "AA.trace_end_lt" "AA.trace_id" "AA.action_end_lt" "AA.action_id" so)
    else (if order_by_now
        then order_query "A.trace_end_utime" "A.trace_id" "A.end_utime" "A.action_id" so
        else order_query "A.trace_end_lt" "A.trace_id" "A.end_lt" "A.action_id" so)

unfoldable pub build_actions_query :
    ActionRequest
    → UtimeRequest
    → LtRequest
    → LimitRequest
    → RequestSettings
    → Result IndexError String
unfolding all_filters action_from action_distinct action_order
build_actions_query act_req utime_req lt_req lim_req settings =
    limit_query lim_req settings >>? λ limit. sort_order_or "desc" (lim_req.sort) >>? λ sort_order.
    ok (
      "select "
      <> action_distinct act_req (by_time utime_req)
      <> action_columns
      <> " from "
      <> action_from act_req
      <> where_query (all_filters act_req utime_req lt_req)
      <> action_order (has_substring (action_from act_req) "action_accounts") (by_time utime_req)
          sort_order
      <> limit)
