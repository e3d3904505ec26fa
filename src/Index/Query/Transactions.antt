-- ===== src/Index/Query/Transactions.antt =====
-- buildTransactionsQuery of ton-index-go/index/crud.go.
pub mod Laws
use ton_indexer.Prelude.{
  ℕ, zero, suc, String, Bool, true, false, not, Option, none, some, List, [], ◌∷◌, ◌++◌, Result, ok,
  err, ◌==◌, if◌then◌else◌, str_eq, ◌||◌, ◌&&◌,
}
use ton_indexer.Prelude.Int.{ℤ, pos}
use ton_indexer.Prelude.Text.{has_substring}
use ton_indexer.Prelude.Format.{format_int}
use ton_indexer.Index.Query.Sql.{
  ◌<>◌, ◌>>?◌, IndexError, sort_order_or, get_sort_order, limit_query, literal, filter_by_array,
  opt_filter, slice_filter, array_filter, nonempty_filter, either_filter, has_values, has_one,
  has_text, is_some, where_query, time_filters, by_time, owner_filters, message_hash_filters,
  replaced_by, flag_filter, sort_or_desc, is_empty, pair_filters,
}
use ton_indexer.Index.Query.Request.{
  BlockRequest, TransactionRequest, MessageRequest, UtimeRequest, LtRequest, LimitRequest,
  RequestSettings, Slice,
}

abbrev pub transaction_columns : String
transaction_columns =
    "select T.account, T.hash, T.lt, T.block_workchain, T.block_shard, T.block_seqno, T.mc_block_seqno, T.trace_id, \n\tT.prev_trans_hash, T.prev_trans_lt, T.now, T.orig_status, T.end_status, T.total_fees, T.total_fees_extra_currencies, \n\tT.account_state_hash_before, T.account_state_hash_after, T.descr, T.aborted, T.destroyed, T.credit_first, T.is_tock, \n\tT.installed, T.storage_fees_collected, T.storage_fees_due, T.storage_status_change, T.credit_due_fees_collected, T.credit, \n\tT.credit_extra_currencies, T.compute_skipped, T.skipped_reason, T.compute_success, T.compute_msg_state_used, T.compute_account_activated, \n\tT.compute_gas_fees, T.compute_gas_used, T.compute_gas_limit, T.compute_gas_credit, T.compute_mode, T.compute_exit_code, T.compute_exit_arg, \n\tT.compute_vm_steps, T.compute_vm_init_state_hash, T.compute_vm_final_state_hash, T.action_success, T.action_valid, T.action_no_funds, \n\tT.action_status_change, T.action_total_fwd_fees, T.action_total_action_fees, T.action_result_code, T.action_result_arg, \n\tT.action_tot_actions, T.action_spec_actions, T.action_skipped_actions, T.action_msgs_created, T.action_action_list_hash, \n\tT.action_tot_msg_size_cells, T.action_tot_msg_size_bits, T.bounce, T.bounce_msg_size_cells, T.bounce_msg_size_bits, \n\tT.bounce_req_fwd_fees, T.bounce_msg_fees, T.bounce_fwd_fees, T.split_info_cur_shard_pfx_len, T.split_info_acc_split_depth, \n\tT.split_info_this_addr, T.split_info_sibling_addr, false as emulated from"

-- One account is compared as it is, several by filterByArray, whose result may be empty.
unfoldable pub account_filters : Slice String → List String
account_filters none = []
account_filters (some []) = []
account_filters (some (v ∷ [])) = ("T.account = " <> literal v) ∷ []
account_filters (some (v ∷ v' ∷ more)) = filter_by_array "T.account" (v ∷ v' ∷ more) ∷ []

unfoldable pub transaction_filters :
    BlockRequest → TransactionRequest → MessageRequest → UtimeRequest → LtRequest → List String
unfolding account_filters message_hash_filters
transaction_filters blk_req tx_req msg_req utime_req lt_req =
    opt_filter (utime_req.start_utime) (λ v. "T.now >= " <> format_int (pos v))
    ++ opt_filter (utime_req.end_utime) (λ v. "T.now <= " <> format_int (pos v))
    ++ opt_filter (lt_req.start_lt) (λ v. "T.lt >= " <> format_int (pos v))
    ++ opt_filter (lt_req.end_lt) (λ v. "T.lt <= " <> format_int (pos v))
    ++ opt_filter (blk_req.workchain) (λ v. "T.block_workchain = " <> format_int v)
    ++ opt_filter (blk_req.shard) (λ v. "T.block_shard = " <> format_int v)
    ++ opt_filter (blk_req.seqno) (λ v. "T.block_seqno = " <> format_int v)
    ++ opt_filter (blk_req.mc_seqno) (λ v. "T.mc_block_seqno = " <> format_int v)
    ++ account_filters (tx_req.account)
    ++ opt_filter (tx_req.hash) (λ v. "T.hash = " <> literal v)
    ++ opt_filter (tx_req.lt) (λ v. "T.lt = " <> format_int (pos v))
    ++ opt_filter (msg_req.direction) (λ v. "M.direction = " <> literal v)
    ++ message_hash_filters (msg_req.message_hash)
    ++ opt_filter (msg_req.source) (λ v. "M.source = " <> literal v)
    ++ opt_filter (msg_req.destination) (λ v. "M.destination = " <> literal v)
    ++ opt_filter (msg_req.body_hash) (λ v. "M.body_hash = " <> literal v)
    ++ opt_filter (msg_req.opcode) (λ v. "M.opcode = " <> format_int v <> " and M.direction = 'in'")

-- The assignments to orderby_query, the last one first.
unfoldable pub transaction_order : BlockRequest → TransactionRequest → Bool → String → String
transaction_order blk_req tx_req order_by_now so =
    if is_some (tx_req.lt)
    then " order by T.lt, account " <> so
    else if is_some (tx_req.hash)
    then ""
    else if has_one (tx_req.account)
    then (if order_by_now
        then " order by account asc, T.now " <> so <> ", T.lt " <> so
        else " order by account asc, T.lt " <> so)
    else if is_some (blk_req.mc_seqno)
    then " order by T.lt " <> so <> ", account asc"
    else if order_by_now
    then " order by T.now " <> so <> ", T.lt " <> so <> ", account asc"
    else " order by T.lt " <> so <> ", account asc"

unfoldable pub by_message : MessageRequest → Bool
by_message msg_req =
    is_some (msg_req.direction)
    || has_values (msg_req.message_hash)
    || is_some (msg_req.source)
    || is_some (msg_req.destination)
    || is_some (msg_req.body_hash)
    || is_some (msg_req.opcode)

unfoldable pub build_transactions_query :
    BlockRequest
    → TransactionRequest
    → MessageRequest
    → UtimeRequest
    → LtRequest
    → LimitRequest
    → RequestSettings
    → Result IndexError String
unfolding transaction_filters transaction_order by_message
build_transactions_query blk_req tx_req msg_req utime_req lt_req lim_req settings =
    limit_query lim_req settings >>? λ limit. sort_order_or "desc" (lim_req.sort) >>? λ sort_order.
    ok (
      transaction_columns
      <> (if by_message msg_req
          then " messages as M join transactions as T on M.tx_hash = T.hash and M.tx_lt = T.lt"
          else " transactions as T")
      <> where_query (transaction_filters blk_req tx_req msg_req utime_req lt_req)
      <> transaction_order blk_req tx_req (by_time utime_req) sort_order
      <> limit)
