-- ===== src/Index/Emulated/Rows.antt =====
-- The rows of ton-index-go/index/emulated/rows.go: a pointer that may be nil is an `Option`.
use ton_indexer.Prelude.{ℕ, String, Bool, Option, List}
use ton_indexer.Prelude.Int.{ℤ}
use ton_indexer.Prelude.GoMap.{GoMap}
use ton_indexer.Index.Emulated.Actions.{ActionPeerSwapDetails}

pub record TransactionRow : Type 0 where
  pub account : String
  pub hash : String
  pub lt : ℕ
  pub block_workchain : Option ℤ
  pub block_shard : Option ℕ
  pub block_seqno : Option ℕ
  pub mc_block_seqno : Option ℕ
  pub trace_id : Option String
  pub prev_trans_hash : Option String
  pub prev_trans_lt : Option ℕ
  pub now : Option ℕ
  pub orig_status : Option String
  pub end_status : Option String
  pub total_fees : Option ℕ
  pub total_fees_extra_currencies : GoMap String
  pub account_state_hash_before : Option String
  pub account_state_hash_after : Option String
  pub descr : Option String
  pub aborted : Option Bool
  pub destroyed : Option Bool
  pub credit_first : Option Bool
  pub is_tock : Option Bool
  pub installed : Option Bool
  pub storage_fees_collected : Option ℕ
  pub storage_fees_due : Option ℕ
  pub storage_status_change : Option String
  pub credit_due_fees_collected : Option ℕ
  pub credit : Option ℕ
  pub credit_extra_currencies : GoMap String
  pub compute_skipped : Option Bool
  pub skipped_reason : Option String
  pub compute_success : Option Bool
  pub compute_msg_state_used : Option Bool
  pub compute_account_activated : Option Bool
  pub compute_gas_fees : Option ℕ
  pub compute_gas_used : Option ℕ
  pub compute_gas_limit : Option ℕ
  pub compute_gas_credit : Option ℕ
  pub compute_mode : Option ℤ
  pub compute_exit_code : Option ℤ
  pub compute_exit_arg : Option ℤ
  pub compute_vm_steps : Option ℕ
  pub compute_vm_init_state_hash : Option String
  pub compute_vm_final_state_hash : Option String
  pub action_success : Option Bool
  pub action_valid : Option Bool
  pub action_no_funds : Option Bool
  pub action_status_change : Option String
  pub action_total_fwd_fees : Option ℕ
  pub action_total_action_fees : Option ℕ
  pub action_result_code : Option ℤ
  pub action_result_arg : Option ℤ
  pub action_tot_actions : Option ℕ
  pub action_spec_actions : Option ℕ
  pub action_skipped_actions : Option ℕ
  pub action_msgs_created : Option ℕ
  pub action_action_list_hash : Option String
  pub action_tot_msg_size_cells : Option ℕ
  pub action_tot_msg_size_bits : Option ℕ
  pub bounce : Option String
  pub bounce_msg_size_cells : Option ℕ
  pub bounce_msg_size_bits : Option ℕ
  pub bounce_req_fwd_fees : Option ℕ
  pub bounce_msg_fees : Option ℕ
  pub bounce_fwd_fees : Option ℕ
  pub split_info_cur_shard_pfx_len : Option ℤ
  pub split_info_acc_split_depth : Option ℤ
  pub split_info_this_addr : Option String
  pub split_info_sibling_addr : Option String
  pub emulated : Bool

pub record MessageRow : Type 0 where
  pub tx_hash : String
  pub tx_lt : ℕ
  pub msg_hash : String
  pub direction : String
  pub trace_id : Option String
  pub source : Option String
  pub destination : Option String
  pub value : Option ℕ
  pub value_extra_currencies : GoMap String
  pub fwd_fee : Option ℕ
  pub ihr_fee : Option ℕ
  pub created_lt : Option ℕ
  pub created_at : Option ℕ
  pub opcode : Option ℤ
  pub ihr_disabled : Option Bool
  pub bounce : Option Bool
  pub bounced : Option Bool
  pub import_fee : Option ℕ
  pub body_hash : Option String
  pub init_state_hash : Option String
  pub msg_hash_norm : Option String

pub record MessageContentRow : Type 0 where
  pub hash : String
  pub body : Option String

pub record TraceRow : Type 0 where
  pub trace_key : String
  pub trace_id : Option String
  pub external_hash : Option String
  pub mc_seqno_start : ℕ
  pub mc_seqno_end : ℕ
  pub start_lt : ℕ
  pub start_utime : ℕ
  pub end_lt : ℕ
  pub end_utime : ℕ
  pub trace_state : String
  pub messages : ℕ
  pub transactions : ℕ
  pub pending_messages : ℕ
  pub classification_state : String

pub record ActionRow : Type 0 where
  pub trace_id : Option String
  pub action_id : String
  pub start_lt : ℕ
  pub end_lt : ℕ
  pub start_utime : ℕ
  pub end_utime : ℕ
  pub trace_end_lt : Option ℕ
  pub trace_end_utime : Option ℕ
  pub trace_mc_seqno_end : Option ℕ
  pub source : Option String
  pub source_secondary : Option String
  pub destination : Option String
  pub destination_secondary : Option String
  pub asset : Option String
  pub asset_secondary : Option String
  pub asset2 : Option String
  pub asset2_secondary : Option String
  pub opcode : Option ℕ
  pub tx_hashes : List String
  pub type : String
  pub ton_transfer_content : Option String
  pub ton_transfer_encrypted : Option Bool
  pub value : Option String
  pub amount : Option String
  pub jetton_transfer_response_destination : Option String
  pub jetton_transfer_forward_amount : Option String
  pub jetton_transfer_query_id : Option String
  pub jetton_transfer_custom_payload : Option String
  pub jetton_transfer_forward_payload : Option String
  pub jetton_transfer_comment : Option String
  pub jetton_transfer_is_encrypted_comment : Option Bool
  pub nft_transfer_is_purchase : Option Bool
  pub nft_transfer_price : Option String
  pub nft_transfer_query_id : Option String
  pub nft_transfer_custom_payload : Option String
  pub nft_transfer_forward_payload : Option String
  pub nft_transfer_forward_amount : Option String
  pub nft_transfer_response_destination : Option String
  pub nft_transfer_nft_item_index : Option String
  pub jetton_swap_dex : Option String
  pub jetton_swap_sender : Option String
  pub jetton_swap_dex_incoming_transfer_amount : Option String
  pub jetton_swap_dex_incoming_transfer_asset : Option String
  pub jetton_swap_dex_incoming_transfer_source : Option String
  pub jetton_swap_dex_incoming_transfer_destination : Option String
  pub jetton_swap_dex_incoming_transfer_source_jetton_wallet : Option String
  pub jetton_swap_dex_incoming_transfer_destination_jetton_wallet : Option String
  pub jetton_swap_dex_outgoing_transfer_amount : Option String
  pub jetton_swap_dex_outgoing_transfer_asset : Option String
  pub jetton_swap_dex_outgoing_transfer_source : Option String
  pub jetton_swap_dex_outgoing_transfer_destination : Option String
  pub jetton_swap_dex_outgoing_transfer_source_jetton_wallet : Option String
  pub jetton_swap_dex_outgoing_transfer_destination_jetton_wallet : Option String
  pub jetton_swap_peer_swaps : List ActionPeerSwapDetails
  pub change_dns_record_key : Option String
  pub change_dns_record_value_schema : Option String
  pub change_dns_record_value : Option String
  pub change_dns_record_flags : Option ℤ
  pub nft_mint_nft_item_index : Option String
  pub dex_withdraw_liquidity_data_dex : Option String
  pub dex_withdraw_liquidity_data_amount1 : Option String
  pub dex_withdraw_liquidity_data_amount2 : Option String
  pub dex_withdraw_liquidity_data_asset1_out : Option String
  pub dex_withdraw_liquidity_data_asset2_out : Option String
  pub dex_withdraw_liquidity_data_user_jetton_wallet1 : Option String
  pub dex_withdraw_liquidity_data_user_jetton_wallet2 : Option String
  pub dex_withdraw_liquidity_data_dex_jetton_wallet1 : Option String
  pub dex_withdraw_liquidity_data_dex_jetton_wallet2 : Option String
  pub dex_withdraw_liquidity_data_lp_tokens_burnt : Option String
  pub dex_deposit_liquidity_data_dex : Option String
  pub dex_deposit_liquidity_data_amount1 : Option String
  pub dex_deposit_liquidity_data_amount2 : Option String
  pub dex_deposit_liquidity_data_asset1 : Option String
  pub dex_deposit_liquidity_data_asset2 : Option String
  pub dex_deposit_liquidity_data_user_jetton_wallet1 : Option String
  pub dex_deposit_liquidity_data_user_jetton_wallet2 : Option String
  pub dex_deposit_liquidity_data_lp_tokens_minted : Option String
  pub staking_data_provider : Option String
  pub staking_data_ts_nft : Option String
  pub staking_tokens_burnt : Option String
  pub staking_tokens_minted : Option String
  pub success : Bool
  pub trace_external_hash : Option String
  pub extra_currencies : GoMap String
