-- ===== src/Index/Emulated/ActionRows.antt =====
-- GetActionRow of ton-index-go/index/emulated/models.go. An outer `none` is a panic.
use ton_indexer.Prelude.{ℕ, String, Option, none, some, [], Result, ok, err, ◌>>=◌}
use ton_indexer.Prelude.ParseInt.{parse_int64}
use ton_indexer.Prelude.Int.{ℤ}
use ton_indexer.Index.Emulated.Actions.{
  ActionTonTransferDetails, ActionJettonTransferDetails, ActionNftTransferDetails,
  ActionJettonSwapDetails, ActionChangeDnsRecordDetails, ActionNftMintDetails,
  ActionDexDepositLiquidityData, ActionDexWithdrawLiquidityData, ActionStakingData, Action,
}
use ton_indexer.Index.Emulated.Rows.{ActionRow}

-- The row as it is first made; the columns that are set later are nil.
unfoldable pub first_action_row : Action → ℕ → ℕ → ℕ → ℕ → ActionRow
first_action_row a start_lt end_lt start_utime end_utime = record {
  trace_id = a.trace_id;
  action_id = a.action_id;
  start_lt = start_lt;
  end_lt = end_lt;
  start_utime = start_utime;
  end_utime = end_utime;
  trace_end_lt = a.trace_end_lt;
  trace_end_utime = a.trace_end_utime;
  trace_mc_seqno_end = a.trace_mc_seqno_end;
  source = a.source;
  source_secondary = a.source_secondary;
  destination = a.destination;
  destination_secondary = a.destination_secondary;
  asset = a.asset;
  asset_secondary = a.asset_secondary;
  asset2 = a.asset2;
  asset2_secondary = a.asset2_secondary;
  opcode = a.opcode;
  tx_hashes = a.tx_hashes;
  type = a.type;
  ton_transfer_content = none;
  ton_transfer_encrypted = none;
  value = a.value;
  amount = a.amount;
  jetton_transfer_response_destination = none;
  jetton_transfer_forward_amount = none;
  jetton_transfer_query_id = none;
  jetton_transfer_custom_payload = none;
  jetton_transfer_forward_payload = none;
  jetton_transfer_comment = none;
  jetton_transfer_is_encrypted_comment = none;
  nft_transfer_is_purchase = none;
  nft_transfer_price = none;
  nft_transfer_query_id = none;
  nft_transfer_custom_payload = none;
  nft_transfer_forward_payload = none;
  nft_transfer_forward_amount = none;
  nft_transfer_response_destination = none;
  nft_transfer_nft_item_index = none;
  jetton_swap_dex = none;
  jetton_swap_sender = none;
  jetton_swap_dex_incoming_transfer_amount = none;
  jetton_swap_dex_incoming_transfer_asset = none;
  jetton_swap_dex_incoming_transfer_source = none;
  jetton_swap_dex_incoming_transfer_destination = none;
  jetton_swap_dex_incoming_transfer_source_jetton_wallet = none;
  jetton_swap_dex_incoming_transfer_destination_jetton_wallet = none;
  jetton_swap_dex_outgoing_transfer_amount = none;
  jetton_swap_dex_outgoing_transfer_asset = none;
  jetton_swap_dex_outgoing_transfer_source = none;
  jetton_swap_dex_outgoing_transfer_destination = none;
  jetton_swap_dex_outgoing_transfer_source_jetton_wallet = none;
  jetton_swap_dex_outgoing_transfer_destination_jetton_wallet = none;
  jetton_swap_peer_swaps = [];
  change_dns_record_key = none;
  change_dns_record_value_schema = none;
  change_dns_record_value = none;
  change_dns_record_flags = none;
  nft_mint_nft_item_index = none;
  dex_withdraw_liquidity_data_dex = none;
  dex_withdraw_liquidity_data_amount1 = none;
  dex_withdraw_liquidity_data_amount2 = none;
  dex_withdraw_liquidity_data_asset1_out = none;
  dex_withdraw_liquidity_data_asset2_out = none;
  dex_withdraw_liquidity_data_user_jetton_wallet1 = none;
  dex_withdraw_liquidity_data_user_jetton_wallet2 = none;
  dex_withdraw_liquidity_data_dex_jetton_wallet1 = none;
  dex_withdraw_liquidity_data_dex_jetton_wallet2 = none;
  dex_withdraw_liquidity_data_lp_tokens_burnt = none;
  dex_deposit_liquidity_data_dex = none;
  dex_deposit_liquidity_data_amount1 = none;
  dex_deposit_liquidity_data_amount2 = none;
  dex_deposit_liquidity_data_asset1 = none;
  dex_deposit_liquidity_data_asset2 = none;
  dex_deposit_liquidity_data_user_jetton_wallet1 = none;
  dex_deposit_liquidity_data_user_jetton_wallet2 = none;
  dex_deposit_liquidity_data_lp_tokens_minted = none;
  staking_data_provider = none;
  staking_data_ts_nft = none;
  staking_tokens_burnt = none;
  staking_tokens_minted = none;
  success = a.success;
  trace_external_hash = some a.trace_external_hash;
  extra_currencies = [];
}

unfoldable pub set_ton_transfer_data : Option ActionTonTransferDetails → ActionRow → ActionRow
set_ton_transfer_data none row = row
set_ton_transfer_data (some d) row = record row {
  ton_transfer_content = d.content;
  ton_transfer_encrypted = some d.encrypted;
}

unfoldable pub set_jetton_transfer_data : Option ActionJettonTransferDetails → ActionRow → ActionRow
set_jetton_transfer_data none row = row
set_jetton_transfer_data (some d) row = record row {
  jetton_transfer_response_destination = d.response_destination;
  jetton_transfer_forward_amount = d.forward_amount;
  jetton_transfer_query_id = d.query_id;
  jetton_transfer_custom_payload = d.custom_payload;
  jetton_transfer_forward_payload = d.forward_payload;
  jetton_transfer_comment = d.comment;
  jetton_transfer_is_encrypted_comment = d.is_encrypted_comment;
}

unfoldable pub set_nft_transfer_data : Option ActionNftTransferDetails → ActionRow → ActionRow
set_nft_transfer_data none row = row
set_nft_transfer_data (some d) row = record row {
  nft_transfer_is_purchase = some d.is_purchase;
  nft_transfer_price = d.price;
  nft_transfer_query_id = d.query_id;
  nft_transfer_custom_payload = d.custom_payload;
  nft_transfer_forward_payload = d.forward_payload;
  nft_transfer_forward_amount = d.forward_amount;
  nft_transfer_response_destination = d.response_destination;
  nft_transfer_nft_item_index = d.nft_item_index;
}

unfoldable pub set_jetton_swap_data : Option ActionJettonSwapDetails → ActionRow → ActionRow
set_jetton_swap_data none row = row
set_jetton_swap_data (some d) row = record row {
  jetton_swap_dex = d.dex;
  jetton_swap_sender = d.sender;
  jetton_swap_dex_incoming_transfer_amount = d.dex_incoming_transfer.amount;
  jetton_swap_dex_incoming_transfer_asset = d.dex_incoming_transfer.asset;
  jetton_swap_dex_incoming_transfer_source = d.dex_incoming_transfer.source;
  jetton_swap_dex_incoming_transfer_destination = d.dex_incoming_transfer.destination;
  jetton_swap_dex_incoming_transfer_source_jetton_wallet =
      d.dex_incoming_transfer.source_jetton_wallet;
  jetton_swap_dex_incoming_transfer_destination_jetton_wallet =
      d.dex_incoming_transfer.destination_jetton_wallet;
  jetton_swap_dex_outgoing_transfer_amount = d.dex_outgoing_transfer.amount;
  jetton_swap_dex_outgoing_transfer_asset = d.dex_outgoing_transfer.asset;
  jetton_swap_dex_outgoing_transfer_source = d.dex_outgoing_transfer.source;
  jetton_swap_dex_outgoing_transfer_destination = d.dex_outgoing_transfer.destination;
  jetton_swap_dex_outgoing_transfer_source_jetton_wallet =
      d.dex_outgoing_transfer.source_jetton_wallet;
  jetton_swap_dex_outgoing_transfer_destination_jetton_wallet =
      d.dex_outgoing_transfer.destination_jetton_wallet;
  jetton_swap_peer_swaps = d.peer_swaps;
}

-- The flags as a number; nil stays nil.
unfoldable pub dns_record_flags : Option String → Result String (Option ℤ)
dns_record_flags none = ok none
dns_record_flags (some s) = elim (parse_int64 s) [ none ↦ err s | some v ↦ ok (some v) ]

unfoldable pub set_change_dns_record_data :
    Option ActionChangeDnsRecordDetails → ActionRow → Result String ActionRow
set_change_dns_record_data none row = ok row
set_change_dns_record_data (some d) row = elim (dns_record_flags d.flags) [
  | err e ↦ err e
  | ok flags ↦ ok (record row {
    change_dns_record_key = d.key;
    change_dns_record_value_schema = d.value_schema;
    change_dns_record_value = d.value;
    change_dns_record_flags = flags;
  })
]

unfoldable pub set_nft_mint_data : Option ActionNftMintDetails → ActionRow → ActionRow
set_nft_mint_data none row = row
set_nft_mint_data (some d) row = record row { nft_mint_nft_item_index = d.nft_item_index }

unfoldable pub set_dex_deposit_liquidity_data :
    Option ActionDexDepositLiquidityData → ActionRow → ActionRow
set_dex_deposit_liquidity_data none row = row
set_dex_deposit_liquidity_data (some d) row = record row {
  dex_deposit_liquidity_data_dex = d.dex;
  dex_deposit_liquidity_data_amount1 = d.amount1;
  dex_deposit_liquidity_data_amount2 = d.amount2;
  dex_deposit_liquidity_data_asset1 = d.asset1;
  dex_deposit_liquidity_data_asset2 = d.asset2;
  dex_deposit_liquidity_data_user_jetton_wallet1 = d.user_jetton_wallet1;
  dex_deposit_liquidity_data_user_jetton_wallet2 = d.user_jetton_wallet2;
  dex_deposit_liquidity_data_lp_tokens_minted = d.lp_tokens_minted;
}

unfoldable pub set_dex_withdraw_liquidity_data :
    Option ActionDexWithdrawLiquidityData → ActionRow → ActionRow
set_dex_withdraw_liquidity_data none row = row
set_dex_withdraw_liquidity_data (some d) row = record row {
  dex_withdraw_liquidity_data_dex = d.dex;
  dex_withdraw_liquidity_data_amount1 = d.amount1;
  dex_withdraw_liquidity_data_amount2 = d.amount2;
  dex_withdraw_liquidity_data_asset1_out = d.asset1_out;
  dex_withdraw_liquidity_data_asset2_out = d.asset2_out;
  dex_withdraw_liquidity_data_user_jetton_wallet1 = d.user_jetton_wallet1;
  dex_withdraw_liquidity_data_user_jetton_wallet2 = d.user_jetton_wallet2;
  dex_withdraw_liquidity_data_dex_jetton_wallet1 = d.dex_jetton_wallet1;
  dex_withdraw_liquidity_data_dex_jetton_wallet2 = d.dex_jetton_wallet2;
  dex_withdraw_liquidity_data_lp_tokens_burnt = d.lp_tokens_burnt;
}

unfoldable pub set_staking_data : Option ActionStakingData → ActionRow → ActionRow
set_staking_data none row = row
set_staking_data (some d) row = record row {
  staking_data_provider = d.provider;
  staking_data_ts_nft = d.ts_nft;
  staking_tokens_burnt = d.tokens_burnt;
  staking_tokens_minted = d.tokens_minted;
}

unfoldable pub get_action_row : Action → Option (Result String ActionRow)
get_action_row a = do
  start_lt ← a.start_lt
  end_lt ← a.end_lt
  start_utime ← a.start_utime
  end_utime ← a.end_utime
  let row =
      (set_jetton_swap_data a.jetton_swap_data (
        set_nft_transfer_data a.nft_transfer_data (
          set_jetton_transfer_data a.jetton_transfer_data (
            set_ton_transfer_data a.ton_transfer_data
              (first_action_row a start_lt end_lt start_utime end_utime)))))
  some (elim (set_change_dns_record_data a.change_dns_record_data row) [
    | err e ↦ err e
    | ok row' ↦ ok (
        set_staking_data a.staking_data (
          set_dex_withdraw_liquidity_data a.dex_withdraw_liquidity_data (
            set_dex_deposit_liquidity_data a.dex_deposit_liquidity_data
              (set_nft_mint_data a.nft_mint_data row'))))
  ])
