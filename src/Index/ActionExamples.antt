-- ===== src/Index/ActionExamples.antt =====
-- Tests of the answers for actions of ton-index-go, and theorems at concrete inputs.
use ton_indexer.Prelude.{String, Bool, true, Option, none, some, [], ◌∷◌, ◌≡◌, refl}
use ton_indexer.Prelude.GoMap.{insert}
use ton_indexer.Prelude.Int.{pos}
use ton_indexer.Index.Action.Models.{RawAction}
use ton_indexer.Index.Action.{dns_value, is_text}
use ton_indexer.Index.Action.Addresses.{collect_addresses_from_action}

abbrev withdrawal : RawAction
withdrawal = record {
  trace_id = none;
  action_id = "id";
  start_lt = pos 0;
  end_lt = pos 0;
  start_utime = pos 0;
  end_utime = pos 0;
  trace_end_lt = pos 0;
  trace_end_utime = pos 0;
  trace_mc_seqno_end = pos 0;
  source = some "0:AA";
  source_secondary = none;
  destination = some "0:BB";
  destination_secondary = none;
  asset = some "0:DD";
  asset_secondary = none;
  asset2 = none;
  asset2_secondary = none;
  opcode = none;
  tx_hashes = [];
  type = "stake_withdrawal";
  ton_transfer_content = none;
  ton_transfer_encrypted = none;
  value = none;
  amount = none;
  jetton_transfer_response_destination = none;
  jetton_transfer_forward_amount = none;
  jetton_transfer_query_id = none;
  jetton_transfer_custom_payload = none;
  jetton_transfer_forward_payload = none;
  jetton_transfer_comment = none;
  jetton_transfer_is_encrypted_comment = none;
  nft_transfer_is_purchase = none;
  nft_transfer_price = none;
  nft_transfer_query_id = none;
  nft_transfer_custom_payload = none;
  nft_transfer_forward_payload = none;
  nft_transfer_forward_amount = none;
  nft_transfer_response_destination = none;
  nft_transfer_nft_item_index = none;
  jetton_swap_dex = none;
  jetton_swap_sender = none;
  jetton_swap_dex_incoming_transfer_amount = none;
  jetton_swap_dex_incoming_transfer_asset = none;
  jetton_swap_dex_incoming_transfer_source = none;
  jetton_swap_dex_incoming_transfer_destination = none;
  jetton_swap_dex_incoming_transfer_source_jetton_wallet = none;
  jetton_swap_dex_incoming_transfer_destination_jetton_wallet = none;
  jetton_swap_dex_outgoing_transfer_amount = none;
  jetton_swap_dex_outgoing_transfer_asset = none;
  jetton_swap_dex_outgoing_transfer_source = none;
  jetton_swap_dex_outgoing_transfer_destination = none;
  jetton_swap_dex_outgoing_transfer_source_jetton_wallet = none;
  jetton_swap_dex_outgoing_transfer_destination_jetton_wallet = none;
  jetton_swap_peer_swaps = [];
  change_dns_record_key = none;
  change_dns_record_value_schema = none;
  change_dns_record_value = none;
  change_dns_record_flags = none;
  nft_mint_nft_item_index = none;
  dex_withdraw_liquidity_data_dex = none;
  dex_withdraw_liquidity_data_amount1 = none;
  dex_withdraw_liquidity_data_amount2 = none;
  dex_withdraw_liquidity_data_asset1_out = none;
  dex_withdraw_liquidity_data_asset2_out = none;
  dex_withdraw_liquidity_data_user_jetton_wallet1 = none;
  dex_withdraw_liquidity_data_user_jetton_wallet2 = none;
  dex_withdraw_liquidity_data_dex_jetton_wallet1 = none;
  dex_withdraw_liquidity_data_dex_jetton_wallet2 = none;
  dex_withdraw_liquidity_data_lp_tokens_burnt = none;
  dex_deposit_liquidity_data_dex = none;
  dex_deposit_liquidity_data_amount1 = none;
  dex_deposit_liquidity_data_amount2 = none;
  dex_deposit_liquidity_data_asset1 = none;
  dex_deposit_liquidity_data_asset2 = none;
  dex_deposit_liquidity_data_user_jetton_wallet1 = none;
  dex_deposit_liquidity_data_user_jetton_wallet2 = none;
  dex_deposit_liquidity_data_lp_tokens_minted = none;
  staking_data_provider = none;
  staking_data_ts_nft = some "0:CC";
  staking_data_tokens_burnt = none;
  staking_data_tokens_minted = none;
  success = none;
  trace_external_hash = none;
  extra_currencies = [];
}

abbrev no_comment : String → Option (Option String × Bool)
no_comment payload = none

collected_test :
    collect_addresses_from_action [] withdrawal
    ≡ ("0:AA", true) ∷ ("0:BB", true) ∷ ("0:DD", true) ∷ []
unfolding collect_addresses_from_action insert
collected_test = refl

-- A text of a DNS record is shown as the address of a storage.
dns_text_test : dns_value (some "DNSText") (some "hello") none ≡ record {
  sum_type = some "DNSText";
  dns_smc_address = none;
  dns_adnl_address = none;
  dns_text = none;
  dns_next_resolver_address = none;
  dns_storage_address = some "hello";
  flags = none;
}
unfolding dns_value is_text
dns_text_test = refl
