-- ===== src/Index/Action.antt =====
-- ParseRawAction of ton-index-go/index/parse.go: the details of an action, by its type.
-- ParseCommentFromPayload, which Comment models, is an argument: `none` is an error.
pub mod Models
pub mod Addresses
pub mod Complete
use ton_indexer.Prelude.{
  ℕ, String, Bool, true, false, Option, none, some, List, [], ◌∷◌, if◌then◌else◌, ◌||◌, ◌&&◌,
  str_eq,
}
use ton_indexer.Prelude.Int.{ℤ}
use ton_indexer.Prelude.Text.{concat}
use ton_indexer.Prelude.GoMap.{GoMap}
use ton_indexer.Index.Action.Models.*

-- v != nil && *v == text
unfoldable pub is_text : Option String → String → Bool
is_text none text = false
is_text (some v) text = str_eq v text

unfoldable pub dns_value : Option String → Option String → Option ℤ → ActionDetailsChangeDnsValue
dns_value schema value flags = record {
  sum_type = schema;
  dns_smc_address = if is_text schema "DNSSmcAddress" then value else none;
  dns_adnl_address = if is_text schema "DNSAdnlAddress" then value else none;
  dns_text = none;
  dns_next_resolver_address = if is_text schema "DNSNextResolver" then value else none;
  dns_storage_address =
      if is_text schema "DNSStorageAddress" || is_text schema "DNSText" then value else none;
  flags = flags;
}

unfoldable pub call_contract_details : RawAction → ActionDetailsCallContract
call_contract_details raw = record {
  op_code = raw.opcode;
  source = raw.source;
  destination = raw.destination;
  value = raw.value;
  extra_currencies = some raw.extra_currencies;
}

unfoldable pub contract_deploy_details : RawAction → ActionDetailsContractDeploy
contract_deploy_details raw = record {
  op_code = raw.opcode;
  source = raw.source;
  destination = raw.destination;
  value = raw.value;
}

unfoldable pub ton_transfer_details : RawAction → ActionDetailsTonTransfer
ton_transfer_details raw = record {
  source = raw.source;
  destination = raw.destination;
  value = raw.value;
  extra_currencies = some raw.extra_currencies;
  comment = raw.ton_transfer_content;
  encrypted = raw.ton_transfer_encrypted;
}

unfoldable pub auction_bid_details : RawAction → ActionDetailsAuctionBid
auction_bid_details raw = record {
  amount = raw.value;
  bidder = raw.source;
  auction = raw.destination;
  nft_item = raw.asset_secondary;
  nft_collection = raw.asset;
  nft_item_index = raw.nft_transfer_nft_item_index;
}

unfoldable pub change_dns_details : RawAction → ActionDetailsChangeDns
unfolding dns_value
change_dns_details raw = record {
  key = raw.change_dns_record_key;
  value =
      dns_value raw.change_dns_record_value_schema raw.change_dns_record_value
        raw.change_dns_record_flags;
  source = raw.source;
  asset = raw.destination;
  nft_collection = raw.asset;
}

unfoldable pub dex_deposit_liquidity_details : RawAction → ActionDetailsDexDepositLiquidity
dex_deposit_liquidity_details raw = record {
  dex = raw.dex_deposit_liquidity_data_dex;
  amount1 = raw.dex_deposit_liquidity_data_amount1;
  amount2 = raw.dex_deposit_liquidity_data_amount2;
  asset1 = raw.dex_deposit_liquidity_data_asset1;
  asset2 = raw.dex_deposit_liquidity_data_asset2;
  user_jetton_wallet1 = raw.dex_deposit_liquidity_data_user_jetton_wallet1;
  user_jetton_wallet2 = raw.dex_deposit_liquidity_data_user_jetton_wallet2;
  source = raw.source;
  pool = raw.destination;
  destination_liquidity =
      (if is_text raw.dex_deposit_liquidity_data_dex "dedust"
        then raw.destination_secondary
        else raw.destination);
  lp_tokens_minted = raw.dex_deposit_liquidity_data_lp_tokens_minted;
}

unfoldable pub dex_withdraw_liquidity_details : RawAction → ActionDetailsDexWithdrawLiquidity
dex_withdraw_liquidity_details raw = record {
  dex = raw.dex_withdraw_liquidity_data_dex;
  amount1 = raw.dex_withdraw_liquidity_data_amount1;
  amount2 = raw.dex_withdraw_liquidity_data_amount2;
  asset1 = raw.dex_withdraw_liquidity_data_asset1_out;
  asset2 = raw.dex_withdraw_liquidity_data_asset2_out;
  user_jetton_wallet1 = raw.dex_withdraw_liquidity_data_user_jetton_wallet1;
  user_jetton_wallet2 = raw.dex_withdraw_liquidity_data_user_jetton_wallet2;
  lp_tokens_burnt = raw.dex_withdraw_liquidity_data_lp_tokens_burnt;
  is_refund = none;
  source = raw.source;
  pool = raw.destination;
  destination_liquidity = raw.destination;
}

unfoldable pub delete_dns_details : RawAction → ActionDetailsDeleteDns
delete_dns_details raw = record {
  key = raw.change_dns_record_key;
  source = raw.source;
  asset = raw.destination;
  nft_collection = raw.asset;
}

unfoldable pub renew_dns_details : RawAction → ActionDetailsRenewDns
renew_dns_details raw = record {
  source = raw.source;
  asset = raw.destination;
  nft_collection = raw.asset;
}

unfoldable pub election_deposit_details : RawAction → ActionDetailsElectionDeposit
election_deposit_details raw = record { stake_holder = raw.source; amount = raw.amount }

unfoldable pub election_recover_details : RawAction → ActionDetailsElectionRecover
election_recover_details raw = record { stake_holder = raw.source; amount = raw.amount }

unfoldable pub jetton_burn_details : RawAction → ActionDetailsJettonBurn
jetton_burn_details raw = record {
  owner = raw.source;
  owner_jetton_wallet = raw.source_secondary;
  asset = raw.asset;
  amount = raw.amount;
}

unfoldable pub jetton_swap_details : RawAction → ActionDetailsJettonSwap
jetton_swap_details raw = record {
  dex = raw.jetton_swap_dex;
  sender = raw.source;
  asset_in = raw.asset;
  asset_out = raw.asset2;
  dex_incoming_transfer = some (record {
    asset = raw.jetton_swap_dex_incoming_transfer_asset;
    source = raw.jetton_swap_dex_incoming_transfer_source;
    destination = raw.jetton_swap_dex_incoming_transfer_destination;
    source_jetton_wallet = raw.jetton_swap_dex_incoming_transfer_source_jetton_wallet;
    destination_jetton_wallet = raw.jetton_swap_dex_incoming_transfer_destination_jetton_wallet;
    amount = raw.jetton_swap_dex_incoming_transfer_amount;
  });
  dex_outgoing_transfer = some (record {
    asset = raw.jetton_swap_dex_outgoing_transfer_asset;
    source = raw.jetton_swap_dex_outgoing_transfer_source;
    destination = raw.jetton_swap_dex_outgoing_transfer_destination;
    source_jetton_wallet = raw.jetton_swap_dex_outgoing_transfer_source_jetton_wallet;
    destination_jetton_wallet = raw.jetton_swap_dex_outgoing_transfer_destination_jetton_wallet;
    amount = raw.jetton_swap_dex_outgoing_transfer_amount;
  });
  peer_swaps = raw.jetton_swap_peer_swaps;
}

unfoldable pub jetton_transfer_details : RawAction → ActionDetailsJettonTransfer
jetton_transfer_details raw = record {
  asset = raw.asset;
  sender = raw.source;
  receiver = raw.destination;
  sender_jetton_wallet = raw.source_secondary;
  receiver_jetton_wallet = raw.destination_secondary;
  amount = raw.amount;
  comment = raw.jetton_transfer_comment;
  is_encrypted_comment = raw.jetton_transfer_is_encrypted_comment;
  query_id = raw.jetton_transfer_query_id;
  response_destination = raw.jetton_transfer_response_destination;
  custom_payload = raw.jetton_transfer_custom_payload;
  forward_payload = raw.jetton_transfer_forward_payload;
  forward_amount = raw.jetton_transfer_forward_amount;
}

unfoldable pub jetton_mint_details : RawAction → ActionDetailsJettonMint
jetton_mint_details raw = record {
  asset = raw.asset;
  receiver = raw.destination;
  receiver_jetton_wallet = raw.destination_secondary;
  amount = raw.amount;
  ton_amount = raw.value;
}

unfoldable pub nft_mint_details : RawAction → ActionDetailsNftMint
nft_mint_details raw = record {
  owner = raw.source;
  nft_item = raw.asset_secondary;
  nft_collection = raw.asset;
  nft_item_index = raw.nft_mint_nft_item_index;
}

unfoldable pub tick_tock_details : RawAction → ActionDetailsTickTock
tick_tock_details raw = record { account = none }

unfoldable pub stake_deposit_details : RawAction → ActionDetailsStakeDeposit
stake_deposit_details raw = record {
  provider = raw.staking_data_provider;
  stake_holder = raw.source;
  pool = raw.destination;
  amount = raw.amount;
  tokens_minted = raw.staking_data_tokens_minted;
  asset = raw.asset;
}

unfoldable pub stake_withdrawal_details : RawAction → ActionDetailsWithdrawStake
stake_withdrawal_details raw = record {
  provider = raw.staking_data_provider;
  stake_holder = raw.source;
  pool = raw.destination;
  amount = raw.amount;
  payout_nft = raw.staking_data_ts_nft;
  tokens_burnt = raw.staking_data_tokens_burnt;
  asset = raw.asset;
}

unfoldable pub stake_withdrawal_request_details : RawAction → ActionDetailsWithdrawStakeRequest
stake_withdrawal_request_details raw = record {
  provider = raw.staking_data_provider;
  stake_holder = raw.source;
  pool = raw.destination;
  payout_nft = raw.staking_data_ts_nft;
  asset = raw.asset;
  tokens_burnt = (if is_text raw.staking_data_provider "tonstakers" then raw.amount else none);
}

unfoldable pub subscribe_details : RawAction → ActionDetailsSubscribe
subscribe_details raw = record {
  subscriber = raw.source;
  beneficiary = raw.destination;
  subscription = raw.destination_secondary;
  amount = raw.amount;
}

unfoldable pub unsubscribe_details : RawAction → ActionDetailsUnsubscribe
unsubscribe_details raw = record {
  subscriber = raw.source;
  beneficiary = raw.destination;
  subscription = raw.destination_secondary;
  amount = raw.amount;
}

-- the cases of the switch over the type
pub data Kind : Type 0 where
  call_contract contract_deploy ton_transfer auction_bid change_dns dex_deposit_liquidity
        dex_withdraw_liquidity delete_dns renew_dns election_deposit election_recover jetton_burn
        jetton_swap jetton_transfer jetton_mint nft_mint nft_transfer tick_tock stake_deposit
        stake_withdrawal stake_withdrawal_request subscribe unsubscribe :
      Kind
  default : Kind

unfoldable pub kind_of : String → Kind
kind_of type =
    if str_eq type "call_contract"
    then call_contract
    else if str_eq type "contract_deploy"
    then contract_deploy
    else if str_eq type "ton_transfer"
    then ton_transfer
    else if str_eq type "auction_bid"
    then auction_bid
    else if str_eq type "change_dns"
    then change_dns
    else if str_eq type "dex_deposit_liquidity"
    then dex_deposit_liquidity
    else if str_eq type "dex_withdraw_liquidity"
    then dex_withdraw_liquidity
    else if str_eq type "delete_dns"
    then delete_dns
    else if str_eq type "renew_dns"
    then renew_dns
    else if str_eq type "election_deposit"
    then election_deposit
    else if str_eq type "election_recover"
    then election_recover
    else if str_eq type "jetton_burn"
    then jetton_burn
    else if str_eq type "jetton_swap"
    then jetton_swap
    else if str_eq type "jetton_transfer"
    then jetton_transfer
    else if str_eq type "jetton_mint"
    then jetton_mint
    else if str_eq type "nft_mint"
    then nft_mint
    else if str_eq type "nft_transfer"
    then nft_transfer
    else if str_eq type "tick_tock"
    then tick_tock
    else if str_eq type "stake_deposit"
    then stake_deposit
    else if str_eq type "stake_withdrawal"
    then stake_withdrawal
    else if str_eq type "stake_withdrawal_request"
    then stake_withdrawal_request
    else if str_eq type "subscribe"
    then subscribe
    else if str_eq type "unsubscribe"
    then unsubscribe
    else default

-- Some types are shown under another name when there are extra currencies.
unfoldable pub shown_type : Kind → RawAction → String
shown_type kind raw =
    if has_extra kind (raw.extra_currencies) then "extra_currency_transfer" else raw.type
  where
    has_extra : Kind → GoMap String → Bool
    has_extra call_contract (e ∷ rest) = true
    has_extra ton_transfer (e ∷ rest) = true
    has_extra _ m = false

module _ (parse_comment_from_payload : String → Option (Option String × Bool)) where
  nft_comment : Option String → Option String
  nft_comment none = none
  nft_comment (some payload) = elim (parse_comment_from_payload payload) [
    | none ↦ none
    | some (comment, is_encrypted) ↦ comment
  ]

  nft_comment_is_encrypted : Option String → Option Bool
  nft_comment_is_encrypted none = none
  nft_comment_is_encrypted (some payload) = elim (parse_comment_from_payload payload) [
    | none ↦ none
    | some (comment, is_encrypted) ↦ some is_encrypted
  ]

  unfoldable pub nft_transfer_details : RawAction → ActionDetailsNftTransfer
  unfolding nft_comment nft_comment_is_encrypted
  nft_transfer_details raw = record {
    nft_collection = raw.asset;
    nft_item = raw.asset_secondary;
    nft_item_index = raw.nft_transfer_nft_item_index;
    old_owner = raw.source;
    new_owner = raw.destination;
    is_purchase = raw.nft_transfer_is_purchase;
    price = raw.nft_transfer_price;
    query_id = raw.nft_transfer_query_id;
    response_destination = raw.nft_transfer_response_destination;
    custom_payload = raw.nft_transfer_custom_payload;
    forward_payload = raw.nft_transfer_forward_payload;
    forward_amount = raw.nft_transfer_forward_amount;
    comment = nft_comment raw.nft_transfer_forward_payload;
    is_encrypted_comment = nft_comment_is_encrypted raw.nft_transfer_forward_payload;
  }

  unfoldable pub details_of : Kind → RawAction → Details
  unfolding call_contract_details contract_deploy_details ton_transfer_details auction_bid_details
      change_dns_details dex_deposit_liquidity_details dex_withdraw_liquidity_details
      delete_dns_details renew_dns_details election_deposit_details election_recover_details
      jetton_burn_details jetton_swap_details jetton_transfer_details jetton_mint_details
      nft_mint_details nft_transfer_details tick_tock_details stake_deposit_details
      stake_withdrawal_details stake_withdrawal_request_details subscribe_details
      unsubscribe_details
  details_of call_contract raw = Models.call_contract (call_contract_details raw)
  details_of contract_deploy raw = Models.contract_deploy (contract_deploy_details raw)
  details_of ton_transfer raw = Models.ton_transfer (ton_transfer_details raw)
  details_of auction_bid raw = Models.auction_bid (auction_bid_details raw)
  details_of change_dns raw = Models.change_dns (change_dns_details raw)
  details_of dex_deposit_liquidity raw =
      Models.dex_deposit_liquidity (dex_deposit_liquidity_details raw)
  details_of dex_withdraw_liquidity raw =
      Models.dex_withdraw_liquidity (dex_withdraw_liquidity_details raw)
  details_of delete_dns raw = Models.delete_dns (delete_dns_details raw)
  details_of renew_dns raw = Models.renew_dns (renew_dns_details raw)
  details_of election_deposit raw = Models.election_deposit (election_deposit_details raw)
  details_of election_recover raw = Models.election_recover (election_recover_details raw)
  details_of jetton_burn raw = Models.jetton_burn (jetton_burn_details raw)
  details_of jetton_swap raw = Models.jetton_swap (jetton_swap_details raw)
  details_of jetton_transfer raw = Models.jetton_transfer (jetton_transfer_details raw)
  details_of jetton_mint raw = Models.jetton_mint (jetton_mint_details raw)
  details_of nft_mint raw = Models.nft_mint (nft_mint_details raw)
  details_of nft_transfer raw = Models.nft_transfer (nft_transfer_details raw)
  details_of tick_tock raw = Models.tick_tock (tick_tock_details raw)
  details_of stake_deposit raw = Models.stake_deposit (stake_deposit_details raw)
  details_of stake_withdrawal raw = Models.withdraw_stake (stake_withdrawal_details raw)
  details_of stake_withdrawal_request raw =
      Models.withdraw_stake_request (stake_withdrawal_request_details raw)
  details_of subscribe raw = Models.subscribe (subscribe_details raw)
  details_of unsubscribe raw = Models.unsubscribe (unsubscribe_details raw)
  details_of default raw = unsupported (concat "unsupported action type: '" (concat raw.type "'"))

  abbrev is_default : Kind → Bool
  is_default default = true
  is_default _ = false

  -- Its error is always nil.
  unfoldable pub parse_raw_action : RawAction → Action
  unfolding kind_of shown_type details_of
  parse_raw_action raw =
      let kind = kind_of raw.type in
      record {
        trace_id = raw.trace_id;
        action_id = raw.action_id;
        start_lt = raw.start_lt;
        end_lt = raw.end_lt;
        start_utime = raw.start_utime;
        end_utime = raw.end_utime;
        trace_end_lt = raw.trace_end_lt;
        trace_end_utime = raw.trace_end_utime;
        trace_mc_seqno_end = raw.trace_mc_seqno_end;
        tx_hashes = raw.tx_hashes;
        success = raw.success;
        type = shown_type kind raw;
        details = details_of kind raw;
        raw_action = if is_default kind then some raw else none;
        trace_external_hash = raw.trace_external_hash;
      }
