-- ===== src/Index/Action/Models.antt =====
-- RawAction and the details of an action in ton-index-go/index/models.go.
use ton_indexer.Prelude.{String, Bool, Option, List}
use ton_indexer.Prelude.Int.{ℤ}
use ton_indexer.Prelude.GoMap.{GoMap}
use ton_indexer.Index.Query.Request.{AccountAddress, HashType, OpcodeType}

pub record JettonSwapPeerSwap : Type 0 where
  pub asset_in : Option AccountAddress
  pub amount_in : Option String
  pub asset_out : Option AccountAddress
  pub amount_out : Option String

pub record RawAction : Type 0 where
  pub trace_id : Option HashType
  pub action_id : HashType
  pub start_lt : ℤ
  pub end_lt : ℤ
  pub start_utime : ℤ
  pub end_utime : ℤ
  pub trace_end_lt : ℤ
  pub trace_end_utime : ℤ
  pub trace_mc_seqno_end : ℤ
  pub source : Option AccountAddress
  pub source_secondary : Option AccountAddress
  pub destination : Option AccountAddress
  pub destination_secondary : Option AccountAddress
  pub asset : Option AccountAddress
  pub asset_secondary : Option AccountAddress
  pub asset2 : Option AccountAddress
  pub asset2_secondary : Option AccountAddress
  pub opcode : Option OpcodeType
  pub tx_hashes : List HashType
  pub type : String
  pub ton_transfer_content : Option String
  pub ton_transfer_encrypted : Option Bool
  pub value : Option String
  pub amount : Option String
  pub jetton_transfer_response_destination : Option AccountAddress
  pub jetton_transfer_forward_amount : Option String
  pub jetton_transfer_query_id : Option String
  pub jetton_transfer_custom_payload : Option String
  pub jetton_transfer_forward_payload : Option String
  pub jetton_transfer_comment : Option String
  pub jetton_transfer_is_encrypted_comment : Option Bool
  pub nft_transfer_is_purchase : Option Bool
  pub nft_transfer_price : Option String
  pub nft_transfer_query_id : Option String
  pub nft_transfer_custom_payload : Option String
  pub nft_transfer_forward_payload : Option String
  pub nft_transfer_forward_amount : Option String
  pub nft_transfer_response_destination : Option AccountAddress
  pub nft_transfer_nft_item_index : Option String
  pub jetton_swap_dex : Option String
  pub jetton_swap_sender : Option AccountAddress
  pub jetton_swap_dex_incoming_transfer_amount : Option String
  pub jetton_swap_dex_incoming_transfer_asset : Option AccountAddress
  pub jetton_swap_dex_incoming_transfer_source : Option AccountAddress
  pub jetton_swap_dex_incoming_transfer_destination : Option AccountAddress
  pub jetton_swap_dex_incoming_transfer_source_jetton_wallet : Option AccountAddress
  pub jetton_swap_dex_incoming_transfer_destination_jetton_wallet : Option AccountAddress
  pub jetton_swap_dex_outgoing_transfer_amount : Option String
  pub jetton_swap_dex_outgoing_transfer_asset : Option AccountAddress
  pub jetton_swap_dex_outgoing_transfer_source : Option AccountAddress
  pub jetton_swap_dex_outgoing_transfer_destination : Option AccountAddress
  pub jetton_swap_dex_outgoing_transfer_source_jetton_wallet : Option AccountAddress
  pub jetton_swap_dex_outgoing_transfer_destination_jetton_wallet : Option AccountAddress
  pub jetton_swap_peer_swaps : List JettonSwapPeerSwap
  pub change_dns_record_key : Option String
  pub change_dns_record_value_schema : Option String
  pub change_dns_record_value : Option String
  pub change_dns_record_flags : Option ℤ
  pub nft_mint_nft_item_index : Option String
  pub dex_withdraw_liquidity_data_dex : Option String
  pub dex_withdraw_liquidity_data_amount1 : Option String
  pub dex_withdraw_liquidity_data_amount2 : Option String
  pub dex_withdraw_liquidity_data_asset1_out : Option AccountAddress
  pub dex_withdraw_liquidity_data_asset2_out : Option AccountAddress
  pub dex_withdraw_liquidity_data_user_jetton_wallet1 : Option AccountAddress
  pub dex_withdraw_liquidity_data_user_jetton_wallet2 : Option AccountAddress
  pub dex_withdraw_liquidity_data_dex_jetton_wallet1 : Option AccountAddress
  pub dex_withdraw_liquidity_data_dex_jetton_wallet2 : Option AccountAddress
  pub dex_withdraw_liquidity_data_lp_tokens_burnt : Option String
  pub dex_deposit_liquidity_data_dex : Option String
  pub dex_deposit_liquidity_data_amount1 : Option String
  pub dex_deposit_liquidity_data_amount2 : Option String
  pub dex_deposit_liquidity_data_asset1 : Option AccountAddress
  pub dex_deposit_liquidity_data_asset2 : Option AccountAddress
  pub dex_deposit_liquidity_data_user_jetton_wallet1 : Option AccountAddress
  pub dex_deposit_liquidity_data_user_jetton_wallet2 : Option AccountAddress
  pub dex_deposit_liquidity_data_lp_tokens_minted : Option String
  pub staking_data_provider : Option String
  pub staking_data_ts_nft : Option AccountAddress
  pub staking_data_tokens_burnt : Option String
  pub staking_data_tokens_minted : Option String
  pub success : Option Bool
  pub trace_external_hash : Option HashType
  pub extra_currencies : GoMap String

pub record ActionDetailsChangeDnsValue : Type 0 where
  pub sum_type : Option String
  pub dns_smc_address : Option String
  pub dns_adnl_address : Option String
  pub dns_text : Option String
  pub dns_next_resolver_address : Option String
  pub dns_storage_address : Option String
  pub flags : Option ℤ

pub record ActionDetailsJettonSwapTransfer : Type 0 where
  pub asset : Option AccountAddress
  pub source : Option AccountAddress
  pub destination : Option AccountAddress
  pub source_jetton_wallet : Option AccountAddress
  pub destination_jetton_wallet : Option AccountAddress
  pub amount : Option String

pub record ActionDetailsCallContract : Type 0 where
  pub op_code : Option OpcodeType
  pub source : Option AccountAddress
  pub destination : Option AccountAddress
  pub value : Option String
  pub extra_currencies : Option (GoMap String)

pub record ActionDetailsContractDeploy : Type 0 where
  pub op_code : Option OpcodeType
  pub source : Option AccountAddress
  pub destination : Option AccountAddress
  pub value : Option String

pub record ActionDetailsTonTransfer : Type 0 where
  pub source : Option AccountAddress
  pub destination : Option AccountAddress
  pub value : Option String
  pub extra_currencies : Option (GoMap String)
  pub comment : Option String
  pub encrypted : Option Bool

pub record ActionDetailsAuctionBid : Type 0 where
  pub amount : Option String
  pub bidder : Option AccountAddress
  pub auction : Option AccountAddress
  pub nft_item : Option AccountAddress
  pub nft_collection : Option AccountAddress
  pub nft_item_index : Option String

pub record ActionDetailsChangeDns : Type 0 where
  pub key : Option String
  pub value : ActionDetailsChangeDnsValue
  pub source : Option AccountAddress
  pub asset : Option AccountAddress
  pub nft_collection : Option AccountAddress

pub record ActionDetailsDexDepositLiquidity : Type 0 where
  pub dex : Option String
  pub amount1 : Option String
  pub amount2 : Option String
  pub asset1 : Option AccountAddress
  pub asset2 : Option AccountAddress
  pub user_jetton_wallet1 : Option AccountAddress
  pub user_jetton_wallet2 : Option AccountAddress
  pub source : Option AccountAddress
  pub pool : Option AccountAddress
  pub destination_liquidity : Option AccountAddress
  pub lp_tokens_minted : Option String

pub record ActionDetailsDexWithdrawLiquidity : Type 0 where
  pub dex : Option String
  pub amount1 : Option String
  pub amount2 : Option String
  pub asset1 : Option AccountAddress
  pub asset2 : Option AccountAddress
  pub user_jetton_wallet1 : Option AccountAddress
  pub user_jetton_wallet2 : Option AccountAddress
  pub lp_tokens_burnt : Option String
  pub is_refund : Option Bool
  pub source : Option AccountAddress
  pub pool : Option AccountAddress
  pub destination_liquidity : Option AccountAddress

pub record ActionDetailsDeleteDns : Type 0 where
  pub key : Option String
  pub source : Option AccountAddress
  pub asset : Option AccountAddress
  pub nft_collection : Option AccountAddress

pub record ActionDetailsRenewDns : Type 0 where
  pub source : Option AccountAddress
  pub asset : Option AccountAddress
  pub nft_collection : Option AccountAddress

pub record ActionDetailsElectionDeposit : Type 0 where
  pub stake_holder : Option AccountAddress
  pub amount : Option String

pub record ActionDetailsElectionRecover : Type 0 where
  pub stake_holder : Option AccountAddress
  pub amount : Option String

pub record ActionDetailsJettonBurn : Type 0 where
  pub owner : Option AccountAddress
  pub owner_jetton_wallet : Option AccountAddress
  pub asset : Option AccountAddress
  pub amount : Option String

pub record ActionDetailsJettonSwap : Type 0 where
  pub dex : Option String
  pub sender : Option AccountAddress
  pub asset_in : Option AccountAddress
  pub asset_out : Option AccountAddress
  pub dex_incoming_transfer : Option ActionDetailsJettonSwapTransfer
  pub dex_outgoing_transfer : Option ActionDetailsJettonSwapTransfer
  pub peer_swaps : List JettonSwapPeerSwap

pub record ActionDetailsJettonTransfer : Type 0 where
  pub asset : Option AccountAddress
  pub sender : Option AccountAddress
  pub receiver : Option AccountAddress
  pub sender_jetton_wallet : Option AccountAddress
  pub receiver_jetton_wallet : Option AccountAddress
  pub amount : Option String
  pub comment : Option String
  pub is_encrypted_comment : Option Bool
  pub query_id : Option String
  pub response_destination : Option AccountAddress
  pub custom_payload : Option String
  pub forward_payload : Option String
  pub forward_amount : Option String

pub record ActionDetailsJettonMint : Type 0 where
  pub asset : Option AccountAddress
  pub receiver : Option AccountAddress
  pub receiver_jetton_wallet : Option AccountAddress
  pub amount : Option String
  pub ton_amount : Option String

pub record ActionDetailsNftMint : Type 0 where
  pub owner : Option AccountAddress
  pub nft_item : Option AccountAddress
  pub nft_collection : Option AccountAddress
  pub nft_item_index : Option String

pub record ActionDetailsNftTransfer : Type 0 where
  pub nft_collection : Option AccountAddress
  pub nft_item : Option AccountAddress
  pub nft_item_index : Option String
  pub old_owner : Option AccountAddress
  pub new_owner : Option AccountAddress
  pub is_purchase : Option Bool
  pub price : Option String
  pub query_id : Option String
  pub response_destination : Option AccountAddress
  pub custom_payload : Option String
  pub forward_payload : Option String
  pub forward_amount : Option String
  pub comment : Option String
  pub is_encrypted_comment : Option Bool

pub record ActionDetailsTickTock : Type 0 where
  pub account : Option AccountAddress

pub record ActionDetailsStakeDeposit : Type 0 where
  pub provider : Option String
  pub stake_holder : Option AccountAddress
  pub pool : Option AccountAddress
  pub amount : Option String
  pub tokens_minted : Option String
  pub asset : Option AccountAddress

pub record ActionDetailsWithdrawStake : Type 0 where
  pub provider : Option String
  pub stake_holder : Option AccountAddress
  pub pool : Option AccountAddress
  pub amount : Option String
  pub payout_nft : Option AccountAddress
  pub tokens_burnt : Option String
  pub asset : Option AccountAddress

pub record ActionDetailsWithdrawStakeRequest : Type 0 where
  pub provider : Option String
  pub stake_holder : Option AccountAddress
  pub pool : Option AccountAddress
  pub payout_nft : Option AccountAddress
  pub asset : Option AccountAddress
  pub tokens_burnt : Option String

pub record ActionDetailsSubscribe : Type 0 where
  pub subscriber : Option AccountAddress
  pub beneficiary : Option AccountAddress
  pub subscription : Option AccountAddress
  pub amount : Option String

pub record ActionDetailsUnsubscribe : Type 0 where
  pub subscriber : Option AccountAddress
  pub beneficiary : Option AccountAddress
  pub subscription : Option AccountAddress
  pub amount : Option String

-- What the interface Details holds: a structure, or the text of an error.
pub data Details : Type 0 where
  call_contract : ActionDetailsCallContract → Details
  contract_deploy : ActionDetailsContractDeploy → Details
  ton_transfer : ActionDetailsTonTransfer → Details
  auction_bid : ActionDetailsAuctionBid → Details
  change_dns : ActionDetailsChangeDns → Details
  dex_deposit_liquidity : ActionDetailsDexDepositLiquidity → Details
  dex_withdraw_liquidity : ActionDetailsDexWithdrawLiquidity → Details
  delete_dns : ActionDetailsDeleteDns → Details
  renew_dns : ActionDetailsRenewDns → Details
  election_deposit : ActionDetailsElectionDeposit → Details
  election_recover : ActionDetailsElectionRecover → Details
  jetton_burn : ActionDetailsJettonBurn → Details
  jetton_swap : ActionDetailsJettonSwap → Details
  jetton_transfer : ActionDetailsJettonTransfer → Details
  jetton_mint : ActionDetailsJettonMint → Details
  nft_mint : ActionDetailsNftMint → Details
  nft_transfer : ActionDetailsNftTransfer → Details
  tick_tock : ActionDetailsTickTock → Details
  stake_deposit : ActionDetailsStakeDeposit → Details
  withdraw_stake : ActionDetailsWithdrawStake → Details
  withdraw_stake_request : ActionDetailsWithdrawStakeRequest → Details
  subscribe : ActionDetailsSubscribe → Details
  unsubscribe : ActionDetailsUnsubscribe → Details
  unsupported : String → Details

pub record Action : Type 0 where
  pub trace_id : Option HashType
  pub action_id : HashType
  pub start_lt : ℤ
  pub end_lt : ℤ
  pub start_utime : ℤ
  pub end_utime : ℤ
  pub trace_end_lt : ℤ
  pub trace_end_utime : ℤ
  pub trace_mc_seqno_end : ℤ
  pub tx_hashes : List HashType
  pub success : Option Bool
  pub type : String
  pub details : Details
  pub raw_action : Option RawAction
  pub trace_external_hash : Option HashType
