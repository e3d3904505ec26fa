-- ===== src/Index/Emulated/Actions.antt =====
-- The actions of ton-index-go/index/emulated/models.go.
use ton_indexer.Prelude.{ℕ, String, Bool, Option, List}

pub record ActionTonTransferDetails : Type 0 where
  pub content : Option String
  pub encrypted : Bool

pub record ActionJettonTransferDetails : Type 0 where
  pub response_destination : Option String
  pub forward_amount : Option String
  pub query_id : Option String
  pub custom_payload : Option String
  pub forward_payload : Option String
  pub comment : Option String
  pub is_encrypted_comment : Option Bool

pub record ActionNftTransferDetails : Type 0 where
  pub is_purchase : Bool
  pub price : Option String
  pub query_id : Option String
  pub custom_payload : Option String
  pub forward_payload : Option String
  pub forward_amount : Option String
  pub response_destination : Option String
  pub nft_item_index : Option String

pub record ActionDexTransferDetails : Type 0 where
  pub amount : Option String
  pub asset : Option String
  pub source : Option String
  pub destination : Option String
  pub source_jetton_wallet : Option String
  pub destination_jetton_wallet : Option String

pub record ActionPeerSwapDetails : Type 0 where
  pub asset_in : Option String
  pub asset_out : Option String
  pub amount_in : Option String
  pub amount_out : Option String

pub record ActionJettonSwapDetails : Type 0 where
  pub dex : Option String
  pub sender : Option String
  pub dex_incoming_transfer : ActionDexTransferDetails
  pub dex_outgoing_transfer : ActionDexTransferDetails
  pub peer_swaps : List ActionPeerSwapDetails

pub record ActionChangeDnsRecordDetails : Type 0 where
  pub key : Option String
  pub value_schema : Option String
  pub value : Option String
  pub flags : Option String

pub record ActionNftMintDetails : Type 0 where
  pub nft_item_index : Option String

pub record ActionDexDepositLiquidityData : Type 0 where
  pub dex : Option String
  pub amount1 : Option String
  pub amount2 : Option String
  pub asset1 : Option String
  pub asset2 : Option String
  pub user_jetton_wallet1 : Option String
  pub user_jetton_wallet2 : Option String
  pub lp_tokens_minted : Option String

pub record ActionDexWithdrawLiquidityData : Type 0 where
  pub dex : Option String
  pub amount1 : Option String
  pub amount2 : Option String
  pub asset1_out : Option String
  pub asset2_out : Option String
  pub user_jetton_wallet1 : Option String
  pub user_jetton_wallet2 : Option String
  pub dex_jetton_wallet1 : Option String
  pub dex_jetton_wallet2 : Option String
  pub lp_tokens_burnt : Option String

pub record ActionStakingData : Type 0 where
  pub provider : Option String
  pub ts_nft : Option String
  pub tokens_burnt : Option String
  pub tokens_minted : Option String

pub record Action : Type 0 where
  pub action_id : String
  pub type : String
  pub trace_id : Option String
  pub trace_external_hash : String
  pub tx_hashes : List String
  pub value : Option String
  pub amount : Option String
  pub start_lt : Option ℕ
  pub end_lt : Option ℕ
  pub start_utime : Option ℕ
  pub end_utime : Option ℕ
  pub trace_end_lt : Option ℕ
  pub trace_end_utime : Option ℕ
  pub trace_start_lt : Option ℕ
  pub trace_mc_seqno_end : Option ℕ
  pub source : Option String
  pub source_secondary : Option String
  pub destination : Option String
  pub destination_secondary : Option String
  pub asset : Option String
  pub asset_secondary : Option String
  pub asset2 : Option String
  pub asset2_secondary : Option String
  pub opcode : Option ℕ
  pub success : Bool
  pub ton_transfer_data : Option ActionTonTransferDetails
  pub jetton_transfer_data : Option ActionJettonTransferDetails
  pub nft_transfer_data : Option ActionNftTransferDetails
  pub jetton_swap_data : Option ActionJettonSwapDetails
  pub change_dns_record_data : Option ActionChangeDnsRecordDetails
  pub nft_mint_data : Option ActionNftMintDetails
  pub dex_deposit_liquidity_data : Option ActionDexDepositLiquidityData
  pub dex_withdraw_liquidity_data : Option ActionDexWithdrawLiquidityData
  pub staking_data : Option ActionStakingData
