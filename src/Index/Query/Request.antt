-- ===== src/Index/Query/Request.antt =====
-- The requests of ton-index-go/index/request.go. A pointer that may be nil is an `Option`; so is a
-- slice, since the queries tell a nil slice from an empty one.
use ton_indexer.Prelude.{ℕ, String, Bool, Option, List}
use ton_indexer.Prelude.Int.{ℤ}

abbrev pub AccountAddress : Type 0
AccountAddress = String

abbrev pub AccountAddressNullable : Type 0
AccountAddressNullable = String

abbrev pub HashType : Type 0
HashType = String

abbrev pub SortType : Type 0
SortType = String

abbrev pub ShardId : Type 0
ShardId = ℤ

abbrev pub OpcodeType : Type 0
OpcodeType = ℤ

abbrev pub UtimeType : Type 0
UtimeType = ℕ

abbrev pub Slice : Type 0 → Type 0
Slice A = Option (List A)

pub record RequestSettings : Type 0 where
  pub timeout : ℤ
  pub is_testnet : Bool
  pub v2_endpoint : String
  pub v2_api_key : String
  pub default_limit : ℤ
  pub max_limit : ℤ
  pub max_trace_transactions : ℤ
  pub debug_request : Bool
  pub no_address_book : Bool
  pub no_metadata : Bool

pub record BlockRequest : Type 0 where
  pub workchain : Option ℤ
  pub shard : Option ShardId
  pub seqno : Option ℤ
  pub mc_seqno : Option ℤ

pub record TransactionRequest : Type 0 where
  pub account : Slice AccountAddress
  pub exclude_account : Slice AccountAddress
  pub hash : Option HashType
  pub lt : Option ℕ

pub record MessageRequest : Type 0 where
  pub direction : Option String
  pub exclude_externals : Option Bool
  pub only_externals : Option Bool
  pub message_hash : Slice HashType
  pub source : Option AccountAddressNullable
  pub destination : Option AccountAddressNullable
  pub body_hash : Option HashType
  pub opcode : Option OpcodeType

pub record NftCollectionRequest : Type 0 where
  pub collection_address : Slice AccountAddress
  pub owner_address : Slice AccountAddress

pub record NftItemRequest : Type 0 where
  pub address : Slice AccountAddress
  pub owner_address : Slice AccountAddress
  pub collection_address : Slice AccountAddress
  pub index : Slice String

pub record NftTransferRequest : Type 0 where
  pub owner_address : Slice AccountAddress
  pub item_address : Slice AccountAddress
  pub collection_address : Option AccountAddress
  pub direction : Option String

pub record JettonMasterRequest : Type 0 where
  pub master_address : Slice AccountAddress
  pub admin_address : Slice AccountAddress

pub record JettonWalletRequest : Type 0 where
  pub address : Slice AccountAddress
  pub owner_address : Slice AccountAddress
  pub jetton_address : Slice AccountAddress
  pub exclude_zero_balance : Option Bool

pub record JettonTransferRequest : Type 0 where
  pub owner_address : Slice AccountAddress
  pub jetton_wallet : Slice AccountAddress
  pub jetton_master : Option AccountAddress
  pub direction : Option String

pub record JettonBurnRequest : Type 0 where
  pub owner_address : Slice AccountAddress
  pub jetton_wallet : Slice AccountAddress
  pub jetton_master : Option AccountAddress

pub record UtimeRequest : Type 0 where
  pub start_utime : Option UtimeType
  pub end_utime : Option UtimeType

pub record LtRequest : Type 0 where
  pub start_lt : Option ℕ
  pub end_lt : Option ℕ

pub record AccountRequest : Type 0 where
  pub account_address : Slice AccountAddress
  pub code_hash : Slice HashType
  pub include_boc : Option Bool

pub record ActionRequest : Type 0 where
  pub account_address : Option AccountAddress
  pub transaction_hash : Slice HashType
  pub message_hash : Slice HashType
  pub trace_id : Slice HashType
  pub action_id : Slice HashType
  pub mc_seqno : Option ℤ
  pub include_action_types : Slice String
  pub exclude_action_types : Slice String

pub record TracesRequest : Type 0 where
  pub include_actions : Bool
  pub account_address : Option AccountAddress
  pub trace_id : Slice HashType
  pub transaction_hash : Slice HashType
  pub message_hash : Slice HashType
  pub mc_seqno : Option ℤ

pub record LimitRequest : Type 0 where
  pub limit : Option ℤ
  pub offset : Option ℤ
  pub sort : Option SortType
