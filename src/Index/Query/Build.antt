-- ===== src/Index/Query/Build.antt =====
-- All builders of ton-index-go/index/crud.go that put texts of a request into a query.
pub mod Laws
use ton_indexer.Prelude.{String, Result}
use ton_indexer.Index.Query.Sql.{IndexError}
use ton_indexer.Index.Query.Request.{
  BlockRequest, TransactionRequest, MessageRequest, NftCollectionRequest, NftItemRequest,
  NftTransferRequest, JettonMasterRequest, JettonWalletRequest, JettonTransferRequest,
  JettonBurnRequest, AccountRequest, ActionRequest, TracesRequest, UtimeRequest, LtRequest,
  LimitRequest, RequestSettings,
}
use ton_indexer.Index.Query.Transactions.{build_transactions_query}
use ton_indexer.Index.Query.Messages.{build_messages_query}
use ton_indexer.Index.Query.Nft.{
  build_nft_collections_query, build_nft_items_query, build_nft_transfers_query,
}
use ton_indexer.Index.Query.Jettons.{
  build_jetton_masters_query, build_jetton_wallets_query, build_jetton_transfers_query,
  build_jetton_burns_query,
}
use ton_indexer.Index.Query.Accounts.{build_account_states_query}
use ton_indexer.Index.Query.Traces.{build_traces_query}
use ton_indexer.Index.Query.Actions.{build_actions_query}

-- What is asked for, apart from time and limit.
pub data Query : Type 0 where
  transactions : BlockRequest → TransactionRequest → MessageRequest → Query
  messages : MessageRequest → Query
  nft_collections : NftCollectionRequest → Query
  nft_items : NftItemRequest → Query
  nft_transfers : NftTransferRequest → Query
  jetton_masters : JettonMasterRequest → Query
  jetton_wallets : JettonWalletRequest → Query
  jetton_transfers : JettonTransferRequest → Query
  jetton_burns : JettonBurnRequest → Query
  account_states : AccountRequest → Query
  actions : ActionRequest → Query
  traces : TracesRequest → Query

-- The builder that answers it.
abbrev pub build :
    Query → UtimeRequest → LtRequest → LimitRequest → RequestSettings → Result IndexError String
build (transactions b r m) u l n s = build_transactions_query b r m u l n s
build (messages r) u l n s = build_messages_query r u l n s
build (nft_collections r) u l n s = build_nft_collections_query r n s
build (nft_items r) u l n s = build_nft_items_query r n s
build (nft_transfers r) u l n s = build_nft_transfers_query r u l n s
build (jetton_masters r) u l n s = build_jetton_masters_query r n s
build (jetton_wallets r) u l n s = build_jetton_wallets_query r n s
build (jetton_transfers r) u l n s = build_jetton_transfers_query r u l n s
build (jetton_burns r) u l n s = build_jetton_burns_query r u l n s
build (account_states r) u l n s = build_account_states_query r n s
build (actions r) u l n s = build_actions_query r u l n s
build (traces r) u l n s = build_traces_query r u l n s
