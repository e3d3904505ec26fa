-- ===== src/Index/Query/Build/Laws.antt =====
-- The queries of ton-index-go/index/crud.go keep the texts of a request inside of literals.
use ton_indexer.Prelude.{◌≡◌}
use ton_indexer.Index.Query.Request.{UtimeRequest, LtRequest, LimitRequest, RequestSettings}
use ton_indexer.Index.Query.Outcome.{outline}
use ton_indexer.Index.Query.Build.{
  Query, build, transactions, messages, nft_collections, nft_items, nft_transfers, jetton_masters,
  jetton_wallets, jetton_transfers, jetton_burns, account_states, actions, traces,
}
use ton_indexer.Index.Query.Transactions.Laws.{
  redact_transactions, TransactionIsFree, build_transactions_query-redact,
}
use ton_indexer.Index.Query.Messages.Laws.{
  redact_messages, MessageIsFree, build_messages_query-redact,
}
use ton_indexer.Index.Query.Nft.Laws.{
  redact_collections, redact_items, redact_nft_transfers, NftCollectionIsFree, NftItemIsFree,
  NftTransferIsFree, build_nft_collections_query-redact, build_nft_items_query-redact,
  build_nft_transfers_query-redact,
}
use ton_indexer.Index.Query.Jettons.Laws.{
  redact_masters, redact_wallets, redact_jetton_transfers, redact_burns, JettonMasterIsFree,
  JettonWalletIsFree, JettonTransferIsFree, JettonBurnIsFree, build_jetton_masters_query-redact,
  build_jetton_wallets_query-redact, build_jetton_transfers_query-redact,
  build_jetton_burns_query-redact,
}
use ton_indexer.Index.Query.Accounts.Laws.{
  redact_accounts, AccountIsFree, build_account_states_query-redact,
}
use ton_indexer.Index.Query.Traces.Laws.{redact_traces, TracesIsFree, build_traces_query-redact}
use ton_indexer.Index.Query.Actions.Laws.{redact_actions, ActionIsFree, build_actions_query-redact}

-- The query with its texts hidden.
unfoldable pub redact_query : Query → Query
redact_query (transactions b r m) = transactions b (redact_transactions r) (redact_messages m)
redact_query (messages r) = messages (redact_messages r)
redact_query (nft_collections r) = nft_collections (redact_collections r)
redact_query (nft_items r) = nft_items (redact_items r)
redact_query (nft_transfers r) = nft_transfers (redact_nft_transfers r)
redact_query (jetton_masters r) = jetton_masters (redact_masters r)
redact_query (jetton_wallets r) = jetton_wallets (redact_wallets r)
redact_query (jetton_transfers r) = jetton_transfers (redact_jetton_transfers r)
redact_query (jetton_burns r) = jetton_burns (redact_burns r)
redact_query (account_states r) = account_states (redact_accounts r)
redact_query (actions r) = actions (redact_actions r)
redact_query (traces r) = traces (redact_traces r)

-- No text of the query has a quote.
abbrev pub IsFree : Query → Type 0
IsFree (transactions b r m) = TransactionIsFree r × MessageIsFree m
IsFree (messages r) = MessageIsFree r
IsFree (nft_collections r) = NftCollectionIsFree r
IsFree (nft_items r) = NftItemIsFree r
IsFree (nft_transfers r) = NftTransferIsFree r
IsFree (jetton_masters r) = JettonMasterIsFree r
IsFree (jetton_wallets r) = JettonWalletIsFree r
IsFree (jetton_transfers r) = JettonTransferIsFree r
IsFree (jetton_burns r) = JettonBurnIsFree r
IsFree (account_states r) = AccountIsFree r
IsFree (actions r) = ActionIsFree r
IsFree (traces r) = TracesIsFree r

-- When no text of a request has a quote, the query built from it and the query built from the request
-- with its texts hidden are the same outside of their literals, or both are the same error: no text
-- of a request is read as SQL.
pub build-redact_query :
    (q : Query) (utime : UtimeRequest) (lt : LtRequest) (lim : LimitRequest)
    (settings : RequestSettings)
    → IsFree q
    → outline (build q utime lt lim settings)
      ≡ outline (build (redact_query q) utime lt lim settings)
unfolding redact_query
build-redact_query (transactions b r m) u l n s (h, k) =
    build_transactions_query-redact b r m u l n s h k
build-redact_query (messages r) u l n s h = build_messages_query-redact r u l n s h
build-redact_query (nft_collections r) u l n s h = build_nft_collections_query-redact r n s h
build-redact_query (nft_items r) u l n s h = build_nft_items_query-redact r n s h
build-redact_query (nft_transfers r) u l n s h = build_nft_transfers_query-redact r u l n s h
build-redact_query (jetton_masters r) u l n s h = build_jetton_masters_query-redact r n s h
build-redact_query (jetton_wallets r) u l n s h = build_jetton_wallets_query-redact r n s h
build-redact_query (jetton_transfers r) u l n s h = build_jetton_transfers_query-redact r u l n s h
build-redact_query (jetton_burns r) u l n s h = build_jetton_burns_query-redact r u l n s h
build-redact_query (account_states r) u l n s h = build_account_states_query-redact r n s h
build-redact_query (actions r) u l n s h = build_actions_query-redact r u l n s h
build-redact_query (traces r) u l n s h = build_traces_query-redact r u l n s h
