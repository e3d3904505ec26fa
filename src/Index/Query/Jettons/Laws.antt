-- ===== src/Index/Query/Jettons/Laws.antt =====
-- The builders of jetton queries of ton-index-go/index/crud.go and the texts of its request.
use ton_indexer.Prelude.{String, none, some, [], ◌∷◌, All, if◌then◌else◌, ◌≡◌, refl}
use mathlib.Core.Option.{map as map_option}
use ton_indexer.Index.Query.Request.{
  JettonMasterRequest, JettonWalletRequest, JettonTransferRequest, JettonBurnRequest, UtimeRequest,
  LtRequest, LimitRequest, RequestSettings, Slice,
}
use ton_indexer.Index.Query.Sql.{is_some, has_one, sort_or_desc, slice_filter}
use ton_indexer.Index.Query.Skeleton.{Same, Same-closed, SameAll, same_nil, QuoteFree}
use ton_indexer.Index.Query.Redact.{redact, redact_slice, IfSome, SameAll-slice_filter, Same-if}
use ton_indexer.Index.Query.Parts.{same_rules, redact_laws, is_some-redact_slice}
use ton_indexer.Index.Query.Outcome.{
  outline, SameResult, same_ok, SameResult-then, SameResult-outline, limit_query-Same,
  sort_order_or-Same, get_sort_order-Same,
}
use ton_indexer.Index.Query.Jettons.{
  build_jetton_masters_query, build_jetton_wallets_query, build_jetton_transfers_query,
  build_jetton_burns_query, master_filters, wallet_filters, wallet_order, transfer_filters,
  burn_filters, jetton_address_filters,
}

-- The request with its texts hidden.
unfoldable pub redact_masters : JettonMasterRequest → JettonMasterRequest
redact_masters r = record r {
  master_address = redact_slice (r.master_address);
  admin_address = redact_slice (r.admin_address);
}

-- No text of the request has a quote.
pub record JettonMasterIsFree (r : JettonMasterRequest) : Type 0 where
  pub master_address_free : IfSome (All QuoteFree) (r.master_address)
  pub admin_address_free : IfSome (All QuoteFree) (r.admin_address)

master_filters-redact :
    (r : JettonMasterRequest)
    → JettonMasterIsFree r
    → SameAll (master_filters r) (master_filters (redact_masters r))
unfolding master_filters redact_masters
master_filters-redact r h = search (same_rules) depth 24 fits 9000

build_jetton_masters_query-Same :
    (r : JettonMasterRequest) (lim : LimitRequest) (settings : RequestSettings)
    → JettonMasterIsFree r
    → SameResult
        (build_jetton_masters_query r lim settings)
        (build_jetton_masters_query (redact_masters r) lim settings)
unfolding build_jetton_masters_query redact_masters
build_jetton_masters_query-Same r lim settings h =
    SameResult-then (limit_query-Same lim settings) λ l l' p.
      rw (is_some-redact_slice (r.master_address))
        (same_ok (search (same_rules, master_filters-redact r) depth 30 fits 9000))

-- When no text of the request has a quote, the query built from it and the query built from the
-- request with its texts hidden are the same outside of their literals, or both are the same error.
pub build_jetton_masters_query-redact :
    (r : JettonMasterRequest) (lim : LimitRequest) (settings : RequestSettings)
    → JettonMasterIsFree r
    → outline (build_jetton_masters_query r lim settings)
      ≡ outline (build_jetton_masters_query (redact_masters r) lim settings)
build_jetton_masters_query-redact r lim settings h =
    SameResult-outline (build_jetton_masters_query-Same r lim settings h)

-- The request with its texts hidden.
unfoldable pub redact_wallets : JettonWalletRequest → JettonWalletRequest
redact_wallets r = record r {
  address = redact_slice (r.address);
  owner_address = redact_slice (r.owner_address);
  jetton_address = redact_slice (r.jetton_address);
}

-- No text of the request has a quote.
pub record JettonWalletIsFree (r : JettonWalletRequest) : Type 0 where
  pub address_free : IfSome (All QuoteFree) (r.address)
  pub owner_address_free : IfSome (All QuoteFree) (r.owner_address)
  pub jetton_address_free : IfSome (All QuoteFree) (r.jetton_address)

SameAll-jetton_address_filters :
    (v : Slice String)
    → IfSome (All QuoteFree) v
    → SameAll (jetton_address_filters v) (jetton_address_filters (redact_slice v))
unfolding jetton_address_filters redact_slice slice_filter
SameAll-jetton_address_filters none h = same_nil
SameAll-jetton_address_filters (some []) h = same_nil
SameAll-jetton_address_filters (some (v ∷ [])) (h, _) = search (same_rules, h)
SameAll-jetton_address_filters (some (v ∷ v' ∷ more)) h =
    SameAll-slice_filter "J.jetton" (some (v ∷ v' ∷ more)) refl (Same-closed _ refl) h

wallet_filters-redact :
    (r : JettonWalletRequest)
    → JettonWalletIsFree r
    → SameAll (wallet_filters r) (wallet_filters (redact_wallets r))
unfolding wallet_filters redact_wallets
wallet_filters-redact r h = search (same_rules, SameAll-jetton_address_filters) depth 24 fits 9000

wallet_order-redact :
    (r : JettonWalletRequest) (c o : String)
    → wallet_order (redact_wallets r) c o ≡ wallet_order r c o
unfolding wallet_order redact_wallets
wallet_order-redact r c o = simp redact_laws

Same-wallet_order :
    (r : JettonWalletRequest) (c c' o o' : String)
    → Same c c'
    → Same o o'
    → Same (wallet_order r c o) (wallet_order r c' o')
unfolding wallet_order
Same-wallet_order r c c' o o' p q =
    Same-if (has_one (r.jetton_address)) (search same_rules depth 12) (
      Same-if (is_some (r.owner_address)) (search same_rules depth 12)
        (Same-if (is_some (r.address)) (search same_rules depth 12) (search same_rules depth 12)))

build_jetton_wallets_query-Same :
    (r : JettonWalletRequest) (lim : LimitRequest) (settings : RequestSettings)
    → JettonWalletIsFree r
    → SameResult
        (build_jetton_wallets_query r lim settings)
        (build_jetton_wallets_query (redact_wallets r) lim settings)
unfolding build_jetton_wallets_query
build_jetton_wallets_query-Same r lim settings h =
    SameResult-then (limit_query-Same lim settings) λ l l' p.
      SameResult-then (sort_order_or-Same "asc" (lim.sort) (Same-closed "asc" refl)) λ o o' q.
        rw (wallet_order-redact r (if is_some (lim.sort) then "J.balance" else "J.id") o') (
          same_ok
            (search (same_rules, wallet_filters-redact r, Same-wallet_order) depth 30 fits 9000))

-- When no text of the request has a quote, the query built from it and the query built from the
-- request with its texts hidden are the same outside of their literals, or both are the same error.
pub build_jetton_wallets_query-redact :
    (r : JettonWalletRequest) (lim : LimitRequest) (settings : RequestSettings)
    → JettonWalletIsFree r
    → outline (build_jetton_wallets_query r lim settings)
      ≡ outline (build_jetton_wallets_query (redact_wallets r) lim settings)
build_jetton_wallets_query-redact r lim settings h =
    SameResult-outline (build_jetton_wallets_query-Same r lim settings h)

-- The request with its texts hidden.
unfoldable pub redact_jetton_transfers : JettonTransferRequest → JettonTransferRequest
redact_jetton_transfers r = record r {
  owner_address = redact_slice (r.owner_address);
  jetton_wallet = redact_slice (r.jetton_wallet);
  jetton_master = map_option redact (r.jetton_master);
}

-- No text of the request has a quote.
pub record JettonTransferIsFree (r : JettonTransferRequest) : Type 0 where
  pub owner_address_free : IfSome (All QuoteFree) (r.owner_address)
  pub jetton_wallet_free : IfSome (All QuoteFree) (r.jetton_wallet)
  pub jetton_master_free : IfSome QuoteFree (r.jetton_master)

transfer_filters-redact :
    (r : JettonTransferRequest) (utime : UtimeRequest) (lt : LtRequest)
    → JettonTransferIsFree r
    → SameAll (transfer_filters r utime lt) (transfer_filters (redact_jetton_transfers r) utime lt)
unfolding transfer_filters redact_jetton_transfers
transfer_filters-redact r utime lt h = search (same_rules) depth 24 fits 9000

build_jetton_transfers_query-Same :
    (r : JettonTransferRequest) (utime : UtimeRequest) (lt : LtRequest) (lim : LimitRequest)
    (settings : RequestSettings)
    → JettonTransferIsFree r
    → SameResult
        (build_jetton_transfers_query r utime lt lim settings)
        (build_jetton_transfers_query (redact_jetton_transfers r) utime lt lim settings)
unfolding build_jetton_transfers_query
build_jetton_transfers_query-Same r utime lt lim settings h =
    SameResult-then (limit_query-Same lim settings) λ l l' p.
      SameResult-then (get_sort_order-Same (sort_or_desc (lim.sort))) λ o o' q.
        same_ok (search (same_rules, transfer_filters-redact r utime lt) depth 30 fits 9000)

-- When no text of the request has a quote, the query built from it and the query built from the
-- request with its texts hidden are the same outside of their literals, or both are the same error.
pub build_jetton_transfers_query-redact :
    (r : JettonTransferRequest) (utime : UtimeRequest) (lt : LtRequest) (lim : LimitRequest)
    (settings : RequestSettings)
    → JettonTransferIsFree r
    → outline (build_jetton_transfers_query r utime lt lim settings)
      ≡ outline (build_jetton_transfers_query (redact_jetton_transfers r) utime lt lim settings)
build_jetton_transfers_query-redact r utime lt lim settings h =
    SameResult-outline (build_jetton_transfers_query-Same r utime lt lim settings h)

-- The request with its texts hidden.
unfoldable pub redact_burns : JettonBurnRequest → JettonBurnRequest
redact_burns r = record r {
  owner_address = redact_slice (r.owner_address);
  jetton_wallet = redact_slice (r.jetton_wallet);
  jetton_master = map_option redact (r.jetton_master);
}

-- No text of the request has a quote.
pub record JettonBurnIsFree (r : JettonBurnRequest) : Type 0 where
  pub owner_address_free : IfSome (All QuoteFree) (r.owner_address)
  pub jetton_wallet_free : IfSome (All QuoteFree) (r.jetton_wallet)
  pub jetton_master_free : IfSome QuoteFree (r.jetton_master)

burn_filters-redact :
    (r : JettonBurnRequest) (utime : UtimeRequest) (lt : LtRequest)
    → JettonBurnIsFree r
    → SameAll (burn_filters r utime lt) (burn_filters (redact_burns r) utime lt)
unfolding burn_filters redact_burns
burn_filters-redact r utime lt h = search (same_rules) depth 24 fits 9000

build_jetton_burns_query-Same :
    (r : JettonBurnRequest) (utime : UtimeRequest) (lt : LtRequest) (lim : LimitRequest)
    (settings : RequestSettings)
    → JettonBurnIsFree r
    → SameResult
        (build_jetton_burns_query r utime lt lim settings)
        (build_jetton_burns_query (redact_burns r) utime lt lim settings)
unfolding build_jetton_burns_query
build_jetton_burns_query-Same r utime lt lim settings h =
    SameResult-then (limit_query-Same lim settings) λ l l' p.
      SameResult-then (get_sort_order-Same (sort_or_desc (lim.sort)))
        λ o o' q. same_ok (search (same_rules, burn_filters-redact r utime lt) depth 30 fits 9000)

-- When no text of the request has a quote, the query built from it and the query built from the
-- request with its texts hidden are the same outside of their literals, or both are the same error.
pub build_jetton_burns_query-redact :
    (r : JettonBurnRequest) (utime : UtimeRequest) (lt : LtRequest) (lim : LimitRequest)
    (settings : RequestSettings)
    → JettonBurnIsFree r
    → outline (build_jetton_burns_query r utime lt lim settings)
      ≡ outline (build_jetton_burns_query (redact_burns r) utime lt lim settings)
build_jetton_burns_query-redact r utime lt lim settings h =
    SameResult-outline (build_jetton_burns_query-Same r utime lt lim settings h)
