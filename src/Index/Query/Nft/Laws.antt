-- ===== src/Index/Query/Nft/Laws.antt =====
-- The builders of NFT queries of ton-index-go/index/crud.go and the texts of its request.
use ton_indexer.Prelude.{String, none, some, [], ◌∷◌, All, ◌≡◌, refl}
use mathlib.Core.Option.{map as map_option}
use ton_indexer.Index.Query.Request.{
  NftCollectionRequest, NftItemRequest, NftTransferRequest, UtimeRequest, LtRequest, LimitRequest,
  RequestSettings, Slice,
}
use ton_indexer.Index.Query.Sql.{sort_or_desc, slice_filter}
use ton_indexer.Index.Query.Skeleton.{Same, Same-closed, SameAll, same_nil, QuoteFree}
use ton_indexer.Index.Query.Redact.{redact, redact_slice, IfSome, SameAll-slice_filter}
use ton_indexer.Index.Query.Parts.{same_rules, redact_laws, is_some-redact_slice}
use ton_indexer.Index.Query.Outcome.{
  outline, SameResult, same_ok, same_err, SameResult-then, SameResult-if, SameResult-outline,
  limit_query-Same, get_sort_order-Same,
}
use ton_indexer.Index.Query.Nft.{
  build_nft_collections_query, build_nft_items_query, build_nft_transfers_query, collection_filters,
  collection_order, collection_address_filters, item_filters, item_order, transfer_filters,
}

-- The request with its texts hidden.
unfoldable pub redact_collections : NftCollectionRequest → NftCollectionRequest
redact_collections r = record r {
  collection_address = redact_slice (r.collection_address);
  owner_address = redact_slice (r.owner_address);
}

-- No text of the request has a quote.
pub record NftCollectionIsFree (r : NftCollectionRequest) : Type 0 where
  pub collection_address_free : IfSome (All QuoteFree) (r.collection_address)
  pub owner_address_free : IfSome (All QuoteFree) (r.owner_address)

collection_filters-redact :
    (r : NftCollectionRequest)
    → NftCollectionIsFree r
    → SameAll (collection_filters r) (collection_filters (redact_collections r))
unfolding collection_filters redact_collections
collection_filters-redact r h = search (same_rules) depth 24 fits 9000

collection_order-redact :
    (r : NftCollectionRequest) → collection_order (redact_collections r) ≡ collection_order r
unfolding collection_order redact_collections
collection_order-redact r = simp redact_laws

Same-collection_order : (r : NftCollectionRequest) → Same (collection_order r) (collection_order r)
unfolding collection_order
Same-collection_order r = search (same_rules) depth 24 fits 9000

build_nft_collections_query-Same :
    (r : NftCollectionRequest) (lim : LimitRequest) (settings : RequestSettings)
    → NftCollectionIsFree r
    → SameResult
        (build_nft_collections_query r lim settings)
        (build_nft_collections_query (redact_collections r) lim settings)
unfolding build_nft_collections_query
build_nft_collections_query-Same r lim settings h =
    SameResult-then (limit_query-Same lim settings) λ l l' p. rw (collection_order-redact r) (
      same_ok (
        search (same_rules, collection_filters-redact r, Same-collection_order) depth 30 fits 9000))

-- When no text of the request has a quote, the query built from it and the query built from the
-- request with its texts hidden are the same outside of their literals, or both are the same error.
pub build_nft_collections_query-redact :
    (r : NftCollectionRequest) (lim : LimitRequest) (settings : RequestSettings)
    → NftCollectionIsFree r
    → outline (build_nft_collections_query r lim settings)
      ≡ outline (build_nft_collections_query (redact_collections r) lim settings)
build_nft_collections_query-redact r lim settings h =
    SameResult-outline (build_nft_collections_query-Same r lim settings h)

-- The request with its texts hidden.
unfoldable pub redact_items : NftItemRequest → NftItemRequest
redact_items r = record r {
  address = redact_slice (r.address);
  owner_address = redact_slice (r.owner_address);
  collection_address = redact_slice (r.collection_address);
  index = redact_slice (r.index);
}

-- No text of the request has a quote.
pub record NftItemIsFree (r : NftItemRequest) : Type 0 where
  pub address_free : IfSome (All QuoteFree) (r.address)
  pub owner_address_free : IfSome (All QuoteFree) (r.owner_address)
  pub collection_address_free : IfSome (All QuoteFree) (r.collection_address)
  pub index_free : IfSome (All QuoteFree) (r.index)

SameAll-collection_address_filters :
    (v : Slice String)
    → IfSome (All QuoteFree) v
    → SameAll (collection_address_filters v) (collection_address_filters (redact_slice v))
unfolding collection_address_filters redact_slice slice_filter
SameAll-collection_address_filters none h = same_nil
SameAll-collection_address_filters (some []) h = same_nil
SameAll-collection_address_filters (some (v ∷ [])) (h, _) = search (same_rules, h)
SameAll-collection_address_filters (some (v ∷ v' ∷ more)) h =
    SameAll-slice_filter "N.collection_address" (some (v ∷ v' ∷ more)) refl (Same-closed _ refl) h

item_filters-redact :
    (r : NftItemRequest)
    → NftItemIsFree r
    → SameAll (item_filters r) (item_filters (redact_items r))
unfolding item_filters redact_items
item_filters-redact r h = search (same_rules, SameAll-collection_address_filters) depth 24 fits 9000

item_order-redact : (r : NftItemRequest) → item_order (redact_items r) ≡ item_order r
unfolding item_order redact_items
item_order-redact r = simp redact_laws

Same-item_order : (r : NftItemRequest) → Same (item_order r) (item_order r)
unfolding item_order
Same-item_order r = search (same_rules) depth 24 fits 9000

build_nft_items_query-Same :
    (r : NftItemRequest) (lim : LimitRequest) (settings : RequestSettings)
    → NftItemIsFree r
    → SameResult
        (build_nft_items_query r lim settings)
        (build_nft_items_query (redact_items r) lim settings)
unfolding build_nft_items_query redact_items
build_nft_items_query-Same r lim settings h =
    SameResult-then (limit_query-Same lim settings) λ l l' p.
      rw
        (
          item_order-redact r,
          is_some-redact_slice (r.index),
          is_some-redact_slice (r.collection_address),
        )
        (SameResult-if _ same_err (
          same_ok (search (same_rules, item_filters-redact r, Same-item_order) depth 30 fits 9000)))

-- When no text of the request has a quote, the query built from it and the query built from the
-- request with its texts hidden are the same outside of their literals, or both are the same error.
pub build_nft_items_query-redact :
    (r : NftItemRequest) (lim : LimitRequest) (settings : RequestSettings)
    → NftItemIsFree r
    → outline (build_nft_items_query r lim settings)
      ≡ outline (build_nft_items_query (redact_items r) lim settings)
build_nft_items_query-redact r lim settings h =
    SameResult-outline (build_nft_items_query-Same r lim settings h)

-- The request with its texts hidden.
unfoldable pub redact_nft_transfers : NftTransferRequest → NftTransferRequest
redact_nft_transfers r = record r {
  owner_address = redact_slice (r.owner_address);
  item_address = redact_slice (r.item_address);
  collection_address = map_option redact (r.collection_address);
}

-- No text of the request has a quote.
pub record NftTransferIsFree (r : NftTransferRequest) : Type 0 where
  pub owner_address_free : IfSome (All QuoteFree) (r.owner_address)
  pub item_address_free : IfSome (All QuoteFree) (r.item_address)
  pub collection_address_free : IfSome QuoteFree (r.collection_address)

transfer_filters-redact :
    (r : NftTransferRequest) (utime : UtimeRequest) (lt : LtRequest)
    → NftTransferIsFree r
    → SameAll (transfer_filters r utime lt) (transfer_filters (redact_nft_transfers r) utime lt)
unfolding transfer_filters redact_nft_transfers
transfer_filters-redact r utime lt h = search (same_rules) depth 24 fits 9000

build_nft_transfers_query-Same :
    (r : NftTransferRequest) (utime : UtimeRequest) (lt : LtRequest) (lim : LimitRequest)
    (settings : RequestSettings)
    → NftTransferIsFree r
    → SameResult
        (build_nft_transfers_query r utime lt lim settings)
        (build_nft_transfers_query (redact_nft_transfers r) utime lt lim settings)
unfolding build_nft_transfers_query
build_nft_transfers_query-Same r utime lt lim settings h =
    SameResult-then (limit_query-Same lim settings) λ l l' p.
      SameResult-then (get_sort_order-Same (sort_or_desc (lim.sort))) λ o o' q.
        same_ok (search (same_rules, transfer_filters-redact r utime lt) depth 30 fits 9000)

-- When no text of the request has a quote, the query built from it and the query built from the
-- request with its texts hidden are the same outside of their literals, or both are the same error.
pub build_nft_transfers_query-redact :
    (r : NftTransferRequest) (utime : UtimeRequest) (lt : LtRequest) (lim : LimitRequest)
    (settings : RequestSettings)
    → NftTransferIsFree r
    → outline (build_nft_transfers_query r utime lt lim settings)
      ≡ outline (build_nft_transfers_query (redact_nft_transfers r) utime lt lim settings)
build_nft_transfers_query-redact r utime lt lim settings h =
    SameResult-outline (build_nft_transfers_query-Same r utime lt lim settings h)
