-- ===== src/Index/Query/Nft.antt =====
-- buildNFTCollectionsQuery, buildNFTItemsQuery and buildNFTTransfersQuery of
-- ton-index-go/index/crud.go.
pub mod Laws
use ton_indexer.Prelude.{
  ℕ, zero, suc, String, Bool, true, false, not, Option, none, some, List, [], ◌∷◌, ◌++◌, Result, ok,
  err, ◌==◌, if◌then◌else◌, str_eq, ◌||◌, ◌&&◌,
}
use ton_indexer.Prelude.Int.{ℤ, pos}
use ton_indexer.Prelude.Text.{has_substring}
use ton_indexer.Prelude.Format.{format_int}
use ton_indexer.Index.Query.Sql.{
  ◌<>◌, ◌>>?◌, IndexError, sort_order_or, get_sort_order, limit_query, literal, filter_by_array,
  opt_filter, slice_filter, array_filter, nonempty_filter, either_filter, has_values, has_one,
  has_text, is_some, where_query, time_filters, by_time, owner_filters, message_hash_filters,
  replaced_by, flag_filter, sort_or_desc, is_empty, pair_filters,
}
use ton_indexer.Index.Query.Request.{
  NftCollectionRequest, NftItemRequest, NftTransferRequest, UtimeRequest, LtRequest, LimitRequest,
  RequestSettings, Slice,
}

abbrev pub collection_columns : String
collection_columns =
    " N.address, N.next_item_index, N.owner_address, N.collection_content, \n\t\t\t\t    N.data_hash, N.code_hash, N.last_transaction_lt"

abbrev pub item_columns : String
item_columns =
    " N.address, N.init, N.index, N.collection_address, N.owner_address, N.content, \n\t\t\t\t\tN.last_transaction_lt, N.code_hash, N.data_hash,\n\t\t\t\t\tC.address, C.next_item_index, C.owner_address, C.collection_content, \n\t\t\t\t    C.data_hash, C.code_hash, C.last_transaction_lt"

abbrev pub transfer_columns : String
transfer_columns =
    " T.tx_hash, T.tx_lt, T.tx_now, T.tx_aborted, T.query_id,\n\t\tT.nft_item_address, T.nft_item_index, T.nft_collection_address, T.old_owner, T.new_owner, T.response_destination, T.custom_payload,\n\t\tT.forward_amount, T.forward_payload, T.trace_id"

unfoldable pub collection_filters : NftCollectionRequest → List String
collection_filters r =
    slice_filter "N.address" (r.collection_address)
    ++ slice_filter "N.owner_address" (r.owner_address)

unfoldable pub collection_order : NftCollectionRequest → String
collection_order r =
    if is_some (r.collection_address) || is_some (r.owner_address) then "" else " order by id asc"

unfoldable pub build_nft_collections_query :
    NftCollectionRequest → LimitRequest → RequestSettings → Result IndexError String
unfolding collection_filters collection_order
build_nft_collections_query nft_req lim_req settings = limit_query lim_req settings >>? λ limit.
    ok (
      "select"
      <> collection_columns
      <> " from "
      <> " nft_collections as N"
      <> where_query (collection_filters nft_req)
      <> collection_order nft_req
      <> limit)

-- One collection is compared as it is, several by filterByArray.
unfoldable pub collection_address_filters : Slice String → List String
unfolding array_filter
collection_address_filters none = []
collection_address_filters (some []) = []
collection_address_filters (some (v ∷ [])) = ("N.collection_address = " <> literal v) ∷ []
collection_address_filters (some (v ∷ v' ∷ more)) =
    array_filter "N.collection_address" (v ∷ v' ∷ more)

unfoldable pub item_filters : NftItemRequest → List String
unfolding collection_address_filters
item_filters r =
    slice_filter "N.address" (r.address)
    ++ slice_filter "N.owner_address" (r.owner_address)
    ++ collection_address_filters (r.collection_address)
    ++ slice_filter "N.index" (r.index)

-- The assignments to orderby_query, the last one first.
unfoldable pub item_order : NftItemRequest → String
item_order r =
    if has_one (r.collection_address)
    then " order by collection_address, index"
    else if is_some (r.owner_address)
    then " order by N.owner_address, N.collection_address, N.index"
    else if is_some (r.address)
    then ""
    else " order by N.id asc"

unfoldable pub build_nft_items_query :
    NftItemRequest → LimitRequest → RequestSettings → Result IndexError String
unfolding item_filters item_order
build_nft_items_query nft_req lim_req settings = limit_query lim_req settings >>? λ limit.
    if is_some (nft_req.index) && not (is_some (nft_req.collection_address))
    then err (record {
      code = pos 422;
      message = "index parameter is not allowed without the collection_address";
    })
    else ok (
        "select"
        <> item_columns
        <> " from "
        <> " nft_items as N left join nft_collections as C on N.collection_address = C.address"
        <> where_query (item_filters nft_req)
        <> item_order nft_req
        <> limit)

unfoldable pub transfer_filters : NftTransferRequest → UtimeRequest → LtRequest → List String
transfer_filters r utime_req lt_req =
    owner_filters "T.old_owner" "T.new_owner" (r.owner_address) (r.direction)
    ++ slice_filter "T.nft_item_address" (r.item_address)
    ++ opt_filter (r.collection_address) (λ v. "T.nft_collection_address = " <> literal v)
    ++ time_filters "T.tx_now" "T.tx_lt" utime_req lt_req

unfoldable pub build_nft_transfers_query :
    NftTransferRequest
    → UtimeRequest
    → LtRequest
    → LimitRequest
    → RequestSettings
    → Result IndexError String
unfolding transfer_filters
build_nft_transfers_query transfer_req utime_req lt_req lim_req settings =
    limit_query lim_req settings >>? λ limit.
    get_sort_order (sort_or_desc (lim_req.sort)) >>? λ sort_order. ok (
      "select"
      <> transfer_columns
      <> " from "
      <> " nft_transfers as T"
      <> where_query (transfer_filters transfer_req utime_req lt_req)
      <> " order by "
      <> (if by_time utime_req then "T.tx_now" else "T.tx_lt")
      <> " "
      <> sort_order
      <> limit)
