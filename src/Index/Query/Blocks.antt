-- ===== src/Index/Query/Blocks.antt =====
-- buildBlocksQuery of ton-index-go/index/crud.go.
use ton_indexer.Prelude.{String, Option, none, some, List, ◌++◌, Result, ok}
use ton_indexer.Prelude.Int.{ℤ, pos}
use ton_indexer.Prelude.Format.{format_int}
use ton_indexer.Index.Query.Sql.{
  ◌<>◌, ◌>>?◌, IndexError, get_sort_order, limit_query, opt_filter, where_query,
}
use ton_indexer.Index.Query.Request.{
  BlockRequest, UtimeRequest, LtRequest, LimitRequest, RequestSettings,
}

abbrev pub opt_block : Option ℤ → String → List String
opt_block o text = opt_filter o (λ v. text <> format_int v)

unfoldable pub block_filters : BlockRequest → UtimeRequest → LtRequest → List String
block_filters blk_req utime_req lt_req =
    opt_block (blk_req.workchain) "workchain = "
    ++ opt_block (blk_req.shard) "shard = "
    ++ opt_block (blk_req.seqno) "seqno = "
    ++ opt_block (blk_req.mc_seqno) "mc_block_seqno = "
    ++ opt_filter (utime_req.start_utime) (λ v. "gen_utime >= " <> format_int (pos v))
    ++ opt_filter (utime_req.end_utime) (λ v. "gen_utime <= " <> format_int (pos v))
    ++ opt_filter (lt_req.start_lt) (λ v. "start_lt >= " <> format_int (pos v))
    ++ opt_filter (lt_req.end_lt) (λ v. "start_lt <= " <> format_int (pos v))

unfoldable pub block_order : Option String → Result IndexError String
block_order none = ok ""
block_order (some order) =
    get_sort_order order >>? λ sort_order. ok (" order by gen_utime " <> sort_order)

unfoldable pub build_blocks_query :
    BlockRequest
    → UtimeRequest
    → LtRequest
    → LimitRequest
    → RequestSettings
    → Result IndexError String
unfolding block_filters block_order
build_blocks_query blk_req utime_req lt_req lim_req settings =
    limit_query lim_req settings >>? λ limit. block_order (lim_req.sort) >>? λ order. ok (
      "select blocks.* from blocks"
      <> where_query (block_filters blk_req utime_req lt_req)
      <> order
      <> limit)
