-- ===== src/Index/QueryExamples.antt =====
-- Tests of the queries and converters of ton-index-go, and theorems at concrete inputs.
use ton_indexer.Prelude.{String, false, Option, none, some, [], ◌∷◌, ◌≡◌, refl, arith, ◌-◌, ◌^◌}
use ton_indexer.Prelude.Text.{lacks, concat}
use ton_indexer.Prelude.Int.{pos, negsuc}
use ton_indexer.Index.Query.Request.{
  UtimeRequest, LtRequest, LimitRequest, RequestSettings, BlockRequest, TransactionRequest,
  MessageRequest,
}
use ton_indexer.Index.Query.Sql.{literal, limit_query, filter_by_array, or_default, to_int32}
use ton_indexer.Index.Query.Limit.{IsBounded, limit_query_correct}
use ton_indexer.Index.Query.Literals.{texts, texts-filter_by_array, nonempty}
use ton_indexer.Index.Query.Outcome.{outline}
use ton_indexer.Index.Query.Build.{Query, build, transactions}
use ton_indexer.Index.Query.Build.Laws.{IsFree, redact_query, build-redact_query}
use ton_indexer.Index.Query.Messages.{message_filters}
use ton_indexer.Index.Parse.{
  shard_id_string, shard_id_converter, opcode_type_string, opcode_type_converter, to_uint, Address,
  hash_converter, account_address_converter, account_address_nullable_converter,
}
use ton_indexer.Index.Parse.Laws.{
  shard_id_converter-shard_id_string, opcode_type_converter-opcode_type_string,
  QuoteFree-converters,
}
use ton_indexer.Index.Query.Skeleton.{QuoteFree}
use ton_indexer.Index.Query.Redact.{IfSome}

abbrev settings : RequestSettings
settings = record {
  timeout = pos 3;
  is_testnet = false;
  v2_endpoint = "";
  v2_api_key = "";
  default_limit = pos 10;
  max_limit = pos 1000;
  max_trace_transactions = pos 4000;
  debug_request = false;
  no_address_book = false;
  no_metadata = false;
}

abbrev limits : LimitRequest
limits = record { limit = none; offset = some (negsuc 4); sort = some "ASC" }

abbrev any_time : UtimeRequest
any_time = record { start_utime = some 1700000000; end_utime = none }

abbrev any_lt : LtRequest
any_lt = record { start_lt = none; end_lt = some 7 }

abbrev any_block : BlockRequest
any_block = record { workchain = some (negsuc 0); shard = none; seqno = none; mc_seqno = none }

abbrev two_accounts : TransactionRequest
two_accounts = record {
  account = some ("0:AA" ∷ "0:BB" ∷ []);
  exclude_account = none;
  hash = none;
  lt = none;
}

abbrev incoming : MessageRequest
incoming = record {
  direction = some "in";
  exclude_externals = none;
  only_externals = none;
  message_hash = none;
  source = some "0:CC";
  destination = none;
  body_hash = none;
  opcode = some (pos 260734629);
}

abbrev asked : Query
asked = transactions any_block two_accounts incoming

asked-IsFree : IsFree asked
unfolding lacks
asked-IsFree = (
  record { account_free = (refl, (refl, tt)); hash_free = tt },
  record {
    direction_free = refl;
    message_hash_free = tt;
    source_free = refl;
    destination_free = tt;
    body_hash_free = tt;
  },
)

build-redact_query_example :
    outline (build asked any_time any_lt limits settings)
    ≡ outline (build (redact_query asked) any_time any_lt limits settings)
build-redact_query_example = build-redact_query asked any_time any_lt limits settings asked-IsFree

limit_query_correct_example :
    IsBounded settings
      (or_default (to_int32 (settings.default_limit)) (limits.limit))
      limits.offset
      (limit_query limits settings)
limit_query_correct_example = limit_query_correct limits settings

texts-filter_by_array_example :
    texts false (filter_by_array "T.account" ("0:AA" ∷ "" ∷ "0:BB" ∷ []))
    ≡ nonempty ("0:AA" ∷ "" ∷ "0:BB" ∷ [])
unfolding lacks
texts-filter_by_array_example =
    texts-filter_by_array "T.account" ("0:AA" ∷ "" ∷ "0:BB" ∷ []) refl (refl, (refl, (refl, tt)))

shard_id_converter-shard_id_string_example :
    shard_id_converter (shard_id_string (negsuc (2 ^ 63 - 1))) ≡ some (negsuc (2 ^ 63 - 1))
shard_id_converter-shard_id_string_example =
    shard_id_converter-shard_id_string (negsuc (2 ^ 63 - 1)) (omega arith) (omega arith)

opcode_type_converter-opcode_type_string_example :
    opcode_type_converter (opcode_type_string (pos 260734629))
    ≡ some (pos (to_uint 32 (pos 260734629)))
opcode_type_converter-opcode_type_string_example =
    opcode_type_converter-opcode_type_string (pos 260734629)

abbrev parse_nothing : String → Option Address
parse_nothing s = none

abbrev parse_one : String → Option Address
parse_one s = some (record { workchain = pos 0; bytes = 171 ∷ 205 ∷ [] })

QuoteFree-converters_example :
    IfSome QuoteFree (hash_converter "'")
    × IfSome QuoteFree (account_address_converter parse_nothing parse_one "'")
    × IfSome QuoteFree (account_address_nullable_converter parse_nothing parse_one "'")
QuoteFree-converters_example = QuoteFree-converters parse_nothing parse_one "'"

-- A direction with a quote is read as SQL.
injected :
    message_filters
      (record incoming { direction = some "' or 'x' = '"; source = none; opcode = none })
      (record { start_utime = none; end_utime = none })
      (record { start_lt = none; end_lt = none })
      "M.created_lt"
    ≡ "M.direction = '' or 'x' = ''" ∷ []
unfolding message_filters literal concat
injected = refl
