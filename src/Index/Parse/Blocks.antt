-- ===== src/Index/Parse/Blocks.antt =====
-- ParseBlockId and ParseBlockIdList of ton-index-go/index/parse.go. The outer `none` is a panic: too few
-- parts between commas.
use ton_indexer.Prelude.{
  ℕ, String, Option, none, some, List, [], ◌∷◌, ◌++◌, Result, ok, err, ◌==◌, if◌then◌else◌, ◌||◌,
  ◌>>=◌, get_elem?, ◌≡◌, refl, and_then,
}
use Prim.Native.Char.{code}
use ton_indexer.Prelude.Int.{ℤ, pos, negsuc}
use ton_indexer.Prelude.Text.{split, concat}
use ton_indexer.Prelude.ParseInt.{parse_int64}
use ton_indexer.Index.Parse.{parse_int32}
use ton_indexer.Index.Query.Request.{ShardId}

pub record BlockId : Type 0 where
  pub workchain : ℤ
  pub shard : ShardId
  pub seqno : ℤ

-- An error of strconv, with the text that is no number.
pub data NumError : Type 0 where
  num_error : String → NumError

abbrev number : Option ℤ → String → Result NumError ℤ
number none s = err (num_error s)
number (some n) s = ok n

trim_left : ℕ → ℕ → String → String
trim_left a b String.[] = String.[]
trim_left a b (String.◌∷◌ c s) =
    let rest = trim_left a b s in if code c == a || code c == b then rest else String.◌∷◌ c s

trim_right : ℕ → ℕ → String → String
trim_right a b String.[] = String.[]
trim_right a b (String.◌∷◌ c s) = elim (trim_right a b s) [
  | String.[] ↦ if code c == a || code c == b then String.[] else String.◌∷◌ c String.[]
  | String.◌∷◌ d t ↦ String.◌∷◌ c (String.◌∷◌ d t)
]

-- strings.Trim(s, cutset) for a cutset of two characters
unfoldable pub trim_both : ℕ → ℕ → String → String
unfolding trim_left trim_right
trim_both a b s = trim_right a b (trim_left a b s)

unfoldable pub parse_block_id : String → Option (Result NumError BlockId)
unfolding trim_both
parse_block_id str =
    let parts = split b',' (trim_both b'(' b')' str) in
    get_elem? parts 0 >>= λ p. and_then (number (parse_int32 p) p) λ workchain.
      get_elem? parts 1 >>= λ q. and_then (number (parse_int64 q) q) λ shard.
        get_elem? parts 2 >>= λ r.
        and_then (number (parse_int32 r) r)
          λ seqno. some (ok (record { workchain = workchain; shard = shard; seqno = seqno }))

-- The loop over the characters: what str[start:i] is, and the blocks found. Before the first opening
-- bracket start is 0, so that the text from the beginning on is taken.
unfoldable pub block_id_loop :
    String → String → List BlockId → Option (Result NumError (List BlockId))
unfolding parse_block_id
block_id_loop String.[] taken result = some (ok result)
block_id_loop (String.◌∷◌ c s) taken result =
    let taken' = concat taken (String.◌∷◌ c String.[]) in
    let opened = block_id_loop s (String.◌∷◌ c String.[]) result in
    let other = block_id_loop s taken' result in
    let closed = parse_block_id taken' >>= λ r.
    and_then r λ loc. block_id_loop s taken' (result ++ loc ∷ []) in
    if code c == b'(' then opened else if code c == b')' then closed else other

unfoldable pub parse_block_id_list : String → Option (Result NumError (List BlockId))
unfolding block_id_loop trim_both
parse_block_id_list str = block_id_loop (trim_both b'{' b'}' str) "" []

two_blocks :
    parse_block_id_list "{(-1,-9223372036854775808,7),(0,5,8)}"
    ≡ some (
        ok (
          record { workchain = negsuc 0; shard = negsuc 9223372036854775807; seqno = pos 7 }
          ∷ record { workchain = pos 0; shard = pos 5; seqno = pos 8 }
          ∷ []))
unfolding parse_block_id_list split concat parse_int32 parse_int64
two_blocks = refl
