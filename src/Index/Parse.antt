-- ===== src/Index/Parse.antt =====
-- The texts of values and the converters of query parameters in ton-index-go/index/parse.go. A
-- converter that returns an empty reflect.Value gives `none`. The parser of addresses of tonutils-go
-- is a parameter.
pub mod Blocks
pub mod Wallets
pub mod Laws
use ton_indexer.Prelude.{
  ℕ, zero, suc, String, Bool, true, false, not, Option, none, some, List, [], ◌∷◌, ◌==◌, ltb,
  if◌then◌else◌, ◌&&◌, ◌||◌, ◌>>=◌, ◌+◌, ◌-◌, ◌*◌, ◌/◌, ◌%◌, ◌^◌, str_eq, leb,
}
use Prim.Native.Char.{Char, code}
use ton_indexer.Prelude.Int.{ℤ, pos, negsuc, ◌≤ℤ◌, ltb_ℤ}
use ton_indexer.Prelude.Text.{concat, has_prefix, trim, lacks}
use ton_indexer.Prelude.Format.{format_int, format_base, symbol_at}
use ton_indexer.Prelude.Hexadecimal.{
  parse_uint16, format_hex, format_hex8, digit_value, lower_digits, upper_digits,
}
use ton_indexer.Prelude.ParseInt.{parse_int64}
use ton_indexer.Prelude.Base64.{encode_to_string, decode_string}
use ton_indexer.Index.Query.Request.{
  ShardId, OpcodeType, HashType, AccountAddress, AccountAddressNullable,
}

-- uint64(v), uint32(v) and int64(v)
abbrev pub to_uint : ℕ → ℤ → ℕ
to_uint bits (pos n) = n % 2 ^ bits
to_uint bits (negsuc n) = 2 ^ bits - 1 - n % 2 ^ bits

abbrev pub to_int64 : ℕ → ℤ
to_int64 n = let m = n % 2 ^ 64 in if ltb m (2 ^ 63) then pos m else negsuc (2 ^ 64 - m - 1)

-- func (v *ShardId) String
unfoldable pub shard_id_string : ShardId → String
shard_id_string v = format_hex (to_uint 64 v)

-- func (v *AccountAddress) String
unfoldable pub account_address_string : AccountAddress → String
account_address_string v = trim v

-- func (v *HexInt) String
unfoldable pub hex_int_string : ℤ → String
hex_int_string v = concat "0x" (format_base lower_digits 16 20 (to_uint 32 v) "")

-- func (v *OpcodeType) String
unfoldable pub opcode_type_string : OpcodeType → String
opcode_type_string v = concat "0x" (format_hex8 (to_uint 32 v))

-- fmt.Sprintf("\"%s\"", v.String())
abbrev pub quoted : String → String
quoted s = concat "\"" (concat s "\"")

unfoldable pub shard_id_marshal_json : ShardId → String
unfolding shard_id_string
shard_id_marshal_json v = quoted (shard_id_string v)

unfoldable pub account_address_marshal_json : AccountAddress → String
unfolding account_address_string
account_address_marshal_json v = quoted (account_address_string v)

unfoldable pub hex_int_marshal_json : ℤ → String
unfolding hex_int_string
hex_int_marshal_json v = quoted (hex_int_string v)

unfoldable pub opcode_type_marshal_json : OpcodeType → String
unfolding opcode_type_string
opcode_type_marshal_json v = quoted (opcode_type_string v)

-- strings.TrimPrefix(s, "0x")
unfoldable pub trim_0x : String → String
trim_0x String.[] = String.[]
trim_0x (String.◌∷◌ c String.[]) = String.◌∷◌ c String.[]
trim_0x (String.◌∷◌ c (String.◌∷◌ d s)) =
    if code c == b'0' && code d == b'x' then s else String.◌∷◌ c (String.◌∷◌ d s)

-- len(s), in bytes of UTF-8
unfoldable pub byte_length : String → ℕ
byte_length String.[] = 0
byte_length (String.◌∷◌ c s) =
    (if ltb (code c) 128
      then 1
      else if ltb (code c) 2048
      then 2
      else if ltb (code c) 65536
      then 3
      else 4)
    + byte_length s

-- hex.DecodeString
unfoldable pub decode_hex : String → Option (List ℕ)
unfolding digit_value
decode_hex String.[] = some []
decode_hex (String.◌∷◌ c String.[]) = none
decode_hex (String.◌∷◌ c (String.◌∷◌ d s)) = digit_value (code c) >>= λ x.
    digit_value (code d) >>= λ y. decode_hex s >>= λ bytes. some ((x * 16 + y) ∷ bytes)

-- strings.Replace(s, from, to, -1) for texts of one character
unfoldable pub replace : ℕ → Char → String → String
replace from to String.[] = String.[]
replace from to (String.◌∷◌ c s) = String.◌∷◌ (if code c == from then to else c) (replace from to s)

-- base64.URLEncoding.DecodeString: the last two symbols of the alphabet are - and _.
unfoldable pub decode_url_string : String → Option (List ℕ)
unfolding replace
decode_url_string s =
    if lacks b'+' s && lacks b'/' s
    then decode_string (replace b'-' "+" (replace b'_' "/" s))
    else none

-- The second of two attempts, if the first fails.
abbrev pub first_some : {A : Type 0} → Option A → Option A → Option A
first_some none b = b
first_some (some a) b = some a

abbrev pub encoded : Option (List ℕ) → Option HashType
encoded none = none
encoded (some bytes) = some (encode_to_string bytes)

unfoldable pub hash_converter : String → Option HashType
unfolding trim_0x byte_length decode_hex decode_url_string
hash_converter value =
    if byte_length value == 64 || byte_length value == 66 && has_prefix value "0x"
    then encoded (decode_hex (trim_0x value))
    else if byte_length value == 44
    then encoded (first_some (decode_string value) (decode_url_string value))
    else none

-- An address of the library: its workchain and its 32 bytes.
pub record Address : Type 0 where
  pub workchain : ℤ
  pub bytes : List ℕ

-- strings.ToUpper(hex.EncodeToString(bytes))
unfoldable pub upper_hex : List ℕ → String
upper_hex [] = ""
upper_hex (b ∷ bytes) =
    symbol_at upper_digits (b / 16) (symbol_at upper_digits (b % 16) (upper_hex bytes))

-- fmt.Sprintf("%d:%s", workchain, hexadecimal)
abbrev pub shown : Option Address → Option AccountAddress
shown none = none
shown (some addr) =
    some (concat (format_int (addr.workchain)) (concat ":" (upper_hex (addr.bytes))))

module _ (parse_addr parse_raw_addr : String → Option Address) where
  unfoldable pub account_address_converter : String → Option AccountAddress
  unfolding replace upper_hex
  account_address_converter value =
      let value_url = replace b'/' "_" (replace b'+' "-" value) in
      shown
        (first_some (first_some (parse_addr value) (parse_addr value_url)) (parse_raw_addr value))

  unfoldable pub account_address_nullable_converter : String → Option AccountAddressNullable
  unfolding account_address_converter
  account_address_nullable_converter value =
      if str_eq value "null" then some value else account_address_converter value

-- The second number, if the first is none.
abbrev pub read_or : Option ℕ → (ℕ → ℤ) → Option ℤ → Option ℤ
read_or none f second = second
read_or (some n) f second = some (f n)

unfoldable pub shard_id_converter : String → Option ShardId
unfolding trim_0x
shard_id_converter value =
    read_or (parse_uint16 64 (trim_0x value)) to_int64 (parse_int64 (trim_0x value))

-- strconv.ParseInt(s, 10, 32)
unfoldable pub parse_int32 : String → Option ℤ
parse_int32 s = parse_int64 s >>= λ n.
    if ltb_ℤ n (negsuc (2 ^ 31 - 1)) || not (ltb_ℤ n (pos (2 ^ 31))) then none else some n

unfoldable pub opcode_type_converter : String → Option OpcodeType
unfolding trim_0x parse_int32
opcode_type_converter value =
    read_or (parse_uint16 32 (trim_0x value)) pos (parse_int32 (trim_0x value))
