-- ===== src/Index/Parse/Laws.antt =====
-- The converters of ton-index-go/index/parse.go read what the answers print, and their results have
-- no quote.
use ton_indexer.Prelude.{
  ℕ, String, true, Option, none, some, List, [], ◌∷◌, ◌≡◌, refl, arith, ap, ◌^◌, ◌<◌, ◌-◌, ◌/◌, ◌%◌,
  str_eq, eq_iff, subst, sym, Bool-cases, inl, inr, ◌==◌, ◌&&◌, ◌||◌, ◌∙◌,
}
use ton_indexer.Prelude.Int.{ℤ, pos, negsuc, ◌≤ℤ◌}
use ton_indexer.Prelude.Text.{concat, lacks, has_prefix}
use ton_indexer.Prelude.Format.{format_base-lacks, symbol_at-lacks, format_int}
use ton_indexer.Prelude.Hexadecimal.{
  parse_uint16, parse-format_hex, parse-format_hex8, upper_digits, format_hex,
}
use ton_indexer.Index.Parse.{
  to_uint, to_int64, trim_0x, shard_id_string, shard_id_converter, opcode_type_string,
  opcode_type_converter, read_or, parse_int32, upper_hex, hash_converter, account_address_converter,
  account_address_nullable_converter, Address, encoded, shown, byte_length,
}
use ton_indexer.Prelude.ParseInt.{parse_int64}
use ton_indexer.Prelude.Base64.{encode_to_string, encode_to_string-lacks}
use ton_indexer.Index.Query.Skeleton.{QuoteFree}
use ton_indexer.Index.Query.Redact.{IfSome, format_int-lacks}

trim_0x-lacks : (s : String) → lacks b'x' s ≡ true → trim_0x s ≡ s
unfolding trim_0x lacks
trim_0x-lacks String.[] h = refl
trim_0x-lacks (String.◌∷◌ c String.[]) h = refl
trim_0x-lacks (String.◌∷◌ c (String.◌∷◌ d s)) h = ground arith

format_hex-lacks : (n : ℕ) → lacks b'x' (format_hex n) ≡ true
unfolding format_hex lacks
format_hex-lacks n = format_base-lacks b'x' upper_digits 16 20 n "" refl refl

to_uint_bound : (bits : ℕ) (v : ℤ) → 0 < 2 ^ bits → to_uint bits v < 2 ^ bits
to_uint_bound bits v h = ground arith

to_int64-to_uint :
    (v : ℤ) → negsuc (2 ^ 63 - 1) ≤ℤ v → v ≤ℤ pos (2 ^ 63 - 1) → to_int64 (to_uint 64 v) ≡ v
to_int64-to_uint v h k = ground arith

-- A shard of 64 bits is read back from the text that an answer prints for it.
pub shard_id_converter-shard_id_string :
    (v : ℤ)
    → negsuc (2 ^ 63 - 1) ≤ℤ v
    → v ≤ℤ pos (2 ^ 63 - 1)
    → shard_id_converter (shard_id_string v) ≡ some v
unfolding shard_id_converter shard_id_string
shard_id_converter-shard_id_string v h k =
    let n = to_uint 64 v in
    ap (λ o. read_or o to_int64 (parse_int64 (trim_0x (shard_id_string v))))
      (ap (parse_uint16 64) (trim_0x-lacks (format_hex n) (format_hex-lacks n))
        ∙ parse-format_hex 64 n (to_uint_bound 64 v (omega arith))
            (to_uint_bound 64 v (omega arith)))
    ∙ ap some (to_int64-to_uint v h k)

-- The text that an answer prints for an opcode is read as its 32 bits.
pub opcode_type_converter-opcode_type_string :
    (v : ℤ) → opcode_type_converter (opcode_type_string v) ≡ some (pos (to_uint 32 v))
unfolding opcode_type_converter opcode_type_string trim_0x concat
opcode_type_converter-opcode_type_string v =
    let below : to_uint 32 v < 2 ^ 32 = to_uint_bound 32 v (omega arith) in
    ap (λ o. read_or o pos (parse_int32 (trim_0x (opcode_type_string v))))
      (parse-format_hex8 32 (to_uint 32 v) below (omega (arith, below)))

QuoteFree-upper_hex : (bytes : List ℕ) → QuoteFree (upper_hex bytes)
unfolding upper_hex lacks
QuoteFree-upper_hex [] = refl
QuoteFree-upper_hex (b ∷ bytes) =
    symbol_at-lacks b'\'' upper_digits (b / 16) _ refl
      (symbol_at-lacks b'\'' upper_digits (b % 16) _ refl (QuoteFree-upper_hex bytes))

QuoteFree-concat : (s t : String) → QuoteFree s → QuoteFree t → QuoteFree (concat s t)
unfolding concat lacks
QuoteFree-concat String.[] t h k = k
QuoteFree-concat (String.◌∷◌ c s) t h k = ground (arith, QuoteFree-concat s t)

QuoteFree-encode_to_string : (bytes : List ℕ) → QuoteFree (encode_to_string bytes)
unfolding lacks
QuoteFree-encode_to_string bytes = encode_to_string-lacks b'\'' refl refl refl bytes

QuoteFree-encoded : (o : Option (List ℕ)) → IfSome QuoteFree (encoded o)
QuoteFree-encoded none = tt
QuoteFree-encoded (some bytes) = QuoteFree-encode_to_string bytes

QuoteFree-hash_converter : (value : String) → IfSome QuoteFree (hash_converter value)
unfolding hash_converter
QuoteFree-hash_converter value =
    elim (Bool-cases
      (byte_length value == 64 || byte_length value == 66 && has_prefix value "0x")) [
        | inl e ↦ rw e (QuoteFree-encoded _)
        | inr e ↦ elim (Bool-cases (byte_length value == 44)) [
          | inl d ↦ rw (e, d) (QuoteFree-encoded _)
          | inr d ↦ rw (e, d) tt
        ]
      ]

module _ (parse_addr parse_raw_addr : String → Option Address) where
  QuoteFree-shown : (o : Option Address) → IfSome QuoteFree (shown o)
  unfolding lacks
  QuoteFree-shown none = tt
  QuoteFree-shown (some addr) =
      QuoteFree-concat (format_int (addr.workchain)) _ (format_int-lacks (addr.workchain))
        (QuoteFree-concat ":" (upper_hex (addr.bytes)) refl (QuoteFree-upper_hex (addr.bytes)))

  QuoteFree-account_address_converter :
      (value : String)
      → IfSome QuoteFree (account_address_converter parse_addr parse_raw_addr value)
  unfolding account_address_converter lacks
  QuoteFree-account_address_converter value = QuoteFree-shown _

  QuoteFree-account_address_nullable_converter :
      (value : String)
      → IfSome QuoteFree (account_address_nullable_converter parse_addr parse_raw_addr value)
  unfolding account_address_nullable_converter lacks
  QuoteFree-account_address_nullable_converter value = elim (Bool-cases (str_eq value "null")) [
    | inl e ↦ rw e (subst QuoteFree (sym ((eq_iff value "null").0 e)) refl)
    | inr e ↦ rw e (QuoteFree-account_address_converter value)
  ]

  -- What the converters of hashes and addresses return has no quote, whatever the text, and whatever
  -- the library's parsers of addresses return.
  pub QuoteFree-converters :
      (value : String)
      → IfSome QuoteFree (hash_converter value)
        × IfSome QuoteFree (account_address_converter parse_addr parse_raw_addr value)
        × IfSome QuoteFree (account_address_nullable_converter parse_addr parse_raw_addr value)
  QuoteFree-converters value = (
    QuoteFree-hash_converter value,
    QuoteFree-account_address_converter value,
    QuoteFree-account_address_nullable_converter value,
  )
