-- ===== src/Prelude/Base64.antt =====
-- encoding/base64: EncodeToString and DecodeString of base64.StdEncoding, over lists of bytes.
use Prim.Native.Nat.{ℕ, ◌+◌, ◌-◌, ◌*◌, ◌/◌, ◌%◌}
use Prim.Native.Char.{code}
use Prim.Native.String.{String}
use mathlib.Core.Path.{◌≡◌, refl}
use mathlib.Core.Bool.{Bool, true, false, ◌&&◌, ◌||◌}
use mathlib.Core.Option.{Option, none, some}
use mathlib.Core.List.{List, [], ◌∷◌}
use ton_indexer.Prelude.Tests.{◌==◌, leb, if◌then◌else◌}
use ton_indexer.Prelude.Partial.{◌>>=◌}
use ton_indexer.Prelude.Text.{lacks}
use ton_indexer.Prelude.Format.{symbol_at, symbol_at-lacks}

abbrev pub alphabet : String
alphabet = "ABCDEFGHIJKLMNOPQRSTUVWXYZabcdefghijklmnopqrstuvwxyz0123456789+/"

-- The symbol of six bits, before the rest of the text.
abbrev symbol : ℕ → String → String
symbol n rest = symbol_at alphabet n rest

unfoldable pub encode_to_string : List ℕ → String
encode_to_string [] = ""
encode_to_string (a ∷ []) = symbol (a / 4) (symbol (a % 4 * 16) "==")
encode_to_string (a ∷ b ∷ []) =
    symbol (a / 4) (symbol (a % 4 * 16 + b / 16) (symbol (b % 16 * 4) "="))
encode_to_string (a ∷ b ∷ c ∷ rest) = symbol (a / 4) (
    symbol (a % 4 * 16 + b / 16)
      (symbol (b % 16 * 4 + c / 64) (symbol (c % 64) (encode_to_string rest))))

-- A text of base64 has no character that is not in its alphabet.
module _ (sep : ℕ) (h : lacks sep alphabet ≡ true) (one : lacks sep "=" ≡ true)
    (k : lacks sep "==" ≡ true) where
  symbol-lacks : (n : ℕ) (rest : String) → lacks sep rest ≡ true → lacks sep (symbol n rest) ≡ true
  symbol-lacks n rest p = symbol_at-lacks sep alphabet n rest h p

  pub encode_to_string-lacks : (bytes : List ℕ) → lacks sep (encode_to_string bytes) ≡ true
  unfolding encode_to_string lacks
  encode_to_string-lacks [] = refl
  encode_to_string-lacks (a ∷ []) = symbol-lacks (a / 4) _ (symbol-lacks (a % 4 * 16) "==" k)
  encode_to_string-lacks (a ∷ b ∷ []) =
      symbol-lacks (a / 4) _
        (symbol-lacks (a % 4 * 16 + b / 16) _ (symbol-lacks (b % 16 * 4) "=" one))
  encode_to_string-lacks (a ∷ b ∷ c ∷ rest) = symbol-lacks (a / 4) _ (
      symbol-lacks (a % 4 * 16 + b / 16) _ (
        symbol-lacks (b % 16 * 4 + c / 64) _
          (symbol-lacks (c % 64) (encode_to_string rest) (encode_to_string-lacks rest))))

abbrev between : ℕ → ℕ → ℕ → Bool
between low high n = leb low n && leb n high

abbrev bits : ℕ → Option ℕ
bits c =
    if between b'A' b'Z' c
    then some (c - b'A')
    else if between b'a' b'z' c
    then some (c - b'a' + 26)
    else if between b'0' b'9' c
    then some (c - b'0' + 52)
    else if c == b'+'
    then some 62
    else if c == b'/'
    then some 63
    else none

-- The characters that count: line ends are passed over.
abbrev codes : String → List ℕ
codes String.[] = []
codes (String.◌∷◌ c s) =
    let rest = codes s in if code c == 10 || code c == 13 then rest else code c ∷ rest

abbrev is_nil : List ℕ → Bool
is_nil [] = true
is_nil (x ∷ xs) = false

abbrev decode_codes : List ℕ → Option (List ℕ)
decode_codes [] = some []
decode_codes (a ∷ b ∷ c ∷ d ∷ rest) =
    let more = decode_codes rest in
    bits a >>= λ p. bits b >>= λ q.
    let first = (p * 4 + q / 16) % 256 in
    if d == b'='
    then (if is_nil rest
        then (if c == b'='
            then some (first ∷ [])
            else bits c >>= λ r. some (first ∷ (q * 16 + r / 4) % 256 ∷ []))
        else none)
    else bits c >>= λ r. bits d >>= λ s.
        more >>= λ bytes. some (first ∷ (q * 16 + r / 4) % 256 ∷ (r * 64 + s) % 256 ∷ bytes)
decode_codes xs = none

-- `none` is a CorruptInputError.
unfoldable pub decode_string : String → Option (List ℕ)
decode_string s = decode_codes (codes s)

encode_test : encode_to_string (77 ∷ 97 ∷ 110 ∷ 255 ∷ []) ≡ "TWFu/w=="
unfolding encode_to_string
encode_test = refl

decode_test : decode_string "TWFu/w==" ≡ some (77 ∷ 97 ∷ 110 ∷ 255 ∷ [])
unfolding decode_string
decode_test = refl
