-- ===== src/Prelude/Hexadecimal.antt =====
-- strconv.ParseUint(s, 16, bits), and its round trip with the verbs %X and %08x of fmt.
use ton_indexer.Prelude.Tests.{◌==◌, ltb, leb, if◌then◌else◌, Bool-cases}
use Prim.Native.Nat.{ℕ, zero, suc, ◌+◌, ◌-◌, ◌*◌, ◌/◌, ◌%◌, ◌^◌, ◌<◌, ◌≤◌}
use Prim.Native.Char.{code}
use Prim.Native.String.{String}
use mathlib.Core.Path.{◌≡◌, refl, ◌∙◌, ap, subst}
use mathlib.Core.Logic.{inl, inr}
use mathlib.Core.Bool.{Bool, true, false, ◌&&◌}
use mathlib.Core.Option.{Option, none, some}
use native.Mathlib.Omega.{arith}
use native.Mathlib.Nat.{pow-suc}
use ton_indexer.Prelude.Partial.{◌>>=◌}
use ton_indexer.Prelude.Format.{format_base, symbol_at}

unfoldable pub digit_value : ℕ → Option ℕ
digit_value c =
    if leb b'0' c && leb c b'9'
    then some (c - b'0')
    else if leb b'a' c && leb c b'f'
    then some (c - b'a' + 10)
    else if leb b'A' c && leb c b'F'
    then some (c - b'A' + 10)
    else none

-- The value of the digits, after the number that the ones before make.
unfoldable pub hex_value : String → ℕ → Option ℕ
unfolding digit_value
hex_value String.[] n = some n
hex_value (String.◌∷◌ c s) n = digit_value (code c) >>= λ d. hex_value s (n * 16 + d)

-- `none` is an error: no digits, another character, or a number that the bits do not hold.
unfoldable pub parse_uint16 : ℕ → String → Option ℕ
unfolding hex_value
parse_uint16 bits String.[] = none
parse_uint16 bits (String.◌∷◌ c s) =
    hex_value (String.◌∷◌ c s) 0 >>= λ n. if ltb n (2 ^ bits) then some n else none

abbrev pub upper_digits : String
upper_digits = "0123456789ABCDEF"

abbrev pub lower_digits : String
lower_digits = "0123456789abcdef"

unfoldable pub all_below : ℕ → (ℕ → Bool) → Bool
all_below zero f = true
all_below (suc n) f = f n && all_below n f

all_below_sound : (n : ℕ) (f : ℕ → Bool) → all_below n f ≡ true → (k : ℕ) → k < n → f k ≡ true
unfolding all_below
all_below_sound zero f h k l = ground arith
all_below_sound (suc n) f h k l = elim (Bool-cases (k == n)) [
  | inl e ↦ let same : n ≡ k = ground arith in subst (λ m. f m ≡ true) same (ground arith)
  | inr e ↦ all_below_sound n f (ground arith) k (ground arith)
]

digit_at : String → ℕ → Option ℕ
unfolding digit_value
digit_at String.[] n = none
digit_at (String.◌∷◌ c s) zero = digit_value (code c)
digit_at (String.◌∷◌ c s) (suc n) = digit_at s n

is_value : Option ℕ → ℕ → Bool
is_value none n = false
is_value (some m) n = m == n

is_value_sound : (v : Option ℕ) (n : ℕ) → is_value v n ≡ true → v ≡ some n
unfolding is_value
is_value_sound none n h = ground arith
is_value_sound (some m) n h = ground arith

-- Does the n-th digit have the value n?
unfoldable pub is_digit : String → ℕ → Bool
unfolding is_value digit_at
is_digit digits n = is_value (digit_at digits n) n

symbol_at-value :
    (digits : String) (n v acc : ℕ) (rest : String)
    → digit_at digits n ≡ some v
    → hex_value (symbol_at digits n rest) acc ≡ hex_value rest (acc * 16 + v)
unfolding digit_at hex_value
symbol_at-value String.[] n v acc rest h = ground arith
symbol_at-value (String.◌∷◌ c s) zero v acc rest h = rw h
symbol_at-value (String.◌∷◌ c s) (suc n) v acc rest h = symbol_at-value s n v acc rest h

module _ (digits : String) (correct : all_below 16 (is_digit digits) ≡ true) where
  digit :
      (n acc : ℕ) (rest : String)
      → n < 16
      → hex_value (symbol_at digits n rest) acc ≡ hex_value rest (acc * 16 + n)
  unfolding is_digit
  digit n acc rest l =
      symbol_at-value digits n n acc rest
        (is_value_sound (digit_at digits n) n (all_below_sound 16 (is_digit digits) correct n l))

  last_digit :
      (n : ℕ) (rest : String)
      → n < 16
      → hex_value (symbol_at digits (n % 16) rest) 0 ≡ hex_value rest n
  last_digit n rest l = digit (n % 16) 0 rest (omega arith) ∙ ap (hex_value rest) (omega arith)

  pub hex_value-format_base :
      (fuel n : ℕ) (rest : String)
      → n < 16 ^ suc fuel
      → hex_value (format_base digits 16 (suc fuel) n rest) 0 ≡ hex_value rest n
  unfolding format_base
  hex_value-format_base zero n rest l =
      let e : ltb n 16 ≡ true = ground arith in rw e (last_digit n rest l)
  hex_value-format_base (suc fuel) n rest l = elim (Bool-cases (ltb n 16)) [
    | inl e ↦ rw e (last_digit n rest (ground arith))
    | inr e ↦ rw e (
        hex_value-format_base fuel (n / 16) (symbol_at digits (n % 16) rest)
          (omega (arith, pow-suc 16 (suc fuel)))
        ∙ digit (n % 16) (n / 16) rest (omega arith)
        ∙ ap (hex_value rest) (omega arith))
  ]

-- Leading zeros, as %08x adds them.
unfoldable pub zeros : ℕ → String → String
zeros zero s = s
zeros (suc n) s = String.◌∷◌ "0" (zeros n s)

pub hex_value-zeros : (n : ℕ) (s : String) → hex_value (zeros n s) 0 ≡ hex_value s 0
unfolding hex_value zeros
hex_value-zeros zero s = refl
hex_value-zeros (suc n) s = hex_value-zeros n s

abbrev pub string_length : String → ℕ
string_length String.[] = 0
string_length (String.◌∷◌ c s) = suc (string_length s)

-- %X and %08x of a number of 64 bits
unfoldable pub format_hex : ℕ → String
unfolding format_base
format_hex n = format_base upper_digits 16 20 n ""

unfoldable pub format_hex8 : ℕ → String
unfolding format_base zeros
format_hex8 n = let s = format_base lower_digits 16 20 n "" in zeros (8 - string_length s) s

in_range : (bits n : ℕ) → n < 2 ^ bits → (if ltb n (2 ^ bits) then some n else none) ≡ some n
in_range bits n l = ground arith

pub parse_uint16-hex_value :
    (bits n : ℕ) (s : String)
    → hex_value s 0 ≡ some n
    → 0 < string_length s
    → n < 2 ^ bits
    → parse_uint16 bits s ≡ some n
unfolding parse_uint16 hex_value
parse_uint16-hex_value bits n String.[] h k l = ground arith
parse_uint16-hex_value bits n (String.◌∷◌ c s) h k l =
    ap (λ o. o >>= λ m. if ltb m (2 ^ bits) then some m else none) h ∙ in_range bits n l

module _ (digits : String) (correct : all_below 16 (is_digit digits) ≡ true) where
  length-symbol_at :
      (n : ℕ) (rest : String)
      → n < 16
      → string_length (symbol_at digits n rest) ≡ suc (string_length rest)
  unfolding is_digit
  length-symbol_at n rest l =
      go digits n
        (is_value_sound (digit_at digits n) n (all_below_sound 16 (is_digit digits) correct n l))
    where
      go :
          (s : String) (i : ℕ)
          → digit_at s i ≡ some n
          → string_length (symbol_at s i rest) ≡ suc (string_length rest)
      go String.[] i h = ground arith
      go (String.◌∷◌ c s) zero h = refl
      go (String.◌∷◌ c s) (suc i) h = go s i h

  pub length-format_base :
      (fuel n : ℕ) (rest : String)
      → string_length rest < string_length (format_base digits 16 (suc fuel) n rest)
  unfolding format_base
  length-format_base zero n rest =
      let last = length-symbol_at (n % 16) rest (omega arith) in
      elim (Bool-cases (ltb n 16)) [
        | inl e ↦ rw e (omega (arith, last))
        | inr e ↦ rw e (omega (arith, last))
      ]
  length-format_base (suc fuel) n rest =
      let last = length-symbol_at (n % 16) rest (omega arith) in
      let more = length-format_base fuel (n / 16) (symbol_at digits (n % 16) rest) in
      elim (Bool-cases (ltb n 16)) [
        | inl e ↦ rw e (omega (arith, last))
        | inr e ↦ rw e (omega (arith, last, more))
      ]

length-zeros : (k : ℕ) (s : String) → string_length s ≤ string_length (zeros k s)
unfolding zeros
length-zeros zero s = omega arith
length-zeros (suc k) s = omega (arith, length-zeros k s)

module _ (digits : String) (correct : all_below 16 (is_digit digits) ≡ true) where
  parse-zeros :
      (bits n k : ℕ)
      → n < 2 ^ bits
      → n < 2 ^ 64
      → parse_uint16 bits (zeros k (format_base digits 16 20 n "")) ≡ some n
  unfolding hex_value
  parse-zeros bits n k l m =
      let s = format_base digits 16 20 n "" in
      let longer = length-format_base digits correct 19 n "" in
      parse_uint16-hex_value bits n (zeros k s)
        (hex_value-zeros k s ∙ hex_value-format_base digits correct 19 n "" (omega arith))
        (omega (arith, longer, length-zeros k s)) l

pub parse-format_hex :
    (bits n : ℕ) → n < 2 ^ bits → n < 2 ^ 64 → parse_uint16 bits (format_hex n) ≡ some n
unfolding format_hex all_below is_digit zeros
parse-format_hex bits n l k = parse-zeros upper_digits refl bits n 0 l k

pub parse-format_hex8 :
    (bits n : ℕ) → n < 2 ^ bits → n < 2 ^ 64 → parse_uint16 bits (format_hex8 n) ≡ some n
unfolding format_hex8 all_below is_digit
parse-format_hex8 bits n l k = parse-zeros lower_digits refl bits n _ l k
