-- ===== src/Prelude/ParseInt.antt =====
-- strconv.ParseInt(s, 10, 64).
use Prim.Native.Nat.{ℕ, zero, suc, ◌+◌, ◌-◌, ◌*◌, ◌^◌}
use Prim.Native.Char.{code}
use Prim.Native.String.{String}
use mathlib.Core.Path.{◌≡◌, refl}
use mathlib.Core.Bool.{◌&&◌}
use mathlib.Core.Option.{Option, none, some}
use ton_indexer.Prelude.Tests.{◌==◌, leb, ltb, if◌then◌else◌}
use ton_indexer.Prelude.Int.{ℤ, pos, negsuc}

-- The digits of a text, after the number that the ones before make.
abbrev digits : String → ℕ → Option ℕ
digits String.[] n = some n
digits (String.◌∷◌ c s) n =
    let rest = digits s (n * 10 + (code c - b'0')) in
    if leb b'0' (code c) && leb (code c) b'9' then rest else none

-- At least one digit.
abbrev magnitude : String → Option ℕ
magnitude String.[] = none
magnitude (String.◌∷◌ c s) = digits (String.◌∷◌ c s) 0

abbrev opposite : ℕ → ℤ
opposite zero = pos 0
opposite (suc n) = negsuc n

abbrev positive : String → Option ℤ
positive s = elim (magnitude s) [
  | none ↦ none
  | some n ↦ if ltb n (2 ^ 63) then some (pos n) else none
]

abbrev negative : String → Option ℤ
negative s = elim (magnitude s) [
  | none ↦ none
  | some n ↦ if leb n (2 ^ 63) then some (opposite n) else none
]

-- `none` is an error: no number, or one that 64 bits do not hold.
unfoldable pub parse_int64 : String → Option ℤ
parse_int64 String.[] = none
parse_int64 (String.◌∷◌ c s) =
    if code c == b'-'
    then negative s
    else if code c == b'+'
    then positive s
    else positive (String.◌∷◌ c s)

parse_test : parse_int64 "-12" ≡ some (negsuc 11)
unfolding parse_int64
parse_test = refl
