-- ===== src/Prelude/Format.antt =====
-- The verbs %d, %x, %X and %08x of Go's fmt package, for integers of up to 64 bits: 20 digits are
-- enough for them in any base from ten on.
use Prim.Native.Nat.{ℕ, zero, suc, ◌/◌, ◌%◌}
use Prim.Native.String.{String}
use mathlib.Core.Path.{◌≡◌, refl}
use mathlib.Core.Bool.{true}
use native.Mathlib.Omega.{arith}
use ton_indexer.Prelude.Tests.{ltb, if◌then◌else◌}
use ton_indexer.Prelude.Int.{ℤ, pos, negsuc}
use ton_indexer.Prelude.Text.{lacks}

-- The n-th character of a text before another text.
abbrev pub symbol_at : String → ℕ → String → String
symbol_at String.[] n rest = rest
symbol_at (String.◌∷◌ c s) zero rest = String.◌∷◌ c rest
symbol_at (String.◌∷◌ c s) (suc n) rest = symbol_at s n rest

-- The digits of a number before a text.
unfoldable pub format_base : String → ℕ → ℕ → ℕ → String → String
format_base digits base zero n rest = rest
format_base digits base (suc fuel) n rest =
    let rest' = symbol_at digits (n % base) rest in
    let more = format_base digits base fuel (n / base) rest' in if ltb n base then rest' else more

abbrev pub decimals : String
decimals = "0123456789"

unfoldable pub format_nat : ℕ → String
unfolding format_base
format_nat n = format_base decimals 10 20 n ""

-- %d
unfoldable pub format_int : ℤ → String
unfolding format_nat
format_int (pos n) = format_nat n
format_int (negsuc n) = String.◌∷◌ "-" (format_nat (suc n))

format_test : format_int (negsuc 1209) ≡ "-1210"
unfolding format_int
format_test = refl

pub symbol_at-lacks :
    (sep : ℕ) (s : String) (n : ℕ) (rest : String)
    → lacks sep s ≡ true
    → lacks sep rest ≡ true
    → lacks sep (symbol_at s n rest) ≡ true
unfolding lacks
symbol_at-lacks sep String.[] n rest h k = k
symbol_at-lacks sep (String.◌∷◌ c s) zero rest h k = ground (arith)
symbol_at-lacks sep (String.◌∷◌ c s) (suc n) rest h k = ground (arith, symbol_at-lacks sep s n rest)

pub format_base-lacks :
    (sep : ℕ) (digits : String) (base fuel n : ℕ) (rest : String)
    → lacks sep digits ≡ true
    → lacks sep rest ≡ true
    → lacks sep (format_base digits base fuel n rest) ≡ true
unfolding format_base
format_base-lacks sep digits base zero n rest h k = k
format_base-lacks sep digits base (suc fuel) n rest h k =
    let k' = symbol_at-lacks sep digits (n % base) rest h k in
    let more = format_base-lacks sep digits base fuel (n / base) _ h k' in ground (arith, k', more)
