-- ===== src/Text/Decimal.antt =====
-- strconv: FormatInt and %d of a number that is not negative, and the decimal part of ParseInt.
pub mod RoundTrip
use Prim.Native.Char.{Char, code}
use Prim.Native.String
use Prim.Native.String.{String, [], ◌∷◌}
use orbeat_community.Prelude.{
  ℕ, zero, suc, ◌+◌, ◌-◌, ◌*◌, ◌/◌, ◌%◌, ◌^◌, Bool, true, false, ◌&&◌, Option, none, some, ◌==◌,
  eqb, ltb, leb, if◌then◌else◌,
}

-- The digit of a number below 10.
abbrev pub digit : ℕ → Char
digit zero = "0"
digit (suc zero) = "1"
digit (suc (suc zero)) = "2"
digit (suc (suc (suc zero))) = "3"
digit (suc (suc (suc (suc zero)))) = "4"
digit (suc (suc (suc (suc (suc zero))))) = "5"
digit (suc (suc (suc (suc (suc (suc zero)))))) = "6"
digit (suc (suc (suc (suc (suc (suc (suc zero))))))) = "7"
digit (suc (suc (suc (suc (suc (suc (suc (suc zero)))))))) = "8"
digit _ = "9"

-- The digits of n before `rest`; each round divides n by 10, so n + 1 rounds are enough.
pub digits_before : ℕ → ℕ → String → String
digits_before zero n rest = rest
digits_before (suc fuel) n rest =
    let more = digits_before fuel (n / 10) (digit (n % 10) ∷ rest) in
    if ltb n 10 then digit n ∷ rest else more

unfoldable pub format_int : ℕ → String
format_int n = digits_before (suc n) n ""

abbrev pub is_digit : Char → Bool
is_digit c = leb b'0' (code c) && leb (code c) b'9'

unfoldable pub read_digits : ℕ → String → Option ℕ
read_digits acc [] = some acc
read_digits acc (c ∷ s) =
    let more = read_digits (acc * 10 + (code c - b'0')) s in if is_digit c then more else none

-- The largest value of 64 bits: ParseInt and, on a 64-bit machine, Atoi refuse a larger one.
abbrev pub int64_max : ℕ
int64_max = 9_223_372_036_854_775_807

abbrev pub in_range : Option ℕ → Option ℕ
in_range none = none
in_range (some n) = if leb n int64_max then some n else none

-- An unsigned run of digits, which is not empty.
pub parse_unsigned : String → Option ℕ
parse_unsigned [] = none
parse_unsigned (c ∷ s) = in_range (read_digits 0 (c ∷ s))

-- ParseInt(s, 10, 64) and Atoi(s), followed by a test that refuses what is below 1: none where
-- either fails, so that a text that begins with a minus gives none.
pub at_least_one : Option ℕ → Option ℕ
at_least_one none = none
at_least_one (some n) = if ltb n 1 then none else some n

unfoldable pub parse_positive : String → Option ℕ
parse_positive [] = none
parse_positive (c ∷ s) =
    if eqb (code c) b'+'
    then at_least_one (parse_unsigned s)
    else at_least_one (parse_unsigned (c ∷ s))
