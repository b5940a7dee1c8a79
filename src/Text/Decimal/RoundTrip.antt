-- ===== src/Text/Decimal/RoundTrip.antt =====
-- What is formatted reads back.
use Prim.Native.Char.{Char, code}
use Prim.Native.String.{String, ◌∷◌}
use orbeat_community.Prelude.{
  ℕ, zero, suc, ◌+◌, ◌*◌, ◌/◌, ◌%◌, ◌≤◌, ◌<◌, ◌≡◌, refl, ap, ◌∙◌, inl, inr, true, false, Option,
  none, some, eqb, ltb, arith, Bool-cases,
}
use orbeat_community.Text.Decimal.{
  digit, digits_before, format_int, is_digit, read_digits, int64_max, in_range, parse_unsigned,
  at_least_one, parse_positive,
}

code-digit : (n : ℕ) → n < 10 → code (digit n) ≡ b'0' + n
code-digit zero h = refl
code-digit (suc zero) h = refl
code-digit (suc (suc zero)) h = refl
code-digit (suc (suc (suc zero))) h = refl
code-digit (suc (suc (suc (suc zero)))) h = refl
code-digit (suc (suc (suc (suc (suc zero))))) h = refl
code-digit (suc (suc (suc (suc (suc (suc zero)))))) h = refl
code-digit (suc (suc (suc (suc (suc (suc (suc zero))))))) h = refl
code-digit (suc (suc (suc (suc (suc (suc (suc (suc zero)))))))) h = refl
code-digit (suc (suc (suc (suc (suc (suc (suc (suc (suc n))))))))) h = omega arith

is_digit-digit : (n : ℕ) → n < 10 → is_digit (digit n) ≡ true
is_digit-digit n h = ground (arith, code-digit n h)

-- Reading a digit.
read_digits-digit :
    (acc n : ℕ) (s : String) → n < 10 → read_digits acc (digit n ∷ s) ≡ read_digits (acc * 10 + n) s
unfolding read_digits
read_digits-digit acc n s h =
    rw (is_digit-digit n h, code-digit n h) (ap (λ x. read_digits (acc * 10 + x) s) (omega arith))

read_digits-digits_before :
    (fuel n : ℕ) (rest : String)
    → n < fuel
    → read_digits 0 (digits_before fuel n rest) ≡ read_digits n rest
unfolding digits_before
read_digits-digits_before zero n rest h = elim h [ ]
read_digits-digits_before (suc fuel) n rest h = elim (Bool-cases (ltb n 10)) [
  | inl small ↦
      rw small
        (read_digits-digit 0 n rest (ground arith) ∙ ap (λ x. read_digits x rest) (omega arith))
  | inr big ↦ rw big (
      read_digits-digits_before fuel (n / 10) (digit (n % 10) ∷ rest) (ground arith)
      ∙ read_digits-digit (n / 10) (n % 10) rest (omega arith)
      ∙ ap (λ x. read_digits x rest) (omega arith))
]

-- The text begins with a digit.
digits_before-cons :
    (fuel n : ℕ) (rest : String)
    → n < fuel
    → (c : Char) × (s : String) × (digits_before fuel n rest ≡ c ∷ s) × (is_digit c ≡ true)
unfolding digits_before
digits_before-cons zero n rest h = elim h [ ]
digits_before-cons (suc fuel) n rest h = elim (Bool-cases (ltb n 10)) [
  | inl small ↦ (digit n, rest, rw small, is_digit-digit n (ground arith))
  | inr big ↦
      let (c, s, e, d) = digits_before-cons fuel (n / 10) (digit (n % 10) ∷ rest) (ground arith) in
      (c, s, rw big e, d)
]

pub read_digits-format_int : (n : ℕ) → read_digits 0 (format_int n) ≡ some n
unfolding format_int read_digits
read_digits-format_int n = read_digits-digits_before (suc n) n "" (omega arith)

-- A number from 1 to the largest of 64 bits reads back from its decimal text.
pub parse_positive-format_int :
    (n : ℕ) → 1 ≤ n → n ≤ int64_max → parse_positive (format_int n) ≡ some n
unfolding parse_positive parse_unsigned format_int at_least_one
parse_positive-format_int n pos fits =
    let (c, s, e, d) = digits_before-cons (suc n) n "" (omega arith) in
    let read : read_digits 0 (c ∷ s) ≡ some n =
      rw (← e)
        (read_digits-digits_before (suc n) n "" (omega arith) ∙ unfold read_digits in refl) in
    let no_sign : eqb (code c) b'+' ≡ false = ground arith in
    rw e (rw (no_sign, read) (ground arith))

in_range_bounds :
    (o : Option ℕ) (n : ℕ) → at_least_one (in_range o) ≡ some n → (1 ≤ n) × (n ≤ int64_max)
unfolding at_least_one
in_range_bounds none n e = cc
in_range_bounds (some m) n e = ground arith

parse_unsigned_bounds :
    (s : String) (n : ℕ) → at_least_one (parse_unsigned s) ≡ some n → (1 ≤ n) × (n ≤ int64_max)
unfolding parse_unsigned at_least_one
parse_unsigned_bounds String.[] n e = cc
parse_unsigned_bounds (c ∷ s) n e = in_range_bounds (read_digits 0 (c ∷ s)) n e

-- What is read is positive and fits in 64 bits.
pub parse_positive_bounds :
    (s : String) (n : ℕ) → parse_positive s ≡ some n → (1 ≤ n) × (n ≤ int64_max)
unfolding parse_positive parse_unsigned
parse_positive_bounds String.[] n e = cc
parse_positive_bounds (c ∷ s) n e = elim (Bool-cases (eqb (code c) b'+')) [
  | inl plus ↦ parse_unsigned_bounds s n (rw plus at e)
  | inr other ↦ in_range_bounds (read_digits 0 (c ∷ s)) n (rw other at e)
]
