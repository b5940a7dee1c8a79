-- ===== src/Api/Precondition/RoundTrip.antt =====
-- An entity-tag that the server gave is the precondition that names its row version.
use Prim.Native.Char.{Char, code}
use Prim.Native.String
use Prim.Native.String.{String, [], ◌∷◌}
use text.Mathlib.TextLemmas.{nil-append, cons-append}
use orbeat_community.Prelude.{
  ℕ, ◌+◌, ◌*◌, ◌-◌, ◌≤◌, ◌≡◌, refl, ap, ◌∙◌, inl, inr, Bool, true, false, some, ◌==◌, eqb, eq_iff,
  arith, Bool-cases,
}
use orbeat_community.Prelude.Results.{ok}
use orbeat_community.Text.Decimal.{format_int, parse_positive, int64_max, is_digit, read_digits}
use orbeat_community.Text.Decimal.RoundTrip.{parse_positive-format_int, read_digits-format_int}
use orbeat_community.Api.Precondition.{
  is_space, trim_start, trim_end, trim_space, closed, non_empty, strong_tag, row_version,
  version_of_tag, version_of, if_match, quoted, etag,
}

-- s + `"`
abbrev close : String → String
close [] = "\"" ∷ []
close (c ∷ s) = c ∷ close s

close_lem : (s : String) → String.◌++◌ s "\"" ≡ close s
close_lem [] = nil-append "\""
close_lem (c ∷ s) = cons-append c s "\"" ∙ ap (λ t. c ∷ t) (close_lem s)

is_full : String → Bool
is_full [] = false
is_full (c ∷ s) = true

cons_full : (c : Char) (s : String) → (c ∷ s == "") ≡ false
unfolding is_full
cons_full c s = elim (Bool-cases (c ∷ s == "")) [
  | inl empty ↦ cc (ap is_full ((eq_iff (c ∷ s) "").0 empty))
  | inr full ↦ full
]

close_full : (s : String) → (close s == "") ≡ false
close_full [] = refl
close_full (c ∷ s) = cons_full c (close s)

-- A closing quote is not trimmed.
trim_end-close : (s : String) → trim_end (close s) ≡ close s
unfolding trim_end is_space
trim_end-close [] = refl
trim_end-close (c ∷ s) = rw (trim_end-close s, close_full s) (ground arith)

closed_digits : (s : String) (acc n : ℕ) → read_digits acc s ≡ some n → closed (close s) ≡ some s
unfolding closed read_digits
closed_digits [] acc n e = refl
closed_digits (c ∷ s) acc n e = elim (Bool-cases (is_digit c)) [
  | inl digit ↦
      let ih = closed_digits s (acc * 10 + (code c - b'0')) n (rw digit at e) in
      let no_quote : eqb (code c) b'"' ≡ false = ground arith in
      let no_comma : eqb (code c) b',' ≡ false = ground arith in rw (ih, no_quote, no_comma) refl
  | inr other ↦ cc (rw other at e)
]

closed_full : (n : ℕ) (s : String) → parse_positive s ≡ some n → non_empty (some s) ≡ some s
unfolding parse_positive
closed_full n [] e = cc
closed_full n (c ∷ s) e = refl

first : String → ℕ
first [] = 0
first (c ∷ s) = code c

quote_star : (s : String) → ("\"" ∷ s == "*") ≡ false
unfolding first
quote_star s = elim (Bool-cases ("\"" ∷ s == "*")) [
  | inl same ↦
      let codes : b'"' ≡ b'*' = ap first ((eq_iff ("\"" ∷ s) "*").0 same) in
      absurd (omega (arith, codes))
  | inr other ↦ other
]

if_match-quoted : (s : String) → if_match (quoted s) ≡ version_of_tag (non_empty (closed (close s)))
unfolding if_match quoted trim_space trim_start trim_end is_space version_of strong_tag
if_match-quoted s =
    rw (close_lem s, trim_end-close s, cons_full "\"" (close s), quote_star (close s)) refl

-- The entity-tag of a row version, from 1 to the largest of 64 bits, is read back as that version
-- where it is sent in If-Match.
pub if_match-etag : (n : ℕ) → 1 ≤ n → n ≤ int64_max → if_match (etag n) ≡ ok n
unfolding etag version_of_tag
if_match-etag n positive fits =
    let s = format_int n in
    let parsed = parse_positive-format_int n positive fits in
    if_match-quoted s
    ∙ ap (λ t. version_of_tag (non_empty t)) (closed_digits s 0 n (read_digits-format_int n))
    ∙ ap version_of_tag (closed_full n s parsed)
    ∙ ap row_version parsed
