-- ===== src/Text/Uuid.antt =====
-- uuidRe of internal/api/admin_audit.go: 8, 4, 4, 4 and 12 hexadecimal digits between dashes.
pub mod Colons
use Prim.Native.Char.{Char, code}
use Prim.Native.String.{String, [], ◌∷◌}
use orbeat_community.Prelude.{
  ℕ, zero, suc, Bool, false, ◌&&◌, ◌||◌, Option, none, some, ◌==◌, eqb, leb, if◌then◌else◌,
}

abbrev pub is_hex : Char → Bool
is_hex c =
    (leb b'0' (code c) && leb (code c) b'9')
    || (leb b'a' (code c) && leb (code c) b'f')
    || (leb b'A' (code c) && leb (code c) b'F')

infixl 5 ◌>>=◌
abbrev ◌>>=◌ : Option String → (String → Option String) → Option String
none >>= f = none
some s >>= f = f s

-- What stands behind n hexadecimal digits.
pub skip_hex : ℕ → String → Option String
skip_hex zero s = some s
skip_hex (suc n) [] = none
skip_hex (suc n) (c ∷ s) = let more = skip_hex n s in if is_hex c then more else none

pub skip_dash : String → Option String
skip_dash [] = none
skip_dash (c ∷ s) = if eqb (code c) b'-' then some s else none

abbrev pub at_end : Option String → Bool
at_end none = false
at_end (some s) = s == ""

unfoldable pub is_uuid : String → Bool
unfolding skip_hex skip_dash
is_uuid s = at_end (do
  a ← skip_hex 8 s
  b ← skip_dash a
  c ← skip_hex 4 b
  d ← skip_dash c
  e ← skip_hex 4 d
  f ← skip_dash e
  g ← skip_hex 4 f
  h ← skip_dash g
  skip_hex 12 h)
