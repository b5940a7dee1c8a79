-- ===== src/Api/Precondition.antt =====
-- internal/api/precondition.go: the row version that a request expects, in its If-Match header, and
-- the entity-tag that a response gives.
pub mod RoundTrip
use Prim.Native.Char.{Char, code}
use Prim.Native.String
use Prim.Native.String.{String, [], ◌∷◌}
use orbeat_community.Prelude.{
  ℕ, Bool, true, false, ◌&&◌, ◌||◌, Option, none, some, ◌==◌, eqb, leb, if◌then◌else◌,
}
use orbeat_community.Prelude.Results.{Result, err, ok}
use orbeat_community.Text.Decimal.{format_int, parse_positive}

-- The white space of strings.TrimSpace.
pub is_space : ℕ → Bool
is_space c =
    (leb 9 c && leb c 13)
    || eqb c 32
    || eqb c 0x85
    || eqb c 0xA0
    || eqb c 0x1680
    || (leb 0x2000 c && leb c 0x200A)
    || eqb c 0x2028
    || eqb c 0x2029
    || eqb c 0x202F
    || eqb c 0x205F
    || eqb c 0x3000

pub trim_start : String → String
trim_start [] = []
trim_start (c ∷ s) = let rest = trim_start s in if is_space (code c) then rest else c ∷ s

pub trim_end : String → String
trim_end [] = []
trim_end (c ∷ s) = let rest = trim_end s in if is_space (code c) && rest == "" then "" else c ∷ rest

pub trim_space : String → String
trim_space s = trim_start (trim_end s)

-- preconditionRequiredError (428) and validationError (400).
pub data IfMatchError : Type 0 where
  precondition_required : IfMatchError
  validation : IfMatchError

abbrev pub after : Char → Option String → Option String
after c none = none
after c (some s) = some (c ∷ s)

-- What stands before a quote that ends the text, without a quote or a comma in it.
pub closed : String → Option String
closed [] = none
closed (c ∷ s) =
    let rest = after c (closed s) in
    if eqb (code c) b'"'
    then if s == "" then some "" else none
    else if eqb (code c) b','
    then none
    else rest

-- raw[1:len(raw)-1], where the test of raw lets it pass.
abbrev pub non_empty : Option String → Option String
non_empty none = none
non_empty (some []) = none
non_empty (some (c ∷ s)) = some (c ∷ s)

pub strong_tag : String → Option String
strong_tag [] = none
strong_tag (c ∷ s) = if eqb (code c) b'"' then non_empty (closed s) else none

abbrev pub row_version : Option ℕ → Result IfMatchError ℕ
row_version none = err validation
row_version (some n) = ok n

pub version_of_tag : Option String → Result IfMatchError ℕ
version_of_tag none = err validation
version_of_tag (some tag) = row_version (parse_positive tag)

pub version_of : String → Result IfMatchError ℕ
version_of raw =
    if raw == ""
    then err precondition_required
    else if raw == "*"
    then err precondition_required
    else version_of_tag (strong_tag raw)

-- ifMatch, on the header; a missing header is empty.
unfoldable pub if_match : String → Result IfMatchError ℕ
if_match header = version_of (trim_space header)

unfoldable pub quoted : String → String
quoted s = "\"" ∷ String.◌++◌ s "\""

-- etag
unfoldable pub etag : ℕ → String
etag n = quoted (format_int n)
