-- ===== src/Gateway/Naming.antt =====
-- internal/gateway/naming.go and internal/naming: namespaced tool names.
pub mod RoundTrip
use Prim.Native.Char.{Char, code}
use Prim.Native.String
use Prim.Native.String.{String, [], ◌∷◌}
use orbeat_community.Prelude.{
  ℕ, Bool, true, false, ◌&&◌, ◌||◌, Option, none, some, ◌==◌, eqb, leb, if◌then◌else◌,
}

abbrev pub sep : String
sep = "__"

unfoldable pub namespace : String → String → String
namespace slug tool = String.◌++◌ slug (String.◌++◌ sep tool)

abbrev pub is_underscore : Char → Bool
is_underscore c = eqb (code c) b'_'

abbrev pub prefix_with : Char → Option (String × String) → Option (String × String)
prefix_with c none = none
prefix_with c (some (slug, tool)) = some (c ∷ slug, tool)

-- Split: strings.Index(name, "__") as a walk, which gives what stands before the first separator
-- and what stands after it.
unfoldable pub split : String → Option (String × String)
split [] = none
split (c ∷ []) = none
split (c ∷ (d ∷ s)) =
    if is_underscore c && is_underscore d then some ("", s) else prefix_with c (split (d ∷ s))

-- A character of [a-z0-9]
abbrev pub is_slug_char : Char → Bool
is_slug_char c =
    (leb b'a' (code c) && leb (code c) b'z') || (leb b'0' (code c) && leb (code c) b'9')

abbrev pub dash : Char
dash = "-"

-- nonSlug.ReplaceAllString(s, "-"): each longest run of other characters is one dash. The flag
-- says that the run before `s` has its dash.
unfoldable pub dash_runs : Bool → String → String
dash_runs in_run [] = []
dash_runs in_run (c ∷ s) =
    let keep = c ∷ dash_runs false s in
    let skip = dash_runs true s in
    if is_slug_char c then keep else if in_run then skip else dash ∷ skip

abbrev pub is_dash : Char → Bool
is_dash c = eqb (code c) b'-'

-- strings.Trim(s, "-")
unfoldable pub trim_left : String → String
trim_left [] = []
trim_left (c ∷ s) = let rest = trim_left s in if is_dash c then rest else c ∷ s

unfoldable pub trim_right : String → String
trim_right [] = []
trim_right (c ∷ s) = let rest = trim_right s in if is_dash c && rest == "" then "" else c ∷ rest

-- Slugify; `to_lower` is strings.ToLower.
unfoldable pub slugify : (String → String) → String → String
slugify to_lower s = trim_right (trim_left (dash_runs false (to_lower s)))
