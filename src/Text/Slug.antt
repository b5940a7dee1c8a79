-- ===== src/Text/Slug.antt =====
-- artifactNameRe and projectTagRe: ^[a-z0-9][a-z0-9-]*$
pub mod Slashes
use Prim.Native.Char.{Char, code}
use Prim.Native.String.{String, [], ◌∷◌}
use orbeat_community.Prelude.{Bool, true, false, ◌&&◌, ◌||◌, eqb, leb}

abbrev pub is_slug_head : Char → Bool
is_slug_head c =
    (leb b'a' (code c) && leb (code c) b'z') || (leb b'0' (code c) && leb (code c) b'9')

pub is_slug_tail : String → Bool
is_slug_tail [] = true
is_slug_tail (c ∷ s) = (is_slug_head c || eqb (code c) b'-') && is_slug_tail s

unfoldable pub is_slug : String → Bool
unfolding is_slug_tail
is_slug [] = false
is_slug (c ∷ s) = is_slug_head c && is_slug_tail s
