-- ===== src/Text/Slug/Slashes.antt =====
-- A slug has no slash in it.
use Prim.Native.Char.{code}
use Prim.Native.String.{String, [], ◌∷◌}
use orbeat_community.Prelude.{◌≡◌, ◌≢◌, true, arith}
use orbeat_community.Text.Slug.{is_slug_tail, is_slug}

abbrev pub NoSlash : String → Type 0
NoSlash [] = Unit
NoSlash (c ∷ s) = (code c ≢ b'/') × NoSlash s

is_slug_tail-NoSlash : (s : String) → is_slug_tail s ≡ true → NoSlash s
unfolding is_slug_tail
is_slug_tail-NoSlash [] h = tt
is_slug_tail-NoSlash (c ∷ s) h = (ground arith, is_slug_tail-NoSlash s (ground arith))

pub is_slug-NoSlash : (s : String) → is_slug s ≡ true → NoSlash s
unfolding is_slug
is_slug-NoSlash [] h = cc
is_slug-NoSlash (c ∷ s) h = (ground arith, is_slug_tail-NoSlash s (ground arith))
