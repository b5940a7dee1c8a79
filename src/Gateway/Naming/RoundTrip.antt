-- ===== src/Gateway/Naming/RoundTrip.antt =====
-- A namespaced tool name splits back into the slug and the tool.
use Prim.Native.Char.{Char, code}
use Prim.Native.String
use Prim.Native.String.{String, [], ◌∷◌}
use text.Mathlib.TextLemmas.{nil-append, cons-append}
use orbeat_community.Prelude.{
  ◌≡◌, ◌≢◌, ap, ◌∙◌, inl, inr, Bool, true, false, ◌&&◌, some, ◌==◌, arith, Bool-cases,
}
use orbeat_community.Gateway.Naming.{
  sep, namespace, is_underscore, split, dash_runs, is_dash, trim_left, trim_right, slugify,
}

-- No character is an underscore.
abbrev pub NoUnderscore : String → Type 0
NoUnderscore [] = Unit
NoUnderscore (c ∷ s) = (code c ≢ b'_') × NoUnderscore s

abbrev underscore : Char
underscore = "_"

sep-append : (t : String) → String.◌++◌ sep t ≡ underscore ∷ (underscore ∷ t)
sep-append t =
    cons-append underscore (underscore ∷ []) t
    ∙ ap (λ x. underscore ∷ x)
        (cons-append underscore [] t ∙ ap (λ x. underscore ∷ x) (nil-append t))

split-append :
    (slug tool : String)
    → NoUnderscore slug
    → split (String.◌++◌ slug (String.◌++◌ sep tool)) ≡ some (slug, tool)
unfolding split
split-append [] tool h = rw (nil-append, sep-append tool)
split-append (c ∷ []) tool (h, hs) = rw (cons-append, nil-append, sep-append tool) (ground arith)
split-append (c ∷ (d ∷ s)) tool (h, hs) =
    let rest = String.◌++◌ s (String.◌++◌ sep tool) in
    let not_underscore : is_underscore c ≡ false = ground arith in
    let ih : split (d ∷ rest) ≡ some (d ∷ s, tool) =
      rw (← cons-append d s (String.◌++◌ sep tool)) (split-append (d ∷ s) tool hs) in
    rw (cons-append, cons-append) (rw (not_underscore, ih))

dash_runs-NoUnderscore : (in_run : Bool) (s : String) → NoUnderscore (dash_runs in_run s)
unfolding dash_runs
dash_runs-NoUnderscore in_run [] = tt
dash_runs-NoUnderscore in_run (c ∷ s) =
    ground (arith, dash_runs-NoUnderscore false s, dash_runs-NoUnderscore true s)

trim_left-NoUnderscore : (s : String) → NoUnderscore s → NoUnderscore (trim_left s)
unfolding trim_left
trim_left-NoUnderscore [] h = tt
trim_left-NoUnderscore (c ∷ s) (h, hs) = ground (arith, trim_left-NoUnderscore s hs)

trim_right-NoUnderscore : (s : String) → NoUnderscore s → NoUnderscore (trim_right s)
unfolding trim_right
trim_right-NoUnderscore [] h = tt
trim_right-NoUnderscore (c ∷ s) (h, hs) = elim (Bool-cases (is_dash c && trim_right s == "")) [
  | inl gone ↦ rw gone tt
  | inr kept ↦ rw kept (h, trim_right-NoUnderscore s hs)
]

slugify-NoUnderscore : (to_lower : String → String) (s : String) → NoUnderscore (slugify to_lower s)
unfolding slugify
slugify-NoUnderscore to_lower s =
    trim_right-NoUnderscore _ (trim_left-NoUnderscore _ (dash_runs-NoUnderscore false (to_lower s)))

-- A name made of a server's slug, as Slugify makes it, and any tool name, also one with separators
-- in it, splits back into the two.
pub split-namespace :
    (to_lower : String → String) (server tool : String)
    → split (namespace (slugify to_lower server) tool) ≡ some (slugify to_lower server, tool)
unfolding namespace
split-namespace to_lower server tool =
    split-append (slugify to_lower server) tool (slugify-NoUnderscore to_lower server)
