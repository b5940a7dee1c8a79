-- ===== src/Text/Pattern.antt =====
-- Texts as code points, and the parts of package regexp and package strings that the managed blocks
-- use: a run of character classes, a lazy search for a literal, trimming of newlines.
pub mod Lines
pub mod Local
pub mod Trim
pub mod Search
use Prim.Native.Char.{code}
use Prim.Native.String
use orbeat_community.Prelude.{
  ℕ, zero, suc, ◌+◌, ◌-◌, String, ◌≡◌, Bool, true, false, ◌&&◌, ◌||◌, Option, none, some, List, [],
  ◌∷◌, ◌++◌, eqb, leb, length, map, if◌then◌else◌,
}

abbrev pub Chars : Type 0
Chars = List ℕ

-- The code points of a literal.
abbrev pub codes : String → Chars
codes String.[] = []
codes (String.◌∷◌ c s) = code c ∷ codes s

abbrev pub newline : ℕ
newline = 10

abbrev pub less_than : ℕ
less_than = b'<'

abbrev pub is_nil : Chars → Bool
is_nil [] = true
is_nil (c ∷ s) = false

abbrev pub prefixed : ℕ → Option (Chars × Chars) → Option (Chars × Chars)
prefixed c none = none
prefixed c (some (s, t)) = some (c ∷ s, t)

-- A run of character classes: what it matches, and what follows.
unfoldable pub match_run : List (ℕ → Bool) → Chars → Option (Chars × Chars)
match_run [] s = some ([], s)
match_run (k ∷ ks) [] = none
match_run (k ∷ ks) (c ∷ s) = let rest = prefixed c (match_run ks s) in if k c then rest else none

-- A literal, as a run of classes.
abbrev pub literal : Chars → List (ℕ → Bool)
literal l = map eqb l

abbrev pub is_some : Option (Chars × Chars) → Bool
is_some none = false
is_some (some p) = true

unfoldable pub starts_with : Chars → Chars → Bool
starts_with l s = is_some (match_run (literal l) s)

-- [^\n]*\n: what follows the first newline.
unfoldable pub skip_line : Chars → Option Chars
skip_line [] = none
skip_line (c ∷ s) = let rest = skip_line s in if eqb c newline then some s else rest

abbrev pub matched_first : Option (Chars × Chars) → Option (Chars × Chars) → Option (Chars × Chars)
matched_first (some (l, rest)) later = some ([], rest)
matched_first none later = later

-- (.*?) and a literal: what stands before the first occurrence, and what follows it.
unfoldable pub until : Chars → Chars → Option (Chars × Chars)
until l [] = none
until l (c ∷ s) =
    let later = prefixed c (until l s) in matched_first (match_run (literal l) (c ∷ s)) later

-- len(re.FindAllString(s, -1)) for a literal: occurrences that do not overlap. `skip` characters
-- belong to the last one.
unfoldable pub count_from : Chars → ℕ → Chars → ℕ
count_from l skip [] = 0
count_from l (suc skip) (c ∷ s) = count_from l skip s
count_from l zero (c ∷ s) =
    let hit = 1 + count_from l (length l - 1) s in
    let miss = count_from l zero s in if starts_with l (c ∷ s) then hit else miss

unfoldable pub count_literal : Chars → Chars → ℕ
count_literal l s = count_from l zero s

-- strings.TrimRight(s, "\n") and strings.TrimLeft(s, "\n")
unfoldable pub trim_right : Chars → Chars
trim_right [] = []
trim_right (c ∷ s) =
    let rest = trim_right s in if eqb c newline && is_nil rest then [] else c ∷ rest

unfoldable pub trim_left : Chars → Chars
trim_left [] = []
trim_left (c ∷ s) = let rest = trim_left s in if eqb c newline then rest else c ∷ s

-- \n?
unfoldable pub skip_newline : Chars → Chars
skip_newline [] = []
skip_newline (c ∷ s) = if eqb c newline then s else c ∷ s

-- ==
unfoldable pub same : Chars → Chars → Bool
same [] [] = true
same [] (d ∷ t) = false
same (c ∷ s) [] = false
same (c ∷ s) (d ∷ t) = eqb c d && same s t
