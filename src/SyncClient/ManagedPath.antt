-- ===== src/SyncClient/ManagedPath.antt =====
-- internal/syncclient/reconcile.go: the paths that the client renders artifacts to, and the check
-- that an entry of its ledger has the shape of one.
pub mod Shapes
use Prim.Native.Char.{Char, code}
use Prim.Native.String
use Prim.Native.String.{◌∷◌}
use orbeat_community.Prelude.{
  String, Bool, true, false, ◌&&◌, ◌||◌, Option, none, some, List, [], ◌==◌, eqb, if◌then◌else◌,
}
use orbeat_community.Text.Slug.{is_slug}

abbrev pub skill_path : String → String
skill_path n = String.◌++◌ "skills/" (String.◌++◌ n "/SKILL.md")

abbrev pub subagent_path : String → String
subagent_path n = String.◌++◌ "agents/" (String.◌++◌ n ".md")

-- The lookup in fileBackedTypes, applied to a name.
unfoldable pub path_of : String → String → Option String
path_of type name =
    if type == "skill"
    then some (skill_path name)
    else if type == "subagent"
    then some (subagent_path name)
    else none

abbrev pub on_first : Char → List String → List String
on_first c [] = List.◌∷◌ (c ∷ "") []
on_first c (List.◌∷◌ seg segs) = List.◌∷◌ (c ∷ seg) segs

-- strings.Split(rel, "/")
pub split_slash : String → List String
split_slash String.[] = List.◌∷◌ "" []
split_slash (c ∷ s) =
    let rest = split_slash s in if eqb (code c) b'/' then List.◌∷◌ "" rest else on_first c rest

-- strings.TrimSuffix(seg, filepath.Ext(seg)), for a segment without a slash: what stands before the
-- last dot, or the whole where there is none.
abbrev pub or_whole : String → Option String → String
or_whole s none = s
or_whole s (some stem) = stem

abbrev pub before_last : Char → Option String → Option String
before_last c none = if eqb (code c) b'.' then some "" else none
before_last c (some stem) = some (c ∷ stem)

pub before_dot : String → Option String
before_dot String.[] = none
before_dot (c ∷ s) = before_last c (before_dot s)

pub stem : String → String
stem seg = or_whole seg (before_dot seg)

-- The innermost loop: some type renders the name to the path.
pub renders_to : String → String → Bool
renders_to rel name = is_slug name && (skill_path name == rel || subagent_path name == rel)

pub any_segment : String → List String → Bool
any_segment rel [] = false
any_segment rel (List.◌∷◌ seg segs) =
    renders_to rel seg || (renders_to rel (stem seg) || any_segment rel segs)

-- validManagedFilePath
unfoldable pub valid_managed_file_path : String → Bool
valid_managed_file_path rel = any_segment rel (split_slash rel)
