-- ===== src/SyncClient/Projects.antt =====
-- internal/syncclient/projects.go: the registered projects and their tags. The text of the JSON is
-- outside the model; a file holds its entries in either of their two forms. The path functions, the
-- sorts and the file system are arguments.
mod Tests
pub mod Loading
mod Tags
use orbeat_community.Prelude.{
  ℕ, String, Bool, true, false, not, ◌&&◌, Option, none, some, List, [], ◌∷◌, ◌++◌, ◌==◌, contains,
  ltb, length, if◌then◌else◌,
}
use orbeat_community.Prelude.Results.{Result, err, ok, ◌>>=◌}
use orbeat_community.Text.Slug.{is_slug}
use orbeat_community.SyncClient.Rules.Sync.{Project}

-- An entry of the file: a path, or a path with tags.
pub data Entry : Type 0 where
  bare : String → Entry
  tagged : String → List String → Entry

pub data ProjectsFile : Type 0 where
  absent : ProjectsFile
  unparsed : ProjectsFile
  entries : List Entry → ProjectsFile

pub data ProjectError : Type 0 where
  no_absolute_path : ProjectError
  not_a_directory : ProjectError
  bad_tag : String → ProjectError
  too_many_tags : ProjectError
  unreadable : ProjectError
  unwritable : ProjectError

-- What lies outside.
pub record Env : Type 0 where
  pub clean : String → String
  pub is_abs : String → Bool
  pub abs : String → Option String
  pub is_directory : String → Bool
  pub read_fails : Bool
  pub write_fails : Bool
  pub sort_projects : List Project → List Project
  pub sort_strings : List String → List String

-- entry.UnmarshalJSON; none where the entry is refused, and with it the file.
unfoldable pub unmarshal_entry : Entry → Option Project
unmarshal_entry (bare p) = some (record { path = p; tags = [] })
unmarshal_entry (tagged p tags) = if p == "" then none else some (record { path = p; tags = tags })

abbrev pub no_tags : List String → Bool
no_tags [] = true
no_tags (t ∷ tags) = false

-- entry.MarshalJSON
unfoldable pub marshal_entry : Project → Entry
marshal_entry p = if no_tags p.tags then bare p.path else tagged p.path p.tags

abbrev pub both : Option Project → Option (List Project) → Option (List Project)
both none ps = none
both (some p) none = none
both (some p) (some ps) = some (p ∷ ps)

unfoldable pub unmarshal_entries : List Entry → Option (List Project)
unmarshal_entries [] = some []
unmarshal_entries (e ∷ es) = both (unmarshal_entry e) (unmarshal_entries es)

unfoldable pub marshal_entries : List Project → List Entry
marshal_entries [] = []
marshal_entries (p ∷ ps) = marshal_entry p ∷ marshal_entries ps

abbrev pub max_project_tags : ℕ
max_project_tags = 16

-- The loop of normalizeTags.
unfoldable pub collect_tags : List String → List String → Result ProjectError (List String)
collect_tags out [] = ok out
collect_tags out (t ∷ tags) =
    let skip = collect_tags out tags in
    let take = collect_tags (out ++ t ∷ []) tags in
    if not (is_slug t) then err (bad_tag t) else if contains out t then skip else take

-- The project gets the tags, at its place or at the end.
unfoldable pub put_project : String → List String → List Project → List Project
put_project abs tags [] = record { path = abs; tags = tags } ∷ []
put_project abs tags (p ∷ list) =
    let later = p ∷ put_project abs tags list in
    if p.path == abs then record p { tags = tags } ∷ list else later

unfoldable pub is_registered : String → List Project → Bool
is_registered abs [] = false
is_registered abs (p ∷ list) =
    let later = is_registered abs list in if p.path == abs then true else later

unfoldable pub without_project : String → List Project → List Project
without_project abs [] = []
without_project abs (p ∷ list) =
    let rest = without_project abs list in if p.path == abs then rest else p ∷ rest

module _ (env : Env) where
  unfoldable pub valid_project_path : String → Bool
  valid_project_path p = not (p == "") && env.is_abs p && p == env.clean p

  unfoldable pub valid_projects : List Project → List Project
  valid_projects [] = []
  valid_projects (p ∷ ps) =
      let rest = valid_projects ps in if valid_project_path p.path then p ∷ rest else rest

  unfoldable pub invalid_paths : List Project → List String
  invalid_paths [] = []
  invalid_paths (p ∷ ps) =
      let rest = invalid_paths ps in if valid_project_path p.path then rest else p.path ∷ rest

  abbrev pub loaded : Option (List Project) → Result ProjectError (List Project × List String)
  loaded none = err unreadable
  loaded (some ps) = ok (valid_projects ps, invalid_paths ps)

  unfoldable pub load_file : ProjectsFile → Result ProjectError (List Project × List String)
  load_file absent = ok ([], [])
  load_file unparsed = err unreadable
  load_file (entries es) = loaded (unmarshal_entries es)

  -- loadProjectsWithInvalid
  unfoldable pub load_projects_with_invalid :
      ProjectsFile → Result ProjectError (List Project × List String)
  load_projects_with_invalid file = if env.read_fails then err unreadable else load_file file

  abbrev pub valid_part :
      Result ProjectError (List Project × List String) → Result ProjectError (List Project)
  valid_part (err e) = err e
  valid_part (ok (valid, invalid)) = ok valid

  unfoldable pub load_projects : ProjectsFile → Result ProjectError (List Project)
  load_projects file = valid_part (load_projects_with_invalid file)

  unfoldable pub save_projects : List Project → Result ProjectError ProjectsFile
  save_projects list =
      if env.write_fails
      then err unwritable
      else ok (entries (marshal_entries (env.sort_projects list)))

  unfoldable pub normalize_tags : List String → Result ProjectError (List String)
  normalize_tags tags = do
    out ← collect_tags [] tags
    if ltb max_project_tags (length out) then err too_many_tags else ok (env.sort_strings out)

  abbrev pub absolute : Option String → Result ProjectError String
  absolute none = err no_absolute_path
  absolute (some p) = ok (env.clean p)

  -- AddProject: the path that is stored, and the file.
  unfoldable pub add_directory :
      String → List String → ProjectsFile → Result ProjectError (String × ProjectsFile)
  add_directory abs tags file = do
    tags' ← normalize_tags tags
    list ← load_projects file
    file' ← save_projects (put_project abs tags' list)
    ok (abs, file')

  unfoldable pub add_project :
      String → List String → ProjectsFile → Result ProjectError (String × ProjectsFile)
  add_project proj tags file = do
    abs ← absolute (env.abs proj)
    if env.is_directory abs then add_directory abs tags file else err not_a_directory

  unfoldable pub resolve_registered_project :
      String → ProjectsFile → Result ProjectError (String × Bool)
  resolve_registered_project proj file = do
    abs ← absolute (env.abs proj)
    list ← load_projects file
    ok (abs, is_registered abs list)

  -- RemoveProject: the path, whether it was registered, and the file.
  unfoldable pub remove_found :
      ProjectsFile → String × Bool → Result ProjectError (String × Bool × ProjectsFile)
  remove_found file (abs, false) = ok (abs, false, file)
  remove_found file (abs, true) = do
    list ← load_projects file
    file' ← save_projects (without_project abs list)
    ok (abs, true, file')

  unfoldable pub remove_project :
      String → ProjectsFile → Result ProjectError (String × Bool × ProjectsFile)
  remove_project proj file = do
    found ← resolve_registered_project proj file
    remove_found file found
