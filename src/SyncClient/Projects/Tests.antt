-- ===== src/SyncClient/Projects/Tests.antt =====
-- The registered projects at concrete inputs; the sorts of the tests leave the order.
use orbeat_community.Prelude.{◌≡◌, refl, true, false, some, [], ◌∷◌, contains}
use orbeat_community.Prelude.Results.{ok}
use orbeat_community.Text.Slug.{is_slug}
use orbeat_community.SyncClient.Projects.{
  bare, tagged, ProjectsFile, entries, Env, put_project, load_projects_with_invalid, load_projects,
  normalize_tags, add_project, unmarshal_entry, marshal_entry, unmarshal_entries, marshal_entries,
  collect_tags, valid_project_path, valid_projects, invalid_paths, load_file, save_projects,
  add_directory,
}
use orbeat_community.SyncClient.Projects.Loading.{add_project-load}

abbrev env : Env
env = record {
  clean = λ p. "/go";
  is_abs = λ p. true;
  abs = λ p. some p;
  is_directory = λ p. true;
  read_fails = false;
  write_fails = false;
  sort_projects = λ ps. ps;
  sort_strings = λ ts. ts;
}

abbrev file : ProjectsFile
file = entries (tagged "/go" ("old" ∷ []) ∷ (bare "relative" ∷ []))

abbrev file_after : ProjectsFile
file_after = entries (tagged "/go" ("new" ∷ []) ∷ [])

before : load_projects env file ≡ ok ((record { path = "/go"; tags = "old" ∷ [] }) ∷ [])
unfolding load_projects load_projects_with_invalid load_file unmarshal_entries unmarshal_entry
    valid_projects invalid_paths valid_project_path
before = refl

normal : normalize_tags env ("new" ∷ ("new" ∷ [])) ≡ ok ("new" ∷ [])
unfolding normalize_tags collect_tags is_slug contains
normal = refl

added : add_project env "/go" ("new" ∷ ("new" ∷ [])) file ≡ ok ("/go", file_after)
unfolding add_project add_directory normalize_tags collect_tags is_slug contains load_projects
    load_projects_with_invalid load_file unmarshal_entries unmarshal_entry valid_projects
    invalid_paths valid_project_path put_project save_projects marshal_entries marshal_entry
added = refl

add_project-load_example :
    load_projects_with_invalid env file_after
    ≡ ok (put_project "/go" ("new" ∷ []) ((record { path = "/go"; tags = "old" ∷ [] }) ∷ []), [])
unfolding valid_project_path
add_project-load_example =
    add_project-load env "/go" "/go" ("new" ∷ ("new" ∷ [])) ("new" ∷ []) file file_after
      ((record { path = "/go"; tags = "old" ∷ [] }) ∷ []) (λ ps p. (λ h. h, λ h. h)) (λ q a e. refl)
      refl normal before added
