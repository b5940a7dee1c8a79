-- ===== src/SyncClient/Projects/Loading.antt =====
-- What was saved loads again.
use orbeat_community.Prelude.{
  String, ◌≡◌, ◌↔◌, refl, sym, ap, ◌∙◌, inl, inr, true, false, Option, none, some, List, [], ◌∷◌,
  ◌==◌, subst, Among, arith, Bool-cases, Option-cases, if_true, if_false,
}
use orbeat_community.Prelude.Results.{ok_inj, err, ok, Result-cases}
use orbeat_community.SyncClient.Rules.Sync.{Project}
use orbeat_community.SyncClient.Projects.{
  ProjectsFile, absent, unparsed, entries, unreadable, Env, unmarshal_entry, marshal_entry, both,
  unmarshal_entries, marshal_entries, put_project, valid_project_path, valid_projects,
  invalid_paths, loaded, load_file, load_projects_with_invalid, valid_part, load_projects,
  save_projects, normalize_tags, add_directory, add_project,
}

unmarshal_entry-marshal_entry :
    (path : String) (tags : List String)
    → path == "" ≡ false
    → unmarshal_entry (marshal_entry (record { path = path; tags = tags }))
      ≡ some (record { path = path; tags = tags })
unfolding unmarshal_entry marshal_entry
unmarshal_entry-marshal_entry path [] named = refl
unmarshal_entry-marshal_entry path (t ∷ tags) named = rw named refl

module _ (env : Env) where
  abbrev pub AllValid : List Project → Type 0
  AllValid ps = (p : Project) → Among p ps → valid_project_path env p.path ≡ true

  valid-named : (p : String) → valid_project_path env p ≡ true → p == "" ≡ false
  unfolding valid_project_path
  valid-named p h = ground arith

  unmarshal_entries-marshal_entries :
      (ps : List Project) → AllValid ps → unmarshal_entries (marshal_entries ps) ≡ some ps
  unfolding unmarshal_entries marshal_entries
  unmarshal_entries-marshal_entries [] h = refl
  unmarshal_entries-marshal_entries (p ∷ ps) h =
      let one : unmarshal_entry (marshal_entry p) ≡ some p =
        unmarshal_entry-marshal_entry p.path p.tags (valid-named p.path (h p (inl refl))) in
      let rest = unmarshal_entries-marshal_entries ps (λ q there. h q (inr there)) in
      ap (λ o. both o (unmarshal_entries (marshal_entries ps))) one ∙ ap (both (some p)) rest

  valid_projects-all :
      (ps : List Project) → AllValid ps → (valid_projects env ps ≡ ps) × (invalid_paths env ps ≡ [])
  unfolding valid_projects invalid_paths
  valid_projects-all [] h = (refl, refl)
  valid_projects-all (p ∷ ps) h =
      let (kept, dropped) = valid_projects-all ps (λ q there. h q (inr there)) in
      rw (h p (inl refl)) (ap (λ l. p ∷ l) kept, dropped)

  valid_projects-AllValid : (ps : List Project) → AllValid (valid_projects env ps)
  unfolding valid_projects
  valid_projects-AllValid [] q there = absurd there
  valid_projects-AllValid (p ∷ ps) q there = elim (Bool-cases (valid_project_path env p.path)) [
    | inr invalid ↦ valid_projects-AllValid ps q (rw invalid at there)
    | inl valid ↦
        let here : Among q (p ∷ valid_projects env ps) = rw valid at there in
        elim here [
          | inl e ↦ subst (λ x. valid_project_path env x.path ≡ true) e valid
          | inr later ↦ valid_projects-AllValid ps q later
        ]
  ]

  put_project-AllValid :
      (abs : String) (tags : List String) (ps : List Project)
      → valid_project_path env abs ≡ true
      → AllValid ps
      → AllValid (put_project abs tags ps)
  unfolding put_project
  put_project-AllValid abs tags [] valid h q (inl e) =
      subst (λ x. valid_project_path env x.path ≡ true) e valid
  put_project-AllValid abs tags [] valid h q (inr later) = absurd later
  put_project-AllValid abs tags (p ∷ ps) valid h q there = elim (Bool-cases (p.path == abs)) [
    | inl same ↦
        let here : Among q (record p { tags = tags } ∷ ps) = rw same at there in
        elim here [
          | inl e ↦ subst (λ x. valid_project_path env x.path ≡ true) e (h p (inl refl))
          | inr later ↦ h q (inr later)
        ]
    | inr other ↦
        let here : Among q (p ∷ put_project abs tags ps) = rw other at there in
        elim here [
          | inl e ↦ h q (inl e)
          | inr later ↦ put_project-AllValid abs tags ps valid (λ x at_x. h x (inr at_x)) q later
        ]
  ]

  -- The sort keeps the elements.
  abbrev pub KeepsElements : Type 0
  KeepsElements = (ps : List Project) (p : Project) → Among p (env.sort_projects ps) ↔ Among p ps

  -- What filepath.Abs and filepath.Clean give has the shape of a registered path.
  abbrev pub GivesPaths : Type 0
  GivesPaths = (q a : String) → env.abs q ≡ some a → valid_project_path env (env.clean a) ≡ true

  load_saved :
      (list : List Project)
      → AllValid list
      → env.read_fails ≡ false
      → load_projects_with_invalid env (entries (marshal_entries list)) ≡ ok (list, [])
  unfolding load_projects_with_invalid load_file
  load_saved list h reads =
      let (kept, dropped) = valid_projects-all list h in
      if_false _ _ reads
      ∙ ap (loaded env) (unmarshal_entries-marshal_entries list h)
      ∙ ap (λ l. ok (l, invalid_paths env list)) kept
      ∙ ap (λ l. ok (list, l)) dropped

  save_projects-load :
      (list : List Project) (file : ProjectsFile)
      → KeepsElements
      → AllValid list
      → env.read_fails ≡ false
      → save_projects env list ≡ ok file
      → load_projects_with_invalid env file ≡ ok (env.sort_projects list, [])
  unfolding save_projects
  save_projects-load list file keeps h reads saved = elim (Bool-cases env.write_fails) [
    | inl fails ↦ cc (rw fails at saved)
    | inr writes ↦
        let sorted = env.sort_projects list in
        let same : entries (marshal_entries sorted) ≡ file = ok_inj (rw writes at saved) in
        subst (λ f. load_projects_with_invalid env f ≡ ok (sorted, [])) same
          (load_saved sorted (λ p there. h p ((keeps list p).0 there)) reads)
  ]

  loaded-AllValid :
      (o : Option (List Project)) (list : List Project)
      → valid_part env (loaded env o) ≡ ok list
      → AllValid list
  loaded-AllValid none list h = cc
  loaded-AllValid (some ps) list h =
      let same : valid_projects env ps ≡ list = ok_inj h in
      subst AllValid same (valid_projects-AllValid ps)

  load_file-AllValid :
      (file : ProjectsFile) (list : List Project)
      → valid_part env (load_file env file) ≡ ok list
      → AllValid list
  unfolding load_file
  load_file-AllValid absent list h =
      let same : [] ≡ list = ok_inj h in subst AllValid same (λ p there. absurd there)
  load_file-AllValid unparsed list h = cc
  load_file-AllValid (entries es) list h = loaded-AllValid (unmarshal_entries es) list h

  load_projects-AllValid :
      (file : ProjectsFile) (list : List Project) → load_projects env file ≡ ok list → AllValid list
  unfolding load_projects load_projects_with_invalid
  load_projects-AllValid file list h = elim (Bool-cases env.read_fails) [
    | inl fails ↦
        let refused : valid_part env (err unreadable) ≡ ok list =
          subst (λ r. valid_part env r ≡ ok list) (if_true _ _ fails) h in
        cc
    | inr reads ↦
        load_file-AllValid file list
          (subst (λ r. valid_part env r ≡ ok list) (if_false _ _ reads) h)
  ]

  add_directory-load :
      (dir abs : String) (tags tags' : List String) (file file' : ProjectsFile)
      (list : List Project)
      → KeepsElements
      → valid_project_path env dir ≡ true
      → env.read_fails ≡ false
      → normalize_tags env tags ≡ ok tags'
      → load_projects env file ≡ ok list
      → add_directory env dir tags file ≡ ok (abs, file')
      → (abs ≡ dir)
        × (load_projects_with_invalid env file'
            ≡ ok (env.sort_projects (put_project dir tags' list), []))
  unfolding add_directory
  add_directory-load dir abs tags tags' file file' list keeps valid reads norm before added =
      let put = put_project dir tags' list in
      elim (Result-cases (save_projects env put)) [
        | inl (e, fails) ↦ cc (rw (norm, before, fails) at added)
        | inr (f, saved) ↦
            let pair : (dir, f) ≡ (abs, file') = ok_inj (rw (norm, before, saved) at added) in
            let loads =
              save_projects-load put f keeps
                (put_project-AllValid dir tags' list valid
                  (load_projects-AllValid file list before))
                reads saved in
            (
              sym (ap (λ x. x.0) pair),
              subst (λ g. load_projects_with_invalid env g ≡ ok (env.sort_projects put, []))
                  (ap (λ x. x.1) pair) loads,
            )
      ]

  -- When a project was added, the file that was written loads again in full: the projects that were
  -- loaded before, with the new one at its place or at the end, under its normalised tags, sorted, and
  -- no entry is refused. The sort keeps the elements, filepath gives clean absolute paths, and the
  -- reads do not fail.
  pub add_project-load :
      (proj abs : String) (tags tags' : List String) (file file' : ProjectsFile)
      (list : List Project)
      → KeepsElements
      → GivesPaths
      → env.read_fails ≡ false
      → normalize_tags env tags ≡ ok tags'
      → load_projects env file ≡ ok list
      → add_project env proj tags file ≡ ok (abs, file')
      → load_projects_with_invalid env file'
        ≡ ok (env.sort_projects (put_project abs tags' list), [])
  unfolding add_project
  add_project-load proj abs tags tags' file file' list keeps paths reads norm before added =
      elim (Option-cases (env.abs proj)) [
        | inl missing ↦ cc (rw missing at added)
        | inr (a, there) ↦ elim (Bool-cases (env.is_directory (env.clean a))) [
          | inr other ↦ cc (rw (there, other) at added)
          | inl directory ↦
              let (same, loads) =
                add_directory-load (env.clean a) abs tags tags' file file' list keeps
                  (paths proj a there) reads norm before (rw (there, directory) at added) in
              subst
                (λ d.
                  load_projects_with_invalid env file'
                  ≡ ok (env.sort_projects (put_project d tags' list), []))
                (sym same) loads
        ]
      ]
