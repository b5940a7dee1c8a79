-- ===== src/SyncClient/Rules/Sync.antt =====
-- ReconcileRules of internal/syncclient/rules.go, a real run. `clean` is filepath.Clean and `is_abs`
-- filepath.IsAbs; the disk's roots are clean paths. Rules come in the order of their names; the
-- ledger's final sorting is outside the model. The user-level files, which another ledger records,
-- are in Rules/Global.
pub mod Complete
pub mod Ledger
use orbeat_community.Prelude.{
  ℕ, ◌+◌, String, Bool, true, false, not, ◌&&◌, ◌||◌, Option, none, some, List, [], ◌∷◌, ◌++◌, ◌==◌,
  contains, if◌then◌else◌,
}
use orbeat_community.Prelude.Results.{Result, err, ok, ◌>>=◌}
use orbeat_community.Text.Pattern.{Chars}
use orbeat_community.Text.Slug.{is_slug}
use orbeat_community.SyncClient.Reconcile.{AppliedArtifact}
use orbeat_community.SyncClient.Rules.{Rule, rules_for, render_rules_body}
use orbeat_community.SyncClient.Rules.Files.{
  ManagedFile, Disk, Os, Notes, Outcome, MergeReport, write_rules_to_project,
  strip_rules_from_project,
}

pub record Project : Type 0 where
  pub path : String
  pub tags : List String

pub data RulesWarning : Type 0 where
  project_missing : String → RulesWarning
  merge_skipped : String → ManagedFile → RulesWarning
  merge_restored : String → ManagedFile → RulesWarning
  malformed_entry : String → RulesWarning
  not_registered : String → RulesWarning
  unreachable : String → RulesWarning
  strip_skipped : String → ManagedFile → RulesWarning
  malformed_global : String → RulesWarning
  untrusted_global : String → RulesWarning

pub data RulesFailure : Type 0 where
  write_failed : String → RulesFailure
  strip_failed : String → RulesFailure
  manifest_failed : RulesFailure
  global_write_failed : String → RulesFailure
  global_strip_failed : String → RulesFailure

pub record RulesResult : Type 0 where
  pub written : ℕ
  pub unchanged : ℕ
  pub stripped : ℕ
  pub warnings : List RulesWarning
  pub failures : List RulesFailure
  pub applied : List AppliedArtifact

-- The run: the disk, the ledger that is being built, the sets desired, failed and landed, and the
-- result.
pub record Run : Type 0 where
  pub disk : Disk
  pub new_ledger : List String
  pub desired : List String
  pub failed : List String
  pub landed : List String
  pub res : RulesResult

abbrev pub warn : List RulesWarning → RulesResult → RulesResult
warn ws res = record res { warnings = res.warnings ++ ws }

abbrev pub fail : RulesFailure → RulesResult → RulesResult
fail f res = record res { failures = res.failures ++ f ∷ [] }

-- res.Written++ or res.Unchanged++
abbrev pub count_write : Bool → RulesResult → RulesResult
count_write changed res =
    if changed
    then record res { written = res.written + 1 }
    else record res { unchanged = res.unchanged + 1 }

unfoldable pub warnings_of : (ManagedFile → RulesWarning) → List ManagedFile → List RulesWarning
warnings_of w [] = []
warnings_of w (f ∷ fs) = w f ∷ warnings_of w fs

abbrev pub has_no : List ManagedFile → Bool
has_no [] = true
has_no (f ∷ fs) = false

unfoldable pub ids_of : List Rule → List String
ids_of [] = []
ids_of (r ∷ rules) = r.id ∷ ids_of rules

abbrev pub add_rule : Rule → Result String (List Rule) → Result String (List Rule)
add_rule r (err e) = err e
add_rule r (ok rules) = ok (r ∷ rules)

-- The rules among the artifacts; a name that is no slug aborts the run.
unfoldable pub collect_rules : List Rule → Result String (List Rule)
collect_rules [] = ok []
collect_rules (a ∷ artifacts) =
    let rest = collect_rules artifacts in
    if not (a.type == "rule")
    then rest
    else if not (is_slug a.name)
    then err a.name
    else add_rule a rest

-- The rules that go to projects.
unfoldable pub project_scoped : List Rule → List Rule
project_scoped [] = []
project_scoped (r ∷ rules) =
    let rest = project_scoped rules in if r.rule_scope == "global" then rest else r ∷ rest

-- appendApplied
unfoldable pub add_applied : List AppliedArtifact → String → ℕ → List AppliedArtifact
add_applied dst id revision =
    if id == "" then dst else dst ++ (record { artifact_id = id; revision = revision }) ∷ []

-- The disk, the ledger in the manifest, and the result.
pub record Synced : Type 0 where
  pub disk : Disk
  pub ledger : List String
  pub res : RulesResult

module _ (digest : Chars → Chars) (clean : String → String) (is_abs : String → Bool) (os : Os) where
  -- The loop that finds the live projects: the run, and what is live.
  unfoldable pub live_projects : List Project → List Project
  live_projects [] = []
  live_projects (p ∷ projects) =
      let rest = live_projects projects in if os.is_directory p.path then p ∷ rest else rest

  unfoldable pub not_live : List Project → List String
  not_live [] = []
  not_live (p ∷ projects) =
      let rest = not_live projects in if os.is_directory p.path then rest else clean p.path ∷ rest

  unfoldable pub missing_warnings : List Project → List RulesWarning
  missing_warnings [] = []
  missing_warnings (p ∷ projects) =
      let rest = missing_warnings projects in
      if os.is_directory p.path then rest else project_missing p.path ∷ rest

  -- What a registered project that is not live has in the ledger is kept.
  unfoldable pub keep_not_live : List String → List String → Run → Run
  keep_not_live gone [] s = s
  keep_not_live gone (p ∷ ledger) s =
      let kept =
        keep_not_live gone ledger
          (record s { failed = clean p ∷ s.failed; new_ledger = s.new_ledger ++ clean p ∷ [] }) in
      let rest = keep_not_live gone ledger s in if contains gone (clean p) then kept else rest

  -- What the write loop does with the outcome of a project's write.
  unfoldable pub record_write : Project → List Rule → Run → Outcome MergeReport → Run
  record_write p matched s o =
      if o.failed
      then record s {
        disk = o.disk;
        res = fail (write_failed p.path) s.res;
        failed = clean p.path ∷ s.failed;
        new_ledger = s.new_ledger ++ clean p.path ∷ [];
      }
      else record s {
        disk = o.disk;
        res = count_write o.value.changed (
            warn
              (warnings_of (merge_skipped p.path) o.value.notes.skips
                ++ warnings_of (merge_restored p.path) o.value.notes.restored)
              s.res);
        landed = if has_no o.value.notes.skips then s.landed ++ ids_of matched else s.landed;
        desired = clean p.path ∷ s.desired;
        new_ledger = s.new_ledger ++ clean p.path ∷ [];
      }

  unfoldable pub write_matched : Project → List Rule → Run → Run
  write_matched p [] s = s
  write_matched p (r ∷ rules) s =
      record_write p (r ∷ rules) s
        (write_rules_to_project os digest s.disk (clean p.path) (render_rules_body (r ∷ rules)))

  unfoldable pub write_projects : List Rule → List Project → Run → Run
  write_projects rules [] s = s
  write_projects rules (p ∷ live) s =
      write_projects rules live (write_matched p (rules_for rules p.tags) s)

  unfoldable pub applied_rules :
      List Rule → List String → List AppliedArtifact → List AppliedArtifact
  applied_rules [] landed applied = applied
  applied_rules (r ∷ rules) landed applied =
      applied_rules rules landed
        (if contains landed r.id then add_applied applied r.id r.revision else applied)

  unfoldable pub write_pass : List Rule → List Project → Run → Run
  write_pass [] live s = s
  write_pass (r ∷ rules) live s =
      let s' = write_projects (r ∷ rules) live s in
      record s' {
        res = record s'.res { applied = applied_rules (r ∷ rules) s'.landed s'.res.applied };
      }

  -- validRulesPath
  unfoldable pub valid_rules_path : String → Bool
  valid_rules_path p = is_abs p && p == clean p

  unfoldable pub record_strip : String → Run → Outcome (ℕ × List ManagedFile) → Run
  record_strip p s o =
      if o.failed
      then record s {
        disk = o.disk;
        res = fail (strip_failed p) s.res;
        new_ledger = s.new_ledger ++ clean p ∷ [];
      }
      else record s {
        disk = o.disk;
        res =
            warn (warnings_of (strip_skipped p) o.value.1)
              (record s.res { stripped = s.res.stripped + o.value.0 });
        new_ledger = if has_no o.value.1 then s.new_ledger else s.new_ledger ++ clean p ∷ [];
      }

  -- One entry of the strip pass.
  unfoldable pub strip_entry : List String → String → Run → Run
  strip_entry registered p s =
      if contains s.desired (clean p) || contains s.failed (clean p)
      then s
      else if not (valid_rules_path p)
      then record s { res = warn (malformed_entry p ∷ []) s.res }
      else if not (contains registered (clean p))
      then record s {
        res = warn (not_registered (clean p) ∷ []) s.res;
        new_ledger = s.new_ledger ++ clean p ∷ [];
      }
      else if not (os.is_directory p)
      then record s {
        res = warn (unreachable p ∷ []) s.res;
        new_ledger = s.new_ledger ++ clean p ∷ [];
      }
      else record_strip p s (strip_rules_from_project os s.disk p)

  unfoldable pub strip_pass : List String → List String → Run → Run
  strip_pass registered [] s = s
  strip_pass registered (p ∷ ledger) s = strip_pass registered ledger (strip_entry registered p s)

  unfoldable pub clean_paths : List Project → List String
  clean_paths [] = []
  clean_paths (p ∷ projects) = clean p.path ∷ clean_paths projects

  -- The ledger without repetitions.
  unfoldable pub dedupe : List String → List String → List String
  dedupe seen [] = []
  dedupe seen (p ∷ ps) =
      let rest = dedupe seen ps in
      let first = p ∷ dedupe (p ∷ seen) ps in if contains seen p then rest else first

  abbrev pub start : Disk → List RulesWarning → Run
  start d ws = record {
    disk = d;
    new_ledger = [];
    desired = [];
    failed = [];
    landed = [];
    res = record {
      written = 0;
      unchanged = 0;
      stripped = 0;
      warnings = ws;
      failures = [];
      applied = [];
    };
  }

  -- The run behind the check of the names.
  unfoldable pub sync_rules : List Project → List Rule → List String → Disk → Run
  sync_rules projects rules ledger d = strip_pass (clean_paths projects) ledger (
      write_pass rules (live_projects projects)
        (keep_not_live (not_live projects) ledger (start d (missing_warnings projects))))

  -- saveManifest: where it fails, the manifest keeps the old ledger.
  unfoldable pub save : Bool → List String → Run → Synced
  save save_fails ledger s =
      if save_fails
      then record { disk = s.disk; ledger = ledger; res = fail manifest_failed s.res }
      else record { disk = s.disk; ledger = dedupe [] s.new_ledger; res = s.res }

  unfoldable pub reconcile_rules :
      Bool
      → (List Rule → List Rule)
      → List Project
      → List Rule
      → List String
      → Disk
      → Result String Synced
  reconcile_rules save_fails sort projects artifacts ledger d = do
    rules ← collect_rules artifacts
    ok (save save_fails ledger (sync_rules projects (project_scoped (sort rules)) ledger d))
