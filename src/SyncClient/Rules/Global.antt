-- ===== src/SyncClient/Rules/Global.antt =====
-- internal/syncclient/rules_global.go: the rules that go to the user-level files, in a real run. The
-- functions of path/filepath are arguments. A disk's roots are clean paths. As the operations on one
-- file may fail at one time and not at another, the write pass and the strip pass have their own Os.
mod Tests
pub mod Contained
pub mod Retry
use orbeat_community.Prelude.{
  ℕ, ◌+◌, String, Bool, true, false, not, ◌&&◌, ◌||◌, Option, none, some, List, [], ◌∷◌, ◌++◌, ◌==◌,
  contains, if◌then◌else◌,
}
use orbeat_community.Text.Pattern.{Chars}
use orbeat_community.SyncClient.Reconcile.{AppliedArtifact}
use orbeat_community.SyncClient.Rules.{Rule, render_rules_body}
use orbeat_community.SyncClient.Rules.Files.{
  ManagedFile, agents, claude, Disk, Opened, open_error, vanished, opened, Os, Notes, Outcome,
  MergeReport, nothing_merged, merge_rules_file, strip_rules_file,
}
use orbeat_community.SyncClient.Rules.Sync.{
  RulesWarning, merge_skipped, merge_restored, strip_skipped, malformed_global, untrusted_global,
  RulesFailure, global_write_failed, global_strip_failed, RulesResult, warn, fail, count_write,
  warnings_of, has_no, add_applied,
}

-- path/filepath and os.UserHomeDir
pub record Paths : Type 0 where
  pub clean : String → String
  pub is_abs : String → Bool
  pub join : String → String → String
  pub dir : String → String
  pub base : String → String
  pub home_dir : Option String

pub record GlobalTarget : Type 0 where
  pub dir : String
  pub file : ManagedFile

abbrev pub file_name : ManagedFile → String
file_name agents = "AGENTS.md"
file_name claude = "CLAUDE.md"

-- The file below a root, by its base name, where that is one of the two.
abbrev pub file_of : String → ManagedFile
file_of name = if name == "CLAUDE.md" then claude else agents

-- The disk, the ledger that is being built, the paths that were written, whether the rules landed,
-- and the result.
pub record GlobalRun : Type 0 where
  pub disk : Disk
  pub new_ledger : List String
  pub desired : List String
  pub landed : Bool
  pub res : RulesResult

-- The applied rules, for each that landed.
unfoldable pub apply_all : List Rule → RulesResult → RulesResult
apply_all [] res = res
apply_all (r ∷ rules) res =
    apply_all rules (record res { applied = add_applied res.applied r.id r.revision })

module _ (ps : Paths) where
  unfoldable pub path_of : GlobalTarget → String
  path_of g = ps.join g.dir (file_name g.file)

  abbrev pub codex_targets : Option String → (String → Bool) → List GlobalTarget
  codex_targets none present = []
  codex_targets (some home) present =
      let codex = ps.join home ".codex" in
      if present codex then (record { dir = codex; file = agents }) ∷ [] else []

  -- globalRuleTargets: Codex only where its directory is there.
  unfoldable pub global_rule_targets : Os → String → List GlobalTarget
  global_rule_targets os claude_dir =
      record { dir = claude_dir; file = claude } ∷ codex_targets ps.home_dir os.is_directory

  -- allGlobalRuleTargets
  unfoldable pub all_global_rule_targets : String → List GlobalTarget
  all_global_rule_targets claude_dir =
      record { dir = ps.clean claude_dir; file = claude } ∷ codex_targets ps.home_dir (λ d. true)

  unfoldable pub valid_global_rules_path : String → Bool
  valid_global_rules_path p =
      ps.is_abs p && p == ps.clean p && (ps.base p == "CLAUDE.md" || ps.base p == "AGENTS.md")

  unfoldable pub has_path : String → List GlobalTarget → Bool
  has_path p [] = false
  has_path p (g ∷ targets) = path_of g == p || has_path p targets

  unfoldable pub is_trusted_global_rules_path : String → String → Bool
  is_trusted_global_rules_path claude_dir p = has_path p (all_global_rule_targets claude_dir)

  unfoldable pub write_at :
      Os → (Chars → Chars) → Disk → String → ManagedFile → Chars → Opened → Outcome MergeReport
  write_at os digest d root file body opened = merge_rules_file os digest d root file body
  write_at os digest d root file body o = record { disk = d; failed = true; value = nothing_merged }

  -- writeGlobalRules
  unfoldable pub write_global_rules :
      Os → (Chars → Chars) → Disk → GlobalTarget → Chars → Outcome MergeReport
  write_global_rules os digest d g body =
      write_at os digest d (ps.clean g.dir) g.file body (os.open_root (ps.clean g.dir))

  unfoldable pub strip_at :
      Os → Disk → String → ManagedFile → Opened → Outcome (ℕ × List ManagedFile)
  strip_at os d root file open_error = record { disk = d; failed = true; value = (0, []) }
  strip_at os d root file vanished = record { disk = d; failed = false; value = (0, []) }
  strip_at os d root file opened = strip_rules_file os d root file

  -- stripGlobalRules
  unfoldable pub strip_global_rules : Os → Disk → String → Outcome (ℕ × List ManagedFile)
  strip_global_rules os d p =
      strip_at os d (ps.dir p) (file_of (ps.base p)) (os.open_root (ps.dir p))

  unfoldable pub record_global_write : GlobalTarget → GlobalRun → Outcome MergeReport → GlobalRun
  record_global_write g s o =
      if o.failed
      then record s {
        disk = o.disk;
        res = fail (global_write_failed (path_of g)) s.res;
        new_ledger = s.new_ledger ++ path_of g ∷ [];
      }
      else record s {
        disk = o.disk;
        res = count_write o.value.changed (
            warn
              (warnings_of (merge_skipped g.dir) o.value.notes.skips
                ++ warnings_of (merge_restored g.dir) o.value.notes.restored)
              s.res);
        landed = s.landed || has_no o.value.notes.skips;
        desired = path_of g ∷ s.desired;
        new_ledger = s.new_ledger ++ path_of g ∷ [];
      }

  unfoldable pub write_globals :
      Os → (Chars → Chars) → Chars → List GlobalTarget → GlobalRun → GlobalRun
  write_globals os digest body [] s = s
  write_globals os digest body (g ∷ targets) s =
      write_globals os digest body targets
        (record_global_write g s (write_global_rules os digest s.disk g body))

  unfoldable pub global_write_pass :
      Os → (Chars → Chars) → String → List Rule → GlobalRun → GlobalRun
  global_write_pass os digest claude_dir [] s = s
  global_write_pass os digest claude_dir (r ∷ globals) s =
      let s' =
        write_globals os digest (render_rules_body (r ∷ globals))
          (global_rule_targets os claude_dir) s in
      if s'.landed then record s' { res = apply_all (r ∷ globals) s'.res } else s'

  unfoldable pub record_global_strip :
      String → GlobalRun → Outcome (ℕ × List ManagedFile) → GlobalRun
  record_global_strip p s o =
      if o.failed
      then record s {
        disk = o.disk;
        res = fail (global_strip_failed p) s.res;
        new_ledger = s.new_ledger ++ p ∷ [];
      }
      else if not (has_no o.value.1)
      then record s {
        disk = o.disk;
        res = warn (warnings_of (strip_skipped (ps.dir p)) o.value.1) s.res;
        new_ledger = s.new_ledger ++ p ∷ [];
      }
      else record s { disk = o.disk; res = record s.res { stripped = s.res.stripped + o.value.0 } }

  -- One entry of the strip pass.
  unfoldable pub strip_global_entry : Os → String → String → GlobalRun → GlobalRun
  strip_global_entry os claude_dir p s =
      if contains s.desired p
      then s
      else if not (valid_global_rules_path p)
      then record s { res = warn (malformed_global p ∷ []) s.res }
      else if not (is_trusted_global_rules_path claude_dir p)
      then record s {
        res = warn (untrusted_global p ∷ []) s.res;
        new_ledger = s.new_ledger ++ p ∷ [];
      }
      else record_global_strip p s (strip_global_rules os s.disk p)

  unfoldable pub global_strip_pass : Os → String → List String → GlobalRun → GlobalRun
  global_strip_pass os claude_dir [] s = s
  global_strip_pass os claude_dir (p ∷ ledger) s =
      global_strip_pass os claude_dir ledger (strip_global_entry os claude_dir p s)

  abbrev pub global_start : Disk → RulesResult → GlobalRun
  global_start d res = record { disk = d; new_ledger = []; desired = []; landed = false; res = res }

  -- reconcileGlobalRules, on the ledger m.Globals.
  unfoldable pub reconcile_global_rules :
      Os → Os → (Chars → Chars) → String → List Rule → List String → Disk → RulesResult → GlobalRun
  reconcile_global_rules write_os strip_os digest claude_dir globals ledger d res =
      global_strip_pass strip_os claude_dir ledger
        (global_write_pass write_os digest claude_dir globals (global_start d res))
