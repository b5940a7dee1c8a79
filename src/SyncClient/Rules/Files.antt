-- ===== src/SyncClient/Rules/Files.antt =====
-- The two files of a project: AGENTS.md holds the rules and CLAUDE.md the import of it. A disk
-- gives the files below each root; a root is a clean path. Which operations fail is given for each.
-- The paths that are joined are literals, so none escapes its root and no error here is fatal.
pub mod Effects
use orbeat_community.Prelude.{
  ℕ, ◌+◌, String, Bool, true, false, not, ◌&&◌, ◌||◌, Option, none, some, List, [], ◌∷◌, ◌++◌, ◌==◌,
  eqb, if◌then◌else◌,
}
use orbeat_community.Text.Pattern.{Chars, codes}
use orbeat_community.SyncClient.Rules.{rules_markers_healthy, Merged, merge_rules, strip_rules}

pub data ManagedFile : Type 0 where
  agents : ManagedFile
  claude : ManagedFile

abbrev pub same_file : ManagedFile → ManagedFile → Bool
same_file agents agents = true
same_file claude claude = true
same_file f g = false

abbrev pub Disk : Type 0
Disk = String → ManagedFile → Option Chars

abbrev pub write_file : String → ManagedFile → Chars → Disk → Disk
write_file root file text d r f = if root == r && same_file file f then some text else d r f

-- What opening a root gives.
pub data Opened : Type 0 where
  open_error : Opened
  vanished : Opened
  opened : Opened

pub record Os : Type 0 where
  pub is_directory : String → Bool
  pub open_root : String → Opened
  pub read_fails : String → ManagedFile → Bool
  pub write_fails : String → ManagedFile → Bool

-- The notes on a file: skips, and restorations.
pub record Notes : Type 0 where
  pub skips : List ManagedFile
  pub restored : List ManagedFile

abbrev pub no_notes : Notes
no_notes = record { skips = []; restored = [] }

abbrev pub merge_notes : Notes → Notes → Notes
merge_notes n o = record { skips = n.skips ++ o.skips; restored = n.restored ++ o.restored }

-- What an operation on files did: the disk, whether it failed, and what it reports.
pub record Outcome {ℓ} (A : Type ℓ) : Type ℓ where
  pub disk : Disk
  pub failed : Bool
  pub value : A

pub record MergeReport : Type 0 where
  pub changed : Bool
  pub notes : Notes

abbrev pub nothing_merged : MergeReport
nothing_merged = record { changed = false; notes = no_notes }

abbrev pub text_of : Option Chars → Chars
text_of none = []
text_of (some s) = s

-- A file that is not there is not read, so its reading cannot fail.
abbrev pub cannot_read : Os → String → ManagedFile → Option Chars → Bool
cannot_read os root file none = false
cannot_read os root file (some s) = os.read_fails root file

module _ (os : Os) where
  unfoldable pub merge_written : Disk → String → ManagedFile → Merged → Outcome MergeReport
  merge_written d root file m =
      if m.changed && os.write_fails root file
      then record { disk = d; failed = true; value = nothing_merged }
      else record {
        disk = if m.changed then write_file root file m.merged d else d;
        failed = false;
        value = record {
          changed = m.changed;
          notes = record { skips = []; restored = if m.restored then file ∷ [] else [] };
        };
      }

  -- mergeRulesFile
  unfoldable pub merge_rules_file :
      (Chars → Chars) → Disk → String → ManagedFile → Chars → Outcome MergeReport
  merge_rules_file digest d root file body =
      if cannot_read os root file (d root file)
      then record { disk = d; failed = true; value = nothing_merged }
      else if not (rules_markers_healthy (text_of (d root file)))
      then record {
        disk = d;
        failed = false;
        value = record { changed = false; notes = record { skips = file ∷ []; restored = [] } };
      }
      else merge_written d root file (merge_rules digest (text_of (d root file)) body)

  unfoldable pub merge_both :
      Outcome MergeReport → (Disk → Outcome MergeReport) → Outcome MergeReport
  merge_both first second =
      let next = second first.disk in
      record {
        disk = next.disk;
        failed = first.failed || next.failed;
        value = record {
          changed = first.value.changed || next.value.changed;
          notes = merge_notes first.value.notes next.value.notes;
        };
      }

  abbrev pub rules_claude_import : Chars
  rules_claude_import = codes "@AGENTS.md"

  unfoldable pub write_opened :
      (Chars → Chars) → Disk → String → Chars → Opened → Outcome MergeReport
  write_opened digest d root body opened =
      merge_both (merge_rules_file digest d root agents body)
        (λ d'. merge_rules_file digest d' root claude rules_claude_import)
  write_opened digest d root body o = record { disk = d; failed = true; value = nothing_merged }

  -- writeRulesToProject: a failure of one file does not stop the other.
  unfoldable pub write_rules_to_project :
      (Chars → Chars) → Disk → String → Chars → Outcome MergeReport
  write_rules_to_project digest d root body = write_opened digest d root body (os.open_root root)

  -- The number of blocks that were taken out, and the files that were skipped.
  unfoldable pub strip_written :
      Disk → String → ManagedFile → Chars × ℕ → Outcome (ℕ × List ManagedFile)
  strip_written d root file (text, n) =
      if eqb n 0
      then record { disk = d; failed = false; value = (0, []) }
      else if os.write_fails root file
      then record { disk = d; failed = true; value = (0, []) }
      else record { disk = write_file root file text d; failed = false; value = (n, []) }

  unfoldable pub strip_read :
      Disk → String → ManagedFile → Option Chars → Outcome (ℕ × List ManagedFile)
  strip_read d root file none = record { disk = d; failed = false; value = (0, []) }
  strip_read d root file (some s) =
      if os.read_fails root file
      then record { disk = d; failed = true; value = (0, []) }
      else if not (rules_markers_healthy s)
      then record { disk = d; failed = false; value = (0, file ∷ []) }
      else strip_written d root file (strip_rules s)

  -- stripRulesFile
  unfoldable pub strip_rules_file : Disk → String → ManagedFile → Outcome (ℕ × List ManagedFile)
  strip_rules_file d root file = strip_read d root file (d root file)

  unfoldable pub strip_both :
      Outcome (ℕ × List ManagedFile)
      → (Disk → Outcome (ℕ × List ManagedFile))
      → Outcome (ℕ × List ManagedFile)
  strip_both first second =
      let next = second first.disk in
      record {
        disk = next.disk;
        failed = first.failed || next.failed;
        value = (first.value.0 + next.value.0, first.value.1 ++ next.value.1);
      }

  unfoldable pub strip_opened : Disk → String → Opened → Outcome (ℕ × List ManagedFile)
  strip_opened d root open_error = record { disk = d; failed = true; value = (0, []) }
  strip_opened d root vanished = record { disk = d; failed = false; value = (0, []) }
  strip_opened d root opened =
      strip_both (strip_rules_file d root agents) (λ d'. strip_rules_file d' root claude)

  -- stripRulesFromProject
  unfoldable pub strip_rules_from_project : Disk → String → Outcome (ℕ × List ManagedFile)
  strip_rules_from_project d root = strip_opened d root (os.open_root root)
