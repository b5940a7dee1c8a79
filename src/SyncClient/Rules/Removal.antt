-- ===== src/SyncClient/Rules/Removal.antt =====
-- StripProjectRules of internal/syncclient/rules.go: what `project remove` does to a project's files
-- and to the ledger. The manifest's loading may fail, and its saving.
mod Tests
pub mod Watched
use orbeat_community.Prelude.{
  ℕ, String, Bool, true, false, ◌||◌, List, [], ◌∷◌, ◌==◌, not, if◌then◌else◌,
}
use orbeat_community.SyncClient.Rules.Files.{
  ManagedFile, Disk, Os, Outcome, strip_rules_from_project,
}
use orbeat_community.SyncClient.Rules.Sync.{has_no}

-- The disk, the ledger in the manifest, the number of blocks that were taken out, and whether an
-- error is returned.
pub record Removed : Type 0 where
  pub disk : Disk
  pub ledger : List String
  pub stripped : ℕ
  pub failed : Bool

module _ (clean : String → String) where
  -- The loop over the ledger: the project's entries are kept where `keep` says so.
  unfoldable pub kept_entries : Bool → String → List String → List String
  kept_entries keep proj [] = []
  kept_entries keep proj (p ∷ ledger) =
      let rest = kept_entries keep proj ledger in
      let held = p ∷ rest in if clean p == clean proj then if keep then held else rest else held

  -- A strip that failed or that skipped a file keeps the project's entries.
  unfoldable pub record_removal :
      Bool → String → List String → Outcome (ℕ × List ManagedFile) → Removed
  record_removal save_fails proj ledger o = record {
    disk = o.disk;
    ledger =
        if save_fails
        then ledger
        else kept_entries (o.failed || not (has_no o.value.1)) proj ledger;
    stripped = o.value.0;
    failed = o.failed || save_fails;
  }

  unfoldable pub strip_project_rules : Os → Bool → Bool → String → List String → Disk → Removed
  strip_project_rules os load_fails save_fails proj ledger d =
      if load_fails
      then record { disk = d; ledger = ledger; stripped = 0; failed = true }
      else record_removal save_fails proj ledger (strip_rules_from_project os d proj)
