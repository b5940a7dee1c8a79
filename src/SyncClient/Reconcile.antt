-- ===== src/SyncClient/Reconcile.antt =====
-- internal/syncclient/reconcile.go: Reconcile of a real run (a nil plan). The disk is the files that
-- stand at rendered paths beneath the sync root, so a path is its relative form. Which operations
-- of the operating system fail is given for each path. Directories, permissions and temporary
-- files are outside the model, and with them the removal of an emptied skill directory. So are the
-- final sorting of `applied` and of the ledger, and the saving of the ledger.
mod Tests
pub mod Unmanaged
pub mod Unseen
pub mod Converges
pub mod Desires
pub mod InStep
pub mod Loops
pub mod SecondRun
pub mod Stability
use orbeat_community.Prelude.{
  ℕ, ◌+◌, String, Bool, true, false, not, ◌&&◌, Option, none, some, List, [], ◌∷◌, ◌++◌, ◌==◌,
  contains, if◌then◌else◌,
}
use orbeat_community.Prelude.Assoc.{Assoc, lookup, insert, erase}
use orbeat_community.Prelude.Results.{Result, err, ok, ◌>>=◌}
use orbeat_community.Text.Slug.{is_slug}
use orbeat_community.SyncClient.ManagedPath.{path_of, valid_managed_file_path}

-- The fields of Artifact that Reconcile reads.
pub record Artifact : Type 0 where
  pub id : String
  pub type : String
  pub name : String
  pub content : String
  pub revision : ℕ

pub record DesiredFile : Type 0 where
  pub content : String
  pub artifact_id : String
  pub revision : ℕ

pub record AppliedArtifact : Type 0 where
  pub artifact_id : String
  pub revision : ℕ

-- The paths at which the operating system fails: to stat or read a file that is there, to write, to
-- remove; and the answer of resolveContained.
pub record Os : Type 0 where
  pub stat_fails : String → Bool
  pub read_fails : String → Bool
  pub write_fails : String → Bool
  pub remove_fails : String → Bool
  pub contained : String → Bool

pub data Failure : Type 0 where
  write_failure : String → Failure
  remove_failure : String → Failure

pub data Warning : Type 0 where
  unknown_type : String → Warning
  ignored_entry : String → Warning

-- The errors that abort the run.
pub data Fatal : Type 0 where
  unsafe_name : String → Fatal
  escapes : String → Fatal

pub record ReconcileResult : Type 0 where
  pub added : ℕ
  pub updated : ℕ
  pub removed : ℕ
  pub unchanged : ℕ
  pub handled : ℕ
  pub skipped : List String
  pub failures : List Failure
  pub warnings : List Warning
  pub applied : List AppliedArtifact

-- A run: the disk, the ledger that is being rebuilt, and the result so far. Lists grow at the head.
pub record Run : Type 0 where
  pub disk : Assoc String
  pub managed : List String
  pub res : ReconcileResult

-- What a loop leaves: the run, and the error that aborted it, if one did. What was written before
-- the error stays on the disk.
pub data Outcome : Type 0 where
  done : Run → Outcome
  aborted : Fatal → Run → Outcome

abbrev pub run_of : Outcome → Run
run_of (done s) = s
run_of (aborted e s) = s

abbrev pub and_then : Outcome → (Run → Outcome) → Outcome
and_then (done s) f = f s
and_then (aborted e s) f = aborted e s

-- What the classification of the artifacts leaves.
pub record Desired : Type 0 where
  pub files : Assoc DesiredFile
  pub handled : ℕ
  pub warnings : List Warning

-- One artifact, with its path if its type is file-backed.
pub desire_path : Desired → Artifact → Option String → Result Fatal Desired
desire_path d a none =
    ok (if a.type == "rule" then d else record d { warnings = unknown_type a.type ∷ d.warnings })
desire_path d a (some rel) =
    if not (is_slug a.name)
    then err (unsafe_name a.name)
    else ok (record d {
      files =
          insert rel (record { content = a.content; artifact_id = a.id; revision = a.revision })
            d.files;
      handled = d.handled + 1;
    })

pub desire : Desired → List Artifact → Result Fatal Desired
desire d [] = ok d
desire d (a ∷ arts) = do d' ← desire_path d a (path_of a.type a.name); desire d' arts

unfoldable pub append_applied : List AppliedArtifact → DesiredFile → List AppliedArtifact
append_applied dst want =
    if want.artifact_id == ""
    then dst
    else record { artifact_id = want.artifact_id; revision = want.revision } ∷ dst

-- What the write loop does with a file.
pub data Action : Type 0 where
  adopt : Action
  skip : Action
  write : Action

module _ (os : Os) (old : List String) where
  -- By what stat and readFile find.
  pub action_for : String → DesiredFile → Option String → Action
  action_for rel want none = write
  action_for rel want (some cur) =
      if os.stat_fails rel
      then write
      else if not (os.read_fails rel) && cur == want.content
      then adopt
      else if not (contains old rel)
      then skip
      else write

  pub write_file : String → DesiredFile → Run → Run
  write_file rel want s =
      let was_old = contains old rel in
      let res = s.res in
      if os.write_fails rel
      then record s {
        managed = if was_old then rel ∷ s.managed else s.managed;
        res = record res { failures = write_failure rel ∷ res.failures };
      }
      else record {
        disk = insert rel want.content s.disk;
        managed = rel ∷ s.managed;
        res = record res {
          updated = if was_old then res.updated + 1 else res.updated;
          added = if was_old then res.added else res.added + 1;
          applied = append_applied res.applied want;
        };
      }

  pub act : String → DesiredFile → Run → Action → Run
  act rel want s adopt =
      let res = s.res in
      record s {
        managed = rel ∷ s.managed;
        res = record res {
          unchanged = res.unchanged + 1;
          applied = append_applied res.applied want;
        };
      }
  act rel want s skip =
      let res = s.res in record s { res = record res { skipped = rel ∷ res.skipped } }
  act rel want s write = write_file rel want s

  -- The body of the write loop.
  pub write_entry : String → DesiredFile → Run → Run
  write_entry rel want s = act rel want s (action_for rel want (lookup rel s.disk))

  pub write_loop : Assoc DesiredFile → Run → Outcome
  write_loop [] s = done s
  write_loop ((rel, want) ∷ rest) s =
      let later = write_loop rest (write_entry rel want s) in
      if not (os.contained rel) then aborted (escapes rel) s else later

  -- root.remove of an entry of the ledger, by whether the file is there.
  pub remove_file : String → Run → Option String → Run
  remove_file rel s none = s
  remove_file rel s (some cur) =
      let res = s.res in
      if os.remove_fails rel
      then record s {
        managed = rel ∷ s.managed;
        res = record res { failures = remove_failure rel ∷ res.failures };
      }
      else record s { disk = erase rel s.disk; res = record res { removed = res.removed + 1 } }

  pub remove_checked : String → Run → Run
  remove_checked rel s =
      let res = s.res in
      if not (valid_managed_file_path rel)
      then record s { res = record res { warnings = ignored_entry rel ∷ res.warnings } }
      else remove_file rel s (lookup rel s.disk)

  -- The body of the removal loop, by whether the entry is desired.
  pub remove_entry : String → Run → Option DesiredFile → Outcome
  remove_entry rel s (some want) = done s
  remove_entry rel s none =
      if not (os.contained rel) then aborted (escapes rel) s else done (remove_checked rel s)

  pub remove_loop : Assoc DesiredFile → List String → Run → Outcome
  remove_loop desired [] s = done s
  remove_loop desired (rel ∷ rest) s =
      and_then (remove_entry rel s (lookup rel desired)) (remove_loop desired rest)

abbrev pub nothing_desired : Desired
nothing_desired = record { files = []; handled = 0; warnings = [] }

abbrev pub start : Assoc String → Desired → Run
start disk d = record {
  disk = disk;
  managed = [];
  res = record {
    added = 0;
    updated = 0;
    removed = 0;
    unchanged = 0;
    handled = d.handled;
    skipped = [];
    failures = [];
    warnings = d.warnings;
    applied = [];
  };
}

-- Reconcile, between the reading of the ledger `old` and the writing of the one that it leaves.
abbrev pub reconcile_desired : Os → Assoc String → List String → Result Fatal Desired → Outcome
reconcile_desired os disk old (err e) = aborted e (start disk nothing_desired)
reconcile_desired os disk old (ok d) =
    and_then (write_loop os old d.files (start disk d)) (remove_loop os old d.files old)

unfoldable pub reconcile : Os → Assoc String → List String → List Artifact → Outcome
reconcile os disk old artifacts = reconcile_desired os disk old (desire nothing_desired artifacts)
