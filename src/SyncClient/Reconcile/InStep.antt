-- ===== src/SyncClient/Reconcile/InStep.antt =====
-- A run that is not aborted brings the disk in step with the artifacts, or reports where it did not.
use orbeat_community.Prelude.{
  String, ◌≡◌, ◌≢◌, inl, inr, true, some, List, Among, contains, Option-cases,
}
use orbeat_community.Prelude.Assoc.{Assoc, lookup}
use orbeat_community.Prelude.Results.{ok, Result-cases}
use orbeat_community.SyncClient.Reconcile.{
  Artifact, Os, Run, done, Desired, desire, nothing_desired, start, reconcile, write_loop,
  remove_loop,
}
use orbeat_community.SyncClient.Reconcile.Converges.{Settled, write_loop-Settled}
use orbeat_community.SyncClient.Reconcile.Converges.Cleared.{
  IsCleared, remove_loop-Settled, remove_loop-IsCleared,
}
use orbeat_community.SyncClient.Reconcile.Loops.{and_then_done}
use orbeat_community.SyncClient.Reconcile.Desires.{
  file_of, target, desire-Distinct, desire_sound, desire_complete,
}

-- The stages of a run that is done.
pub record Stages (os : Os) (disk : Assoc String) (old : List String) (arts : List Artifact)
    (s : Run) : Type 0 where
  pub wanted : Desired
  pub classified : desire nothing_desired arts ≡ ok wanted
  pub middle : Run
  pub wrote : write_loop os old wanted.files (start disk wanted) ≡ done middle
  pub cleaned : remove_loop os old wanted.files old middle ≡ done s

pub reconcile-Stages :
    (os : Os) (disk : Assoc String) (old : List String) (arts : List Artifact) (s : Run)
    → reconcile os disk old arts ≡ done s
    → Stages os disk old arts s
unfolding reconcile
reconcile-Stages os disk old arts s e = elim (Result-cases (desire nothing_desired arts)) [
  | inl (er, failed) ↦ cc (rw failed at e)
  | inr (d, went) ↦
      let (m, wrote, cleaned) =
        and_then_done (write_loop os old d.files (start disk d)) (remove_loop os old d.files old) s
          (rw went at e) in
      record { wanted = d; classified = went; middle = m; wrote = wrote; cleaned = cleaned }
]

-- After a run that is not aborted, at the path of each file-backed artifact stands the content of an
-- artifact of the set with that path (the artifact itself, where no two share a path); or the path
-- is reported, as skipped or as a failed write.
pub reconcile-Settled :
    (os : Os) (disk : Assoc String) (old : List String) (arts : List Artifact) (s : Run)
    (a : Artifact) (rel : String)
    → reconcile os disk old arts ≡ done s
    → Among a arts
    → target a ≡ some rel
    → (b : Artifact) × Among b arts × (target b ≡ some rel) × Settled rel (file_of b) s
unfolding lookup
reconcile-Settled os disk old arts s a rel e among path =
    let stages = reconcile-Stages os disk old arts s e in
    let d = stages.wanted in
    elim (Option-cases (lookup rel d.files)) [
      | inl absent ↦
          absurd (desire_complete nothing_desired d arts rel a stages.classified among path absent)
      | inr (want, there) ↦
          let distinct = desire-Distinct nothing_desired d arts tt stages.classified in
          let settled =
            write_loop-Settled os old rel want d.files (start disk d) stages.middle distinct there
              stages.wrote in
          let kept =
            remove_loop-Settled os old rel want d.files old stages.middle s there settled
              stages.cleaned in
          elim (desire_sound nothing_desired d arts rel want stages.classified there) [
            | inl nowhere ↦ cc
            | inr (b, found, same_path, same) ↦ (b, found, same_path, rw same at kept)
          ]
    ]

-- After a run that is not aborted, a file that the ledger names and that is the path of no artifact
-- is gone from the disk; or the path is reported, as a failed removal or an ignored entry.
pub reconcile-IsCleared :
    (os : Os) (disk : Assoc String) (old : List String) (arts : List Artifact) (s : Run)
    (rel : String)
    → reconcile os disk old arts ≡ done s
    → contains old rel ≡ true
    → ((a : Artifact) → Among a arts → target a ≢ some rel)
    → IsCleared rel s
unfolding lookup
reconcile-IsCleared os disk old arts s rel e managed unwanted =
    let stages = reconcile-Stages os disk old arts s e in
    let d = stages.wanted in
    elim (Option-cases (lookup rel d.files)) [
      | inl absent ↦
          remove_loop-IsCleared os old rel d.files old stages.middle s absent managed stages.cleaned
      | inr (want, there) ↦
          elim (desire_sound nothing_desired d arts rel want stages.classified there) [
            | inl nowhere ↦ cc
            | inr (b, among, path, same) ↦ absurd (unwanted b among path)
          ]
    ]
