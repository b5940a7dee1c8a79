-- ===== src/SyncClient/Reconcile/Unseen.antt =====
-- What a run does with a file that stat cannot see.
use orbeat_community.Prelude.{
  String, ◌≡◌, ◌≢◌, refl, inl, inr, true, false, Option, none, some, List, contains, Among, arith,
  eq_iff, eq_refl, Bool-cases, Option-cases,
}
use orbeat_community.Prelude.Assoc.{Assoc, lookup, lookup-insert, lookup-erase}
use orbeat_community.SyncClient.ManagedPath.{valid_managed_file_path}
use orbeat_community.SyncClient.Reconcile.{
  Artifact, DesiredFile, Os, Run, done, nothing_desired, start, adopt, skip, write, Action,
  action_for, write_file, act, write_entry, remove_file, remove_checked, reconcile,
}
use orbeat_community.SyncClient.Reconcile.Desires.{
  target, desire-Distinct, desire_sound, desire_complete,
}
use orbeat_community.SyncClient.Reconcile.InStep.{reconcile-Stages}
use orbeat_community.SyncClient.Reconcile.Loops.{
  KeptByWrites, KeptByRemovals, write_loop_makes, remove_loop_keeps,
}

-- The file has the content, the ledger names it, and it is not reported as skipped.
pub record IsTaken (rel content : String) (s : Run) : Type 0 where
  pub replaced : lookup rel s.disk ≡ some content
  pub listed : Among rel s.managed
  pub unskipped : ¬ Among rel s.res.skipped

module _ (os : Os) (old : List String) (rel : String) where
  abbrev NotSkipped : Run → Type 0
  NotSkipped s = ¬ Among rel s.res.skipped

  -- A file that stat cannot see is written.
  action_for-unseen :
      (want : DesiredFile) (o : Option String)
      → os.stat_fails rel ≡ true
      → action_for os old rel want o ≡ write
  unfolding action_for
  action_for-unseen want none unseen = refl
  action_for-unseen want (some cur) unseen = rw unseen refl

  write_entry-IsTaken :
      (want : DesiredFile) (s : Run)
      → os.stat_fails rel ≡ true
      → os.write_fails rel ≡ false
      → NotSkipped s
      → IsTaken rel want.content (write_entry os old rel want s)
  unfolding write_entry act write_file
  write_entry-IsTaken want s unseen fine h =
      let written = lookup-insert rel rel want.content s.disk in
      rw (action_for-unseen want (lookup rel s.disk) unseen, fine)
        (record { replaced = rw (eq_refl rel) at written; listed = inl refl; unskipped = h })

  write_file-IsTaken :
      (content j : String) (w : DesiredFile) (s : Run)
      → j ≢ rel
      → IsTaken rel content s
      → IsTaken rel content (write_file os old j w s)
  unfolding write_file
  write_file-IsTaken content j w s other h =
      let written = lookup-insert j rel w.content s.disk in
      elim (Bool-cases (os.write_fails j)) [
        | inl failed ↦ rw failed (record {
          replaced = h.replaced;
          listed = elim (Bool-cases (contains old j)) [
            | inl ours ↦ rw ours (inr h.listed)
            | inr new ↦ rw new h.listed
          ];
          unskipped = h.unskipped;
        })
        | inr fine ↦ rw fine (record {
          replaced = ground (arith, written, eq_iff j rel, h.replaced);
          listed = inr h.listed;
          unskipped = h.unskipped;
        })
      ]

  act-NotSkipped :
      (j : String) (w : DesiredFile) (s : Run) (a : Action)
      → j ≢ rel
      → NotSkipped s
      → NotSkipped (act os old j w s a)
  unfolding act write_file
  act-NotSkipped j w s adopt other h = h
  act-NotSkipped j w s skip other h = λ there. elim there [ inl e ↦ other e | inr later ↦ h later ]
  act-NotSkipped j w s write other h = elim (Bool-cases (os.write_fails j)) [
    | inl failed ↦ rw failed h
    | inr fine ↦ rw fine h
  ]

  act-IsTaken :
      (content j : String) (w : DesiredFile) (s : Run) (a : Action)
      → j ≢ rel
      → IsTaken rel content s
      → IsTaken rel content (act os old j w s a)
  unfolding act
  act-IsTaken content j w s adopt other h = record {
    replaced = h.replaced;
    listed = inr h.listed;
    unskipped = h.unskipped;
  }
  act-IsTaken content j w s skip other h = record {
    replaced = h.replaced;
    listed = h.listed;
    unskipped = λ there. elim there [ inl e ↦ other e | inr later ↦ h.unskipped later ];
  }
  act-IsTaken content j w s write other h = write_file-IsTaken content j w s other h

  write_entry-NotSkipped : KeptByWrites os old rel NotSkipped
  unfolding write_entry
  write_entry-NotSkipped j w s other h =
      act-NotSkipped j w s (action_for os old j w (lookup j s.disk)) other h

  write_entry-stays_IsTaken : (content : String) → KeptByWrites os old rel (IsTaken rel content)
  unfolding write_entry
  write_entry-stays_IsTaken content j w s other h =
      act-IsTaken content j w s (action_for os old j w (lookup j s.disk)) other h

  remove_checked-IsTaken : (content : String) → KeptByRemovals os old rel (IsTaken rel content)
  unfolding remove_checked remove_file
  remove_checked-IsTaken content j s other h =
      let erased = lookup-erase j rel s.disk in
      elim (Bool-cases (valid_managed_file_path j)) [
        | inr ignored ↦
            rw ignored
              (record { replaced = h.replaced; listed = h.listed; unskipped = h.unskipped })
        | inl valid ↦ elim (Option-cases (lookup j s.disk)) [
          | inl missing ↦ rw (valid, missing) h
          | inr (cur, there) ↦ elim (Bool-cases (os.remove_fails j)) [
            | inl failed ↦
                rw (valid, there, failed)
                  (record { replaced = h.replaced; listed = inr h.listed; unskipped = h.unskipped })
            | inr gone ↦
                rw (valid, there, gone)
                  (record {
                    replaced = ground (arith, erased, eq_iff j rel, h.replaced);
                    listed = h.listed;
                    unskipped = h.unskipped;
                  })
          ]
        ]
      ]

-- A file whose stat fails, as it does for a symbolic link out of the sync root, is taken for one that
-- is not there. So after a run that is not aborted, in which some artifact has its path and a write
-- to it would succeed, it has the content of an artifact with that path (the artifact itself, where
-- no two share a path), the new ledger names it, and it is not reported as skipped; also where the
-- file was there before and the old ledger does not name it.
pub reconcile-IsTaken :
    (os : Os) (disk : Assoc String) (old : List String) (arts : List Artifact) (s : Run)
    (a : Artifact) (rel : String)
    → reconcile os disk old arts ≡ done s
    → Among a arts
    → target a ≡ some rel
    → os.stat_fails rel ≡ true
    → os.write_fails rel ≡ false
    → (b : Artifact) × Among b arts × (target b ≡ some rel) × IsTaken rel b.content s
unfolding lookup
reconcile-IsTaken os disk old arts s a rel e among path unseen fine =
    let stages = reconcile-Stages os disk old arts s e in
    let d = stages.wanted in
    elim (Option-cases (lookup rel d.files)) [
      | inl absent ↦
          absurd (desire_complete nothing_desired d arts rel a stages.classified among path absent)
      | inr (want, there) ↦
          let distinct = desire-Distinct nothing_desired d arts tt stages.classified in
          let taken =
            write_loop_makes os old rel want (NotSkipped os old rel) (IsTaken rel want.content)
              d.files (start disk d) stages.middle
              (λ t q. write_entry-IsTaken os old rel want t unseen fine q)
              (write_entry-NotSkipped os old rel)
              (write_entry-stays_IsTaken os old rel want.content) distinct there
              (λ nowhere. nowhere) stages.wrote in
          let kept =
            remove_loop_keeps os old rel (IsTaken rel want.content) d.files old stages.middle s
              (remove_checked-IsTaken os old rel want.content) (λ absent. cc) taken
              stages.cleaned in
          elim (desire_sound nothing_desired d arts rel want stages.classified there) [
            | inl nowhere ↦ cc
            | inr (b, found, same_path, same) ↦ (b, found, same_path, rw same at kept)
          ]
    ]
