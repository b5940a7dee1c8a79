-- ===== src/SyncClient/Reconcile/Converges.antt =====
-- What stands on the disk after a run that was not aborted.
pub mod Cleared
use orbeat_community.Prelude.{
  ℕ, ◌+◌, String, ◌≡◌, ◌≢◌, ◌⊎◌, refl, sym, ap, ◌∙◌, inl, inr, Bool, true, false, not, ◌&&◌, ◌||◌,
  Option, none, some, List, [], ◌∷◌, ◌==◌, contains, Among, arith, eq_iff, eq_refl, Bool-cases,
  Option-cases, if◌then◌else◌,
}
use orbeat_community.Prelude.Assoc.{
  Assoc, lookup, insert, erase, lookup-insert, lookup-erase, Distinct, Distinct-insert,
}
use orbeat_community.Prelude.Results.{Result, err, ok, Result-cases}
use orbeat_community.Text.Slug.{is_slug}
use orbeat_community.SyncClient.ManagedPath.{path_of, valid_managed_file_path}
use orbeat_community.SyncClient.Reconcile.{
  Artifact, DesiredFile, Os, Failure, write_failure, Run, Outcome, done, aborted, run_of, and_then,
  Desired, desire, desire_path, Action, adopt, skip, write, action_for, write_file, act,
  write_entry, write_loop, remove_file, remove_checked, remove_entry, remove_loop, nothing_desired,
  start, reconcile, Fatal,
}
use orbeat_community.SyncClient.Reconcile.Loops.{KeptByWrites, write_loop_makes}

-- The served bytes are on the disk, or the report says that they are not: the path is among the
-- skipped or among the failures.
abbrev pub Settled : String → DesiredFile → Run → Type 0
Settled rel want s =
    (lookup rel s.disk ≡ some want.content)
    ⊎ (Among rel s.res.skipped ⊎ Among (write_failure rel) s.res.failures)

module _ (os : Os) (old : List String) (rel : String) (want : DesiredFile) where
  -- The step for the path itself.
  write_file-Settled : (s : Run) → Settled rel want (write_file os old rel want s)
  unfolding write_file
  write_file-Settled s =
      let written = lookup-insert rel rel want.content s.disk in
      elim (Bool-cases (os.write_fails rel)) [
        | inl failed ↦ rw failed (inr (inr (inl refl)))
        | inr fine ↦ rw fine (inl (ground (arith, written, eq_refl rel)))
      ]

  pub action_for-adopt :
      (o : Option String) → action_for os old rel want o ≡ adopt → o ≡ some want.content
  unfolding action_for
  action_for-adopt none e = cc
  action_for-adopt (some cur) e = elim (Bool-cases (os.stat_fails rel)) [
    | inl unseen ↦ cc (rw unseen at e)
    | inr seen ↦ elim (Bool-cases (not (os.read_fails rel) && cur == want.content)) [
      | inl same ↦ ap some ((eq_iff cur want.content).0 (ground arith))
      | inr differs ↦ elim (Bool-cases (not (contains old rel))) [
        | inl stranger ↦ cc (rw (seen, differs, stranger) at e)
        | inr ours ↦ cc (rw (seen, differs, ours) at e)
      ]
    ]
  ]

  act-Settled :
      (s : Run) (a : Action)
      → (a ≡ adopt → lookup rel s.disk ≡ some want.content)
      → Settled rel want (act os old rel want s a)
  unfolding act
  act-Settled s adopt same = inl (same refl)
  act-Settled s skip same = inr (inl (inl refl))
  act-Settled s write same = write_file-Settled s

  write_entry-Settled : (s : Run) → Settled rel want (write_entry os old rel want s)
  unfolding write_entry
  write_entry-Settled s =
      let o = lookup rel s.disk in act-Settled s (action_for os old rel want o) (action_for-adopt o)

  -- The step for another path.
  write_file-other :
      (j : String) (w : DesiredFile) (s : Run)
      → j ≢ rel
      → Settled rel want s
      → Settled rel want (write_file os old j w s)
  unfolding write_file
  write_file-other j w s other h =
      let written = lookup-insert j rel w.content s.disk in
      elim (Bool-cases (os.write_fails j)) [
        | inl failed ↦ rw failed (ground arith)
        | inr fine ↦ rw fine (ground (arith, written, eq_iff j rel))
      ]

  act-other :
      (j : String) (w : DesiredFile) (s : Run) (a : Action)
      → j ≢ rel
      → Settled rel want s
      → Settled rel want (act os old j w s a)
  unfolding act
  act-other j w s adopt other h = h
  act-other j w s skip other h = ground arith
  act-other j w s write other h = write_file-other j w s other h

  write_entry-other : KeptByWrites os old rel (Settled rel want)
  unfolding write_entry
  write_entry-other j w s other h =
      act-other j w s (action_for os old j w (lookup j s.disk)) other h

  pub write_loop-Settled :
      (desired : Assoc DesiredFile) (s s' : Run)
      → Distinct desired
      → lookup rel desired ≡ some want
      → write_loop os old desired s ≡ done s'
      → Settled rel want s'
  write_loop-Settled desired s s' distinct there e =
      write_loop_makes os old rel want (λ t. Unit) (Settled rel want) desired s s'
        (λ t q. write_entry-Settled t) (λ j w t other q. tt) write_entry-other distinct there tt e
