-- ===== src/SyncClient/Reconcile/SecondRun.antt =====
-- A run after a run that is done, with the same artifacts and the ledger that it left.
use orbeat_community.Prelude.{
  String, ◌≡◌, ◌≢◌, ◌⊎◌, refl, ◌∙◌, inl, inr, true, false, none, some, List, [], ◌∷◌, ◌==◌,
  contains, arith, eq_iff, eq_refl, Bool-cases, Option-cases,
}
use orbeat_community.Prelude.Assoc.{Assoc, lookup, Distinct}
use orbeat_community.SyncClient.ManagedPath.{valid_managed_file_path}
use orbeat_community.SyncClient.Reconcile.{
  Artifact, DesiredFile, Os, Run, Outcome, done, aborted, run_of, and_then, Action, adopt, skip,
  write, action_for, write_file, act, write_entry, write_loop, remove_file, remove_checked,
  remove_entry, remove_loop, nothing_desired, start, reconcile,
}
use orbeat_community.SyncClient.Reconcile.Desires.{desire-Distinct}
use orbeat_community.SyncClient.Reconcile.InStep.{reconcile-Stages}
use orbeat_community.SyncClient.Reconcile.Loops.{
  write_loop_keeps, write_loop_makes, remove_loop_keeps,
}
use orbeat_community.SyncClient.Reconcile.Stability.{
  Stable, Unlisted, Stuck, write_entry-Unlisted, write_entry-Stuck, remove_loop-Stuck,
  write_entry-own, write_entry-Stable, remove_checked-Stable,
}
use orbeat_community.SyncClient.Reconcile.Unmanaged.{action_for-unmanaged}

-- Every file that is there can be examined and read.
abbrev pub IsReadable : Os → Type 0
IsReadable os = (p : String) → (os.stat_fails p ≡ false) × (os.read_fails p ≡ false)

-- The two stages leave every desired path stable, and list no other path but one that is stuck.
module _ (os : Os) (disk : Assoc String) (old : List String) (arts : List Artifact) (s : Run)
    (e : reconcile os disk old arts ≡ done s) where
  Stages-Stable :
      (rel : String) (want : DesiredFile)
      → lookup rel (reconcile-Stages os disk old arts s e).wanted.files ≡ some want
      → Stable os rel want s
  unfolding contains
  Stages-Stable rel want there =
      let stages = reconcile-Stages os disk old arts s e in
      let d = stages.wanted in
      let distinct = desire-Distinct nothing_desired d arts tt stages.classified in
      let stable =
        write_loop_makes os old rel want (Unlisted rel) (Stable os rel want) d.files (start disk d)
          stages.middle (write_entry-own os old rel want) (write_entry-Unlisted os old rel)
          (write_entry-Stable os old rel want) distinct there refl stages.wrote in
      remove_loop_keeps os old rel (Stable os rel want) d.files old stages.middle s
        (remove_checked-Stable os old rel want) (λ absent. cc) stable stages.cleaned

  Stages-Stuck :
      (rel : String)
      → lookup rel (reconcile-Stages os disk old arts s e).wanted.files ≡ none
      → Stuck os rel s
  unfolding contains
  Stages-Stuck rel absent =
      let stages = reconcile-Stages os disk old arts s e in
      let d = stages.wanted in
      let none_yet : Stuck os rel (start disk d) = λ listed. cc in
      let wrote =
        write_loop_keeps os old rel (Stuck os rel) d.files (start disk d)
          (write_entry-Stuck os old rel) absent none_yet in
      let middle : Stuck os rel stages.middle = rw stages.wrote at wrote in
      remove_loop-Stuck os old rel d.files old stages.middle s middle stages.cleaned

-- The second run, step by step: the disk stays as it is.
module _ (os : Os) (s : Run) (readable : IsReadable os) where
  act-still :
      (rel : String) (want : DesiredFile) (t : Run) (a : Action)
      → (a ≢ write) ⊎ (os.write_fails rel ≡ true)
      → t.disk ≡ s.disk
      → (act os s.managed rel want t a).disk ≡ s.disk
  unfolding act write_file
  act-still rel want t adopt why h = h
  act-still rel want t skip why h = h
  act-still rel want t write (inl no_write) h = absurd (no_write refl)
  act-still rel want t write (inr fails) h = rw fails h

  action_for-still :
      (rel : String) (want : DesiredFile)
      → Stable os rel want s
      → (action_for os s.managed rel want (lookup rel s.disk) ≢ write) ⊎ (os.write_fails rel ≡ true)
  unfolding action_for
  action_for-still rel want (inl same) =
      let (seen, read) = readable rel in inl (rw (same, seen, read, eq_refl want.content) (λ e. cc))
  action_for-still rel want (inr (inl (unmanaged, (cur, there)))) =
      let (seen, read) = readable rel in
      inl (rw there (action_for-unmanaged os s.managed rel cur want unmanaged seen))
  action_for-still rel want (inr (inr fails)) = inr fails

  and_then-still :
      (o : Outcome) (f : Run → Outcome)
      → (run_of o).disk ≡ s.disk
      → ((u : Run) → u.disk ≡ s.disk → (run_of (f u)).disk ≡ s.disk)
      → (run_of (and_then o f)).disk ≡ s.disk
  and_then-still (done u) f h k = k u h
  and_then-still (aborted er u) f h k = h

  write_loop-still :
      (rest : Assoc DesiredFile) (t : Run)
      → Distinct rest
      → ((rel : String) (want : DesiredFile) → lookup rel rest ≡ some want → Stable os rel want s)
      → t.disk ≡ s.disk
      → (run_of (write_loop os s.managed rest t)).disk ≡ s.disk
  unfolding write_loop write_entry lookup
  write_loop-still [] t distinct stable h = h
  write_loop-still ((j, w) ∷ rest) t (once, distinct) stable h =
      let here : Stable os j w s = stable j w (rw (eq_refl j) refl) in
      let later : (rel : String) (want : DesiredFile)
          → lookup rel rest ≡ some want
          → Stable os rel want s =
        λ rel want there. stable rel want (elim (Bool-cases (j == rel)) [
          | inr other ↦ rw other there
          | inl same ↦ cc (rw ((eq_iff j rel).0 same) at once)
        ]) in
      elim (Bool-cases (os.contained j)) [
        | inr escaping ↦ rw escaping h
        | inl inside ↦ rw inside (
            write_loop-still rest (write_entry os s.managed j w t) distinct later (
              act-still j w t (action_for os s.managed j w (lookup j t.disk))
                (rw h (action_for-still j w here)) h))
      ]

  remove_checked-still :
      (j : String) (t : Run)
      → os.remove_fails j ≡ true
      → (remove_checked os s.managed j t).disk ≡ t.disk
  unfolding remove_checked remove_file
  remove_checked-still j t fails = elim (Bool-cases (valid_managed_file_path j)) [
    | inr ignored ↦ rw ignored refl
    | inl valid ↦ elim (Option-cases (lookup j t.disk)) [
      | inl missing ↦ rw (valid, missing) refl
      | inr (cur, there) ↦ rw (valid, there, fails) refl
    ]
  ]

  remove_loop-still :
      (desired : Assoc DesiredFile) (rels : List String) (t : Run)
      → ((rel : String)
          → contains rels rel ≡ true
          → lookup rel desired ≡ none
          → os.remove_fails rel ≡ true)
      → t.disk ≡ s.disk
      → (run_of (remove_loop os s.managed desired rels t)).disk ≡ s.disk
  unfolding remove_loop remove_entry contains
  remove_loop-still desired [] t stuck h = h
  remove_loop-still desired (j ∷ rels) t stuck h =
      let rest = λ (u : Run) (k : u.disk ≡ s.disk).
        remove_loop-still desired rels u (λ rel listed. stuck rel (ground arith)) k in
      elim (Option-cases (lookup j desired)) [
        | inr (want, there) ↦ rw there (rest t h)
        | inl absent ↦ elim (Bool-cases (os.contained j)) [
          | inr escaping ↦ rw (absent, escaping) h
          | inl inside ↦
              let fails = stuck j (ground (arith, eq_refl j)) absent in
              rw (absent, inside)
                (rest (remove_checked os s.managed j t) (remove_checked-still j t fails ∙ h))
        ]
      ]

-- A second run changes no file: where every file can be read, a run that is done is followed by a
-- run that leaves the disk as it is, with the same artifacts and the ledger that the first one
-- left, also where writes and removals fail.
pub reconcile_twice :
    (os : Os) (disk : Assoc String) (old : List String) (arts : List Artifact) (s : Run)
    → IsReadable os
    → reconcile os disk old arts ≡ done s
    → (run_of (reconcile os s.disk s.managed arts)).disk ≡ s.disk
unfolding reconcile
reconcile_twice os disk old arts s readable e =
    let stages = reconcile-Stages os disk old arts s e in
    let d = stages.wanted in
    let distinct = desire-Distinct nothing_desired d arts tt stages.classified in
    let t = start s.disk d in
    let wrote =
      write_loop-still os s readable d.files t distinct (Stages-Stable os disk old arts s e) refl in
    let stuck : (rel : String)
        → contains s.managed rel ≡ true
        → lookup rel d.files ≡ none
        → os.remove_fails rel ≡ true =
      λ rel listed absent. Stages-Stuck os disk old arts s e rel absent listed in
    rw stages.classified (
      and_then-still os s readable (write_loop os s.managed d.files t)
        (remove_loop os s.managed d.files s.managed) wrote
        (λ u k. remove_loop-still os s readable d.files s.managed u stuck k))
