-- ===== src/SyncClient/Reconcile/Unmanaged.antt =====
-- What a run does to files that the ledger does not name.
use orbeat_community.Prelude.{
  String, ◌≡◌, ◌≢◌, refl, ◌⊎◌, inl, inr, false, not, ◌&&◌, Option, none, some, List, [], ◌∷◌, ◌==◌,
  contains, arith, eq_iff, Bool-cases, Option-cases,
}
use orbeat_community.Prelude.Assoc.{Assoc, lookup, lookup-insert, lookup-erase}
use orbeat_community.Prelude.Results.{Result-cases}
use orbeat_community.SyncClient.ManagedPath.{valid_managed_file_path}
use orbeat_community.SyncClient.Reconcile.{
  Artifact, DesiredFile, Os, Run, Outcome, Action, done, aborted, run_of, and_then, desire, adopt,
  skip, write, action_for, write_file, act, write_entry, write_loop, remove_file, remove_checked,
  remove_entry, remove_loop, nothing_desired, start, reconcile,
}

pub action_for-unmanaged :
    (os : Os) (old : List String) (rel cur : String) (want : DesiredFile)
    → contains old rel ≡ false
    → os.stat_fails rel ≡ false
    → action_for os old rel want (some cur) ≢ write
unfolding action_for
action_for-unmanaged os old rel cur want unmanaged seen =
    elim (Bool-cases (not (os.read_fails rel) && cur == want.content)) [
      | inl same ↦ rw (seen, same) (λ e. cc)
      | inr differs ↦ rw (seen, differs, unmanaged) (λ e. cc)
    ]

module _ (os : Os) (old : List String) (p c : String) where
  -- The file is as it was.
  abbrev Kept : Run → Type 0
  Kept s = lookup p s.disk ≡ some c

  write_file-Kept :
      (rel : String) (want : DesiredFile) (s : Run)
      → rel ≢ p
      → Kept s
      → Kept (write_file os old rel want s)
  unfolding write_file
  write_file-Kept rel want s other h =
      let kept = lookup-insert rel p want.content s.disk in
      elim (Bool-cases (os.write_fails rel)) [
        | inl failed ↦ rw failed h
        | inr written ↦ rw written (ground (arith, eq_iff rel p, kept))
      ]

  act-Kept :
      (rel : String) (want : DesiredFile) (s : Run) (a : Action)
      → (rel ≢ p) ⊎ (a ≢ write)
      → Kept s
      → Kept (act os old rel want s a)
  unfolding act
  act-Kept rel want s adopt why h = h
  act-Kept rel want s skip why h = h
  act-Kept rel want s write (inl other) h = write_file-Kept rel want s other h
  act-Kept rel want s write (inr no_write) h = absurd (no_write refl)

  write_entry-Kept :
      (rel : String) (want : DesiredFile) (s : Run)
      → contains old p ≡ false
      → os.stat_fails p ≡ false
      → Kept s
      → Kept (write_entry os old rel want s)
  unfolding write_entry
  write_entry-Kept rel want s unmanaged seen h = elim (Bool-cases (rel == p)) [
    | inr other ↦ act-Kept rel want s _ (inl (ground (arith, eq_iff rel p))) h
    | inl same ↦
        let e : rel ≡ p = (eq_iff rel p).0 same in
        let there : lookup rel s.disk ≡ some c = rw e h in
        let no_write = action_for-unmanaged os old rel c want (rw e unmanaged) (rw e seen) in
        act-Kept rel want s _ (inr (rw there no_write)) h
  ]

  write_loop-Kept :
      (desired : Assoc DesiredFile) (s : Run)
      → contains old p ≡ false
      → os.stat_fails p ≡ false
      → Kept s
      → Kept (run_of (write_loop os old desired s))
  unfolding write_loop
  write_loop-Kept [] s unmanaged seen h = h
  write_loop-Kept ((rel, want) ∷ rest) s unmanaged seen h = elim (Bool-cases (os.contained rel)) [
    | inr escaping ↦ rw escaping h
    | inl inside ↦ rw inside (
        write_loop-Kept rest (write_entry os old rel want s) unmanaged seen
          (write_entry-Kept rel want s unmanaged seen h))
  ]

  remove_checked-Kept :
      (rel : String) (s : Run) → rel ≢ p → Kept s → Kept (remove_checked os old rel s)
  unfolding remove_checked remove_file
  remove_checked-Kept rel s other h =
      let erased = lookup-erase rel p s.disk in
      elim (Bool-cases (valid_managed_file_path rel)) [
        | inr ignored ↦ rw ignored h
        | inl valid ↦ elim (Option-cases (lookup rel s.disk)) [
          | inl missing ↦ rw (valid, missing) h
          | inr (cur, there) ↦ elim (Bool-cases (os.remove_fails rel)) [
            | inl failed ↦ rw (valid, there, failed) h
            | inr gone ↦ rw (valid, there, gone) (ground (arith, eq_iff rel p, erased))
          ]
        ]
      ]

  remove_entry-Kept :
      (rel : String) (s : Run) (o : Option DesiredFile)
      → rel ≢ p
      → Kept s
      → Kept (run_of (remove_entry os old rel s o))
  unfolding remove_entry
  remove_entry-Kept rel s (some want) other h = h
  remove_entry-Kept rel s none other h = elim (Bool-cases (os.contained rel)) [
    | inr escaping ↦ rw escaping h
    | inl inside ↦ rw inside (remove_checked-Kept rel s other h)
  ]

  and_then-Kept :
      (o : Outcome) (f : Run → Outcome)
      → Kept (run_of o)
      → ((s : Run) → Kept s → Kept (run_of (f s)))
      → Kept (run_of (and_then o f))
  and_then-Kept (done s) f h k = k s h
  and_then-Kept (aborted e s) f h k = h

  remove_loop-Kept :
      (desired : Assoc DesiredFile) (rels : List String) (s : Run)
      → contains rels p ≡ false
      → Kept s
      → Kept (run_of (remove_loop os old desired rels s))
  unfolding remove_loop contains
  remove_loop-Kept desired [] s absent h = h
  remove_loop-Kept desired (rel ∷ rels) s absent h =
      let other : rel ≢ p = ground (arith, eq_iff rel p) in
      let absent' : contains rels p ≡ false = ground arith in
      and_then-Kept (remove_entry os old rel s (lookup rel desired))
        (remove_loop os old desired rels) (remove_entry-Kept rel s (lookup rel desired) other h)
        (λ s' h'. remove_loop-Kept desired rels s' absent' h')

-- A file that the ledger does not name and that can be examined has the content after a run that it
-- had before, whatever the artifacts, the other files and the operations that fail, and also where
-- the run is aborted.
pub reconcile-Unmanaged :
    (os : Os) (disk : Assoc String) (old : List String) (artifacts : List Artifact) (p c : String)
    → contains old p ≡ false
    → os.stat_fails p ≡ false
    → lookup p disk ≡ some c
    → lookup p (run_of (reconcile os disk old artifacts)).disk ≡ some c
unfolding reconcile
reconcile-Unmanaged os disk old artifacts p c unmanaged seen h =
    elim (Result-cases (desire nothing_desired artifacts)) [
      | inl (e, unsafe) ↦ rw unsafe h
      | inr (d, classified) ↦ rw classified (
          and_then-Kept os old p c (write_loop os old d.files (start disk d))
            (remove_loop os old d.files old)
            (write_loop-Kept os old p c d.files (start disk d) unmanaged seen h)
            (λ s. remove_loop-Kept os old p c d.files old s unmanaged))
    ]
