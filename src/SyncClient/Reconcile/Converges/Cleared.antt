-- ===== src/SyncClient/Reconcile/Converges/Cleared.antt =====
-- The removal loop, and the run as a whole.
use orbeat_community.Prelude.{
  String, ◌≡◌, ◌≢◌, ◌⊎◌, refl, inl, inr, true, none, some, List, [], ◌∷◌, ◌==◌, contains, Among,
  arith, eq_iff, eq_refl, Bool-cases, Option-cases,
}
use orbeat_community.Prelude.Assoc.{Assoc, lookup, lookup-erase}
use orbeat_community.SyncClient.ManagedPath.{valid_managed_file_path}
use orbeat_community.SyncClient.Reconcile.{
  DesiredFile, Os, remove_failure, ignored_entry, Run, done, remove_file, remove_checked,
  remove_loop,
}
use orbeat_community.SyncClient.Reconcile.Converges.{Settled}
use orbeat_community.SyncClient.Reconcile.Loops.{
  done_inj, and_then_done, remove_entry_done, remove_loop_keeps,
}

-- The file is gone, or the report says why it is not: its removal failed, or the ledger's entry has
-- no shape that the client writes.
abbrev pub IsCleared : String → Run → Type 0
IsCleared rel s =
    (lookup rel s.disk ≡ none)
    ⊎ (Among (remove_failure rel) s.res.failures ⊎ Among (ignored_entry rel) s.res.warnings)

module _ (os : Os) (old : List String) (rel : String) where
  remove_checked-IsCleared : (s : Run) → IsCleared rel (remove_checked os old rel s)
  unfolding remove_checked remove_file
  remove_checked-IsCleared s =
      let erased = lookup-erase rel rel s.disk in
      elim (Bool-cases (valid_managed_file_path rel)) [
        | inr ignored ↦ rw ignored (inr (inr (inl refl)))
        | inl valid ↦ elim (Option-cases (lookup rel s.disk)) [
          | inl missing ↦ rw (valid, missing) (inl missing)
          | inr (cur, there) ↦ elim (Bool-cases (os.remove_fails rel)) [
            | inl failed ↦ rw (valid, there, failed) (inr (inl (inl refl)))
            | inr gone ↦ rw (valid, there, gone) (inl (ground (arith, erased, eq_refl rel)))
          ]
        ]
      ]

  remove_checked-other :
      (j : String) (s : Run) → IsCleared rel s → IsCleared rel (remove_checked os old j s)
  unfolding remove_checked remove_file
  remove_checked-other j s h =
      let erased = lookup-erase j rel s.disk in
      elim (Bool-cases (valid_managed_file_path j)) [
        | inr ignored ↦ rw ignored (ground arith)
        | inl valid ↦ elim (Option-cases (lookup j s.disk)) [
          | inl missing ↦ rw (valid, missing) h
          | inr (cur, there) ↦ elim (Bool-cases (os.remove_fails j)) [
            | inl failed ↦ rw (valid, there, failed) (ground arith)
            | inr gone ↦ rw (valid, there, gone) (ground (arith, erased, eq_iff j rel))
          ]
        ]
      ]

  remove_checked-Settled :
      (want : DesiredFile) (j : String) (s : Run)
      → j ≢ rel
      → Settled rel want s
      → Settled rel want (remove_checked os old j s)
  unfolding remove_checked remove_file
  remove_checked-Settled want j s other h =
      let erased = lookup-erase j rel s.disk in
      elim (Bool-cases (valid_managed_file_path j)) [
        | inr ignored ↦ rw ignored h
        | inl valid ↦ elim (Option-cases (lookup j s.disk)) [
          | inl missing ↦ rw (valid, missing) h
          | inr (cur, there) ↦ elim (Bool-cases (os.remove_fails j)) [
            | inl failed ↦ rw (valid, there, failed) (ground arith)
            | inr gone ↦ rw (valid, there, gone) (ground (arith, erased, eq_iff j rel))
          ]
        ]
      ]

  pub remove_loop-Settled :
      (want : DesiredFile) (desired : Assoc DesiredFile) (rels : List String) (s s' : Run)
      → lookup rel desired ≡ some want
      → Settled rel want s
      → remove_loop os old desired rels s ≡ done s'
      → Settled rel want s'
  remove_loop-Settled want desired rels s s' there h e =
      remove_loop_keeps os old rel (Settled rel want) desired rels s s'
        (remove_checked-Settled want) (λ absent. cc) h e

  remove_loop-other :
      (desired : Assoc DesiredFile) (rels : List String) (s s' : Run)
      → IsCleared rel s
      → remove_loop os old desired rels s ≡ done s'
      → IsCleared rel s'
  unfolding remove_loop
  remove_loop-other desired [] s s' h e = rw (← done_inj e) h
  remove_loop-other desired (j ∷ rels) s s' h e =
      let (m, first, after) = and_then_done _ _ s' e in
      elim (remove_entry_done os old j s m (lookup j desired) first) [
        | inl (wanted, same) ↦ remove_loop-other desired rels m s' (rw (← same) h) after
        | inr (unwanted, removed) ↦
            remove_loop-other desired rels m s' (rw (← removed) (remove_checked-other j s h)) after
      ]

  pub remove_loop-IsCleared :
      (desired : Assoc DesiredFile) (rels : List String) (s s' : Run)
      → lookup rel desired ≡ none
      → contains rels rel ≡ true
      → remove_loop os old desired rels s ≡ done s'
      → IsCleared rel s'
  unfolding remove_loop contains
  remove_loop-IsCleared desired [] s s' absent h e = cc
  remove_loop-IsCleared desired (j ∷ rels) s s' absent h e =
      let (m, first, after) = and_then_done _ _ s' e in
      elim (Bool-cases (j == rel)) [
        | inr other ↦ remove_loop-IsCleared desired rels m s' absent (ground arith) after
        | inl same ↦
            let here : j ≡ rel = (eq_iff j rel).0 same in
            elim (remove_entry_done os old j s m (lookup j desired) first) [
              | inl (wanted, kept) ↦ absurd (wanted (rw here absent))
              | inr (unwanted, removed) ↦
                  remove_loop-other desired rels m s'
                    (rw (← removed) (rw here (remove_checked-IsCleared s))) after
            ]
      ]
