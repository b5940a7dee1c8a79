-- ===== src/SyncClient/Reconcile/Stability.antt =====
-- What a run leaves at each path, so that another run has nothing to do there.
use orbeat_community.Prelude.{
  String, ◌≡◌, ◌≢◌, ◌⊎◌, refl, inl, inr, true, false, Option, none, some, List, [], ◌∷◌, ◌==◌,
  contains, arith, eq_iff, eq_refl, Bool-cases, Option-cases,
}
use orbeat_community.Prelude.Assoc.{Assoc, lookup, lookup-insert, lookup-erase}
use orbeat_community.SyncClient.ManagedPath.{valid_managed_file_path}
use orbeat_community.SyncClient.Reconcile.{
  DesiredFile, Os, Run, done, Action, adopt, skip, write, action_for, write_file, act, write_entry,
  remove_file, remove_checked, remove_loop,
}
use orbeat_community.SyncClient.Reconcile.Converges.{action_for-adopt}
use orbeat_community.SyncClient.Reconcile.Loops.{
  KeptByWrites, KeptByRemovals, done_inj, and_then_done, remove_entry_done,
}

-- At a desired path: the served bytes, or a file that orbeat does not own, or a path that cannot be
-- written.
abbrev pub Stable : Os → String → DesiredFile → Run → Type 0
Stable os rel want s =
    (lookup rel s.disk ≡ some want.content)
    ⊎ (((contains s.managed rel ≡ false) × ((cur : String) × (lookup rel s.disk ≡ some cur)))
        ⊎ (os.write_fails rel ≡ true))

-- The path is not in the ledger that is being rebuilt.
abbrev pub Unlisted : String → Run → Type 0
Unlisted rel s = contains s.managed rel ≡ false

-- In the rebuilt ledger only if it cannot be removed.
abbrev pub Stuck : Os → String → Run → Type 0
Stuck os rel s = contains s.managed rel ≡ true → os.remove_fails rel ≡ true

module _ (os : Os) (old : List String) (rel : String) where
  act-Unlisted :
      (j : String) (w : DesiredFile) (s : Run) (a : Action)
      → j ≢ rel
      → Unlisted rel s
      → Unlisted rel (act os old j w s a)
  unfolding act write_file contains
  act-Unlisted j w s adopt other h = ground (arith, eq_iff j rel)
  act-Unlisted j w s skip other h = h
  act-Unlisted j w s write other h = elim (Bool-cases (os.write_fails j)) [
    | inl failed ↦ rw failed (ground (arith, eq_iff j rel))
    | inr fine ↦ rw fine (ground (arith, eq_iff j rel))
  ]

  pub write_entry-Unlisted : KeptByWrites os old rel (Unlisted rel)
  unfolding write_entry
  write_entry-Unlisted j w s other h = act-Unlisted j w s _ other h

  act-Stuck :
      (j : String) (w : DesiredFile) (s : Run) (a : Action)
      → j ≢ rel
      → Stuck os rel s
      → Stuck os rel (act os old j w s a)
  unfolding act write_file contains
  act-Stuck j w s adopt other h = λ e. h (ground (arith, eq_iff j rel))
  act-Stuck j w s skip other h = h
  act-Stuck j w s write other h = elim (Bool-cases (os.write_fails j)) [
    | inl failed ↦ rw failed (λ e. h (ground (arith, eq_iff j rel)))
    | inr fine ↦ rw fine (λ e. h (ground (arith, eq_iff j rel)))
  ]

  pub write_entry-Stuck : KeptByWrites os old rel (Stuck os rel)
  unfolding write_entry
  write_entry-Stuck j w s other h = act-Stuck j w s _ other h

  remove_checked-Stuck :
      (j : String) (s : Run) → Stuck os rel s → Stuck os rel (remove_checked os old j s)
  unfolding remove_checked remove_file contains
  remove_checked-Stuck j s h = elim (Bool-cases (valid_managed_file_path j)) [
    | inr ignored ↦ rw ignored h
    | inl valid ↦ elim (Option-cases (lookup j s.disk)) [
      | inl missing ↦ rw (valid, missing) h
      | inr (cur, there) ↦ elim (Bool-cases (os.remove_fails j)) [
        | inr gone ↦ rw (valid, there, gone) h
        | inl failed ↦
            rw (valid, there, failed)
              (λ e. elim (Bool-cases (j == rel)) [
                | inl same ↦ rw (← (eq_iff j rel).0 same) failed
                | inr other ↦ h (ground arith)
              ])
      ]
    ]
  ]

  pub remove_loop-Stuck :
      (desired : Assoc DesiredFile) (rels : List String) (s s' : Run)
      → Stuck os rel s
      → remove_loop os old desired rels s ≡ done s'
      → Stuck os rel s'
  unfolding remove_loop
  remove_loop-Stuck desired [] s s' h e = rw (← done_inj e) h
  remove_loop-Stuck desired (j ∷ rels) s s' h e =
      let (m, first, after) = and_then_done _ _ s' e in
      elim (remove_entry_done os old j s m (lookup j desired) first) [
        | inl (wanted, same) ↦ remove_loop-Stuck desired rels m s' (rw (← same) h) after
        | inr (unwanted, removed) ↦
            remove_loop-Stuck desired rels m s' (rw (← removed) (remove_checked-Stuck j s h)) after
      ]

  module _ (want : DesiredFile) where
    act-own :
        (s : Run) (a : Action)
        → (a ≡ adopt → lookup rel s.disk ≡ some want.content)
        → (a ≡ skip → (cur : String) × (lookup rel s.disk ≡ some cur))
        → Unlisted rel s
        → Stable os rel want (act os old rel want s a)
    unfolding act write_file
    act-own s adopt same exists fresh = inl (same refl)
    act-own s skip same exists fresh = inr (inl (fresh, exists refl))
    act-own s write same exists fresh =
        let written = lookup-insert rel rel want.content s.disk in
        elim (Bool-cases (os.write_fails rel)) [
          | inl failed ↦ rw failed (inr (inr refl))
          | inr fine ↦ rw fine (inl (ground (arith, written, eq_refl rel)))
        ]

    action_for-skip :
        (o : Option String) → action_for os old rel want o ≡ skip → (cur : String) × (o ≡ some cur)
    unfolding action_for
    action_for-skip none e = cc
    action_for-skip (some cur) e = (cur, refl)

    pub write_entry-own :
        (s : Run) → Unlisted rel s → Stable os rel want (write_entry os old rel want s)
    unfolding write_entry
    write_entry-own s fresh =
        let o = lookup rel s.disk in
        act-own s (action_for os old rel want o) (action_for-adopt os old rel want o)
          (action_for-skip o) fresh

    act-Stable :
        (j : String) (w : DesiredFile) (s : Run) (a : Action)
        → j ≢ rel
        → Stable os rel want s
        → Stable os rel want (act os old j w s a)
    unfolding act write_file contains
    act-Stable j w s adopt other h = ground (arith, eq_iff j rel)
    act-Stable j w s skip other h = h
    act-Stable j w s write other h =
        let written = lookup-insert j rel w.content s.disk in
        elim (Bool-cases (os.write_fails j)) [
          | inl failed ↦ rw failed (ground (arith, eq_iff j rel))
          | inr fine ↦ rw fine (ground (arith, eq_iff j rel, written))
        ]

    pub write_entry-Stable : KeptByWrites os old rel (Stable os rel want)
    unfolding write_entry
    write_entry-Stable j w s other h = act-Stable j w s _ other h

    pub remove_checked-Stable : KeptByRemovals os old rel (Stable os rel want)
    unfolding remove_checked remove_file contains
    remove_checked-Stable j s other h =
        let erased = lookup-erase j rel s.disk in
        elim (Bool-cases (valid_managed_file_path j)) [
          | inr ignored ↦ rw ignored h
          | inl valid ↦ elim (Option-cases (lookup j s.disk)) [
            | inl missing ↦ rw (valid, missing) h
            | inr (cur, there) ↦ elim (Bool-cases (os.remove_fails j)) [
              | inl failed ↦ rw (valid, there, failed) (ground (arith, eq_iff j rel))
              | inr gone ↦ rw (valid, there, gone) (ground (arith, erased, eq_iff j rel))
            ]
          ]
        ]
