-- ===== src/SyncClient/Rules/Removal/Watched.antt =====
-- A block that stays in a removed project's files stays in the ledger.
use orbeat_community.Prelude.{
  String, ◌≡◌, ◌≢◌, ◌⊎◌, refl, sym, ap, ◌∙◌, inl, inr, Bool, true, ◌||◌, List, [], ◌∷◌, ◌==◌, not,
  Among, eq_iff, Bool-cases,
}
use orbeat_community.SyncClient.Rules.Files.{
  ManagedFile, Disk, Os, vanished, strip_rules_from_project,
}
use orbeat_community.SyncClient.Rules.Files.Effects.{Carries, strip_rules_from_project-clears}
use orbeat_community.SyncClient.Rules.Sync.{has_no}
use orbeat_community.SyncClient.Rules.Removal.{kept_entries, record_removal, strip_project_rules}

has_no_nil : (fs : List ManagedFile) → has_no fs ≡ true → fs ≡ []
has_no_nil [] h = refl
has_no_nil (f ∷ fs) h = cc

module _ (clean : String → String) (proj : String) where
  kept_entries-Among :
      (keep : Bool) (ledger : List String) (p : String)
      → Among p ledger
      → (clean p ≢ clean proj) ⊎ (keep ≡ true)
      → Among p (kept_entries clean keep proj ledger)
  unfolding kept_entries
  kept_entries-Among keep [] p there why = there
  kept_entries-Among keep (q ∷ ledger) p (inl e) why = elim (Bool-cases (clean q == clean proj)) [
    | inr other ↦ rw other (inl e)
    | inl same ↦ elim why [
      | inl apart ↦ absurd (apart (ap clean (sym e) ∙ (eq_iff (clean q) (clean proj)).0 same))
      | inr keeps ↦ rw (same, keeps) (inl e)
    ]
  ]
  kept_entries-Among keep (q ∷ ledger) p (inr later) why =
      let rest = kept_entries-Among keep ledger p later why in
      elim (Bool-cases (clean q == clean proj)) [
        | inr other ↦ rw other (inr rest)
        | inl same ↦ elim (Bool-cases keep) [
          | inl keeps ↦ rw (same, keeps) (inr rest)
          | inr drops ↦ rw (same, drops) rest
        ]
      ]

  -- Where a block is left, the strip failed or skipped a file.
  left-kept :
      (os : Os) (d : Disk)
      → os.open_root proj ≢ vanished
      → Carries (strip_rules_from_project os d proj).disk proj
      → ((strip_rules_from_project os d proj).failed
          || not (has_no (strip_rules_from_project os d proj).value.1))
        ≡ true
  left-kept os d there carries =
      let o = strip_rules_from_project os d proj in
      elim (Bool-cases o.failed) [
        | inl failed ↦ rw failed refl
        | inr fine ↦ elim (Bool-cases (has_no o.value.1)) [
          | inr skipped ↦ rw (fine, skipped) refl
          | inl none_skipped ↦ absurd (
              strip_rules_from_project-clears os d proj there fine
                (has_no_nil o.value.1 none_skipped) carries)
        ]
      ]

-- When a project is removed, and its directory did not vanish: an entry of the ledger stays there if
-- it is another project's, or if a file of the project still holds a block, whatever failed.
pub strip_project_rules-Among :
    (clean : String → String) (os : Os) (load_fails save_fails : Bool) (proj : String)
    (ledger : List String) (d : Disk) (p : String)
    → os.open_root proj ≢ vanished
    → Among p ledger
    → (clean p ≢ clean proj)
      ⊎ Carries (strip_project_rules clean os load_fails save_fails proj ledger d).disk proj
    → Among p (strip_project_rules clean os load_fails save_fails proj ledger d).ledger
unfolding strip_project_rules record_removal
strip_project_rules-Among clean os load_fails save_fails proj ledger d p there listed why =
    elim (Bool-cases load_fails) [
      | inl unread ↦ rw unread listed
      | inr read ↦ elim (Bool-cases save_fails) [
        | inl unsaved ↦ rw (read, unsaved) listed
        | inr saved ↦
            rw (read, saved)
              (kept_entries-Among clean proj _ ledger p listed (elim why [
                | inl apart ↦ inl apart
                | inr carries ↦ inr (left-kept clean proj os d there (rw read at carries))
              ]))
      ]
    ]
