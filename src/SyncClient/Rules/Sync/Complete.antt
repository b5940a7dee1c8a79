-- ===== src/SyncClient/Rules/Sync/Complete.antt =====
-- A run leaves no block that the ledger does not name.
use orbeat_community.Prelude.{
  ℕ, String, ◌≡◌, ◌≢◌, ◌⊎◌, refl, sym, ap, subst, inl, inr, Bool, true, false, ◌||◌, List, [], ◌∷◌,
  ◌++◌, ◌==◌, eq_iff, contains, Among, All, arith, Bool-cases,
}
use orbeat_community.Prelude.Results.{ok, Result-cases}
use orbeat_community.Text.Pattern.{Chars}
use orbeat_community.SyncClient.Rules.{Rule}
use orbeat_community.SyncClient.Rules.Files.{ManagedFile, Disk, Os, vanished, Outcome}
use orbeat_community.SyncClient.Rules.Files.Effects.{
  Carries, Elsewhere, strip_rules_from_project-Elsewhere, strip_rules_from_project-clears,
}
use orbeat_community.SyncClient.Rules.Sync.{
  Project, Run, has_no, live_projects, not_live, valid_rules_path, record_strip, strip_entry,
  strip_pass, clean_paths, dedupe, sync_rules, Synced, save, collect_rules, project_scoped,
  reconcile_rules,
}
use orbeat_community.SyncClient.Rules.Sync.Ledger.{
  Covers, keep_not_live-Covers, write_pass-Covers, looked_at, noted_entry,
}

nil_of_has_no : (fs : List ManagedFile) → has_no fs ≡ true → fs ≡ []
nil_of_has_no [] h = refl
nil_of_has_no (f ∷ fs) h = cc

or_cases : (a b : Bool) → (a || b) ≡ true → (a ≡ true) ⊎ (b ≡ true)
or_cases true b h = inl refl
or_cases false b h = inr h

-- An entry whose project is settled in the ledger.
settled_entry :
    (s : Run) (p : String) (old : List String)
    → Covers s (p ∷ old)
    → Among p s.new_ledger
    → Covers s old
settled_entry s p old h found = record {
  named = λ r carries. elim (h.named r carries) [
    | inl new ↦ inl new
    | inr later ↦ elim later [
      | inl same ↦ inl (subst (λ x. Among x s.new_ledger) same found)
      | inr rest ↦ inr rest
    ]
  ];
  desired_named = h.desired_named;
  failed_named = h.failed_named;
}

module _ (digest : Chars → Chars) (clean : String → String) (is_abs : String → Bool) (os : Os) where
  record_strip-Covers :
      (p : String) (s : Run) (o : Outcome (ℕ × List ManagedFile)) (old : List String)
      → Covers s (p ∷ old)
      → p ≡ clean p
      → Elsewhere p s.disk o.disk
      → (o.failed ≡ false → o.value.1 ≡ [] → ¬ Carries o.disk p)
      → Covers (record_strip digest clean is_abs os p s o) old
  unfolding record_strip
  record_strip-Covers p s o old h is_clean elsewhere clears = elim (Bool-cases o.failed) [
    | inl fails ↦ rw fails (
        noted_entry digest clean is_abs os s _ p old h elsewhere
          (ap (λ c. s.new_ledger ++ c ∷ []) (sym is_clean)) refl refl)
    | inr fine ↦ rw fine (elim (Bool-cases (has_no o.value.1)) [
      | inl all ↦ rw all (
          looked_at digest clean is_abs os s _ p old h elsewhere refl refl refl
            (λ carries. absurd (clears fine (nil_of_has_no o.value.1 all) carries)))
      | inr skipped ↦ rw skipped (
          noted_entry digest clean is_abs os s _ p old h elsewhere
            (ap (λ c. s.new_ledger ++ c ∷ []) (sym is_clean)) refl refl)
    ])
  ]

  module _ (there : (r : String) → os.is_directory r ≡ true → os.open_root r ≢ vanished)
      (registered : List String) where
    strip_entry-Covers :
        (p : String) (s : Run) (old : List String)
        → valid_rules_path digest clean is_abs os p ≡ true
        → Covers s (p ∷ old)
        → Covers (strip_entry digest clean is_abs os registered p s) old
    unfolding strip_entry valid_rules_path
    strip_entry-Covers p s old valid h =
        let is_clean : p ≡ clean p = (eq_iff p (clean p)).0 (ground arith) in
        let noted_last = ap (λ c. s.new_ledger ++ c ∷ []) (sym is_clean) in
        elim (Bool-cases (contains s.desired (clean p) || contains s.failed (clean p))) [
          | inl settled ↦ rw settled (
              settled_entry s p old h (
                subst (λ x. Among x s.new_ledger) (sym is_clean)
                  (elim (or_cases _ _ settled) [
                    | inl d ↦ h.desired_named (clean p) d
                    | inr f ↦ h.failed_named (clean p) f
                  ])))
          | inr open_entry ↦
              rw (open_entry, valid)
                (elim (Bool-cases (contains registered (clean p))) [
                  | inl known ↦ rw known (elim (Bool-cases (os.is_directory p)) [
                    | inl directory ↦ rw directory (
                        record_strip-Covers p s _ old h is_clean
                          (strip_rules_from_project-Elsewhere os s.disk p)
                          (strip_rules_from_project-clears os s.disk p (there p directory)))
                    | inr unreachable ↦ rw unreachable (
                        noted_entry digest clean is_abs os s _ p old h (λ r other f. refl)
                          noted_last refl refl)
                  ])
                  | inr unknown ↦ rw unknown (
                      noted_entry digest clean is_abs os s _ p old h (λ r other f. refl) noted_last
                        refl refl)
                ])
        ]

    strip_pass-Covers :
        (ledger : List String) (s : Run)
        → All (λ p. valid_rules_path digest clean is_abs os p ≡ true) ledger
        → Covers s ledger
        → Covers (strip_pass digest clean is_abs os registered ledger s) []
    unfolding strip_pass
    strip_pass-Covers [] s valid h = h
    strip_pass-Covers (p ∷ ledger) s (valid, rest) h =
        strip_pass-Covers ledger _ rest (strip_entry-Covers p s ledger valid h)

  Among-dedupe :
      (r : String) (seen ps : List String)
      → Among r ps
      → Among r (dedupe digest clean is_abs os seen ps) ⊎ (contains seen r ≡ true)
  unfolding dedupe contains
  Among-dedupe r seen [] h = absurd h
  Among-dedupe r seen (p ∷ ps) h = elim (Bool-cases (contains seen p)) [
    | inl old ↦ rw old (elim h [
      | inl same ↦ inr (subst (λ x. contains seen x ≡ true) same old)
      | inr later ↦ Among-dedupe r seen ps later
    ])
    | inr new ↦ rw new (elim h [
      | inl same ↦ inl (inl same)
      | inr later ↦ elim (Among-dedupe r (p ∷ seen) ps later) [
        | inl found ↦ inl (inr found)
        | inr known ↦ elim (Bool-cases (p == r)) [
          | inl same ↦ inl (inl ((eq_iff p r).0 same))
          | inr other ↦ inr (rw other at known)
        ]
      ]
    ])
  ]

  sync_rules-Covers :
      (projects : List Project) (rules : List Rule) (ledger : List String) (d : Disk)
      → ((r : String) → os.is_directory r ≡ true → os.open_root r ≢ vanished)
      → All (λ p. valid_rules_path digest clean is_abs os p ≡ true) ledger
      → ((r : String) → Carries d r → Among r ledger)
      → Covers (sync_rules digest clean is_abs os projects rules ledger d) []
  unfolding sync_rules contains
  sync_rules-Covers projects rules ledger d there valid named =
      strip_pass-Covers there (clean_paths digest clean is_abs os projects) ledger _ valid (
        write_pass-Covers digest clean is_abs os rules
          (live_projects digest clean is_abs os projects) _ ledger
          (keep_not_live-Covers digest clean is_abs os (not_live digest clean is_abs os projects)
            ledger ledger _
            (record {
              named = λ r carries. inr (named r carries);
              desired_named = λ r e. cc;
              failed_named = λ r e. cc;
            })))

-- No block is stranded: where the ledger names every project that carries one, it does so after a
-- run too, whatever the projects, the rules and the operations that fail; so each block can still
-- be taken out by a later run. The entries of the ledger are well-formed, no root vanishes between
-- the test of it and its opening, the run is not aborted and the manifest is saved.
pub reconcile_rules-Among :
    (digest : Chars → Chars) (clean : String → String) (is_abs : String → Bool) (os : Os)
    (sort : List Rule → List Rule) (projects : List Project) (artifacts : List Rule)
    (ledger : List String) (d : Disk) (y : Synced)
    → ((r : String) → os.is_directory r ≡ true → os.open_root r ≢ vanished)
    → All (λ p. valid_rules_path digest clean is_abs os p ≡ true) ledger
    → ((r : String) → Carries d r → Among r ledger)
    → reconcile_rules digest clean is_abs os false sort projects artifacts ledger d ≡ ok y
    → (r : String) → Carries y.disk r
    → Among r y.ledger
unfolding reconcile_rules save contains
reconcile_rules-Among digest clean is_abs os sort projects artifacts ledger d y there valid named
      run r carries =
    elim (Result-cases (collect_rules artifacts)) [
      | inl (e, unsafe) ↦ cc (rw unsafe at run)
      | inr (rules, collected) ↦
          let s =
            sync_rules digest clean is_abs os projects (project_scoped (sort rules)) ledger d in
          let done =
            sync_rules-Covers digest clean is_abs os projects (project_scoped (sort rules)) ledger d
              there valid named in
          let saved : ok (save digest clean is_abs os false ledger s) ≡ ok y =
            rw collected at run in
          let kept : Synced = record {
            disk = s.disk;
            ledger = dedupe digest clean is_abs os [] s.new_ledger;
            res = s.res;
          } in
          let is : kept ≡ y = cc in
          elim (done.named r (subst (λ (z : Synced). Carries z.disk r) (sym is) carries)) [
            | inl found ↦ elim (Among-dedupe digest clean is_abs os r [] s.new_ledger found) [
              | inl listed ↦ subst (λ (z : Synced). Among r z.ledger) is listed
              | inr seen ↦ cc
            ]
            | inr nothing ↦ absurd nothing
          ]
    ]
