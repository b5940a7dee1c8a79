-- ===== src/SyncClient/Rules/Sync/Ledger.antt =====
-- The ledger names every project that carries a block, which nothing else records.
use orbeat_community.Prelude.{
  String, ◌≡◌, ◌≢◌, ◌⊎◌, refl, sym, subst, inl, inr, Bool, true, List, [], ◌∷◌, ◌++◌, ◌==◌, eq_iff,
  contains, Among, arith, Bool-cases,
}
use orbeat_community.Text.Pattern.{Chars}
use orbeat_community.SyncClient.Rules.{Rule, rules_for, render_rules_body}
use orbeat_community.SyncClient.Rules.Files.{agents, claude, Disk, Os, Outcome, MergeReport}
use orbeat_community.SyncClient.Rules.Files.Effects.{
  Carries, Elsewhere, write_rules_to_project-Elsewhere,
}
use orbeat_community.SyncClient.Rules.Sync.{
  Project, Run, keep_not_live, record_write, write_matched, write_projects, write_pass,
}

-- What the strip pass has still to look at, `old`, and what is in the new ledger name every project
-- that carries a block; and what is settled already is in the new ledger.
pub record Covers (s : Run) (old : List String) : Type 0 where
  pub named : (r : String) → Carries s.disk r → Among r s.new_ledger ⊎ Among r old
  pub desired_named : (r : String) → contains s.desired r ≡ true → Among r s.new_ledger
  pub failed_named : (r : String) → contains s.failed r ≡ true → Among r s.new_ledger

Among-append : (r : String) (xs ys : List String) → Among r xs → Among r (xs ++ ys)
Among-append r [] ys h = absurd h
Among-append r (x ∷ xs) ys (inl here) = inl here
Among-append r (x ∷ xs) ys (inr later) = inr (Among-append r xs ys later)

Among-append_last : (r : String) (xs : List String) → Among r (xs ++ r ∷ [])
Among-append_last r [] = inl refl
Among-append_last r (x ∷ xs) = inr (Among-append_last r xs)

-- A name is another, or is added.
Among-added : (r c : String) (xs : List String) → (r ≢ c → Among r xs) → Among r (xs ++ c ∷ [])
Among-added r c xs h = elim (Bool-cases (r == c)) [
  | inl same ↦ subst (λ x. Among r (xs ++ x ∷ [])) ((eq_iff r c).0 same) (Among-append_last r xs)
  | inr other ↦ Among-append r xs (c ∷ []) (h (λ e. cc (other, (eq_iff r c).1 e)))
]

-- The same for what was found or is still to come.
named-added :
    (r c : String) (xs old : List String)
    → (r ≢ c → Among r xs ⊎ Among r old)
    → Among r (xs ++ c ∷ []) ⊎ Among r old
named-added r c xs old h = elim (Bool-cases (r == c)) [
  | inl same ↦
      inl (subst (λ x. Among r (xs ++ x ∷ [])) ((eq_iff r c).0 same) (Among-append_last r xs))
  | inr other ↦ elim (h (λ e. cc (other, (eq_iff r c).1 e))) [
    | inl found ↦ inl (Among-append r xs (c ∷ []) found)
    | inr later ↦ inr later
  ]
]

Carries-Elsewhere :
    (c r : String) (d d' : Disk) → Elsewhere c d d' → r ≢ c → Carries d' r → Carries d r
Carries-Elsewhere c r d d' elsewhere other (inl h) = inl (rw (elsewhere r other agents) at h)
Carries-Elsewhere c r d d' elsewhere other (inr h) = inr (rw (elsewhere r other claude) at h)

contains-cons :
    (x r : String) (xs : List String) → contains (x ∷ xs) r ≡ true → r ≢ x → contains xs r ≡ true
unfolding contains
contains-cons x r xs h other = ground (arith, eq_iff x r)

-- A step that writes below one root and notes it in the ledger, and settles it there at most.
noted :
    (s s' : Run) (c : String) (old : List String)
    → Covers s old
    → Elsewhere c s.disk s'.disk
    → s'.new_ledger ≡ s.new_ledger ++ c ∷ []
    → ((r : String) → r ≢ c → contains s'.desired r ≡ true → contains s.desired r ≡ true)
    → ((r : String) → r ≢ c → contains s'.failed r ≡ true → contains s.failed r ≡ true)
    → Covers s' old
noted s s' c old h elsewhere ledger desired failed = record {
  named = λ r carries.
      subst (λ (l : List String). Among r l ⊎ Among r old) (sym ledger)
        (named-added r c s.new_ledger old
          (λ other. h.named r (Carries-Elsewhere c r s.disk s'.disk elsewhere other carries)));
  desired_named = λ r e.
      subst (λ (l : List String). Among r l) (sym ledger)
        (Among-added r c s.new_ledger (λ other. h.desired_named r (desired r other e)));
  failed_named = λ r e.
      subst (λ (l : List String). Among r l) (sym ledger)
        (Among-added r c s.new_ledger (λ other. h.failed_named r (failed r other e)));
}

module _ (digest : Chars → Chars) (clean : String → String) (is_abs : String → Bool) (os : Os) where
  pub keep_not_live-Covers :
      (gone ledger old : List String) (s : Run)
      → Covers s old
      → Covers (keep_not_live digest clean is_abs os gone ledger s) old
  unfolding keep_not_live
  keep_not_live-Covers gone [] old s h = h
  keep_not_live-Covers gone (p ∷ ledger) old s h =
      let s' : Run = record s {
        failed = clean p ∷ s.failed;
        new_ledger = s.new_ledger ++ clean p ∷ [];
      } in
      let kept : Covers s' old =
        noted s s' (clean p) old h (λ r other f. refl) refl (λ r other e. e)
          (λ r other e. contains-cons (clean p) r s.failed e other) in
      elim (Bool-cases (contains gone (clean p))) [
        | inl is_gone ↦ rw is_gone (keep_not_live-Covers gone ledger old s' kept)
        | inr stays ↦ rw stays (keep_not_live-Covers gone ledger old s h)
      ]

  record_write-Covers :
      (p : Project) (matched : List Rule) (s : Run) (o : Outcome MergeReport) (old : List String)
      → Covers s old
      → Elsewhere (clean p.path) s.disk o.disk
      → Covers (record_write digest clean is_abs os p matched s o) old
  unfolding record_write
  record_write-Covers p matched s o old h elsewhere = elim (Bool-cases o.failed) [
    | inl fails ↦ rw fails (
        noted s _ (clean p.path) old h elsewhere refl (λ r other e. e)
          (λ r other e. contains-cons (clean p.path) r s.failed e other))
    | inr fine ↦ rw fine (
        noted s _ (clean p.path) old h elsewhere refl
          (λ r other e. contains-cons (clean p.path) r s.desired e other) (λ r other e. e))
  ]

  write_matched-Covers :
      (p : Project) (matched : List Rule) (s : Run) (old : List String)
      → Covers s old
      → Covers (write_matched digest clean is_abs os p matched s) old
  unfolding write_matched
  write_matched-Covers p [] s old h = h
  write_matched-Covers p (r ∷ rules) s old h = record_write-Covers p (r ∷ rules) s _ old h (
      write_rules_to_project-Elsewhere os digest s.disk (clean p.path)
        (render_rules_body (r ∷ rules)))

  write_projects-Covers :
      (rules : List Rule) (live : List Project) (s : Run) (old : List String)
      → Covers s old
      → Covers (write_projects digest clean is_abs os rules live s) old
  unfolding write_projects
  write_projects-Covers rules [] s old h = h
  write_projects-Covers rules (p ∷ live) s old h =
      write_projects-Covers rules live _ old
        (write_matched-Covers p (rules_for rules p.tags) s old h)

  pub write_pass-Covers :
      (rules : List Rule) (live : List Project) (s : Run) (old : List String)
      → Covers s old
      → Covers (write_pass digest clean is_abs os rules live s) old
  unfolding write_pass
  write_pass-Covers [] live s old h = h
  write_pass-Covers (r ∷ rules) live s old h =
      let h' = write_projects-Covers (r ∷ rules) live s old h in
      record { named = h'.named; desired_named = h'.desired_named; failed_named = h'.failed_named }

  -- What is looked at is in the ledger, or carries no block.
  pub looked_at :
      (s s' : Run) (p : String) (old : List String)
      → Covers s (p ∷ old)
      → Elsewhere p s.disk s'.disk
      → s'.new_ledger ≡ s.new_ledger
      → s'.desired ≡ s.desired
      → s'.failed ≡ s.failed
      → (Carries s'.disk p → Among p s'.new_ledger)
      → Covers s' old
  looked_at s s' p old h elsewhere ledger desired failed here = record {
    named = λ r carries. elim (Bool-cases (r == p)) [
      | inl same ↦
          let e = (eq_iff r p).0 same in
          inl (
            subst (λ x. Among x s'.new_ledger) (sym e)
              (here (subst (λ x. Carries s'.disk x) e carries)))
      | inr other ↦
          let differs : r ≢ p = λ e. cc (other, (eq_iff r p).1 e) in
          elim (h.named r (Carries-Elsewhere p r s.disk s'.disk elsewhere differs carries)) [
            | inl found ↦ inl (subst (λ (l : List String). Among r l) (sym ledger) found)
            | inr later ↦ elim later [
              | inl same ↦ absurd (differs (sym same))
              | inr rest ↦ inr rest
            ]
          ]
    ];
    desired_named = λ r e.
        subst (λ (l : List String). Among r l) (sym ledger)
          (h.desired_named r (subst (λ (l : List String). contains l r ≡ true) desired e));
    failed_named = λ r e.
        subst (λ (l : List String). Among r l) (sym ledger)
          (h.failed_named r (subst (λ (l : List String). contains l r ≡ true) failed e));
  }

  -- The entry that was noted needs no other look.
  pub noted_entry :
      (s s' : Run) (p : String) (old : List String)
      → Covers s (p ∷ old)
      → Elsewhere p s.disk s'.disk
      → s'.new_ledger ≡ s.new_ledger ++ p ∷ []
      → s'.desired ≡ s.desired
      → s'.failed ≡ s.failed
      → Covers s' old
  noted_entry s s' p old h elsewhere ledger desired failed =
      let all =
        noted s s' p (p ∷ old) h elsewhere ledger
          (λ r other e. subst (λ (l : List String). contains l r ≡ true) desired e)
          (λ r other e. subst (λ (l : List String). contains l r ≡ true) failed e) in
      let last : Among p s'.new_ledger =
        subst (λ (l : List String). Among p l) (sym ledger) (Among-append_last p s.new_ledger) in
      record {
        named = λ r carries. elim (all.named r carries) [
          | inl found ↦ inl found
          | inr later ↦ elim later [
            | inl same ↦ inl (subst (λ x. Among x s'.new_ledger) same last)
            | inr rest ↦ inr rest
          ]
        ];
        desired_named = all.desired_named;
        failed_named = all.failed_named;
      }
