-- ===== src/SyncClient/Reconcile/Loops.antt =====
-- A fact about one path through the two loops: its own step makes it, the steps for other paths keep
-- it.
use orbeat_community.Prelude.{
  some_inj, String, ◌≡◌, ◌≢◌, ◌⊎◌, refl, ap, inl, inr, Option, none, some, List, [], ◌∷◌, ◌==◌,
  arith, eq_iff, Bool-cases,
}
use orbeat_community.Prelude.Assoc.{Assoc, lookup, Distinct}
use orbeat_community.SyncClient.Reconcile.{
  DesiredFile, Os, Run, Outcome, done, aborted, run_of, and_then, write_entry, write_loop,
  remove_checked, remove_entry, remove_loop,
}

pub done_inj : {a b : Run} → done a ≡ done b → a ≡ b
done_inj e = ap run_of e

-- A step and what follows it are done only where both are.
pub and_then_done :
    (o : Outcome) (f : Run → Outcome) (s : Run)
    → and_then o f ≡ done s
    → (m : Run) × (o ≡ done m) × (f m ≡ done s)
and_then_done (done m) f s e = (m, refl, e)
and_then_done (aborted er m) f s e = cc

-- A step that is not aborted leaves the run as it is or removes the entry.
pub remove_entry_done :
    (os : Os) (old : List String) (j : String) (s s' : Run) (o : Option DesiredFile)
    → remove_entry os old j s o ≡ done s'
    → ((o ≢ none) × (s ≡ s')) ⊎ ((o ≡ none) × (remove_checked os old j s ≡ s'))
unfolding remove_entry
remove_entry_done os old j s s' (some want) e = inl (λ absent. cc, done_inj e)
remove_entry_done os old j s s' none e = elim (Bool-cases (os.contained j)) [
  | inr escaping ↦ cc (rw escaping at e)
  | inl inside ↦ inr (refl, done_inj (rw inside at e))
]

module _ (os : Os) (old : List String) (rel : String) (P : Run → Type 0) where
  -- The steps of the write loop for other paths keep the fact.
  abbrev pub KeptByWrites : Type 0
  KeptByWrites =
      (j : String) (w : DesiredFile) (s : Run) → j ≢ rel → P s → P (write_entry os old j w s)

  -- The removals of other paths keep the fact.
  abbrev pub KeptByRemovals : Type 0
  KeptByRemovals = (j : String) (s : Run) → j ≢ rel → P s → P (remove_checked os old j s)

  pub write_loop_keeps :
      (rest : Assoc DesiredFile) (s : Run)
      → KeptByWrites
      → lookup rel rest ≡ none
      → P s
      → P (run_of (write_loop os old rest s))
  unfolding write_loop lookup
  write_loop_keeps [] s kept absent h = h
  write_loop_keeps ((j, w) ∷ rest) s kept absent h =
      let other : j ≢ rel = ground (arith, eq_iff j rel) in
      let absent' : lookup rel rest ≡ none = ground arith in
      elim (Bool-cases (os.contained j)) [
        | inr escaping ↦ rw escaping h
        | inl inside ↦
            rw inside
              (write_loop_keeps rest (write_entry os old j w s) kept absent' (kept j w s other h))
      ]

  -- The removal loop never removes what is desired.
  pub remove_loop_keeps :
      (desired : Assoc DesiredFile) (rels : List String) (s s' : Run)
      → KeptByRemovals
      → lookup rel desired ≢ none
      → P s
      → remove_loop os old desired rels s ≡ done s'
      → P s'
  unfolding remove_loop
  remove_loop_keeps desired [] s s' kept there h e = rw (← done_inj e) h
  remove_loop_keeps desired (j ∷ rels) s s' kept there h e =
      let (m, first, after) = and_then_done _ _ s' e in
      elim (remove_entry_done os old j s m (lookup j desired) first) [
        | inl (wanted, same) ↦ remove_loop_keeps desired rels m s' kept there (rw (← same) h) after
        | inr (unwanted, removed) ↦
            let other : j ≢ rel = λ same. there (rw same at unwanted) in
            remove_loop_keeps desired rels m s' kept there (rw (← removed) (kept j s other h)) after
      ]

-- The path's own step makes the fact P where Q holds, which it does before that step.
pub write_loop_makes :
    (os : Os) (old : List String) (rel : String) (want : DesiredFile) (Q P : Run → Type 0)
    (desired : Assoc DesiredFile) (s s' : Run)
    → ((s : Run) → Q s → P (write_entry os old rel want s))
    → KeptByWrites os old rel Q
    → KeptByWrites os old rel P
    → Distinct desired
    → lookup rel desired ≡ some want
    → Q s
    → write_loop os old desired s ≡ done s'
    → P s'
unfolding write_loop lookup
write_loop_makes os old rel want Q P [] s s' own before kept distinct there q e = cc
write_loop_makes os old rel want Q P ((j, w) ∷ rest) s s' own before kept (once, distinct) there q
      e =
    elim (Bool-cases (os.contained j)) [
      | inr escaping ↦ cc (rw escaping at e)
      | inl inside ↦
          let t = write_entry os old j w s in
          let e' : write_loop os old rest t ≡ done s' = rw inside at e in
          elim (Bool-cases (j == rel)) [
            | inr other ↦
                let apart : j ≢ rel = ground (arith, eq_iff j rel) in
                write_loop_makes os old rel want Q P rest t s' own before kept distinct
                  (rw other at there) (before j w s apart q) e'
            | inl same ↦
                let here : j ≡ rel = (eq_iff j rel).0 same in
                let ours : w ≡ want = some_inj (rw same at there) in
                let h : P t = rw (here, ours) (own s q) in
                rw e' at (write_loop_keeps os old rel P rest t kept (rw (← here) once) h)
          ]
    ]
