-- ===== src/SyncClient/Rules/Files/Effects.antt =====
-- What the operations on a project's files change, and what stripping leaves.
use orbeat_community.Prelude.{
  ℕ, String, ◌≡◌, ◌≢◌, ◌⊎◌, refl, sym, ap, ◌∙◌, inl, inr, Bool, true, false, ◌&&◌, ◌||◌, Option,
  none, some, List, [], ◌∷◌, ◌++◌, ◌==◌, eqb, eq_iff, eq_refl, arith, Bool-cases, if_true, if_false,
}
use orbeat_community.Text.Pattern.{Chars}
use orbeat_community.SyncClient.Block.{find_block}
use orbeat_community.SyncClient.Rules.{
  rules_marks, rules_markers_healthy, Merged, merge_rules, strip_rules,
}
use orbeat_community.SyncClient.Rules.Stripping.{strip_rules_done, strip_rules_zero}
use orbeat_community.SyncClient.Rules.Files.{
  ManagedFile, agents, claude, same_file, Disk, write_file, Opened, open_error, vanished, opened,
  Os, text_of, cannot_read, merge_written, merge_rules_file, merge_both, write_opened,
  rules_claude_import, write_rules_to_project, strip_written, strip_read, strip_rules_file,
  strip_both, strip_opened, strip_rules_from_project,
}

-- A file holds a block.
abbrev pub HasBlock : Option Chars → Type 0
HasBlock none = ⊥
HasBlock (some s) = find_block rules_marks s ≢ none

-- A project carries a block, in either file.
abbrev pub Carries : Disk → String → Type 0
Carries d r = HasBlock (d r agents) ⊎ HasBlock (d r claude)

pub same_file_refl : (f : ManagedFile) → same_file f f ≡ true
same_file_refl agents = refl
same_file_refl claude = refl

-- At most one file is written.
abbrev pub Touches : String → ManagedFile → Disk → Disk → Type 0
Touches root file d d' = (d' ≡ d) ⊎ ((t : Chars) × (d' ≡ write_file root file t d))

-- Two disks agree but at a root.
abbrev pub Elsewhere : String → Disk → Disk → Type 0
Elsewhere root d d' = (r : String) → r ≢ root → (f : ManagedFile) → d' r f ≡ d r f

Touches-Elsewhere :
    (root : String) (file : ManagedFile) (d d' : Disk)
    → Touches root file d d'
    → Elsewhere root d d'
Touches-Elsewhere root file d d' (inl same) r other f = ap (λ (e : Disk). e r f) same
Touches-Elsewhere root file d d' (inr (t, e)) r other f =
    ap (λ (x : Disk). x r f) e ∙ elim (Bool-cases (root == r)) [
      | inl own ↦ absurd (other (sym ((eq_iff root r).0 own)))
      | inr elsewhere ↦ rw elsewhere
    ]

Touches-other_file :
    (root r : String) (file other : ManagedFile) (d d' : Disk)
    → same_file file other ≡ false
    → Touches root file d d'
    → d' r other ≡ d r other
Touches-other_file root r file other d d' differs (inl same) = ap (λ (e : Disk). e r other) same
Touches-other_file root r file other d d' differs (inr (t, e)) =
    ap (λ (x : Disk). x r other) e ∙ ground arith

Elsewhere-trans :
    (root : String) (d d' d'' : Disk)
    → Elsewhere root d d'
    → Elsewhere root d' d''
    → Elsewhere root d d''
Elsewhere-trans root d d' d'' h h' r other f = h' r other f ∙ h r other f

module _ (os : Os) where
  merge_written-failed :
      (d : Disk) (root : String) (file : ManagedFile) (m : Merged)
      → (merge_written os d root file m).failed ≡ true
      → (merge_written os d root file m).disk ≡ d
  unfolding merge_written
  merge_written-failed d root file m h = elim (Bool-cases (m.changed && os.write_fails root file)) [
    | inl fails ↦ rw fails refl
    | inr fine ↦ cc (rw fine at h)
  ]

  -- A merge that fails changes nothing.
  pub merge_rules_file-failed :
      (digest : Chars → Chars) (d : Disk) (root : String) (file : ManagedFile) (body : Chars)
      → (merge_rules_file os digest d root file body).failed ≡ true
      → (merge_rules_file os digest d root file body).disk ≡ d
  unfolding merge_rules_file
  merge_rules_file-failed digest d root file body h =
      elim (Bool-cases (cannot_read os root file (d root file))) [
        | inl fails ↦ rw fails refl
        | inr fine ↦ elim (Bool-cases (rules_markers_healthy (text_of (d root file)))) [
          | inl healthy ↦
              rw (fine, healthy)
                (merge_written-failed d root file (merge_rules digest (text_of (d root file)) body)
                  (rw (fine, healthy) at h))
          | inr malformed ↦ cc (rw (fine, malformed) at h)
        ]
      ]

  merge_written-Touches :
      (d : Disk) (root : String) (file : ManagedFile) (m : Merged)
      → Touches root file d (merge_written os d root file m).disk
  unfolding merge_written
  merge_written-Touches d root file m = elim (Bool-cases (m.changed && os.write_fails root file)) [
    | inl fails ↦ rw fails (inl refl)
    | inr fine ↦ rw fine (elim (Bool-cases m.changed) [
      | inl changed ↦ inr (m.merged, if_true _ _ changed)
      | inr same ↦ inl (if_false _ _ same)
    ])
  ]

  pub merge_rules_file-Touches :
      (digest : Chars → Chars) (d : Disk) (root : String) (file : ManagedFile) (body : Chars)
      → Touches root file d (merge_rules_file os digest d root file body).disk
  unfolding merge_rules_file
  merge_rules_file-Touches digest d root file body =
      elim (Bool-cases (cannot_read os root file (d root file))) [
        | inl fails ↦ rw fails (inl refl)
        | inr fine ↦ rw fine (elim (Bool-cases (rules_markers_healthy (text_of (d root file)))) [
          | inl healthy ↦
              rw healthy (
                merge_written-Touches d root file (merge_rules digest (text_of (d root file)) body))
          | inr malformed ↦ rw malformed (inl refl)
        ])
      ]

  write_opened-Elsewhere :
      (digest : Chars → Chars) (d : Disk) (root : String) (body : Chars) (o : Opened)
      → Elsewhere root d (write_opened os digest d root body o).disk
  unfolding write_opened merge_both
  write_opened-Elsewhere digest d root body open_error = λ r other f. refl
  write_opened-Elsewhere digest d root body vanished = λ r other f. refl
  write_opened-Elsewhere digest d root body opened =
      let first = (merge_rules_file os digest d root agents body).disk in
      Elsewhere-trans root d first _
        (Touches-Elsewhere root agents d first (merge_rules_file-Touches digest d root agents body))
        (Touches-Elsewhere root claude first _
          (merge_rules_file-Touches digest first root claude (rules_claude_import os)))

  -- A write to a project leaves the others alone.
  pub write_rules_to_project-Elsewhere :
      (digest : Chars → Chars) (d : Disk) (root : String) (body : Chars)
      → Elsewhere root d (write_rules_to_project os digest d root body).disk
  unfolding write_rules_to_project
  write_rules_to_project-Elsewhere digest d root body =
      write_opened-Elsewhere digest d root body (os.open_root root)

  strip_written-Touches :
      (d : Disk) (root : String) (file : ManagedFile) (r : Chars × ℕ)
      → Touches root file d (strip_written os d root file r).disk
  unfolding strip_written
  strip_written-Touches d root file (text, n) = elim (Bool-cases (eqb n 0)) [
    | inl no_block ↦ rw no_block (inl refl)
    | inr some_block ↦ rw some_block (elim (Bool-cases (os.write_fails root file)) [
      | inl fails ↦ rw fails (inl refl)
      | inr fine ↦ rw fine (inr (text, refl))
    ])
  ]

  pub strip_read-Touches :
      (d : Disk) (root : String) (file : ManagedFile) (o : Option Chars)
      → Touches root file d (strip_read os d root file o).disk
  unfolding strip_read
  strip_read-Touches d root file none = inl refl
  strip_read-Touches d root file (some s) = elim (Bool-cases (os.read_fails root file)) [
    | inl fails ↦ rw fails (inl refl)
    | inr fine ↦ rw fine (elim (Bool-cases (rules_markers_healthy s)) [
      | inl healthy ↦ rw healthy (strip_written-Touches d root file (strip_rules s))
      | inr malformed ↦ rw malformed (inl refl)
    ])
  ]

  strip_opened-Elsewhere :
      (d : Disk) (root : String) (o : Opened) → Elsewhere root d (strip_opened os d root o).disk
  unfolding strip_opened strip_both strip_rules_file
  strip_opened-Elsewhere d root open_error = λ r other f. refl
  strip_opened-Elsewhere d root vanished = λ r other f. refl
  strip_opened-Elsewhere d root opened =
      let first = (strip_rules_file os d root agents).disk in
      Elsewhere-trans root d first _
        (Touches-Elsewhere root agents d first (strip_read-Touches d root agents (d root agents)))
        (Touches-Elsewhere root claude first _
          (strip_read-Touches first root claude (first root claude)))

  pub strip_rules_from_project-Elsewhere :
      (d : Disk) (root : String) → Elsewhere root d (strip_rules_from_project os d root).disk
  unfolding strip_rules_from_project
  strip_rules_from_project-Elsewhere d root = strip_opened-Elsewhere d root (os.open_root root)

  strip_written-clears :
      (d : Disk) (root : String) (file : ManagedFile) (s text : Chars) (n : ℕ)
      → d root file ≡ some s
      → (n ≡ 0 → find_block rules_marks s ≡ none)
      → find_block rules_marks text ≡ none
      → (strip_written os d root file (text, n)).failed ≡ false
      → ¬ HasBlock ((strip_written os d root file (text, n)).disk root file)
  unfolding strip_written
  strip_written-clears d root file s text n here zero done fine = elim (Bool-cases (eqb n 0)) [
    | inl no_block ↦ rw (no_block, here) (λ has. has (zero (ground arith)))
    | inr some_block ↦ elim (Bool-cases (os.write_fails root file)) [
      | inl fails ↦ cc (rw (some_block, fails) at fine)
      | inr writes ↦ rw (some_block, writes, eq_refl root, same_file_refl file) (λ has. has done)
    ]
  ]

  -- A file whose stripping neither failed nor was skipped holds no block.
  pub strip_read-clears :
      (d : Disk) (root : String) (file : ManagedFile) (o : Option Chars)
      → d root file ≡ o
      → (strip_read os d root file o).failed ≡ false
      → (strip_read os d root file o).value.1 ≡ []
      → ¬ HasBlock ((strip_read os d root file o).disk root file)
  unfolding strip_read
  strip_read-clears d root file none here fine kept = λ h. rw here at h
  strip_read-clears d root file (some s) here fine kept =
      elim (Bool-cases (os.read_fails root file)) [
        | inl fails ↦ cc (rw fails at fine)
        | inr reads ↦ elim (Bool-cases (rules_markers_healthy s)) [
          | inl healthy ↦
              rw (reads, healthy)
                (strip_written-clears d root file s (strip_rules s).0 (strip_rules s).1 here
                  (strip_rules_zero s) (strip_rules_done s) (rw (reads, healthy) at fine))
          | inr malformed ↦ cc (rw (reads, malformed) at kept)
        ]
      ]

  or_false : (a b : Bool) → (a || b) ≡ false → (a ≡ false) × (b ≡ false)
  or_false a b h = ground arith

  nil_append : {A : Type 0} (xs ys : List A) → xs ++ ys ≡ [] → (xs ≡ []) × (ys ≡ [])
  nil_append [] ys h = (refl, h)
  nil_append (x ∷ xs) ys h = cc

  strip_opened-clears :
      (d : Disk) (root : String) (o : Opened)
      → o ≢ vanished
      → (strip_opened os d root o).failed ≡ false
      → (strip_opened os d root o).value.1 ≡ []
      → ¬ Carries (strip_opened os d root o).disk root
  unfolding strip_opened strip_both strip_rules_file
  strip_opened-clears d root open_error there fine kept = cc
  strip_opened-clears d root vanished there fine kept = absurd (there refl)
  strip_opened-clears d root opened there fine kept =
      let first = strip_rules_file os d root agents in
      let (fine1, fine2) = or_false _ _ fine in
      let (kept1, kept2) = nil_append _ _ kept in
      let clear1 = strip_read-clears d root agents (d root agents) refl fine1 kept1 in
      let clear2 =
        strip_read-clears first.disk root claude (first.disk root claude) refl fine2 kept2 in
      let other =
        Touches-other_file root root claude agents first.disk _ refl
          (strip_read-Touches first.disk root claude (first.disk root claude)) in
      λ carries. elim carries [
        | inl in_agents ↦ clear1 (rw other at in_agents)
        | inr in_claude ↦ clear2 in_claude
      ]

  -- A project whose stripping neither failed nor skipped a file carries no block.
  pub strip_rules_from_project-clears :
      (d : Disk) (root : String)
      → os.open_root root ≢ vanished
      → (strip_rules_from_project os d root).failed ≡ false
      → (strip_rules_from_project os d root).value.1 ≡ []
      → ¬ Carries (strip_rules_from_project os d root).disk root
  unfolding strip_rules_from_project
  strip_rules_from_project-clears d root there fine kept =
      strip_opened-clears d root (os.open_root root) there fine kept
