-- ===== src/SyncClient/Rules/Global/Contained.antt =====
-- Only the user-level files are touched, whatever the ledger holds.
use orbeat_community.Prelude.{
  ℕ, String, ◌≡◌, ◌≢◌, refl, sym, ap, ◌∙◌, inl, inr, Bool, true, not, ◌&&◌, Option, none, some,
  List, [], ◌∷◌, ◌==◌, subst, Among, contains, eq_iff, arith, Bool-cases,
}
use orbeat_community.Text.Pattern.{Chars}
use orbeat_community.SyncClient.Rules.{Rule, render_rules_body}
use orbeat_community.SyncClient.Rules.Files.{
  ManagedFile, agents, claude, same_file, Disk, Opened, open_error, vanished, opened, Os, Outcome,
  MergeReport, strip_rules_file,
}
use orbeat_community.SyncClient.Rules.Files.Effects.{
  Touches, merge_rules_file-Touches, strip_read-Touches,
}
use orbeat_community.SyncClient.Rules.Sync.{RulesResult, has_no}
use orbeat_community.SyncClient.Rules.Global.{
  Paths, GlobalTarget, file_name, file_of, GlobalRun, path_of, codex_targets, global_rule_targets,
  all_global_rule_targets, valid_global_rules_path, has_path, is_trusted_global_rules_path,
  write_at, write_global_rules, strip_at, strip_global_rules, record_global_write, write_globals,
  global_write_pass, record_global_strip, strip_global_entry, global_strip_pass, global_start,
  reconcile_global_rules,
}

-- What path/filepath documents of joined paths.
pub record IsFilepath (ps : Paths) : Type 0 where
  pub clean_clean : (p : String) → ps.clean (ps.clean p) ≡ ps.clean p
  pub dir_join : (d : String) (f : ManagedFile) → ps.dir (ps.join d (file_name f)) ≡ ps.clean d
  pub base_join : (d : String) (f : ManagedFile) → ps.base (ps.join d (file_name f)) ≡ file_name f

-- The file is not the target's.
abbrev pub IsNotAt : Paths → String → ManagedFile → GlobalTarget → Type 0
IsNotAt ps r f g = r ≡ ps.clean g.dir → f ≢ g.file

abbrev pub IsNoTarget : Paths → String → ManagedFile → List GlobalTarget → Type 0
IsNoTarget ps r f targets = (g : GlobalTarget) → Among g targets → IsNotAt ps r f g

same_file_eq : (f g : ManagedFile) → same_file f g ≡ true → f ≡ g
same_file_eq agents agents e = refl
same_file_eq claude claude e = refl
same_file_eq agents claude e = cc
same_file_eq claude agents e = cc

pub file_of-name : (f : ManagedFile) → file_of (file_name f) ≡ f
file_of-name agents = refl
file_of-name claude = refl

-- A write to one file leaves the others.
Touches-kept :
    (root r : String) (file f : ManagedFile) (d d' : Disk)
    → (r ≡ root → f ≢ file)
    → Touches root file d d'
    → d' r f ≡ d r f
Touches-kept root r file f d d' apart (inl same) = ap (λ (e : Disk). e r f) same
Touches-kept root r file f d d' apart (inr (t, e)) =
    ap (λ (x : Disk). x r f) e ∙ elim (Bool-cases (root == r && same_file file f)) [
      | inr elsewhere ↦ rw elsewhere refl
      | inl here ↦
          let both : (root == r ≡ true) × (same_file file f ≡ true) = ground arith in
          absurd (apart (sym ((eq_iff root r).0 both.0)) (sym (same_file_eq file f both.1)))
    ]

module _ (ps : Paths) (r : String) (f : ManagedFile) where
  record_global_write-disk :
      (g : GlobalTarget) (s : GlobalRun) (o : Outcome MergeReport)
      → (record_global_write ps g s o).disk ≡ o.disk
  unfolding record_global_write
  record_global_write-disk g s o = elim (Bool-cases o.failed) [
    | inl failed ↦ rw failed refl
    | inr fine ↦ rw fine refl
  ]

  pub record_global_strip-disk :
      (p : String) (s : GlobalRun) (o : Outcome (ℕ × List ManagedFile))
      → (record_global_strip ps p s o).disk ≡ o.disk
  unfolding record_global_strip
  record_global_strip-disk p s o = elim (Bool-cases o.failed) [
    | inl failed ↦ rw failed refl
    | inr fine ↦ elim (Bool-cases (not (has_no o.value.1))) [
      | inl skipped ↦ rw (fine, skipped) refl
      | inr clean ↦ rw (fine, clean) refl
    ]
  ]

  write_at-kept :
      (os : Os) (digest : Chars → Chars) (d : Disk) (root : String) (file : ManagedFile)
      (body : Chars) (o : Opened)
      → (r ≡ root → f ≢ file)
      → (write_at ps os digest d root file body o).disk r f ≡ d r f
  unfolding write_at
  write_at-kept os digest d root file body open_error apart = refl
  write_at-kept os digest d root file body vanished apart = refl
  write_at-kept os digest d root file body opened apart =
      Touches-kept root r file f d _ apart (merge_rules_file-Touches os digest d root file body)

  strip_at-kept :
      (os : Os) (d : Disk) (root : String) (file : ManagedFile) (o : Opened)
      → (r ≡ root → f ≢ file)
      → (strip_at ps os d root file o).disk r f ≡ d r f
  unfolding strip_at strip_rules_file
  strip_at-kept os d root file open_error apart = refl
  strip_at-kept os d root file vanished apart = refl
  strip_at-kept os d root file opened apart =
      Touches-kept root r file f d _ apart (strip_read-Touches os d root file (d root file))

  write_globals-kept :
      (os : Os) (digest : Chars → Chars) (body : Chars) (targets : List GlobalTarget)
      (s : GlobalRun)
      → IsNoTarget ps r f targets
      → (write_globals ps os digest body targets s).disk r f ≡ s.disk r f
  unfolding write_globals write_global_rules
  write_globals-kept os digest body [] s apart = refl
  write_globals-kept os digest body (g ∷ targets) s apart =
      let o = write_global_rules ps os digest s.disk g body in
      write_globals-kept os digest body targets _ (λ h there. apart h (inr there))
      ∙ ap (λ (d : Disk). d r f) (record_global_write-disk g s o)
      ∙ write_at-kept os digest s.disk (ps.clean g.dir) g.file body (os.open_root (ps.clean g.dir))
          (apart g (inl refl))

  has_path-target :
      (p : String) (targets : List GlobalTarget)
      → IsFilepath ps
      → IsNoTarget ps r f targets
      → has_path ps p targets ≡ true
      → r ≡ ps.dir p
      → f ≢ file_of (ps.base p)
  unfolding has_path path_of
  has_path-target p [] laws apart h at_dir = cc
  has_path-target p (g ∷ targets) laws apart h at_dir = elim (Bool-cases (path_of ps g == p)) [
    | inr other ↦
        has_path-target p targets laws (λ k there. apart k (inr there)) (rw other at h) at_dir
    | inl same ↦
        let e : ps.join g.dir (file_name g.file) ≡ p = (eq_iff (path_of ps g) p).0 same in
        let dir : ps.dir p ≡ ps.clean g.dir = ap ps.dir (sym e) ∙ laws.dir_join g.dir g.file in
        let base : ps.base p ≡ file_name g.file =
          ap ps.base (sym e) ∙ laws.base_join g.dir g.file in
        λ at_file.
          apart g (inl refl) (at_dir ∙ dir)
            (at_file ∙ ap (λ x. file_of x) base ∙ file_of-name g.file)
  ]

  strip_global_entry-kept :
      (os : Os) (claude_dir p : String) (s : GlobalRun)
      → IsFilepath ps
      → IsNoTarget ps r f (all_global_rule_targets ps claude_dir)
      → (strip_global_entry ps os claude_dir p s).disk r f ≡ s.disk r f
  unfolding strip_global_entry is_trusted_global_rules_path strip_global_rules
  strip_global_entry-kept os claude_dir p s laws apart = elim (Bool-cases (contains s.desired p)) [
    | inl desired ↦ rw desired refl
    | inr stale ↦ elim (Bool-cases (not (valid_global_rules_path ps p))) [
      | inl malformed ↦ rw (stale, malformed) refl
      | inr shaped ↦ elim (Bool-cases (has_path ps p (all_global_rule_targets ps claude_dir))) [
        | inr untrusted ↦ rw (stale, shaped, untrusted) refl
        | inl trusted ↦
            rw (stale, shaped, trusted)
              (ap (λ (d : Disk). d r f)
                  (record_global_strip-disk p s (strip_global_rules ps os s.disk p))
                ∙ strip_at-kept os s.disk (ps.dir p) (file_of (ps.base p)) (os.open_root (ps.dir p))
                    (has_path-target p (all_global_rule_targets ps claude_dir) laws apart trusted))
      ]
    ]
  ]

  global_strip_pass-kept :
      (os : Os) (claude_dir : String) (ledger : List String) (s : GlobalRun)
      → IsFilepath ps
      → IsNoTarget ps r f (all_global_rule_targets ps claude_dir)
      → (global_strip_pass ps os claude_dir ledger s).disk r f ≡ s.disk r f
  unfolding global_strip_pass
  global_strip_pass-kept os claude_dir [] s laws apart = refl
  global_strip_pass-kept os claude_dir (p ∷ ledger) s laws apart =
      global_strip_pass-kept os claude_dir ledger _ laws apart
      ∙ strip_global_entry-kept os claude_dir p s laws apart

  codex_targets-all :
      (g : GlobalTarget) (home : Option String) (present : String → Bool)
      → Among g (codex_targets ps home present)
      → Among g (codex_targets ps home (λ d. true))
  codex_targets-all g none present there = absurd there
  codex_targets-all g (some home) present there =
      elim (Bool-cases (present (ps.join home ".codex"))) [
        | inl here ↦ rw here at there
        | inr missing ↦ absurd (rw missing at there)
      ]

  -- The targets of the write pass are among all.
  global_rule_targets-kept :
      (os : Os) (claude_dir : String)
      → IsFilepath ps
      → IsNoTarget ps r f (all_global_rule_targets ps claude_dir)
      → IsNoTarget ps r f (global_rule_targets ps os claude_dir)
  unfolding global_rule_targets all_global_rule_targets
  global_rule_targets-kept os claude_dir laws apart g there = elim there [
    | inl e ↦
        let target : GlobalTarget = record { dir = ps.clean claude_dir; file = claude } in
        subst (IsNotAt ps r f) e
          (λ at_dir. apart target (inl refl) (at_dir ∙ sym (laws.clean_clean claude_dir)))
    | inr in_codex ↦ apart g (inr (codex_targets-all g ps.home_dir os.is_directory in_codex))
  ]

  global_write_pass-kept :
      (os : Os) (digest : Chars → Chars) (claude_dir : String) (globals : List Rule) (s : GlobalRun)
      → IsFilepath ps
      → IsNoTarget ps r f (all_global_rule_targets ps claude_dir)
      → (global_write_pass ps os digest claude_dir globals s).disk r f ≡ s.disk r f
  unfolding global_write_pass
  global_write_pass-kept os digest claude_dir [] s laws apart = refl
  global_write_pass-kept os digest claude_dir (x ∷ globals) s laws apart =
      let targets = global_rule_targets ps os claude_dir in
      let body = render_rules_body (x ∷ globals) in
      let kept =
        write_globals-kept os digest body targets s
          (global_rule_targets-kept os claude_dir laws apart) in
      elim (Bool-cases (write_globals ps os digest body targets s).landed) [
        | inl landed ↦ rw landed kept
        | inr lost ↦ rw lost kept
      ]

-- Whatever fails, whatever the disk holds and whatever stands in the ledger, which its user may
-- edit: a run leaves every file alone that is not the CLAUDE.md of the Claude directory or the
-- AGENTS.md of the Codex home.
pub reconcile_global_rules-kept :
    (ps : Paths) (write_os strip_os : Os) (digest : Chars → Chars) (claude_dir : String)
    (globals : List Rule) (ledger : List String) (d : Disk) (res : RulesResult) (r : String)
    (f : ManagedFile)
    → IsFilepath ps
    → IsNoTarget ps r f (all_global_rule_targets ps claude_dir)
    → (reconcile_global_rules ps write_os strip_os digest claude_dir globals ledger d res).disk r f
      ≡ d r f
unfolding reconcile_global_rules
reconcile_global_rules-kept ps write_os strip_os digest claude_dir globals ledger d res r f laws
      apart =
    global_strip_pass-kept ps r f strip_os claude_dir ledger _ laws apart
    ∙ global_write_pass-kept ps r f write_os digest claude_dir globals (global_start ps d res) laws
        apart
