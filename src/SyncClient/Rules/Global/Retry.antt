-- ===== src/SyncClient/Rules/Global/Retry.antt =====
-- What a run does with a file whose write failed and that the ledger names.
use orbeat_community.Prelude.{
  String, ◌≡◌, refl, sym, ap, ◌∙◌, inl, inr, true, false, none, List, [], ◌∷◌, ◌==◌, subst,
  contains, eq_iff, Bool-cases,
}
use orbeat_community.Text.Pattern.{Chars}
use orbeat_community.SyncClient.Rules.{Rule, render_rules_body}
use orbeat_community.SyncClient.Rules.Files.{
  ManagedFile, claude, Disk, Opened, open_error, vanished, opened, Os, Outcome, MergeReport,
  strip_rules_file,
}
use orbeat_community.SyncClient.Rules.Files.Effects.{
  HasBlock, merge_rules_file-failed, strip_read-clears,
}
use orbeat_community.SyncClient.Rules.Sync.{RulesResult}
use orbeat_community.SyncClient.Rules.Global.{
  Paths, GlobalTarget, file_of, GlobalRun, path_of, codex_targets, global_rule_targets,
  all_global_rule_targets, valid_global_rules_path, has_path, is_trusted_global_rules_path,
  write_at, write_global_rules, strip_at, strip_global_rules, record_global_write, write_globals,
  global_write_pass, strip_global_entry, global_strip_pass, global_start, reconcile_global_rules,
}
use orbeat_community.SyncClient.Rules.Global.Contained.{IsFilepath, record_global_strip-disk}

-- The user-level file of Claude Code.
abbrev pub claude_target : String → GlobalTarget
claude_target claude_dir = record { dir = claude_dir; file = claude }

module _ (ps : Paths) where
  write_at-failed :
      (os : Os) (digest : Chars → Chars) (d : Disk) (root : String) (file : ManagedFile)
      (body : Chars) (o : Opened)
      → (write_at ps os digest d root file body o).failed ≡ true
      → (write_at ps os digest d root file body o).disk ≡ d
  unfolding write_at
  write_at-failed os digest d root file body open_error h = refl
  write_at-failed os digest d root file body vanished h = refl
  write_at-failed os digest d root file body opened h =
      merge_rules_file-failed os digest d root file body h

  record_global_write-failed :
      (g : GlobalTarget) (s : GlobalRun) (o : Outcome MergeReport)
      → o.failed ≡ true
      → ((record_global_write ps g s o).disk ≡ o.disk)
        × ((record_global_write ps g s o).desired ≡ s.desired)
  unfolding record_global_write
  record_global_write-failed g s o failed = rw failed (refl, refl)

  global_rule_targets-homeless :
      (os : Os) (claude_dir : String)
      → ps.home_dir ≡ none
      → global_rule_targets ps os claude_dir ≡ claude_target claude_dir ∷ []
  unfolding global_rule_targets
  global_rule_targets-homeless os claude_dir homeless =
      ap (λ h. claude_target claude_dir ∷ codex_targets ps h os.is_directory) homeless

  -- The write pass changes the disk and the paths written as its loop does.
  global_write_pass-loop :
      (os : Os) (digest : Chars → Chars) (claude_dir : String) (r : Rule) (rules : List Rule)
      (s : GlobalRun)
      → let s' =
          write_globals ps os digest
            (render_rules_body (r ∷ rules))
            (global_rule_targets ps os claude_dir)
            s in
        ((global_write_pass ps os digest claude_dir (r ∷ rules) s).disk ≡ s'.disk)
        × ((global_write_pass ps os digest claude_dir (r ∷ rules) s).desired ≡ s'.desired)
  unfolding global_write_pass
  global_write_pass-loop os digest claude_dir r rules s =
      let s' =
        write_globals ps os digest (render_rules_body (r ∷ rules))
          (global_rule_targets ps os claude_dir) s in
      elim (Bool-cases s'.landed) [
        | inl landed ↦ rw landed (refl, refl)
        | inr lost ↦ rw lost (refl, refl)
      ]

  write_globals-one :
      (os : Os) (digest : Chars → Chars) (body : Chars) (g : GlobalTarget) (s : GlobalRun)
      → (write_global_rules ps os digest s.disk g body).failed ≡ true
      → ((write_globals ps os digest body (g ∷ []) s).disk ≡ s.disk)
        × ((write_globals ps os digest body (g ∷ []) s).desired ≡ s.desired)
  unfolding write_globals write_global_rules
  write_globals-one os digest body g s failed =
      let root = ps.clean g.dir in
      let o = write_at ps os digest s.disk root g.file body (os.open_root root) in
      let (disk, desired) = record_global_write-failed g s o failed in
      (disk ∙ write_at-failed os digest s.disk root g.file body (os.open_root root) failed, desired)

  -- The write pass over the one target, where its write fails.
  global_write_pass-failed :
      (os : Os) (digest : Chars → Chars) (claude_dir : String) (r : Rule) (rules : List Rule)
      (s : GlobalRun)
      → ps.home_dir ≡ none
      → (write_global_rules ps os digest s.disk
          (claude_target claude_dir)
          (render_rules_body (r ∷ rules))).failed
        ≡ true
      → ((global_write_pass ps os digest claude_dir (r ∷ rules) s).disk ≡ s.disk)
        × ((global_write_pass ps os digest claude_dir (r ∷ rules) s).desired ≡ s.desired)
  global_write_pass-failed os digest claude_dir r rules s homeless failed =
      let body = render_rules_body (r ∷ rules) in
      let (disk, desired) = global_write_pass-loop os digest claude_dir r rules s in
      let one = global_rule_targets-homeless os claude_dir homeless in
      let (disk_one, desired_one) =
        write_globals-one os digest body (claude_target claude_dir) s failed in
      (
        disk ∙ ap (λ t. (write_globals ps os digest body t s).disk) one ∙ disk_one,
        desired ∙ ap (λ t. (write_globals ps os digest body t s).desired) one ∙ desired_one,
      )

  -- The strip pass on an entry that was not written and that is trusted.
  strip_global_entry-strips :
      (os : Os) (claude_dir p : String) (s : GlobalRun)
      → s.desired ≡ []
      → valid_global_rules_path ps p ≡ true
      → is_trusted_global_rules_path ps claude_dir p ≡ true
      → (strip_global_entry ps os claude_dir p s).disk ≡ (strip_global_rules ps os s.disk p).disk
  unfolding strip_global_entry contains
  strip_global_entry-strips os claude_dir p s unwritten valid trusted =
      let o = strip_global_rules ps os s.disk p in
      let undesired : contains s.desired p ≡ false = ap (λ l. contains l p) unwritten in
      rw (undesired, valid, trusted) (record_global_strip-disk ps "" claude p s o)

  claude_target-trusted :
      (claude_dir : String)
      → ps.clean claude_dir ≡ claude_dir
      → is_trusted_global_rules_path ps claude_dir (path_of ps (claude_target claude_dir)) ≡ true
  unfolding is_trusted_global_rules_path all_global_rule_targets has_path
  claude_target-trusted claude_dir clean =
      let same : path_of ps (claude_target (ps.clean claude_dir))
          ≡ path_of ps (claude_target claude_dir) =
        ap (λ d. path_of ps (claude_target d)) clean in
      let hit : path_of ps (claude_target (ps.clean claude_dir))
            == path_of ps (claude_target claude_dir)
          ≡ true =
        (eq_iff (path_of ps (claude_target (ps.clean claude_dir)))
            (path_of ps (claude_target claude_dir))).1
          same in
      rw hit refl

  strip_at-opened :
      (os : Os) (d : Disk) (root : String) (file : ManagedFile) (o : Opened)
      → o ≡ opened
      → strip_at ps os d root file o ≡ strip_rules_file os d root file
  unfolding strip_at
  strip_at-opened os d root file open_error e = cc
  strip_at-opened os d root file vanished e = cc
  strip_at-opened os d root file opened e = refl

  -- The root and the file of the target's path.
  strip_global_rules-claude :
      (os : Os) (d : Disk) (claude_dir : String)
      → IsFilepath ps
      → ps.clean claude_dir ≡ claude_dir
      → os.open_root claude_dir ≡ opened
      → strip_global_rules ps os d (path_of ps (claude_target claude_dir))
        ≡ strip_rules_file os d claude_dir claude
  unfolding strip_global_rules path_of
  strip_global_rules-claude os d claude_dir laws clean there =
      let root = laws.dir_join claude_dir claude ∙ clean in
      let file = ap (λ x. file_of x) (laws.base_join claude_dir claude) in
      ap
        (λ r.
          strip_at ps os d r (file_of (ps.base (ps.join claude_dir "CLAUDE.md"))) (os.open_root r))
        root
      ∙ ap (λ f. strip_at ps os d claude_dir f (os.open_root claude_dir)) file
      ∙ strip_at-opened os d claude_dir claude (os.open_root claude_dir) there

-- Global rules apply, their write to CLAUDE.md of the Claude directory fails, and the ledger names
-- that file from an earlier run: then the same run goes on to strip it, so that, where the stripping
-- works, the file holds no block afterwards, though the rules still apply. The paths behave as
-- path/filepath documents, and there is no home directory, so no second target.
pub reconcile_global_rules-strips :
    (ps : Paths) (write_os strip_os : Os) (digest : Chars → Chars) (claude_dir : String) (r : Rule)
    (rules : List Rule) (d : Disk) (res : RulesResult)
    → IsFilepath ps
    → ps.home_dir ≡ none
    → ps.clean claude_dir ≡ claude_dir
    → valid_global_rules_path ps (path_of ps (claude_target claude_dir)) ≡ true
    → (write_global_rules ps write_os digest d
        (claude_target claude_dir)
        (render_rules_body (r ∷ rules))).failed
      ≡ true
    → strip_os.open_root claude_dir ≡ opened
    → (strip_rules_file strip_os d claude_dir claude).failed ≡ false
    → (strip_rules_file strip_os d claude_dir claude).value.1 ≡ []
    → ¬ HasBlock (
        (reconcile_global_rules ps write_os strip_os digest claude_dir
            (r ∷ rules)
            (path_of ps (claude_target claude_dir) ∷ [])
            d
            res).disk
          claude_dir claude)
unfolding reconcile_global_rules global_strip_pass strip_rules_file
reconcile_global_rules-strips ps write_os strip_os digest claude_dir r rules d res laws homeless
      clean valid failed there fine kept =
    let p = path_of ps (claude_target claude_dir) in
    let s0 = global_start ps d res in
    let s = global_write_pass ps write_os digest claude_dir (r ∷ rules) s0 in
    let (disk, desired) =
      global_write_pass-failed ps write_os digest claude_dir r rules s0 homeless failed in
    let stripped : (strip_global_entry ps strip_os claude_dir p s).disk
        ≡ (strip_rules_file strip_os d claude_dir claude).disk =
      strip_global_entry-strips ps strip_os claude_dir p s desired valid
        (claude_target-trusted ps claude_dir clean)
      ∙ ap (λ e. (strip_global_rules ps strip_os e p).disk) disk
      ∙ ap (λ o. o.disk) (strip_global_rules-claude ps strip_os d claude_dir laws clean there) in
    subst (λ (e : Disk). ¬ HasBlock (e claude_dir claude)) (sym stripped)
      (strip_read-clears strip_os d claude_dir claude (d claude_dir claude) refl fine kept)
