-- ===== src/SyncClient/Rules/Tests.antt =====
-- Rules at concrete inputs: a file with the developer's line, one rule, and a project that no rule
-- is for any longer. The digest of the tests is a constant.
use orbeat_community.Prelude.{
  Among, Bool-cases, List, String, [], contains, eq_iff, false, if◌then◌else◌, inl, inr, none, refl,
  some, sym, true, ◌&&◌, ◌++◌, ◌==◌, ◌∷◌, ◌≡◌,
}
use orbeat_community.Text.Slug.{is_slug}
use orbeat_community.Text.Pattern.{
  Chars, codes, count_from, count_literal, match_run, newline, same, skip_line, skip_newline,
  starts_with, trim_right, until,
}
use orbeat_community.SyncClient.Block.{
  count_blocks, find_block, finish, hash_run, markers_healthy, match_block, match_header,
  match_tail, render_block,
}
use orbeat_community.SyncClient.Block.Render.{IsDigest}
use orbeat_community.SyncClient.Rules.{
  Rule, append_block, applies, merge_found, merge_rules, render_rules_block, render_rules_body,
  render_rules_from, rules_for, rules_markers_healthy, rules_marks, strip_end, strip_loop,
  strip_rules,
}
use orbeat_community.SyncClient.Rules.Merging.{merge_rules_twice}
use orbeat_community.SyncClient.Rules.Stripping.{strip_rules-merge_rules, strip_rules_done}
use orbeat_community.SyncClient.Rules.Files.{
  Disk, Os, agents, merge_both, merge_rules_file, merge_written, opened, same_file, strip_both,
  strip_opened, strip_read, strip_rules_file, strip_rules_from_project, strip_written, write_opened,
  write_rules_to_project,
}
use orbeat_community.SyncClient.Rules.Files.Effects.{Carries}
use orbeat_community.SyncClient.Rules.Sync.{
  Project, Synced, clean_paths, collect_rules, keep_not_live, live_projects, not_live,
  project_scoped, reconcile_rules, record_strip, record_write, save, strip_entry, strip_pass,
  sync_rules, valid_rules_path, write_matched, write_pass, write_projects,
}
use orbeat_community.SyncClient.Rules.Sync.Complete.{reconcile_rules-Among}

abbrev digest : Chars → Chars
digest s = codes "0123456789ab"

digest-IsDigest : IsDigest digest
unfolding hash_run match_run
digest-IsDigest s = refl

abbrev readme : Chars
readme = codes "Hello" ++ newline ∷ []

abbrev body : Chars
body = codes "Be kind."

readme_healthy : rules_markers_healthy readme ≡ true
unfolding markers_healthy count_blocks find_block match_block match_header match_run count_literal
    count_from starts_with
readme_healthy = refl

body_has_no_end : count_literal (finish rules_marks) body ≡ 0
unfolding count_literal count_from starts_with match_run
body_has_no_end = refl

merge_rules_twice_example :
    let m = (merge_rules digest readme body).merged in
    merge_rules digest m body ≡ record { merged = m; changed = false; restored = false }
merge_rules_twice_example =
    merge_rules_twice digest readme body digest-IsDigest readme_healthy body_has_no_end

strip_rules-merge_rules_example : strip_rules (merge_rules digest readme body).merged ≡ (readme, 1)
unfolding find_block match_block match_header match_run trim_right
strip_rules-merge_rules_example =
    strip_rules-merge_rules digest readme body digest-IsDigest readme_healthy body_has_no_end

strip_rules_done_example :
    find_block rules_marks (strip_rules (render_rules_block digest body)).0 ≡ none
strip_rules_done_example = strip_rules_done (render_rules_block digest body)

abbrev old_text : Chars
old_text = render_rules_block digest body

abbrev disk : Disk
disk r f = if r == "/old" && same_file f agents then some old_text else none

abbrev os : Os
os = record {
  is_directory = λ r. true;
  open_root = λ r. opened;
  read_fails = λ r f. false;
  write_fails = λ r f. false;
}

abbrev rule : Rule
rule = record {
  id = "r1";
  type = "rule";
  name = "kind";
  rule_scope = "";
  content = "Be kind.";
  target_tags = "go" ∷ [];
  revision = 1;
}

abbrev projects : List Project
projects =
    (record { path = "/new"; tags = "go" ∷ [] }) ∷ ((record { path = "/old"; tags = [] }) ∷ [])

abbrev after_run : Synced
after_run =
    save digest (λ p. p) (λ p. true) os false ("/old" ∷ [])
      (sync_rules digest (λ p. p) (λ p. true) os projects (rule ∷ []) ("/old" ∷ []) disk)

old_named : (r : String) → Carries disk r → Among r ("/old" ∷ [])
old_named r carries = elim (Bool-cases (r == "/old")) [
  | inl same ↦ inl (sym ((eq_iff r "/old").0 same))
  | inr other ↦ elim carries [ inl a ↦ absurd (rw other at a) | inr c ↦ absurd (rw other at c) ]
]

new-Carries : Carries after_run.disk "/new"
unfolding save sync_rules strip_pass strip_entry record_strip write_pass write_projects
    write_matched record_write write_rules_to_project write_opened merge_both merge_rules_file
    merge_written merge_rules merge_found append_block render_rules_block render_block find_block
    match_block match_header match_tail match_run hash_run skip_line skip_newline until rules_for
    applies contains render_rules_body render_rules_from keep_not_live not_live live_projects
    clean_paths strip_rules_from_project strip_opened strip_both strip_rules_file strip_read
    strip_written strip_rules strip_loop strip_end valid_rules_path markers_healthy count_blocks
    count_literal count_from starts_with trim_right same
new-Carries = inl (λ e. cc)

reconcile_rules-Among_example : Among "/new" after_run.ledger
unfolding valid_rules_path reconcile_rules collect_rules project_scoped save is_slug
reconcile_rules-Among_example =
    reconcile_rules-Among digest (λ p. p) (λ p. true) os (λ rules. rules) projects (rule ∷ [])
      ("/old" ∷ []) disk after_run (λ r directory. λ e. cc) (refl, tt) old_named refl "/new"
      new-Carries
