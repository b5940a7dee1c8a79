-- ===== src/SyncClient/Rules/Removal/Tests.antt =====
-- The removal of a project at concrete inputs: one file of it cannot be written.
use orbeat_community.Prelude.{
  refl, inl, inr, false, ◌&&◌, none, some, [], ◌∷◌, ◌==◌, Among, true, if◌then◌else◌,
}
use orbeat_community.Text.Pattern.{
  Chars, codes, count_from, count_literal, match_run, same, skip_line, skip_newline, starts_with,
  trim_right, until,
}
use orbeat_community.SyncClient.Block.{
  count_blocks, find_block, hash_run, markers_healthy, match_block, match_header, match_tail,
  render_block,
}
use orbeat_community.SyncClient.Rules.{render_rules_block, strip_rules, strip_loop, strip_end}
use orbeat_community.SyncClient.Rules.Files.{
  Disk, Os, agents, opened, same_file, strip_both, strip_opened, strip_read, strip_rules_file,
  strip_rules_from_project, strip_written,
}
use orbeat_community.SyncClient.Rules.Files.Effects.{Carries}
use orbeat_community.SyncClient.Rules.Removal.{record_removal, strip_project_rules}
use orbeat_community.SyncClient.Rules.Removal.Watched.{strip_project_rules-Among}

abbrev removed_digest : Chars → Chars
removed_digest s = codes "0123456789ab"

abbrev ruled_disk : Disk
ruled_disk r f =
    if r == "/gone" && same_file f agents
    then some (render_rules_block removed_digest (codes "Be kind."))
    else none

abbrev read_only : Os
read_only = record {
  is_directory = λ r. true;
  open_root = λ r. opened;
  read_fails = λ r f. false;
  write_fails = λ r f. true;
}

still-Carries :
    Carries
      (strip_project_rules (λ p. p) read_only false false "/gone" ("/gone" ∷ []) ruled_disk).disk
      "/gone"
unfolding strip_project_rules record_removal strip_rules_from_project strip_opened strip_both
    strip_rules_file strip_read strip_written strip_rules strip_loop strip_end markers_healthy
    count_blocks count_literal count_from starts_with find_block match_block match_header match_tail
    match_run hash_run skip_line skip_newline until render_rules_block render_block trim_right same
still-Carries = inl (λ e. cc)

strip_project_rules-Among_example :
    Among "/gone"
      (strip_project_rules (λ p. p) read_only false false "/gone" ("/gone" ∷ []) ruled_disk).ledger
strip_project_rules-Among_example =
    strip_project_rules-Among (λ p. p) read_only false false "/gone" ("/gone" ∷ []) ruled_disk
      "/gone" (λ e. cc) (inl refl) (inr still-Carries)
