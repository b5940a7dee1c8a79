-- ===== src/SyncClient/Rules/Global/Tests.antt =====
-- Global rules at concrete inputs. A joined path starts with the file's name, which has nine
-- characters, so that Dir and Base can be read off it.
use Prim.Native.Nat.{zero, suc}
use orbeat_community.Prelude.{
  ℕ, String, ◌≡◌, refl, sym, ap, ◌∙◌, inl, inr, true, false, ◌&&◌, none, some, [], ◌∷◌, ◌==◌,
  if◌then◌else◌,
}
use orbeat_community.Text.Pattern.{
  Chars, codes, count_from, count_literal, match_run, same, skip_line, skip_newline, starts_with,
  trim_right, until,
}
use orbeat_community.SyncClient.Block.{
  count_blocks, find_block, hash_run, markers_healthy, match_block, match_header, match_tail,
  render_block,
}
use orbeat_community.SyncClient.Rules.{
  Rule, render_rules_block, render_rules_body, strip_rules, strip_loop, strip_end,
}
use orbeat_community.SyncClient.Rules.Files.{
  ManagedFile, strip_rules_file, strip_read, strip_written, agents, claude, same_file, Disk,
  open_error, opened, Os,
}
use orbeat_community.SyncClient.Rules.Files.Effects.{HasBlock}
use orbeat_community.SyncClient.Rules.Sync.{RulesResult}
use orbeat_community.SyncClient.Rules.Global.{
  Paths, file_name, write_at, path_of, all_global_rule_targets, valid_global_rules_path,
  write_global_rules, reconcile_global_rules,
}
use orbeat_community.SyncClient.Rules.Global.Contained.{
  IsFilepath, IsNoTarget, reconcile_global_rules-kept,
}
use orbeat_community.SyncClient.Rules.Global.Retry.{claude_target, reconcile_global_rules-strips}

abbrev before : String → String → String
before String.[] d = d
before (String.◌∷◌ c s) d = String.◌∷◌ c (before s d)

abbrev from_char : ℕ → String → String
from_char zero s = s
from_char (suc n) String.[] = ""
from_char (suc n) (String.◌∷◌ c s) = from_char n s

abbrev first_chars : ℕ → String → String
first_chars zero s = ""
first_chars (suc n) String.[] = ""
first_chars (suc n) (String.◌∷◌ c s) = String.◌∷◌ c (first_chars n s)

abbrev paths : Paths
paths = record {
  clean = λ p. p;
  is_abs = λ p. true;
  join = λ d name. before name d;
  dir = λ p. from_char 9 p;
  base = λ p. first_chars 9 p;
  home_dir = none;
}

dir-joined : (d : String) (f : ManagedFile) → paths.dir (paths.join d (file_name f)) ≡ d
dir-joined d agents = refl
dir-joined d claude = refl

base-joined : (d : String) (f : ManagedFile) → paths.base (paths.join d (file_name f)) ≡ file_name f
base-joined d agents = refl
base-joined d claude = refl

paths-IsFilepath : IsFilepath paths
paths-IsFilepath = record {
  clean_clean = λ p. refl;
  dir_join = dir-joined;
  base_join = base-joined;
}

abbrev global_digest : Chars → Chars
global_digest s = codes "0123456789ab"

abbrev global_rule : Rule
global_rule = record {
  id = "g1";
  type = "rule";
  name = "ask";
  rule_scope = "global";
  content = "Ask first.";
  target_tags = [];
  revision = 1;
}

abbrev written : Chars
written = render_rules_block global_digest (codes "Ask first.")

abbrev home_disk : Disk
home_disk r f = if r == "/claude" && same_file f claude then some written else none

abbrev working : Os
working = record {
  is_directory = λ r. true;
  open_root = λ r. opened;
  read_fails = λ r f. false;
  write_fails = λ r f. false;
}

abbrev failing : Os
failing = record working { open_root = λ r. open_error }

abbrev nothing_done : RulesResult
nothing_done = record {
  written = 0;
  unchanged = 0;
  stripped = 0;
  warnings = [];
  failures = [];
  applied = [];
}

not_a_target : IsNoTarget paths "/repo" claude (all_global_rule_targets paths "/claude")
unfolding all_global_rule_targets
not_a_target g there at_dir at_file = elim there [
  | inl e ↦
      let dirs : "/claude" ≡ g.dir = ap (λ x. x.dir) e in
      let apart : "/repo" ≡ "/claude" = at_dir ∙ sym dirs in cc
  | inr in_codex ↦ in_codex
]

reconcile_global_rules-kept_example :
    (reconcile_global_rules paths failing working global_digest "/claude"
        (global_rule ∷ [])
        ("CLAUDE.md/repo" ∷ [])
        home_disk
        nothing_done).disk
      "/repo" claude
    ≡ none
reconcile_global_rules-kept_example =
    reconcile_global_rules-kept paths failing working global_digest "/claude" (global_rule ∷ [])
      ("CLAUDE.md/repo" ∷ []) home_disk nothing_done "/repo" claude paths-IsFilepath not_a_target

claude_valid : valid_global_rules_path paths (path_of paths (claude_target "/claude")) ≡ true
unfolding valid_global_rules_path path_of
claude_valid = refl

claude_write_fails :
    (write_global_rules paths failing global_digest home_disk
      (claude_target "/claude")
      (render_rules_body (global_rule ∷ []))).failed
    ≡ true
unfolding write_global_rules write_at
claude_write_fails = refl

claude_stripped :
    ((strip_rules_file working home_disk "/claude" claude).failed ≡ false)
    × ((strip_rules_file working home_disk "/claude" claude).value.1 ≡ [])
unfolding strip_rules_file strip_read strip_written strip_rules strip_loop strip_end markers_healthy
    count_blocks count_literal count_from starts_with find_block match_block match_header match_tail
    match_run hash_run skip_line skip_newline until render_rules_block render_block trim_right same
claude_stripped = (refl, refl)

reconcile_global_rules-strips_example : ¬ HasBlock (
    (reconcile_global_rules paths failing working global_digest "/claude"
        (global_rule ∷ [])
        (path_of paths (claude_target "/claude") ∷ [])
        home_disk
        nothing_done).disk
      "/claude" claude)
reconcile_global_rules-strips_example =
    reconcile_global_rules-strips paths failing working global_digest "/claude" global_rule []
      home_disk nothing_done paths-IsFilepath refl refl claude_valid claude_write_fails refl
      claude_stripped.0 claude_stripped.1
