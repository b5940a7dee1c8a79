-- ===== src/SyncClient/Rules.antt =====
-- internal/syncclient/rules.go: the governed rules in a project's files. The text of a file, the
-- body of the block, and which rules apply to a project.
pub mod Files
pub mod Global
pub mod Merging
pub mod Removal
pub mod Stripping
pub mod Sync
mod Tests
use orbeat_community.Prelude.{
  ℕ, zero, suc, ◌+◌, String, Bool, true, false, not, ◌&&◌, Option, none, some, List, [], ◌∷◌, ◌++◌,
  ltb, contains, length, if◌then◌else◌,
}
use orbeat_community.Text.Pattern.{Chars, codes, newline, is_nil, trim_right, same}
use orbeat_community.SyncClient.Block.{
  Marks, Block, Found, find_block, markers_healthy, block_hash, render_block, is_edited,
}

-- rulesBeginRe and rulesEndRe
abbrev pub rules_marks : Marks
rules_marks = record {
  begin_tail = codes "!-- ORBEAT-RULES:BEGIN ";
  finish_tail = codes "!-- ORBEAT-RULES:END -->";
}

abbrev pub rules_line : Chars
rules_line = codes "— managed by orbeat-sync; edit OUTSIDE this block -->"

abbrev pub rules_markers_healthy : Chars → Bool
rules_markers_healthy s = markers_healthy rules_marks s

pub record Merged : Type 0 where
  pub merged : Chars
  pub changed : Bool
  pub restored : Bool

-- `digest` is the first 12 hexadecimal digits of SHA-256.
module _ (digest : Chars → Chars) where
  pub render_rules_block : Chars → Chars
  render_rules_block body = render_block rules_marks rules_line digest body

  pub append_block : Chars → Chars → Merged
  append_block existing body =
      let trimmed = trim_right existing in
      if is_nil trimmed
      then record { merged = render_rules_block body; changed = true; restored = false }
      else record {
        merged = trimmed ++ newline ∷ (newline ∷ render_rules_block body);
        changed = true;
        restored = false;
      }

  pub merge_found : Chars → Chars → Option Found → Merged
  merge_found existing body none = append_block existing body
  merge_found existing body (some f) =
      let restored = is_edited digest f.block in
      if not restored && same f.block.hash (block_hash digest body)
      then record { merged = existing; changed = false; restored = false }
      else record {
        merged = f.before ++ (render_rules_block body ++ f.block.after);
        changed = true;
        restored = restored;
      }

  unfoldable pub merge_rules : Chars → Chars → Merged
  merge_rules existing body = merge_found existing body (find_block rules_marks existing)

-- The loop of stripRules: what is left, and the number of blocks that were taken out. A block has a
-- character, so as many rounds as there are characters are enough.
abbrev pub one_more : Chars × ℕ → Chars × ℕ
one_more r = (r.0, r.1 + 1)

pub strip_loop : ℕ → Chars → Chars × ℕ
strip_loop zero s = (s, 0)
strip_loop (suc fuel) s = elim (find_block rules_marks s) [
  | none ↦ (s, 0)
  | some f ↦ one_more (strip_loop fuel (f.before ++ f.block.after))
]

abbrev pub end_line : Chars → Chars
end_line s = if is_nil s then [] else s ++ newline ∷ []

pub strip_end : Chars × ℕ → Chars × ℕ
strip_end r = if ltb 0 r.1 then (end_line (trim_right r.0), r.1) else r

unfoldable pub strip_rules : Chars → Chars × ℕ
strip_rules s = strip_end (strip_loop (length s) s)

-- The fields of Artifact that the rules read.
pub record Rule : Type 0 where
  pub id : String
  pub type : String
  pub name : String
  pub rule_scope : String
  pub content : String
  pub target_tags : List String
  pub revision : ℕ

-- renderRulesBody
abbrev pub rule_section : Rule → Chars
rule_section r =
    codes "## "
    ++ codes r.name
    ++ newline ∷ (newline ∷ trim_right (codes r.content))
    ++ newline ∷ []

pub render_rules_from : Bool → List Rule → Chars
render_rules_from first [] = []
render_rules_from first (r ∷ rules) =
    (if first then [] else newline ∷ []) ++ rule_section r ++ render_rules_from false rules

pub render_rules_body : List Rule → Chars
render_rules_body rules = render_rules_from true rules

-- rulesFor
pub applies : List String → List String → Bool
applies tags [] = false
applies tags (t ∷ wanted) = if contains tags t then true else applies tags wanted

abbrev pub is_untargeted : List String → Bool
is_untargeted [] = true
is_untargeted (t ∷ wanted) = false

pub rules_for : List Rule → List String → List Rule
rules_for [] tags = []
rules_for (r ∷ rules) tags =
    let rest = rules_for rules tags in
    if is_untargeted r.target_tags
    then r ∷ rest
    else if applies tags r.target_tags
    then r ∷ rest
    else rest
