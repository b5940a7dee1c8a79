-- ===== src/SyncClient/Rules/Merging.antt =====
-- What a merge leaves, merged again and stripped.
use orbeat_community.Prelude.{
  ◌≡◌, refl, sym, ap, subst, ◌∙◌, inl, inr, true, false, not, ◌&&◌, Option, none, some, [], ◌∷◌,
  ◌++◌, Bool-cases, if◌then◌else◌,
}
use mathlib.Core.List.{append_assoc, append-nil}
use orbeat_community.Text.Pattern.{
  Chars, newline, less_than, is_nil, starts_with, skip_line, trim_right, count_literal, same,
}
use orbeat_community.Text.Pattern.Search.{
  Nowhere, Lacks-of_lacks, starts_with-other, count_literal-Nowhere, Nowhere-append_inv,
  Nowhere-append,
}
use orbeat_community.Text.Pattern.Trim.{trim_right-append}
use orbeat_community.SyncClient.Block.{begin, finish, Found, find_block, block_hash, is_edited}
use orbeat_community.SyncClient.Block.Place.{IsProper}
use orbeat_community.SyncClient.Block.Render.{IsDigest, same_refl}
use orbeat_community.SyncClient.Block.Edit.{
  written, find_block-replaced, find_block-appended, is_edited-written,
}
use orbeat_community.SyncClient.Block.Health.{markers_healthy-Nowhere}
use orbeat_community.SyncClient.Rules.{
  rules_marks, rules_line, rules_markers_healthy, render_rules_block, append_block, merge_found,
  merge_rules,
}

pub rules_marks-IsProper : IsProper rules_marks
rules_marks-IsProper = record {
  begin_once = Lacks-of_lacks less_than rules_marks.begin_tail refl;
  begin_line = Lacks-of_lacks newline rules_marks.begin_tail refl;
  finish_line = Lacks-of_lacks newline rules_marks.finish_tail refl;
}

pub rules_line-one_line : skip_line rules_line ≡ none
unfolding skip_line
rules_line-one_line = refl

-- Where a block may be put behind the developer's text, and what that text is then.
abbrev pub appended_to : Chars → Chars
appended_to s = if is_nil (trim_right s) then [] else trim_right s ++ newline ∷ (newline ∷ [])

pub Nowhere-trim_right : (l s : Chars) → Nowhere l s → Nowhere l (trim_right s)
Nowhere-trim_right l s h =
    let (ns, whole, _) = trim_right-append s in
    Nowhere-append_inv l (trim_right s) ns (subst (Nowhere l) whole h)

pub Nowhere-appended_to :
    (s : Chars) → Nowhere (begin rules_marks) s → Nowhere (begin rules_marks) (appended_to s)
Nowhere-appended_to s h =
    let other : (t : Chars) → starts_with (begin rules_marks) (newline ∷ t) ≡ false = λ t.
      starts_with-other less_than newline rules_marks.begin_tail t
        (refl, rules_marks-IsProper.begin_line) in
    elim (Bool-cases (is_nil (trim_right s))) [
      | inl empty ↦ rw empty tt
      | inr full ↦ rw full (
          Nowhere-append (begin rules_marks) newline (trim_right s) (newline ∷ [])
            (refl, rules_marks-IsProper.begin_line) (Nowhere-trim_right (begin rules_marks) s h)
            (other (newline ∷ []), (other [], tt)))
    ]

-- A block of the same body is left as it is.
merge_found-written :
    (digest : Chars → Chars) (existing before body after : Chars)
    → merge_found digest existing body
        (some (record { before = before; block = written digest body after }))
      ≡ record { merged = existing; changed = false; restored = false }
unfolding merge_found
merge_found-written digest existing before body after =
    rw (is_edited-written digest body after, same_refl (block_hash digest body))

module _ (digest : Chars → Chars) (is_digest : IsDigest digest) (body : Chars)
    (no_end : Nowhere (finish rules_marks) (trim_right body)) where
  append_block-merged :
      (existing : Chars)
      → (append_block digest existing body).merged
        ≡ appended_to existing ++ render_rules_block digest body
  unfolding append_block
  append_block-merged existing = elim (Bool-cases (is_nil (trim_right existing))) [
    | inl empty ↦ rw empty
    | inr full ↦ rw full (
        sym (
          append_assoc (trim_right existing) (newline ∷ (newline ∷ []))
            (render_rules_block digest body)))
  ]

  pub appended :
      (existing : Chars)
      → Nowhere (begin rules_marks) existing
      → find_block rules_marks (append_block digest existing body).merged
        ≡ some (record { before = appended_to existing; block = written digest body [] })
  unfolding render_rules_block
  appended existing nowhere =
      ap (find_block rules_marks) (
        append_block-merged existing
        ∙ ap (λ t. appended_to existing ++ t) (sym (append-nil (render_rules_block digest body))))
      ∙ find_block-appended rules_marks rules_marks-IsProper rules_line rules_line-one_line digest
          is_digest body no_end (appended_to existing) [] (Nowhere-appended_to existing nowhere)

  pub replaced :
      (existing : Chars) (f : Found)
      → find_block rules_marks existing ≡ some f
      → find_block rules_marks (f.before ++ (render_rules_block digest body ++ f.block.after))
        ≡ some (record { before = f.before; block = written digest body f.block.after })
  unfolding render_rules_block
  replaced existing f e =
      find_block-replaced rules_marks rules_marks-IsProper rules_line rules_line-one_line digest
        is_digest body no_end existing f e

-- What a merge wrote, a second merge leaves.
merge_found-settled :
    (digest : Chars → Chars) (is_digest : IsDigest digest) (existing body : Chars)
    → Nowhere (finish rules_marks) (trim_right body)
    → rules_markers_healthy existing ≡ true
    → (o : Option Found) → find_block rules_marks existing ≡ o
    → let m = (merge_found digest existing body o).merged in
      merge_found digest m body (find_block rules_marks m)
      ≡ record { merged = m; changed = false; restored = false }
unfolding merge_found
merge_found-settled digest is_digest existing body no_end healthy none e =
    let nowhere = markers_healthy-Nowhere rules_marks existing healthy e in
    rw (appended digest is_digest body no_end existing nowhere)
      (merge_found-written digest _ (appended_to existing) body [])
merge_found-settled digest is_digest existing body no_end healthy (some f) e =
    elim (Bool-cases
      (not (is_edited digest f.block) && same f.block.hash (block_hash digest body))) [
        | inl settled ↦ rw settled (rw (e, settled) refl)
        | inr changes ↦ rw changes (
            rw (replaced digest is_digest body no_end existing f e)
              (merge_found-written digest _ f.before body f.block.after))
      ]

-- A sync that follows a sync leaves a project's file alone: where the markers of the file were
-- healthy and the body holds no end marker, a merge of the same body into what a merge wrote
-- changes nothing and reports no edit.
pub merge_rules_twice :
    (digest : Chars → Chars) (existing body : Chars)
    → IsDigest digest
    → rules_markers_healthy existing ≡ true
    → count_literal (finish rules_marks) body ≡ 0
    → let m = (merge_rules digest existing body).merged in
      merge_rules digest m body ≡ record { merged = m; changed = false; restored = false }
unfolding merge_rules
merge_rules_twice digest existing body is_digest healthy no_end =
    merge_found-settled digest is_digest existing body
      (Nowhere-trim_right (finish rules_marks) body (count_literal-Nowhere _ body no_end)) healthy
      (find_block rules_marks existing) refl
