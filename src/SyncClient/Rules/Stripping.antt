-- ===== src/SyncClient/Rules/Stripping.antt =====
-- What stripping leaves: the developer's text.
use orbeat_community.Prelude.{
  ℕ, zero, suc, ◌≤◌, ◌≡◌, refl, sym, ap, ◌∙◌, inl, inr, true, not, ◌&&◌, Option, none, some, [],
  ◌∷◌, ◌++◌, ltb, length, arith, Bool-cases, Option-cases,
}
use mathlib.Core.List.{append-nil}
use orbeat_community.Text.Pattern.{Chars, newline, is_nil, trim_right, count_literal, same}
use orbeat_community.Text.Pattern.Search.{Nowhere, count_literal-Nowhere}
use orbeat_community.Text.Pattern.Trim.{
  trim_right-append, nil_of_is_nil, trim_right-newlines, trim_right-append_newlines,
}
use orbeat_community.SyncClient.Block.{begin, finish, Found, find_block, is_edited, block_hash}
use orbeat_community.SyncClient.Block.Place.{find_block_of_Nowhere}
use orbeat_community.SyncClient.Block.Render.{IsDigest}
use orbeat_community.SyncClient.Block.Trimmed.{find_block_prefix, find_block-newline}
use orbeat_community.SyncClient.Block.Health.{markers_healthy-Nowhere, length-find_block}
use orbeat_community.SyncClient.Rules.{
  rules_marks, rules_markers_healthy, merge_found, merge_rules, one_more, strip_loop, end_line,
  strip_end, strip_rules,
}
use orbeat_community.SyncClient.Rules.Merging.{
  rules_marks-IsProper, appended_to, Nowhere-appended_to, Nowhere-trim_right, appended, replaced,
}

no_block_nil : find_block rules_marks [] ≡ none
no_block_nil = find_block_of_Nowhere rules_marks [] tt

strip_loop-none :
    (fuel : ℕ) (s : Chars) → find_block rules_marks s ≡ none → strip_loop fuel s ≡ (s, 0)
unfolding strip_loop
strip_loop-none zero s e = refl
strip_loop-none (suc fuel) s e = rw (e, strip_loop)

strip_loop-some :
    (fuel : ℕ) (s : Chars) (f : Found)
    → find_block rules_marks s ≡ some f
    → strip_loop (suc fuel) s ≡ one_more (strip_loop fuel (f.before ++ f.block.after))
unfolding strip_loop
strip_loop-some fuel s f e = rw (e, strip_loop)

no_block_of_zero : (s : Chars) → length s ≤ 0 → find_block rules_marks s ≡ none
no_block_of_zero [] h = no_block_nil
no_block_of_zero (c ∷ s) h = absurd (omega arith)

-- As many rounds as there are characters are enough: more change nothing.
strip_loop_enough :
    (fuel more : ℕ) (s : Chars)
    → length s ≤ fuel
    → length s ≤ more
    → strip_loop fuel s ≡ strip_loop more s
strip_loop_enough zero more s h h' =
    let nothing = no_block_of_zero s h in
    strip_loop-none zero s nothing ∙ sym (strip_loop-none more s nothing)
strip_loop_enough (suc fuel) zero s h h' =
    let nothing = no_block_of_zero s h' in
    strip_loop-none (suc fuel) s nothing ∙ sym (strip_loop-none zero s nothing)
strip_loop_enough (suc fuel) (suc more) s h h' = elim (Option-cases (find_block rules_marks s)) [
  | inl nothing ↦ strip_loop-none (suc fuel) s nothing ∙ sym (strip_loop-none (suc more) s nothing)
  | inr (f, e) ↦
      let rest = f.before ++ f.block.after in
      let shorter = (length-find_block rules_marks s f e).0 in
      strip_loop-some fuel s f e
      ∙ ap one_more (strip_loop_enough fuel more rest (omega arith) (omega arith))
      ∙ sym (strip_loop-some more s f e)
]

-- The loop ends where no block is left.
pub strip_loop_done :
    (fuel : ℕ) (s : Chars) → length s ≤ fuel → find_block rules_marks (strip_loop fuel s).0 ≡ none
strip_loop_done zero s h =
    let nothing = no_block_of_zero s h in rw (strip_loop-none zero s nothing) nothing
strip_loop_done (suc fuel) s h = elim (Option-cases (find_block rules_marks s)) [
  | inl nothing ↦ rw (strip_loop-none (suc fuel) s nothing) nothing
  | inr (f, e) ↦
      let shorter = (length-find_block rules_marks s f e).0 in
      rw (strip_loop-some fuel s f e)
        (strip_loop_done fuel (f.before ++ f.block.after) (omega arith))
]

-- A block that is found is taken out, and the search goes on with what is left.
strip_loop-step :
    (s : Chars) (f : Found)
    → find_block rules_marks s ≡ some f
    → let rest = f.before ++ f.block.after in
      strip_loop (length s) s ≡ one_more (strip_loop (length rest) rest)
strip_loop-step s f e =
    let rest = f.before ++ f.block.after in
    let shorter = (length-find_block rules_marks s f e).0 in
    strip_loop_enough (length s) (suc (length s)) s (omega arith) (omega arith)
    ∙ strip_loop-some (length s) s f e
    ∙ ap one_more (strip_loop_enough (length s) (length rest) rest (omega arith) (omega arith))

trim_right-appended_to : (s : Chars) → trim_right (appended_to s) ≡ trim_right s
trim_right-appended_to s = elim (Bool-cases (is_nil (trim_right s))) [
  | inl empty ↦ rw empty (trim_right-newlines [] tt ∙ sym (nil_of_is_nil (trim_right s) empty))
  | inr full ↦ rw full (trim_right-append_newlines s (newline ∷ (newline ∷ [])) (refl, (refl, tt)))
]

-- Stripping a file to which a block was added gives the developer's text, and one block.
strip_rules-appended :
    (s merged : Chars) (f : Found)
    → find_block rules_marks merged ≡ some f
    → f.before ≡ appended_to s
    → f.block.after ≡ []
    → Nowhere (begin rules_marks) s
    → strip_rules merged ≡ (end_line (trim_right s), 1)
unfolding strip_rules strip_end
strip_rules-appended s merged f e before after nowhere =
    let left : f.before ++ f.block.after ≡ appended_to s =
      ap (λ t. f.before ++ t) after ∙ append-nil f.before ∙ before in
    let nothing =
      find_block_of_Nowhere rules_marks (appended_to s) (Nowhere-appended_to s nowhere) in
    rw (strip_loop-step merged f e) (
      rw left (
        rw (strip_loop-none (length (appended_to s)) (appended_to s) nothing)
          (ap (λ t. (end_line t, 1)) (trim_right-appended_to s))))

-- Two texts from which the same is left when a block is taken out are stripped alike.
strip_rules-same :
    (s s' : Chars) (f f' : Found)
    → find_block rules_marks s ≡ some f
    → find_block rules_marks s' ≡ some f'
    → f.before ++ f.block.after ≡ f'.before ++ f'.block.after
    → strip_rules s ≡ strip_rules s'
unfolding strip_rules
strip_rules-same s s' f f' e e' left = ap strip_end (
    strip_loop-step s f e
    ∙ ap (λ t. one_more (strip_loop (length t) t)) left
    ∙ sym (strip_loop-step s' f' e'))

-- The developer's text in a file: what stripping leaves of a file with a block, and the file without
-- its trailing newlines but one where it has no block; with the number of blocks after a merge.
abbrev pub developers_text : Chars → Option Found → Chars × ℕ
developers_text s none = (end_line (trim_right s), 1)
developers_text s (some f) = strip_rules s

strip_rules-merge_found :
    (digest : Chars → Chars) (is_digest : IsDigest digest) (existing body : Chars)
    → Nowhere (finish rules_marks) (trim_right body)
    → rules_markers_healthy existing ≡ true
    → (o : Option Found) → find_block rules_marks existing ≡ o
    → strip_rules (merge_found digest existing body o).merged ≡ developers_text existing o
unfolding merge_found
strip_rules-merge_found digest is_digest existing body no_end healthy none e =
    let nowhere = markers_healthy-Nowhere rules_marks existing healthy e in
    strip_rules-appended existing _ _ (appended digest is_digest body no_end existing nowhere) refl
      refl nowhere
strip_rules-merge_found digest is_digest existing body no_end healthy (some f) e =
    elim (Bool-cases
      (not (is_edited digest f.block) && same f.block.hash (block_hash digest body))) [
        | inl settled ↦ rw settled refl
        | inr changes ↦ rw changes (
            strip_rules-same _ existing _ f (replaced digest is_digest body no_end existing f e) e
              refl)
      ]

-- Whatever a merge does to a file with healthy markers, stripping gives the developer's text back:
-- where there was a block before, what stripping would have left of the file then, with as many
-- blocks taken out; where there was none, the file with its trailing newlines made one, and one
-- block taken out. The body holds no end marker.
pub strip_rules-merge_rules :
    (digest : Chars → Chars) (existing body : Chars)
    → IsDigest digest
    → rules_markers_healthy existing ≡ true
    → count_literal (finish rules_marks) body ≡ 0
    → strip_rules (merge_rules digest existing body).merged
      ≡ developers_text existing (find_block rules_marks existing)
unfolding merge_rules
strip_rules-merge_rules digest existing body is_digest healthy no_end =
    strip_rules-merge_found digest is_digest existing body
      (Nowhere-trim_right (finish rules_marks) body (count_literal-Nowhere _ body no_end)) healthy
      (find_block rules_marks existing) refl

end_line_done :
    (s : Chars)
    → find_block rules_marks s ≡ none
    → find_block rules_marks (end_line (trim_right s)) ≡ none
end_line_done s nothing =
    let (ns, whole, _) = trim_right-append s in
    let trimmed = find_block_prefix rules_marks (trim_right s) ns (rw (← whole) nothing) in
    elim (Bool-cases (is_nil (trim_right s))) [
      | inl empty ↦ rw empty no_block_nil
      | inr full ↦
          rw full (find_block-newline rules_marks rules_marks-IsProper (trim_right s) trimmed)
    ]

strip_end_done :
    (r : Chars × ℕ)
    → find_block rules_marks r.0 ≡ none
    → find_block rules_marks (strip_end r).0 ≡ none
unfolding strip_end
strip_end_done (s, n) nothing = elim (Bool-cases (ltb 0 n)) [
  | inl some_block ↦ rw some_block (end_line_done s nothing)
  | inr no_block ↦ rw no_block nothing
]

-- Stripping ends and leaves no block, whatever the text, its markers healthy or not.
pub strip_rules_done : (s : Chars) → find_block rules_marks (strip_rules s).0 ≡ none
unfolding strip_rules
strip_rules_done s =
    strip_end_done (strip_loop (length s) s) (strip_loop_done (length s) s (omega arith))

-- Where no block is taken out there is none.
pub strip_rules_zero : (s : Chars) → (strip_rules s).1 ≡ 0 → find_block rules_marks s ≡ none
unfolding strip_rules strip_end
strip_rules_zero s e = elim (Option-cases (find_block rules_marks s)) [
  | inl nothing ↦ nothing
  | inr (f, found) ↦
      let rest = f.before ++ f.block.after in
      let counted : (strip_end (one_more (strip_loop (length rest) rest))).1 ≡ 0 =
        rw (strip_loop-step s f found) at e in
      absurd (ground (arith, counted))
]
