-- ===== src/SyncClient/Block/Edit.antt =====
-- A block that is put in the place of another, or behind a text without markers, is what is found
-- there.
use orbeat_community.Prelude.{◌≡◌, ap, ◌∙◌, false, none, some, [], ◌∷◌, ◌++◌}
use orbeat_community.Text.Pattern.{Chars, newline, skip_line, trim_right}
use orbeat_community.Text.Pattern.Search.{Nowhere}
use orbeat_community.SyncClient.Block.{
  Marks, begin, finish, Block, Found, match_block, find_block, block_hash, render_block, is_edited,
}
use orbeat_community.SyncClient.Block.Place.{
  IsProper, Misses-replaced, Misses-of_Nowhere, find_block-append, find_block_inv,
  match_block-less_than, match_block-Closes,
}
use orbeat_community.SyncClient.Block.Render.{
  IsDigest, render_block-append, match_block-render, block_hash-written, same_refl,
}

-- The block that was written, as it is found.
abbrev pub written : (Chars → Chars) → Chars → Chars → Block
written digest body after = record {
  hash = block_hash digest body;
  body = trim_right body ++ newline ∷ [];
  after = after;
}

module _ (m : Marks) (proper : IsProper m) (line : Chars) (one_line : skip_line line ≡ none)
    (digest : Chars → Chars) (is_digest : IsDigest digest) (body : Chars)
    (no_end : Nowhere (finish m) (trim_right body)) where
  pub match_block-written :
      (after : Chars)
      → match_block m (render_block m line digest body ++ after) ≡ some (written digest body after)
  match_block-written after =
      ap (match_block m) (render_block-append m line digest body after)
      ∙ match_block-render m proper line one_line (block_hash digest body) (trim_right body) after
          (is_digest (trim_right body)) no_end

  pub find_block-replaced :
      (s : Chars) (f : Found)
      → find_block m s ≡ some f
      → find_block m (f.before ++ (render_block m line digest body ++ f.block.after))
        ≡ some (record { before = f.before; block = written digest body f.block.after })
  find_block-replaced s f e =
      let (t, whole, here, misses) = find_block_inv m s f e in
      let (u, starts) = match_block-less_than m t f.block here in
      let again = match_block-written f.block.after in
      let (u', starts') = match_block-less_than m _ _ again in
      find_block-append m f.before (render_block m line digest body ++ f.block.after) _
        (rw starts' (
          Misses-replaced m proper f.before u u'
            (rw starts at (match_block-Closes m t f.block here)) (rw starts at misses)))
        again

  pub find_block-appended :
      (s after : Chars)
      → Nowhere (begin m) s
      → find_block m (s ++ (render_block m line digest body ++ after))
        ≡ some (record { before = s; block = written digest body after })
  find_block-appended s after nowhere =
      let here = match_block-written after in
      let (u, starts) = match_block-less_than m _ _ here in
      find_block-append m s (render_block m line digest body ++ after) _
        (rw starts (Misses-of_Nowhere m proper s u nowhere)) here

-- A block that was written is not taken for an edited one.
pub is_edited-written :
    (digest : Chars → Chars) (body after : Chars)
    → is_edited digest (written digest body after) ≡ false
is_edited-written digest body after =
    rw (block_hash-written digest body, same_refl (block_hash digest body))
