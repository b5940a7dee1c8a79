-- ===== src/SyncClient/Block/Render.antt =====
-- A block that is written is found where it was put, with its hash and its body.
use orbeat_community.Prelude.{◌≡◌, refl, ap, true, none, some, [], ◌∷◌, ◌++◌, arith}
use mathlib.Core.List.{append_assoc}
use orbeat_community.Text.Pattern.{
  Chars, codes, newline, less_than, match_run, skip_line, trim_right, same,
}
use orbeat_community.Text.Pattern.Local.{match_run-append, match_run-literal}
use orbeat_community.Text.Pattern.Lines.{skip_line-append, skip_newline-newline}
use orbeat_community.Text.Pattern.Search.{Nowhere, until-append}
use orbeat_community.Text.Pattern.Trim.{trim_right-append_newlines}
use orbeat_community.SyncClient.Block.{
  Marks, begin, finish, hash_run, sha, match_tail, match_block, block_hash, render_block,
}
use orbeat_community.SyncClient.Block.Place.{IsProper, match_header_lem}

-- What is assumed of the digest: that it is 12 hexadecimal digits.
abbrev pub IsDigest : (Chars → Chars) → Type 0
IsDigest digest = (s : Chars) → match_run hash_run (digest s) ≡ some (digest s, [])

-- The block, and what stands behind it.
pub render_before : Marks → Chars → Chars → Chars → Chars → Chars
render_before m line hash body after =
    (begin m ++ sha)
    ++ (hash ++ b' ' ∷ (line ++ newline ∷ (body ++ newline ∷ (finish m ++ newline ∷ after))))

pub render_block-append :
    (m : Marks) (line : Chars) (digest : Chars → Chars) (body after : Chars)
    → render_block m line digest body ++ after
      ≡ render_before m line (block_hash digest body) (trim_right body) after
unfolding render_block render_before
render_block-append m line digest body after = simp (append_assoc)

pub same_refl : (s : Chars) → same s s ≡ true
unfolding same
same_refl [] = refl
same_refl (c ∷ s) = ground (arith, same_refl s)

module _ (m : Marks) (proper : IsProper m) (line : Chars) (one_line : skip_line line ≡ none) where
  pub match_block-render :
      (hash body after : Chars)
      → match_run hash_run hash ≡ some (hash, [])
      → Nowhere (finish m) body
      → match_block m (render_before m line hash body after)
        ≡ some (record { hash = hash; body = body ++ newline ∷ []; after = after })
  unfolding match_block match_tail render_before
  match_block-render hash body after is_hash no_end =
      let rest = line ++ newline ∷ (body ++ newline ∷ (finish m ++ newline ∷ after)) in
      let header = match_header_lem m (render_before m line hash body after) hash rest (record {
        mark = begin m ++ sha;
        rest = hash ++ b' ' ∷ rest;
        behind = b' ' ∷ rest;
        space = codes " ";
        marked = match_run-literal (begin m ++ sha) (hash ++ b' ' ∷ rest);
        hashed = match_run-append hash_run hash hash [] (b' ' ∷ rest) is_hash;
        spaced = match_run-literal (codes " ") rest;
      }) in
      rw (
        header,
        skip_line-append line (body ++ newline ∷ (finish m ++ newline ∷ after)) one_line,
        until-append less_than m.finish_tail body (newline ∷ after) (refl, proper.finish_line)
            no_end,
        skip_newline-newline after,
      )

-- The hash of the body that was written is the hash that was written.
pub block_hash-written :
    (digest : Chars → Chars) (body : Chars)
    → block_hash digest (trim_right body ++ newline ∷ []) ≡ block_hash digest body
block_hash-written digest body =
    ap digest (trim_right-append_newlines body (newline ∷ []) (refl, tt))
