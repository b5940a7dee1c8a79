-- ===== src/SyncClient/Block/Health.antt =====
-- What healthy markers give, and that a search for blocks ends.
use orbeat_community.Prelude.{
  ℕ, zero, suc, ◌<◌, ◌≡◌, refl, ap, inl, inr, true, none, some, ◌++◌, arith, length, length-append,
  Option-cases,
}
use orbeat_community.Text.Pattern.{Chars, skip_line, until, skip_newline}
use orbeat_community.Text.Pattern.Lines.{
  match_run-suffix, length-skip_line, length-until, length-skip_newline,
}
use orbeat_community.Text.Pattern.Search.{Nowhere, count_literal-Nowhere}
use orbeat_community.SyncClient.Block.{
  Marks, begin, finish, match_header, Block, match_tail, match_block, Found, find_block,
  count_blocks, markers_healthy,
}
use orbeat_community.SyncClient.Block.Place.{match_header_inv, find_block_inv}

count_blocks-none :
    (fuel : ℕ) (m : Marks) (s : Chars) → find_block m s ≡ none → count_blocks fuel m s ≡ 0
unfolding count_blocks
count_blocks-none zero m s e = refl
count_blocks-none (suc fuel) m s e = rw (e, count_blocks)

-- Healthy markers without a block are no markers.
pub markers_healthy-Nowhere :
    (m : Marks) (s : Chars)
    → markers_healthy m s ≡ true
    → find_block m s ≡ none
    → Nowhere (begin m) s
unfolding markers_healthy
markers_healthy-Nowhere m s healthy nothing =
    count_literal-Nowhere (begin m) s (ground (arith, count_blocks-none (length s) m s nothing))

length-match_block :
    (m : Marks) (s : Chars) (b : Block) → match_block m s ≡ some b → length b.after < length s
unfolding match_block match_tail
length-match_block m s b e = elim (Option-cases (match_header m s)) [
  | inl fails ↦ cc (rw fails at e)
  | inr ((h, v), header) ↦
      let p = match_header_inv m s h v header in
      let e1 = rw header at e in
      elim (Option-cases (skip_line v)) [
        | inl fails ↦ cc (rw fails at e1)
        | inr (y, line) ↦
            let e2 = rw line at e1 in
            elim (Option-cases (until (finish m) y)) [
              | inl fails ↦ cc (rw fails at e2)
              | inr ((x, r), found) ↦
                  let is : some (record { hash = h; body = x; after = skip_newline r }) ≡ some b =
                    rw found at e2 in
                  let after : skip_newline r ≡ b.after = cc in
                  omega (
                    arith,
                    ap length after,
                    length-skip_newline r,
                    length-until (finish m) y x r found,
                    length-skip_line v y line,
                    ap length (match_run-suffix _ s p.mark p.rest p.marked),
                    ap length (match_run-suffix _ p.rest h p.behind p.hashed),
                    ap length (match_run-suffix _ p.behind p.space v p.spaced),
                    length-append p.mark p.rest,
                    length-append h p.behind,
                    length-append p.space v,
                  )
            ]
      ]
]

-- What is left when a block is taken out is shorter, and so is what stands behind it.
pub length-find_block :
    (m : Marks) (s : Chars) (f : Found)
    → find_block m s ≡ some f
    → (length (f.before ++ f.block.after) < length s) × (length f.block.after < length s)
length-find_block m s f e =
    let (t, whole, here, _) = find_block_inv m s f e in
    let shorter = length-match_block m t f.block here in
    omega (
      arith,
      shorter,
      ap length whole,
      length-append f.before t,
      length-append f.before f.block.after,
    )
