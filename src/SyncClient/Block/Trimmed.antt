-- ===== src/SyncClient/Block/Trimmed.antt =====
-- A text without blocks has none when its end is cut off, nor with a newline behind it.
use orbeat_community.Prelude.{
  ℕ, ◌≡◌, ◌≢◌, refl, inl, inr, false, Option, none, some, [], ◌∷◌, ◌++◌, All, Option-cases,
}
use orbeat_community.Text.Pattern.{Chars, codes, newline, less_than, literal, skip_line}
use orbeat_community.Text.Pattern.Local.{match_run-append_inv}
use orbeat_community.Text.Pattern.Search.{Lacks-append, starts_with-other}
use orbeat_community.Text.Pattern.Lines.{Closes, Closes-append_right, Closes-drop_newline}
use orbeat_community.SyncClient.Block.{
  Marks, begin, finish, is_hex, hash_run, sha, match_header, match_tail, match_block, find_block,
}
use orbeat_community.SyncClient.Block.Place.{
  IsProper, match_header_inv, match_header_lem, match_header-append, match_block_of_header,
  match_block_of_no_header, no_block_of_no_mark, All-times,
}

match_block_inv :
    (m : Marks) (s : Chars)
    → match_block m s ≢ none
    → (h v : Chars) × (match_header m s ≡ some (h, v)) × Closes (finish m) v
unfolding match_block match_tail
match_block_inv m s found = elim (Option-cases (match_header m s)) [
  | inl fails ↦ absurd (found (match_block_of_no_header m s fails))
  | inr ((h, v), header) ↦
      let found' = rw header at found in
      elim (Option-cases (skip_line v)) [
        | inl fails ↦ absurd (found' (rw fails))
        | inr (y, line) ↦ (h, v, header, (y, line, λ nothing. found' (rw (line, nothing))))
      ]
]

pub match_block-append :
    (m : Marks) (s u : Chars) → match_block m s ≢ none → match_block m (s ++ u) ≢ none
match_block-append m s u found =
    let (h, v, header, closes) = match_block_inv m s found in
    match_block_of_header m (s ++ u) h (v ++ u) (match_header-append m s h v u header)
      (Closes-append_right (finish m) v u closes)

hash_run-newline : All (λ k. k newline ≡ false) hash_run
unfolding hash_run
hash_run-newline = All-times 12 newline is_hex refl

match_header_drop_newline :
    (m : Marks)
    → IsProper m
    → (s h r : Chars) → match_header m (s ++ newline ∷ []) ≡ some (h, r)
    → (q : Chars) × (match_header m s ≡ some (h, q)) × (r ≡ q ++ newline ∷ [])
match_header_drop_newline m proper s h r e =
    let p = match_header_inv m _ h r e in
    let rejects =
      Lacks-append newline (begin m) sha (refl, proper.begin_line)
        (refl, (refl, (refl, (refl, tt)))) in
    let (a, marked, ea) = match_run-append_inv _ newline s p.mark p.rest [] rejects p.marked in
    let (b, hashed, eb) =
      match_run-append_inv hash_run newline a h p.behind [] hash_run-newline (rw ea at p.hashed) in
    let (q, spaced, eq) =
      match_run-append_inv (literal (codes " ")) newline b p.space r [] (refl, tt)
        (rw eb at p.spaced) in
    (
      q,
      match_header_lem m s h q (record {
        mark = p.mark;
        rest = a;
        behind = b;
        space = p.space;
        marked = marked;
        hashed = hashed;
        spaced = spaced;
      }),
      eq,
    )

match_block_drop_newline :
    (m : Marks)
    → IsProper m
    → (s : Chars) → match_block m (s ++ newline ∷ []) ≢ none
    → match_block m s ≢ none
match_block_drop_newline m proper s found =
    let (h, r, header, closes) = match_block_inv m _ found in
    let (q, header', e) = match_header_drop_newline m proper s h r header in
    match_block_of_header m s h q header'
      (Closes-drop_newline (finish m) q (refl, proper.finish_line) (λ h. cc) (rw e at closes))

not_some : {A : Type 0} (o : Option A) → ((o ≢ none) → ⊥) → o ≡ none
not_some none h = refl
not_some (some a) h = absurd (h (λ e. cc))

find_block-none_cons :
    (m : Marks) (c : ℕ) (s : Chars)
    → find_block m (c ∷ s) ≡ none
    → (match_block m (c ∷ s) ≡ none) × (find_block m s ≡ none)
unfolding find_block
find_block-none_cons m c s e = elim (Option-cases (match_block m (c ∷ s))) [
  | inl miss ↦ elim (Option-cases (find_block m s)) [
    | inl nothing ↦ (miss, nothing)
    | inr (f, later) ↦ cc (rw (miss, later) at e)
  ]
  | inr (b, here) ↦ cc (rw here at e)
]

find_block_cons_none :
    (m : Marks) (c : ℕ) (s : Chars)
    → match_block m (c ∷ s) ≡ none
    → find_block m s ≡ none
    → find_block m (c ∷ s) ≡ none
unfolding find_block
find_block_cons_none m c s miss nothing = rw (miss, nothing)

pub find_block_prefix :
    (m : Marks) (s u : Chars) → find_block m (s ++ u) ≡ none → find_block m s ≡ none
find_block_prefix m [] u e = unfold find_block in refl
find_block_prefix m (c ∷ s) u e =
    let (miss, nothing) = find_block-none_cons m c (s ++ u) e in
    find_block_cons_none m c s
      (not_some (match_block m (c ∷ s)) (λ found. match_block-append m (c ∷ s) u found miss))
      (find_block_prefix m s u nothing)

pub find_block-newline :
    (m : Marks)
    → IsProper m
    → (s : Chars) → find_block m s ≡ none
    → find_block m (s ++ newline ∷ []) ≡ none
find_block-newline m proper [] e =
    find_block_cons_none m newline []
      (no_block_of_no_mark m (newline ∷ [])
        (starts_with-other less_than newline m.begin_tail [] (refl, proper.begin_line)))
      (unfold find_block in refl)
find_block-newline m proper (c ∷ s) e =
    let (miss, nothing) = find_block-none_cons m c s e in
    find_block_cons_none m c (s ++ newline ∷ [])
      (not_some (match_block m (c ∷ s ++ newline ∷ []))
        (λ found. match_block_drop_newline m proper (c ∷ s) found miss))
      (find_block-newline m proper s nothing)
