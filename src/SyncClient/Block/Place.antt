-- ===== src/SyncClient/Block/Place.antt =====
-- Where a block is found. What stands before it cannot become part of another match, since a marker
-- holds `<` at its start only.
use orbeat_community.Prelude.{
  ℕ, zero, suc, ◌≡◌, ◌≢◌, refl, ap, subst, inl, inr, Bool, false, none, some, [], ◌∷◌, ◌++◌, eqb,
  All, arith, Bool-cases, Option-cases,
}
use orbeat_community.Text.Pattern.{
  Chars, codes, newline, less_than, match_run, literal, skip_line, until, starts_with,
}
use orbeat_community.Text.Pattern.Local.{
  match_run-append, match_run-append_inv, match_run-cons_append_inv,
}
use orbeat_community.Text.Pattern.Search.{Nowhere, Lacks, Lacks-append}
use orbeat_community.Text.Pattern.Lines.{
  Closes, Closes-append, match_run-suffix, starts_with-longer,
}
use orbeat_community.SyncClient.Block.{
  Marks, begin, finish, is_hex, times, hash_run, sha, match_header, Block, match_tail, match_block,
  Found, find_block,
}

pub record IsProper (m : Marks) : Type 0 where
  pub begin_once : Lacks less_than m.begin_tail
  pub begin_line : Lacks newline m.begin_tail
  pub finish_line : Lacks newline m.finish_tail

-- The three runs of a header.
pub record Header (m : Marks) (s h v : Chars) : Type 0 where
  pub mark : Chars
  pub rest : Chars
  pub behind : Chars
  pub space : Chars
  pub marked : match_run (literal (begin m ++ sha)) s ≡ some (mark, rest)
  pub hashed : match_run hash_run rest ≡ some (h, behind)
  pub spaced : match_run (literal (codes " ")) behind ≡ some (space, v)

pub match_header_inv : (m : Marks) (s h v : Chars) → match_header m s ≡ some (h, v) → Header m s h v
unfolding match_header
match_header_inv m s h v e = elim (Option-cases (match_run (literal (begin m ++ sha)) s)) [
  | inl fails ↦ cc (rw fails at e)
  | inr ((a, t), marked) ↦
      let e1 = rw marked at e in
      elim (Option-cases (match_run hash_run t)) [
        | inl fails ↦ cc (rw fails at e1)
        | inr ((n, w), hashed) ↦
            let e2 = rw hashed at e1 in
            elim (Option-cases (match_run (literal (codes " ")) w)) [
              | inl fails ↦ cc (rw fails at e2)
              | inr ((b, r), spaced) ↦
                  let e3 : some (n, r) ≡ some (h, v) = rw spaced at e2 in
                  record {
                    mark = a;
                    rest = t;
                    behind = w;
                    space = b;
                    marked = marked;
                    hashed = cc;
                    spaced = cc;
                  }
            ]
      ]
]

pub match_header_lem : (m : Marks) (s h v : Chars) → Header m s h v → match_header m s ≡ some (h, v)
unfolding match_header
match_header_lem m s h v p = rw (p.marked, p.hashed, p.spaced)

pub match_header-append :
    (m : Marks) (s h v u : Chars)
    → match_header m s ≡ some (h, v)
    → match_header m (s ++ u) ≡ some (h, v ++ u)
match_header-append m s h v u e =
    let p = match_header_inv m s h v e in
    match_header_lem m (s ++ u) h (v ++ u) (record {
      mark = p.mark;
      rest = p.rest ++ u;
      behind = p.behind ++ u;
      space = p.space;
      marked = match_run-append _ s p.mark p.rest u p.marked;
      hashed = match_run-append _ p.rest h p.behind u p.hashed;
      spaced = match_run-append _ p.behind p.space v u p.spaced;
    })

pub All-times :
    (n d : ℕ) (k : ℕ → Bool) → k d ≡ false → All (λ (j : ℕ → Bool). j d ≡ false) (times n k)
All-times zero d k h = tt
All-times (suc n) d k h = (h, All-times n d k h)

pub hash_run-rejects : All (λ k. k less_than ≡ false) hash_run
unfolding hash_run
hash_run-rejects = All-times 12 less_than is_hex refl

-- A header that starts before a `<` ends before it.
match_header-append_inv :
    (m : Marks)
    → IsProper m
    → (c : ℕ) (s h r u : Chars) → match_header m (c ∷ s ++ less_than ∷ u) ≡ some (h, r)
    → (q : Chars) × (match_header m (c ∷ s) ≡ some (h, q)) × (r ≡ q ++ less_than ∷ u)
match_header-append_inv m proper c s h r u e =
    let p = match_header_inv m _ h r e in
    let rejects =
      Lacks-append less_than m.begin_tail sha proper.begin_once
        (refl, (refl, (refl, (refl, tt)))) in
    let (a, marked, ea) =
      match_run-cons_append_inv _ _ less_than c s p.mark p.rest u rejects p.marked in
    let (b, hashed, eb) =
      match_run-append_inv hash_run less_than a h p.behind u hash_run-rejects (rw ea at p.hashed) in
    let (q, spaced, eq) =
      match_run-append_inv (literal (codes " ")) less_than b p.space r u (refl, tt)
        (rw eb at p.spaced) in
    (
      q,
      match_header_lem m (c ∷ s) h q (record {
        mark = p.mark;
        rest = a;
        behind = b;
        space = p.space;
        marked = marked;
        hashed = hashed;
        spaced = spaced;
      }),
      eq,
    )

pub match_block_of_header :
    (m : Marks) (s h v : Chars)
    → match_header m s ≡ some (h, v)
    → Closes (finish m) v
    → match_block m s ≢ none
unfolding match_block match_tail
match_block_of_header m s h v e (y, line, found) nothing =
    elim (Option-cases (until (finish m) y)) [
      | inl fails ↦ found fails
      | inr (b, here) ↦ cc (rw (e, line, here) at nothing)
    ]

pub match_block_of_no_header :
    (m : Marks) (s : Chars) → match_header m s ≡ none → match_block m s ≡ none
unfolding match_block
match_block_of_no_header m s e = rw e

-- Behind its header, a block closes.
pub match_block-Closes :
    (m : Marks) (s : Chars) (b : Block) → match_block m s ≡ some b → Closes (finish m) s
unfolding match_block match_tail
match_block-Closes m s b e = elim (Option-cases (match_header m s)) [
  | inl fails ↦ cc (rw fails at e)
  | inr ((h, v), header) ↦
      let p = match_header_inv m s h v header in
      let e1 = rw header at e in
      elim (Option-cases (skip_line v)) [
        | inl fails ↦ cc (rw fails at e1)
        | inr (y, line) ↦
            let e2 = rw line at e1 in
            elim (Option-cases (until (finish m) y)) [
              | inl fails ↦ cc (rw fails at e2)
              | inr (x, found) ↦
                  let closes : Closes (finish m) v = (y, line, λ nothing. cc) in
                  rw (match_run-suffix _ s p.mark p.rest p.marked) (
                    Closes-append (finish m) p.mark p.rest (
                      rw (match_run-suffix _ p.rest h p.behind p.hashed) (
                        Closes-append (finish m) h p.behind (
                          rw (match_run-suffix _ p.behind p.space v p.spaced)
                            (Closes-append (finish m) p.space v closes)))))
            ]
      ]
]

pub no_block_nil : (m : Marks) → match_block m [] ≡ none
unfolding match_block match_header match_run
no_block_nil m = refl

-- A text before a `<` that begins no block there begins none before another block.
miss_again :
    (m : Marks)
    → IsProper m
    → (c : ℕ) (s u u' : Chars) → Closes (finish m) (less_than ∷ u)
    → match_block m (c ∷ s ++ less_than ∷ u) ≡ none
    → match_block m (c ∷ s ++ less_than ∷ u') ≡ none
miss_again m proper c s u u' closes miss =
    elim (Option-cases (match_header m (c ∷ s ++ less_than ∷ u'))) [
      | inl fails ↦ match_block_of_no_header m _ fails
      | inr ((h, r), header) ↦
          let (q, here, _) = match_header-append_inv m proper c s h r u' header in
          absurd (
            match_block_of_header m (c ∷ s ++ less_than ∷ u) h (q ++ less_than ∷ u)
              (match_header-append m (c ∷ s) h q (less_than ∷ u) here)
              (Closes-append (finish m) q (less_than ∷ u) closes) miss)
    ]

-- No block begins where the begin marker does not.
pub no_block_of_no_mark :
    (m : Marks) (s : Chars) → starts_with (begin m) s ≡ false → match_block m s ≡ none
no_block_of_no_mark m s no_mark = elim (Option-cases (match_header m s)) [
  | inl fails ↦ match_block_of_no_header m s fails
  | inr ((h, v), header) ↦
      let p = match_header_inv m s h v header in
      cc (starts_with-longer (begin m) sha s p.mark p.rest p.marked, no_mark)
]

pub find_block_of_Nowhere : (m : Marks) (s : Chars) → Nowhere (begin m) s → find_block m s ≡ none
unfolding find_block
find_block_of_Nowhere m [] h = refl
find_block_of_Nowhere m (c ∷ s) (miss, h) =
    rw (no_block_of_no_mark m (c ∷ s) miss, find_block_of_Nowhere m s h)

-- No block begins in `s` where `t` follows.
abbrev pub Misses : Marks → Chars → Chars → Type 0
Misses m [] t = Unit
Misses m (c ∷ s) t = (match_block m (c ∷ s ++ t) ≡ none) × Misses m s t

-- The parts of what is found.
abbrev pub Parts : Marks → Chars → Found → Type 0
Parts m s f =
    (t : Chars) × (s ≡ f.before ++ t) × (match_block m t ≡ some f.block) × Misses m f.before t

pub find_block_inv : (m : Marks) (s : Chars) (f : Found) → find_block m s ≡ some f → Parts m s f
unfolding find_block
find_block_inv m [] f e = cc
find_block_inv m (c ∷ s) f e = elim (Option-cases (match_block m (c ∷ s))) [
  | inl miss ↦ elim (Option-cases (find_block m s)) [
    | inl nothing ↦ cc (rw (miss, nothing) at e)
    | inr (g, later) ↦
        let (t, e', here, misses) = find_block_inv m s g later in
        let is : some (record g { before = c ∷ g.before }) ≡ some f = rw (miss, later) at e in
        let parts : Parts m (c ∷ s) (record g { before = c ∷ g.before }) =
          (t, ap (λ x. c ∷ x) e', here, (rw e' at miss, misses)) in
        let found : record g { before = c ∷ g.before } ≡ f = cc in
        subst (λ x. Parts m (c ∷ s) x) found parts
  ]
  | inr (b, here) ↦
      let is : some (record { before = []; block = b }) ≡ some f = rw here at e in
      let parts : Parts m (c ∷ s) (record { before = []; block = b }) = (c ∷ s, refl, here, tt) in
      let found : record { before = []; block = b } ≡ f = cc in
      subst (λ x. Parts m (c ∷ s) x) found parts
]

-- A block is found where none begins before it.
pub find_block-append :
    (m : Marks) (s t : Chars) (b : Block)
    → Misses m s t
    → match_block m t ≡ some b
    → find_block m (s ++ t) ≡ some (record { before = s; block = b })
unfolding find_block
find_block-append m [] [] b misses e = cc (e, no_block_nil m)
find_block-append m [] (c ∷ t) b misses e = rw e
find_block-append m (c ∷ s) t b (miss, misses) e = rw (miss, find_block-append m s t b misses e)

-- In the place of a block stands another.
pub Misses-replaced :
    (m : Marks)
    → IsProper m
    → (s u u' : Chars) → Closes (finish m) (less_than ∷ u)
    → Misses m s (less_than ∷ u)
    → Misses m s (less_than ∷ u')
Misses-replaced m proper [] u u' closes misses = tt
Misses-replaced m proper (c ∷ s) u u' closes (miss, misses) =
    (miss_again m proper c s u u' closes miss, Misses-replaced m proper s u u' closes misses)

-- No block begins in a text without begin markers that stands before a `<`.
pub Misses-of_Nowhere :
    (m : Marks) → IsProper m → (s u : Chars) → Nowhere (begin m) s → Misses m s (less_than ∷ u)
Misses-of_Nowhere m proper [] u h = tt
Misses-of_Nowhere m proper (c ∷ s) u (miss, h) = (
  elim (Option-cases (match_header m (c ∷ s ++ less_than ∷ u))) [
    | inl fails ↦ match_block_of_no_header m _ fails
    | inr ((hash, r), header) ↦
        let (q, here, _) = match_header-append_inv m proper c s hash r u header in
        let p = match_header_inv m _ hash q here in
        cc (starts_with-longer (begin m) sha _ p.mark p.rest p.marked, miss)
  ],
  Misses-of_Nowhere m proper s u h,
)

-- A block starts with `<`.
pub match_block-less_than :
    (m : Marks) (t : Chars) (b : Block)
    → match_block m t ≡ some b
    → (u : Chars) × (t ≡ less_than ∷ u)
unfolding match_block match_header match_run
match_block-less_than m [] b e = cc
match_block-less_than m (c ∷ t) b e = elim (Bool-cases (eqb less_than c)) [
  | inl lt ↦ (t, ground arith)
  | inr other ↦ cc (rw other at e)
]
