-- ===== src/Text/Pattern/Lines.antt =====
-- What stands behind the first newline, and behind a run.
use orbeat_community.Prelude.{
  ℕ, ◌≡◌, ◌≢◌, ◌⊎◌, refl, ap, inl, inr, Bool, true, none, some, List, [], ◌∷◌, ◌++◌, eqb, length,
  length-append, ◌≤◌, ◌<◌, arith, Bool-cases, Option-cases,
}
use orbeat_community.Text.Pattern.{
  Chars, newline, match_run, literal, starts_with, skip_line, skip_newline, until,
}
use orbeat_community.Text.Pattern.Local.{match_run-append, match_run-append_inv}
use orbeat_community.Text.Pattern.Search.{Lacks, until-append_left, until-cons}

-- Behind a first newline the end marker is found.
abbrev pub Closes : Chars → Chars → Type 0
Closes l s = (y : Chars) × (skip_line s ≡ some y) × (until l y ≢ none)

skip_line-suffix : (s y : Chars) → skip_line s ≡ some y → (x : Chars) × (s ≡ x ++ y)
unfolding skip_line
skip_line-suffix [] y e = cc
skip_line-suffix (c ∷ s) y e = elim (Bool-cases (eqb c newline)) [
  | inl here ↦ let same_rest : some s ≡ some y = rw here at e in (c ∷ [], ap (λ t. c ∷ t) (cc))
  | inr later ↦ let (x, e') = skip_line-suffix s y (rw later at e) in (c ∷ x, ap (λ t. c ∷ t) e')
]

Closes-cons : (l : Chars) (c : ℕ) (s : Chars) → Closes l s → Closes l (c ∷ s)
unfolding skip_line
Closes-cons l c s (y, line, found) = elim (Bool-cases (eqb c newline)) [
  | inl here ↦
      let (x, e) = skip_line-suffix s y line in
      (s, rw here refl, rw e (until-append_left l x y found))
  | inr later ↦ (y, rw later line, found)
]

pub Closes-append : (l s u : Chars) → Closes l u → Closes l (s ++ u)
Closes-append l [] u h = h
Closes-append l (c ∷ s) u h = Closes-cons l c (s ++ u) (Closes-append l s u h)

pub match_run-suffix :
    (ks : List (ℕ → Bool)) (s p q : Chars) → match_run ks s ≡ some (p, q) → s ≡ p ++ q
unfolding match_run
match_run-suffix [] s p q e = cc
match_run-suffix (k ∷ ks) [] p q e = cc
match_run-suffix (k ∷ ks) (c ∷ s) p q e = elim (Bool-cases (k c)) [
  | inl accepts ↦ elim (Option-cases (match_run ks s)) [
    | inl fails ↦ cc (rw (accepts, fails) at e)
    | inr ((n, r), e') ↦
        let here : some (c ∷ n, r) ≡ some (p, q) = rw (accepts, e') at e in
        let ih = match_run-suffix ks s n r e' in ground (arith, ap (λ t. c ∷ t) ih)
  ]
  | inr refuses ↦ cc (rw refuses at e)
]

is_some-prefixed :
    (c d : ℕ) (l s : Chars)
    → eqb c d ≡ true
    → starts_with l s ≡ true
    → starts_with (c ∷ l) (d ∷ s) ≡ true
unfolding starts_with match_run
is_some-prefixed c d l s accepts h = ground arith

pub skip_line-append : (s u : Chars) → skip_line s ≡ none → skip_line (s ++ newline ∷ u) ≡ some u
unfolding skip_line
skip_line-append [] u e = refl
skip_line-append (c ∷ s) u e = ground (arith, skip_line-append s u)

pub skip_newline-newline : (u : Chars) → skip_newline (newline ∷ u) ≡ u
unfolding skip_newline
skip_newline-newline u = refl

-- What starts with a literal starts with each beginning of it.
pub starts_with-longer :
    (l l' s m q : Chars) → match_run (literal (l ++ l')) s ≡ some (m, q) → starts_with l s ≡ true
unfolding starts_with match_run
starts_with-longer [] l' s m q e = refl
starts_with-longer (c ∷ l) l' [] m q e = cc
starts_with-longer (c ∷ l) l' (d ∷ s) m q e = elim (Bool-cases (eqb c d)) [
  | inl accepts ↦ elim (Option-cases (match_run (literal (l ++ l')) s)) [
    | inl fails ↦ cc (rw (accepts, fails) at e)
    | inr ((n, r), e') ↦ is_some-prefixed c d l s accepts (starts_with-longer l l' s n r e')
  ]
  | inr refuses ↦ cc (rw refuses at e)
]

pub length-skip_line : (s y : Chars) → skip_line s ≡ some y → length y < length s
unfolding skip_line
length-skip_line [] y e = cc
length-skip_line (c ∷ s) y e = ground (arith, length-skip_line s y)

pub length-skip_newline : (s : Chars) → length (skip_newline s) ≤ length s
unfolding skip_newline
length-skip_newline [] = omega arith
length-skip_newline (c ∷ s) = ground arith

pub length-until : (l s p q : Chars) → until l s ≡ some (p, q) → length q ≤ length s
unfolding until
length-until l [] p q e = cc
length-until l (c ∷ s) p q e = elim (Option-cases (match_run (literal l) (c ∷ s))) [
  | inl fails ↦ elim (Option-cases (until l s)) [
    | inl nothing ↦ cc (rw (fails, nothing) at e)
    | inr ((x, r), later) ↦
        let is : some (c ∷ x, r) ≡ some (p, q) = rw (fails, later) at e in
        let rest : r ≡ q = cc in omega (arith, ap length rest, length-until l s x r later)
  ]
  | inr ((m, r), here) ↦
      let is : some ([], r) ≡ some (p, q) = rw here at e in
      let rest : r ≡ q = cc in
      omega (
        arith,
        ap length rest,
        ap length (match_run-suffix (literal l) (c ∷ s) m r here),
        length-append m r,
      )
]

-- What stands behind does not hide what is found.
pub skip_line-append_some :
    (s y u : Chars) → skip_line s ≡ some y → skip_line (s ++ u) ≡ some (y ++ u)
unfolding skip_line
skip_line-append_some [] y u e = cc
skip_line-append_some (c ∷ s) y u e = elim (Bool-cases (eqb c newline)) [
  | inl here ↦
      let is : some s ≡ some y = rw here at e in
      let rest : s ≡ y = cc in rw here (ap (λ t. some (t ++ u)) rest)
  | inr later ↦ rw later (skip_line-append_some s y u (rw later at e))
]

until-here : (l s m q : Chars) → match_run (literal l) s ≡ some (m, q) → s ≢ [] → until l s ≢ none
unfolding until
until-here l [] m q e full = absurd (full refl)
until-here l (c ∷ s) m q e full = rw e (λ h. cc)

-- Where a literal is found in `c ∷ s`, it starts there or is found in `s`.
until-cases :
    (l s : Chars) (c : ℕ)
    → until l (c ∷ s) ≢ none
    → ((p : Chars × Chars) × (match_run (literal l) (c ∷ s) ≡ some p)) ⊎ (until l s ≢ none)
unfolding until
until-cases l s c found = elim (Option-cases (match_run (literal l) (c ∷ s))) [
  | inl fails ↦ inr (λ nothing. found (rw (fails, nothing)))
  | inr (p, here) ↦ inl (p, here)
]

until-append_right : (l s u : Chars) → until l s ≢ none → until l (s ++ u) ≢ none
until-append_right l [] u found = absurd (found (unfold until in refl))
until-append_right l (c ∷ s) u found = elim (until-cases l s c found) [
  | inl ((m, q), here) ↦
      until-here l (c ∷ s ++ u) m (q ++ u) (match_run-append (literal l) (c ∷ s) m q u here)
        (λ h. cc)
  | inr later ↦ until-cons l (s ++ u) c (until-append_right l s u later)
]

no_run_of_newline :
    (l m q : Chars) → Lacks newline l → l ≢ [] → match_run (literal l) (newline ∷ []) ≢ some (m, q)
unfolding match_run
no_run_of_newline [] m q lacks full e = full refl
no_run_of_newline (c ∷ l) m q (other, lacks) full e = cc (rw other at e)

until_drop_newline :
    (l s : Chars) → Lacks newline l → until l (s ++ newline ∷ []) ≢ none → l ≢ [] → until l s ≢ none
until_drop_newline l [] lacks found full = elim (until-cases l [] newline found) [
  | inl ((m, q), here) ↦ absurd (no_run_of_newline l m q lacks full here)
  | inr later ↦ later
]
until_drop_newline l (c ∷ s) lacks found full = elim (until-cases l (s ++ newline ∷ []) c found) [
  | inl ((m, r), here) ↦
      let (q, here', _) = match_run-append_inv (literal l) newline (c ∷ s) m r [] lacks here in
      until-here l (c ∷ s) m q here' (λ h. cc)
  | inr later ↦ until-cons l s c (until_drop_newline l s lacks later full)
]

pub Closes-append_right : (l s u : Chars) → Closes l s → Closes l (s ++ u)
Closes-append_right l s u (y, line, found) =
    (y ++ u, skip_line-append_some s y u line, until-append_right l y u found)

pub Closes-drop_newline :
    (l s : Chars) → Lacks newline l → l ≢ [] → Closes l (s ++ newline ∷ []) → Closes l s
unfolding skip_line
Closes-drop_newline l [] lacks full (y, line, found) =
    let is : some [] ≡ some y = line in
    let nothing : [] ≡ y = cc in absurd (found (rw (← nothing) (unfold until in refl)))
Closes-drop_newline l (c ∷ s) lacks full (y, line, found) = elim (Bool-cases (eqb c newline)) [
  | inl here ↦
      let is : some (s ++ newline ∷ []) ≡ some y = rw here at line in
      let rest : y ≡ s ++ newline ∷ [] = cc in
      (s, rw here refl, until_drop_newline l s lacks (rw rest at found) full)
  | inr later ↦ Closes-cons l c s (Closes-drop_newline l s lacks full (y, rw later at line, found))
]
