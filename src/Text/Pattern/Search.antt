-- ===== src/Text/Pattern/Search.antt =====
-- The search for a literal: where it does not occur, and the first place where it does.
use orbeat_community.Prelude.{
  ℕ, zero, ◌+◌, ◌-◌, ◌≡◌, ◌≢◌, inl, inr, Bool, true, false, not, ◌&&◌, none, some, [], ◌∷◌, ◌++◌,
  eqb, All, arith, length, Bool-cases, Option-cases,
}
use orbeat_community.Text.Pattern.{
  Chars, newline, match_run, literal, starts_with, until, count_from, count_literal,
}
use orbeat_community.Text.Pattern.Local.{match_run-append, match_run-append_inv, match_run-literal}

-- The literal starts at no place of the text.
abbrev pub Nowhere : Chars → Chars → Type 0
Nowhere l [] = Unit
Nowhere l (c ∷ s) = (starts_with l (c ∷ s) ≡ false) × Nowhere l s

-- The literal holds no such character.
abbrev pub Lacks : ℕ → Chars → Type 0
Lacks d l = All (λ k. k d ≡ false) (literal l)

count_from-Nowhere : (l s : Chars) → count_from l zero s ≡ 0 → Nowhere l s
unfolding count_from
count_from-Nowhere l [] e = tt
count_from-Nowhere l (c ∷ s) e = elim (Bool-cases (starts_with l (c ∷ s))) [
  | inl hit ↦
      let counted : 1 + count_from l (length l - 1) s ≡ 0 = rw hit at e in absurd (omega arith)
  | inr miss ↦ (miss, count_from-Nowhere l s (rw miss at e))
]

pub count_literal-Nowhere : (l s : Chars) → count_literal l s ≡ 0 → Nowhere l s
unfolding count_literal
count_literal-Nowhere l s e = count_from-Nowhere l s e

pub starts_with-append_inv :
    (l s u : Chars) → starts_with l (s ++ u) ≡ false → starts_with l s ≡ false
unfolding starts_with
starts_with-append_inv l s u e = elim (Option-cases (match_run (literal l) s)) [
  | inl fails ↦ rw fails
  | inr ((m, q), found) ↦ cc (rw (match_run-append (literal l) s m q u found) at e)
]

pub starts_with-append :
    (l : Chars) (d : ℕ) (s u : Chars)
    → Lacks d l
    → starts_with l s ≡ false
    → starts_with l (s ++ d ∷ u) ≡ false
unfolding starts_with
starts_with-append l d s u lacks e = elim (Option-cases (match_run (literal l) (s ++ d ∷ u))) [
  | inl fails ↦ rw fails
  | inr ((m, r), found) ↦
      let (q, here, rest) = match_run-append_inv (literal l) d s m r u lacks found in
      cc (rw here at e)
]

pub Nowhere-append_inv : (l s u : Chars) → Nowhere l (s ++ u) → Nowhere l s
Nowhere-append_inv l [] u h = tt
Nowhere-append_inv l (c ∷ s) u (miss, h) =
    (starts_with-append_inv l (c ∷ s) u miss, Nowhere-append_inv l s u h)

pub Nowhere-append :
    (l : Chars) (d : ℕ) (s u : Chars)
    → Lacks d l
    → Nowhere l s
    → Nowhere l (d ∷ u)
    → Nowhere l (s ++ d ∷ u)
Nowhere-append l d [] u lacks h rest = rest
Nowhere-append l d (c ∷ s) u lacks (miss, h) rest =
    (starts_with-append l d (c ∷ s) u lacks miss, Nowhere-append l d s u lacks h rest)

until-miss :
    (l s p q : Chars) (c : ℕ)
    → starts_with l (c ∷ s) ≡ false
    → until l s ≡ some (p, q)
    → until l (c ∷ s) ≡ some (c ∷ p, q)
unfolding until starts_with
until-miss l s p q c miss e = elim (Option-cases (match_run (literal l) (c ∷ s))) [
  | inl fails ↦ rw (fails, e)
  | inr (m, found) ↦ cc (rw found at miss)
]

until-hit : (a : ℕ) (l u : Chars) → until (a ∷ l) ((a ∷ l) ++ u) ≡ some ([], u)
unfolding until
until-hit a l u = rw (match_run-literal (a ∷ l) u)

pub starts_with-other :
    (a d : ℕ) (l s : Chars) → Lacks d (a ∷ l) → starts_with (a ∷ l) (d ∷ s) ≡ false
unfolding starts_with match_run
starts_with-other a d l s lacks = rw (lacks.0)

-- Behind a newline, the literal is found where it is put.
pub until-append :
    (a : ℕ) (l s u : Chars)
    → Lacks newline (a ∷ l)
    → Nowhere (a ∷ l) s
    → until (a ∷ l) (s ++ newline ∷ ((a ∷ l) ++ u)) ≡ some (s ++ newline ∷ [], u)
until-append a l [] u lacks h =
    until-miss (a ∷ l) ((a ∷ l) ++ u) [] u newline
      (starts_with-other a newline l ((a ∷ l) ++ u) lacks) (until-hit a l u)
until-append a l (c ∷ s) u lacks (miss, h) =
    until-miss (a ∷ l) (s ++ newline ∷ ((a ∷ l) ++ u)) (s ++ newline ∷ []) u c
      (starts_with-append (a ∷ l) newline (c ∷ s) ((a ∷ l) ++ u) lacks miss)
      (until-append a l s u lacks h)

-- What is found is found from further left, there or earlier.
pub until-cons : (l s : Chars) (c : ℕ) → until l s ≢ none → until l (c ∷ s) ≢ none
unfolding until
until-cons l s c found = elim (Option-cases (match_run (literal l) (c ∷ s))) [
  | inl fails ↦ elim (Option-cases (until l s)) [
    | inl nothing ↦ absurd (found nothing)
    | inr (p, e) ↦ rw (fails, e) (λ h. cc)
  ]
  | inr (m, here) ↦ rw here (λ h. cc)
]

pub until-append_left : (l s u : Chars) → until l u ≢ none → until l (s ++ u) ≢ none
until-append_left l [] u found = found
until-append_left l (c ∷ s) u found = until-cons l (s ++ u) c (until-append_left l s u found)

pub Lacks-append : (d : ℕ) (l l' : Chars) → Lacks d l → Lacks d l' → Lacks d (l ++ l')
Lacks-append d [] l' h h' = h'
Lacks-append d (c ∷ l) l' (other, h) h' = (other, Lacks-append d l l' h h')

-- The same, as a test.
abbrev pub lacks : ℕ → Chars → Bool
lacks d [] = true
lacks d (c ∷ l) = not (eqb c d) && lacks d l

pub Lacks-of_lacks : (d : ℕ) (l : Chars) → lacks d l ≡ true → Lacks d l
Lacks-of_lacks d [] h = tt
Lacks-of_lacks d (c ∷ l) h = (ground arith, Lacks-of_lacks d l (ground arith))
