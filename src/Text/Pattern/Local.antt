-- ===== src/Text/Pattern/Local.antt =====
-- Where a run of classes matches depends only on the characters that it can reach.
use orbeat_community.Prelude.{
  ℕ, ◌≡◌, refl, inl, inr, Bool, false, some, List, [], ◌∷◌, ◌++◌, All, arith, Bool-cases,
  Option-cases,
}
use orbeat_community.Text.Pattern.{Chars, match_run, literal}

-- What follows the match does not matter.
pub match_run-append :
    (ks : List (ℕ → Bool)) (s m q u : Chars)
    → match_run ks s ≡ some (m, q)
    → match_run ks (s ++ u) ≡ some (m, q ++ u)
unfolding match_run
match_run-append [] s m q u e = cc
match_run-append (k ∷ ks) [] m q u e = cc
match_run-append (k ∷ ks) (c ∷ s) m q u e = elim (Bool-cases (k c)) [
  | inl accepts ↦ elim (Option-cases (match_run ks s)) [
    | inl fails ↦ cc (rw (accepts, fails) at e)
    | inr ((n, r), e') ↦
        let here : some (c ∷ n, r) ≡ some (m, q) = rw (accepts, e') at e in
        rw (accepts, match_run-append ks s n r u e') (cc)
  ]
  | inr refuses ↦ cc (rw refuses at e)
]

-- A run that cannot match `d` does not reach beyond it.
pub match_run-append_inv :
    (ks : List (ℕ → Bool)) (d : ℕ) (s m r u : Chars)
    → All (λ k. k d ≡ false) ks
    → match_run ks (s ++ d ∷ u) ≡ some (m, r)
    → (q : Chars) × (match_run ks s ≡ some (m, q)) × (r ≡ q ++ d ∷ u)
unfolding match_run
match_run-append_inv [] d s m r u rejects e = (s, cc, cc)
match_run-append_inv (k ∷ ks) d [] m r u (rejects, more) e = cc (rw rejects at e)
match_run-append_inv (k ∷ ks) d (c ∷ s) m r u (rejects, more) e = elim (Bool-cases (k c)) [
  | inl accepts ↦ elim (Option-cases (match_run ks (s ++ d ∷ u))) [
    | inl fails ↦ cc (rw (accepts, fails) at e)
    | inr ((n, r'), e') ↦
        let (q, matched, rest) = match_run-append_inv ks d s n r' u more e' in
        let here : some (c ∷ n, r') ≡ some (m, r) = rw (accepts, e') at e in
        (q, rw (accepts, matched) (cc), cc)
  ]
  | inr refuses ↦ cc (rw refuses at e)
]

pub match_run-literal : (l u : Chars) → match_run (literal l) (l ++ u) ≡ some (l, u)
unfolding match_run
match_run-literal [] u = refl
match_run-literal (c ∷ l) u = ground (arith, match_run-literal l u)

-- The same where the first class may match `d`, and the text is not empty before it.
pub match_run-cons_append_inv :
    (k : ℕ → Bool) (ks : List (ℕ → Bool)) (d c : ℕ) (s m r u : Chars)
    → All (λ k. k d ≡ false) ks
    → match_run (k ∷ ks) (c ∷ s ++ d ∷ u) ≡ some (m, r)
    → (q : Chars) × (match_run (k ∷ ks) (c ∷ s) ≡ some (m, q)) × (r ≡ q ++ d ∷ u)
unfolding match_run
match_run-cons_append_inv k ks d c s m r u rejects e = elim (Bool-cases (k c)) [
  | inl accepts ↦ elim (Option-cases (match_run ks (s ++ d ∷ u))) [
    | inl fails ↦ cc (rw (accepts, fails) at e)
    | inr ((n, r'), e') ↦
        let (q, matched, rest) = match_run-append_inv ks d s n r' u rejects e' in
        let here : some (c ∷ n, r') ≡ some (m, r) = rw (accepts, e') at e in
        (q, rw (accepts, matched) (cc), cc)
  ]
  | inr refuses ↦ cc (rw refuses at e)
]
