-- ===== src/Text/Pattern/Trim.antt =====
-- Trailing newlines.
use orbeat_community.Prelude.{
  ◌≡◌, refl, ap, ◌∙◌, inl, inr, true, ◌&&◌, [], ◌∷◌, ◌++◌, eqb, All, arith, Bool-cases,
}
use orbeat_community.Text.Pattern.{Chars, newline, is_nil, trim_right}

-- Newlines and nothing else.
abbrev pub AreNewlines : Chars → Type 0
AreNewlines s = All (λ c. c ≡ newline) s

pub nil_of_is_nil : (s : Chars) → is_nil s ≡ true → s ≡ []
nil_of_is_nil [] h = refl
nil_of_is_nil (c ∷ s) h = cc

-- A text is what is left of it, with newlines behind.
pub trim_right-append : (s : Chars) → (ns : Chars) × (s ≡ trim_right s ++ ns) × AreNewlines ns
unfolding trim_right
trim_right-append [] = ([], refl, tt)
trim_right-append (c ∷ s) =
    let (ns, e, are) = trim_right-append s in
    elim (Bool-cases (eqb c newline && is_nil (trim_right s))) [
      | inl last ↦
          let empty : trim_right s ≡ [] = nil_of_is_nil (trim_right s) (ground arith) in
          rw last (c ∷ ns, ap (λ t. c ∷ t) (e ∙ ap (λ t. t ++ ns) empty), (ground arith, are))
      | inr more ↦ rw more (ns, ap (λ t. c ∷ t) e, are)
    ]

pub trim_right-newlines : (ns : Chars) → AreNewlines ns → trim_right ns ≡ []
unfolding trim_right
trim_right-newlines [] h = refl
trim_right-newlines (c ∷ ns) (e, h) = rw (e, trim_right-newlines ns h)

pub trim_right-append_newlines :
    (s ns : Chars) → AreNewlines ns → trim_right (trim_right s ++ ns) ≡ trim_right s
unfolding trim_right
trim_right-append_newlines [] ns h = trim_right-newlines ns h
trim_right-append_newlines (c ∷ s) ns h =
    let ih = trim_right-append_newlines s ns h in
    elim (Bool-cases (eqb c newline && is_nil (trim_right s))) [
      | inl last ↦ rw last (trim_right-newlines ns h)
      | inr more ↦ rw more (rw (ih, more))
    ]
