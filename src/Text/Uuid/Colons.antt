-- ===== src/Text/Uuid/Colons.antt =====
-- A UUID has no colon in it.
use Prim.Native.Char.{code}
use Prim.Native.String.{String, [], ◌∷◌}
use orbeat_community.Prelude.{
  ℕ, zero, suc, ◌≡◌, ◌≢◌, true, Option, none, some, inl, inr, eqb, arith, eq_iff, Bool-cases,
}
use orbeat_community.Text.Uuid.{is_hex, skip_hex, skip_dash, at_end, is_uuid, ◌>>=◌}

abbrev pub NoColon : String → Type 0
NoColon [] = Unit
NoColon (c ∷ s) = (code c ≢ b':') × NoColon s

-- What is read off a text has no colon, nor has the text.
abbrev Reads : Option String → String → Type 0
Reads none s = Unit
Reads (some rest) s = NoColon rest → NoColon s

Reads-step : (o : Option String) (t s : String) → (NoColon t → NoColon s) → Reads o t → Reads o s
Reads-step none t s step h = tt
Reads-step (some rest) t s step h = λ e. step (h e)

skip_hex-Reads : (n : ℕ) (s : String) → Reads (skip_hex n s) s
unfolding skip_hex
skip_hex-Reads zero s = λ h. h
skip_hex-Reads (suc n) [] = tt
skip_hex-Reads (suc n) (c ∷ s) = elim (Bool-cases (is_hex c)) [
  | inr other ↦ rw other tt
  | inl hex ↦
      rw hex (Reads-step (skip_hex n s) s (c ∷ s) (λ h. (ground arith, h)) (skip_hex-Reads n s))
]

skip_dash-Reads : (s : String) → Reads (skip_dash s) s
unfolding skip_dash
skip_dash-Reads [] = tt
skip_dash-Reads (c ∷ s) = elim (Bool-cases (eqb (code c) b'-')) [
  | inr other ↦ rw other tt
  | inl dash ↦ rw dash (λ h. (ground arith, h))
]

-- Steps one after another read one text.
Reads-then :
    (o : Option String) (f : String → Option String) (s : String)
    → Reads o s
    → ((t : String) → Reads (f t) t)
    → Reads (o >>= f) s
Reads-then none f s h k = tt
Reads-then (some t) f s h k = Reads-step (f t) t s h (k t)

at_end-NoColon : (o : Option String) (s : String) → Reads o s → at_end o ≡ true → NoColon s
at_end-NoColon none s h e = absurd (cc)
at_end-NoColon (some rest) s h e =
    let nothing_left : rest ≡ "" = (eq_iff rest "").0 e in
    let clean : NoColon rest = rw nothing_left tt in h clean

pub is_uuid-NoColon : (s : String) → is_uuid s ≡ true → NoColon s
unfolding is_uuid
is_uuid-NoColon s h =
    at_end-NoColon _ s
      (Reads-then _ _ s (skip_hex-Reads 8 s) (λ a. Reads-then _ _ a (skip_dash-Reads a) (λ b.
        Reads-then _ _ b (skip_hex-Reads 4 b) (λ c. Reads-then _ _ c (skip_dash-Reads c) (λ d.
          Reads-then _ _ d (skip_hex-Reads 4 d) (λ e. Reads-then _ _ e (skip_dash-Reads e) (λ f.
            Reads-then _ _ f (skip_hex-Reads 4 f)
              (λ g. Reads-then _ _ g (skip_dash-Reads g) (λ i. skip_hex-Reads 12 i)))))))))
      h
