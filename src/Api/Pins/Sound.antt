-- ===== src/Api/Pins/Sound.antt =====
-- What the server knows of the pins that it accepts.
use orbeat_community.Prelude.{
  ℕ, suc, ◌+◌, ◌≤◌, String, ◌≡◌, refl, inl, inr, true, Option, none, some, List, [], ◌∷◌, ltb,
  length, All, arith, Bool-cases, Option-cases,
}
use orbeat_community.Prelude.Assoc.{Assoc, lookup, insert, All-insert, Distinct, Distinct-insert}
use orbeat_community.Prelude.Results.{Result, err, ok, Result-cases}
use orbeat_community.Text.Decimal.{int64_max, parse_positive}
use orbeat_community.Text.Decimal.RoundTrip.{parse_positive_bounds}
use orbeat_community.Text.Uuid.{is_uuid}
use orbeat_community.Api.Pins.{
  PinError, cut, add_new, add_number, add_cut, add_pins, parse_pins, max_pins_per_request,
}

-- An entry that the server may hold.
abbrev pub IsEntry : String × ℕ → Type 0
IsEntry e = (is_uuid e.0 ≡ true) × (1 ≤ e.1) × (e.1 ≤ int64_max)

abbrev AreEntries : Assoc ℕ → Type 0
AreEntries pins = All IsEntry pins × Distinct pins

-- One parameter adds one entry.
abbrev OneMore : Assoc ℕ → Result PinError (Assoc ℕ) → Type 0
OneMore pins (err e) = Unit
OneMore pins (ok pins') = AreEntries pins' × (length pins' ≡ length pins + 1)

length-insert :
    (id : String) (n : ℕ) (pins : Assoc ℕ)
    → lookup id pins ≡ none
    → length (insert id n pins) ≡ length pins + 1
unfolding lookup insert
length-insert id n [] new = refl
length-insert id n ((j, m) ∷ pins) new = ground (arith, length-insert id n pins)

add_number-OneMore :
    (pins : Assoc ℕ) (id num : String)
    → AreEntries pins
    → is_uuid id ≡ true
    → OneMore pins (add_number pins id (parse_positive num))
unfolding add_number add_new
add_number-OneMore pins id num (valid, distinct) uuid = elim (Option-cases (parse_positive num)) [
  | inl bad ↦ rw bad tt
  | inr (n, e) ↦
      let bounds = parse_positive_bounds num n e in
      elim (Option-cases (lookup id pins)) [
        | inl new ↦
            rw (e, new)
              (
                (
                  All-insert IsEntry id n pins (uuid, bounds.0, bounds.1) valid,
                  Distinct-insert id n pins distinct,
                ),
                length-insert id n pins new,
              )
        | inr (m, there) ↦ rw (e, there) tt
      ]
]

add_cut-OneMore :
    (pins : Assoc ℕ) (o : Option (String × String))
    → AreEntries pins
    → OneMore pins (add_cut pins o)
unfolding add_cut
add_cut-OneMore pins none h = tt
add_cut-OneMore pins (some (id, num)) h = elim (Bool-cases (is_uuid id)) [
  | inl uuid ↦ rw uuid (add_number-OneMore pins id num h uuid)
  | inr other ↦ rw other tt
]

-- What is true of a result, if there is one, when it holds so many more entries.
abbrev Grown : Assoc ℕ → ℕ → Result PinError (Assoc ℕ) → Type 0
Grown pins n (err e) = Unit
Grown pins n (ok pins') = AreEntries pins' × (length pins' ≡ length pins + n)

Grown-more :
    (pins pins' : Assoc ℕ) (n : ℕ) (r : Result PinError (Assoc ℕ))
    → length pins' ≡ length pins + 1
    → Grown pins' n r
    → Grown pins (suc n) r
Grown-more pins pins' n (err e) more h = tt
Grown-more pins pins' n (ok pins'') more (h, total) = (h, omega arith)

add_pins-Grown :
    (pins : Assoc ℕ) (raw : List String)
    → AreEntries pins
    → Grown pins (length raw) (add_pins pins raw)
unfolding add_pins
add_pins-Grown pins [] h = (h, omega arith)
add_pins-Grown pins (pair ∷ raw) h =
    let one = add_cut-OneMore pins (cut pair) h in
    elim (Result-cases (add_cut pins (cut pair))) [
      | inl (e, failed) ↦ rw failed tt
      | inr (pins', added) ↦
          let (h', more) : OneMore pins (ok pins') = rw added at one in
          rw added (Grown-more pins pins' (length raw) _ more (add_pins-Grown pins' raw h'))
    ]

-- The pins that the server accepts are as many as the parameters, at most 100; each names a UUID and
-- a revision that is positive and fits in 64 bits, and no two name the same artifact.
pub parse_pins-AreEntries :
    (raw : List String) (pins : Assoc ℕ)
    → parse_pins raw ≡ ok pins
    → (length raw ≤ max_pins_per_request)
      × (length pins ≡ length raw)
      × All IsEntry pins
      × Distinct pins
unfolding parse_pins
parse_pins-AreEntries raw pins e = elim (Bool-cases (ltb max_pins_per_request (length raw))) [
  | inl many ↦ cc (rw many at e)
  | inr few ↦
      let e' : add_pins [] raw ≡ ok pins = ground arith in
      let grown : Grown [] (length raw) (ok pins) = rw e' at (add_pins-Grown [] raw (tt, tt)) in
      (ground arith, omega (arith, grown.1), grown.0.0, grown.0.1)
]
