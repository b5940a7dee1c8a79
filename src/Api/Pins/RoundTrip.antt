-- ===== src/Api/Pins/RoundTrip.antt =====
-- The pins that the client writes into a request read back at the server.
use Prim.Native.Char.{Char, code}
use Prim.Native.String
use Prim.Native.String.{◌∷◌}
use text.Mathlib.TextLemmas.{nil-append, cons-append}
use orbeat_community.Prelude.{
  ℕ, suc, ◌≤◌, String, ◌≡◌, refl, ap, ◌∙◌, true, false, none, some, List, [], ◌++◌, eqb, ltb,
  length, map, All, arith, eq_iff,
}
use orbeat_community.Prelude.Assoc.{Assoc, lookup, insert, lookup-insert, insert-append, Distinct}
use orbeat_community.Prelude.Results.{ok}
use orbeat_community.Text.Decimal.{format_int, int64_max}
use orbeat_community.Text.Decimal.RoundTrip.{parse_positive-format_int}
use orbeat_community.Text.Uuid.{is_uuid}
use orbeat_community.Text.Uuid.Colons.{NoColon, is_uuid-NoColon}
use orbeat_community.Api.Pins.{
  cut, add_new, add_number, add_cut, add_pins, parse_pins, Pin, pin_parameter, max_pins_per_request,
}

-- A pin that the client can hold: an artifact's id, and a revision that a 64-bit int holds.
abbrev pub IsPin : Pin → Type 0
IsPin p = (is_uuid p.artifact_id ≡ true) × (1 ≤ p.revision) × (p.revision ≤ int64_max)

abbrev pub entry : Pin → String × ℕ
entry p = (p.artifact_id, p.revision)

abbrev colon : Char
colon = ":"

colon-append : (num : String) → String.◌++◌ ":" num ≡ colon ∷ num
colon-append num = cons-append colon String.[] num ∙ ap (λ x. colon ∷ x) (nil-append num)

cut-NoColon :
    (id num : String) → NoColon id → cut (String.◌++◌ id (String.◌++◌ ":" num)) ≡ some (id, num)
unfolding cut
cut-NoColon String.[] num h = rw (nil-append, colon-append num) refl
cut-NoColon (c ∷ id) num (here, h) =
    let other : eqb (code c) b':' ≡ false = ground arith in
    rw (cons-append, other, cut-NoColon id num h) refl

add_cut-pin_parameter :
    (pins : Assoc ℕ) (p : Pin)
    → IsPin p
    → lookup p.artifact_id pins ≡ none
    → add_cut pins (cut (pin_parameter p)) ≡ ok (insert p.artifact_id p.revision pins)
unfolding pin_parameter add_cut add_number add_new
add_cut-pin_parameter pins p (uuid, pos, small) absent =
    rw
      (
        cut-NoColon p.artifact_id (format_int p.revision) (is_uuid-NoColon p.artifact_id uuid),
        uuid,
        parse_positive-format_int p.revision pos small,
        absent,
      )
      refl

-- None of the pins is in the map.
abbrev Absent : Assoc ℕ → List Pin → Type 0
Absent pins = All (λ p. lookup p.artifact_id pins ≡ none)

Absent-insert :
    (pins : Assoc ℕ) (id : String) (n : ℕ) (ps : List Pin)
    → Absent pins ps
    → lookup id (map entry ps) ≡ none
    → Absent (insert id n pins) ps
unfolding lookup
Absent-insert pins id n [] h new = tt
Absent-insert pins id n (List.◌∷◌ p ps) (here, h) new = (
  ground (
    arith,
    lookup-insert id p.artifact_id n pins,
    eq_iff id p.artifact_id,
    eq_iff p.artifact_id id,
  ),
  Absent-insert pins id n ps h (ground arith),
)

append_nil : (pins : Assoc ℕ) → pins ≡ pins ++ []
append_nil [] = refl
append_nil (List.◌∷◌ e pins) = ap (λ rest. List.◌∷◌ e rest) (append_nil pins)

add_pins-pin_parameters :
    (pins : Assoc ℕ) (ps : List Pin)
    → All IsPin ps
    → Absent pins ps
    → Distinct (map entry ps)
    → add_pins pins (map pin_parameter ps) ≡ ok (pins ++ map entry ps)
unfolding add_pins
add_pins-pin_parameters pins [] valid absent distinct = ap ok (append_nil pins)
add_pins-pin_parameters pins (List.◌∷◌ p ps) (v, valid) (new, absent) (once, distinct) =
    rw (add_cut-pin_parameter pins p v new) (
      add_pins-pin_parameters (insert p.artifact_id p.revision pins) ps valid
        (Absent-insert pins p.artifact_id p.revision ps absent once) distinct
      ∙ ap ok (insert-append p.artifact_id p.revision pins (map entry ps) new))

Absent-nil : (ps : List Pin) → Absent [] ps
unfolding lookup
Absent-nil [] = tt
Absent-nil (List.◌∷◌ p ps) = (refl, Absent-nil ps)

length-map : (ps : List Pin) → length (map pin_parameter ps) ≡ length ps
length-map [] = refl
length-map (List.◌∷◌ p ps) = ap suc (length-map ps)

-- The pins of the client's file, at most 100, each of a UUID and a revision that is positive and
-- fits in 64 bits, and no two for one artifact, are read back by the server exactly as they were
-- written, in their order.
pub parse_pins-pin_parameters :
    (ps : List Pin)
    → All IsPin ps
    → Distinct (map entry ps)
    → length ps ≤ max_pins_per_request
    → parse_pins (map pin_parameter ps) ≡ ok (map entry ps)
unfolding parse_pins
parse_pins-pin_parameters ps valid distinct few =
    let small : ltb max_pins_per_request (length (map pin_parameter ps)) ≡ false =
      ground (arith, length-map ps) in
    rw small (add_pins-pin_parameters [] ps valid (Absent-nil ps) distinct)
