-- ===== src/Api/Pins.antt =====
-- internal/api/sync_pins.go: the ?pin parameters of a sync request, and the revision that is served
-- for a pin. FetchArtifacts of internal/syncclient/api.go writes the parameters.
pub mod Clamp
pub mod RoundTrip
pub mod Sound
use Prim.Native.Char.{Char, code}
use Prim.Native.String
use Prim.Native.String.{◌∷◌}
use orbeat_community.Prelude.{
  ℕ, String, Bool, not, Option, none, some, List, [], ◌==◌, ltb, leb, eqb, max, min, length, map,
  if◌then◌else◌,
}
use orbeat_community.Prelude.Assoc.{Assoc, lookup, insert}
use orbeat_community.Prelude.Results.{Result, err, ok, ◌>>=◌}
use orbeat_community.Text.Decimal.{format_int, parse_positive}
use orbeat_community.Text.Uuid.{is_uuid}

-- The validation errors, each with its message's variable part.
pub data PinError : Type 0 where
  too_many : ℕ → PinError
  no_colon : PinError
  not_uuid : PinError
  not_positive : PinError
  duplicate : PinError

abbrev pub max_pins_per_request : ℕ
max_pins_per_request = 100

abbrev pub before_colon : Char → Option (String × String) → Option (String × String)
before_colon c none = none
before_colon c (some (id, num)) = some (c ∷ id, num)

-- strings.Cut(pair, ":")
pub cut : String → Option (String × String)
cut String.[] = none
cut (c ∷ s) = let rest = before_colon c (cut s) in if eqb (code c) b':' then some ("", s) else rest

-- The body of the loop: the pins so far, and one parameter.
pub add_new : Assoc ℕ → String → ℕ → Option ℕ → Result PinError (Assoc ℕ)
add_new pins id n none = ok (insert id n pins)
add_new pins id n (some m) = err duplicate

pub add_number : Assoc ℕ → String → Option ℕ → Result PinError (Assoc ℕ)
add_number pins id none = err not_positive
add_number pins id (some n) = add_new pins id n (lookup id pins)

pub add_cut : Assoc ℕ → Option (String × String) → Result PinError (Assoc ℕ)
add_cut pins none = err no_colon
add_cut pins (some (id, num)) =
    if not (is_uuid id) then err not_uuid else add_number pins id (parse_positive num)

pub add_pins : Assoc ℕ → List String → Result PinError (Assoc ℕ)
add_pins pins [] = ok pins
add_pins pins (List.◌∷◌ pair raw) = do pins' ← add_cut pins (cut pair); add_pins pins' raw

-- parsePins on the values of the parameter; a nil map is empty.
unfoldable pub parse_pins : List String → Result PinError (Assoc ℕ)
parse_pins raw =
    if ltb max_pins_per_request (length raw) then err (too_many (length raw)) else add_pins [] raw

-- The client's side: fmt.Sprintf("%s:%d", p.ArtifactID, p.Revision)
pub record Pin : Type 0 where
  pub artifact_id : String
  pub revision : ℕ

unfoldable pub pin_parameter : Pin → String
pin_parameter p = String.◌++◌ p.artifact_id (String.◌++◌ ":" (format_int p.revision))

pub record PinResolution : Type 0 where
  pub served : ℕ
  pub oldest : ℕ
  pub reason : String

abbrev pub override_ahead : String
override_ahead = "ahead"

abbrev pub override_floor : String
override_floor = "floor"

abbrev pub override_pruned : String
override_pruned = "pruned"

-- The switch that names the reason.
pub override_reason : ℕ → ℕ → ℕ → ℕ → ℕ → String
override_reason served pin floor min_num max_num =
    if eqb served pin
    then ""
    else if ltb max_num pin
    then override_ahead
    else if ltb min_num floor
    then override_floor
    else override_pruned

-- pinResolve; a pin of 0 is no pin.
unfoldable pub pin_resolve : ℕ → ℕ → ℕ → ℕ → PinResolution
pin_resolve pin floor min_num max_num =
    let low = max floor min_num in
    let served = min (max pin low) max_num in
    if leb pin 0 then record { served = max_num; oldest = low; reason = "" } else record {
      served = served;
      oldest = low;
      reason = override_reason served pin floor min_num max_num;
    }
