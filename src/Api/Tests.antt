-- ===== src/Api/Tests.antt =====
-- The sync endpoints at concrete inputs.
use orbeat_community.Prelude.{
  ◌≤◌, ◌<◌, String, ◌≡◌, ◌⊎◌, refl, true, some, List, [], ◌∷◌, length, map, All, ltb, min, arith,
}
use orbeat_community.Prelude.Assoc.{Distinct, lookup}
use orbeat_community.Prelude.Results.{ok}
use orbeat_community.Text.Uuid.{is_uuid}
use orbeat_community.Api.Pins.{
  Pin, pin_parameter, parse_pins, max_pins_per_request, pin_resolve, override_ahead, override_floor,
  override_pruned,
}
use orbeat_community.Api.Pins.Clamp.{pin_resolve-Closest, pin_resolve-Reason}
use orbeat_community.Api.Pins.RoundTrip.{entry, parse_pins-pin_parameters}
use orbeat_community.Api.Pins.Sound.{IsEntry, parse_pins-AreEntries}
use orbeat_community.Api.Precondition.{if_match, etag}
use orbeat_community.Api.Precondition.RoundTrip.{if_match-etag}
use orbeat_community.Api.SyncList.{Artifact, Source, Payloads, no_counts, serve_all}
use orbeat_community.Api.SyncList.Counts.{count_told, count_pinned, serve_all-counts}
use orbeat_community.Api.SyncList.Override.{IsHonest, serve_all-Honest}

-- A floor above every survivor.
above_all : (pin_resolve 2 9 1 6).served ≡ 6
unfolding pin_resolve
above_all = refl

pin_resolve-Closest_example :
    let r = pin_resolve 2 5 8 12 in
    (r.oldest ≡ 8)
    × (((12 < r.oldest) × (r.served ≡ 12))
        ⊎ ((r.oldest ≤ r.served)
            × (r.served ≤ 12)
            × ((9 < r.oldest)
                ⊎ ((12 < 9)
                    ⊎ (((2 ≤ r.served) × (r.served ≤ 9)) ⊎ ((9 ≤ r.served) × (r.served ≤ 2)))))))
pin_resolve-Closest_example = pin_resolve-Closest 2 5 8 12 9 (omega arith)

pin_resolve-Reason_example :
    let r = pin_resolve 2 5 8 12 in
    ((r.reason ≡ "") × (r.served ≡ 2))
    ⊎ (((r.reason ≡ override_ahead) × (12 < 2) × (r.served ≡ 12))
        ⊎ (((r.reason ≡ override_floor) × (2 < 5) × (8 < 5) × (r.served ≡ 5))
            ⊎ ((r.reason ≡ override_pruned) × (2 < 8) × (5 ≤ 8) × (r.served ≡ 8))))
pin_resolve-Reason_example = pin_resolve-Reason 2 5 8 12 (omega arith) (omega arith)

abbrev first_id : String
first_id = "0123abcd-0000-4000-8000-00000000000a"

abbrev second_id : String
second_id = "0123abcd-0000-4000-8000-00000000000b"

abbrev pins : List Pin
pins =
    record { artifact_id = first_id; revision = 3 }
    ∷ (record { artifact_id = second_id; revision = 12 } ∷ [])

parse_pins-pin_parameters_example : parse_pins (map pin_parameter pins) ≡ ok (map entry pins)
unfolding lookup is_uuid
parse_pins-pin_parameters_example =
    parse_pins-pin_parameters pins
      ((refl, omega arith, omega arith), ((refl, omega arith, omega arith), tt)) (refl, (refl, tt))
      (omega arith)

abbrev raw : List String
raw = map pin_parameter pins

parse_pins-AreEntries_example :
    (length raw ≤ max_pins_per_request)
    × (length (map entry pins) ≡ length raw)
    × All IsEntry (map entry pins)
    × Distinct (map entry pins)
parse_pins-AreEntries_example =
    parse_pins-AreEntries raw (map entry pins) parse_pins-pin_parameters_example

abbrev artifact : Artifact
artifact = record {
  id = first_id;
  type = "skill";
  name = "review";
  content = "new";
  memory_scope = "";
  memory_seed = "";
  revision = 12;
  min_revision_num = 5;
  oldest_revision = 8;
  approved_target_tags = [];
  approved_rule_scope = "";
}

abbrev source : Source
source = record { type = "skill"; name = "review"; content = "old"; memory_scope = "" }

abbrev payloads : Payloads
payloads id n = some (record { source = source; memory_seed = "" })

abbrev render : Source → String
render s = s.content

serve_all-Honest_example :
    All
      (IsHonest ((first_id, 9) ∷ []))
      (serve_all render true ((first_id, 9) ∷ []) payloads (artifact ∷ []) no_counts).0
serve_all-Honest_example =
    serve_all-Honest render ((first_id, 9) ∷ []) payloads (artifact ∷ []) no_counts

serve_all-counts_example :
    let r = serve_all render true ((first_id, 9) ∷ []) payloads (artifact ∷ []) no_counts in
    (r.1.pinned ≡ count_pinned ((first_id, 9) ∷ []) r.0)
    × (r.1.overridden ≡ count_told r.0)
    × (length r.1.overridden_artifacts ≡ min (count_told r.0) 50)
    × (r.1.truncated ≡ ltb 50 (count_told r.0))
serve_all-counts_example = serve_all-counts render ((first_id, 9) ∷ []) payloads (artifact ∷ [])

if_match-etag_example : if_match (etag 42) ≡ ok 42
if_match-etag_example = if_match-etag 42 (omega arith) (omega arith)
