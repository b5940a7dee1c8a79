-- ===== src/Api/SyncList.antt =====
-- internal/api/sync.go, GET /v1/sync/artifacts: which bytes are served for each entitled artifact,
-- and what the audit event counts. The store's answers and the renderer of
-- marketplace.RenderArtifactContent are arguments; logs and metrics are outside the model.
pub mod Counts
pub mod Override
use orbeat_community.Prelude.{
  ℕ, ◌+◌, String, Bool, true, false, not, ◌&&◌, ◌||◌, Option, none, some, List, [], ◌∷◌, ◌++◌, ◌==◌,
  map, ltb, length, if◌then◌else◌,
}
use orbeat_community.Prelude.Assoc.{Assoc, lookup}
use orbeat_community.Prelude.Results.{Result, err, ok, ◌>>=◌}
use orbeat_community.Api.Pins.{PinError, parse_pins, PinResolution, pin_resolve, override_pruned}

-- store.Artifact, as far as the handler reads it.
pub record Artifact : Type 0 where
  pub id : String
  pub type : String
  pub name : String
  pub content : String
  pub memory_scope : String
  pub memory_seed : String
  pub revision : ℕ
  pub min_revision_num : ℕ
  pub oldest_revision : ℕ
  pub approved_target_tags : List String
  pub approved_rule_scope : String

-- marketplace.Artifact
pub record Source : Type 0 where
  pub type : String
  pub name : String
  pub content : String
  pub memory_scope : String

-- store.ArtifactRevisionPayload
pub record Payload : Type 0 where
  pub source : Source
  pub memory_seed : String

-- The map from an artifact's id and a revision's number to a payload.
abbrev pub Payloads : Type 0
Payloads = String → ℕ → Option Payload

-- What resolveSyncPayload returns.
pub record Served : Type 0 where
  pub src : Source
  pub seed : String
  pub revision : ℕ
  pub override : String

abbrev pub approved_source : Artifact → Source
approved_source a = record {
  type = a.type;
  name = a.name;
  content = a.content;
  memory_scope = a.memory_scope;
}

-- The branches on the payload of a revision below the newest.
pub serve_payload : Artifact → ℕ → String → Option Payload → Served
serve_payload a served reason none = record {
  src = approved_source a;
  seed = a.memory_seed;
  revision = a.revision;
  override = override_pruned;
}
serve_payload a served reason (some pl) = record {
  src = pl.source;
  seed = pl.memory_seed;
  revision = served;
  override = reason;
}

unfoldable pub resolve_sync_payload : Artifact → PinResolution → Payloads → Served
resolve_sync_payload a res payloads =
    if ltb res.served a.revision
    then serve_payload a res.served res.reason (payloads a.id res.served)
    else record {
      src = approved_source a;
      seed = a.memory_seed;
      revision = a.revision;
      override = res.reason;
    }

abbrev pub max_grant_names : ℕ
max_grant_names = 50

pub record SyncListAuditCounts : Type 0 where
  pub pinned : ℕ
  pub overridden : ℕ
  pub overridden_artifacts : List String
  pub truncated : Bool

abbrev pub no_counts : SyncListAuditCounts
no_counts = record { pinned = 0; overridden = 0; overridden_artifacts = []; truncated = false }

-- add, less its parameter `reason`, which it does not read.
unfoldable pub add : SyncListAuditCounts → Bool → String → String → SyncListAuditCounts
add c has_pin override name =
    let c' = record c { pinned = if has_pin then c.pinned + 1 else c.pinned } in
    if override == ""
    then c'
    else if ltb (length c'.overridden_artifacts) max_grant_names
    then record c' {
      overridden = c'.overridden + 1;
      overridden_artifacts = c'.overridden_artifacts ++ name ∷ [];
    }
    else record c' { overridden = c'.overridden + 1; truncated = true }

pub record SyncArtifactDto : Type 0 where
  pub id : String
  pub revision : ℕ
  pub type : String
  pub name : String
  pub content : String
  pub memory_scope : String
  pub memory_seed : String
  pub target_tags : List String
  pub rule_scope : String
  pub oldest_servable : ℕ
  pub latest : ℕ
  pub pin_override : String

-- pins[id], which is 0 for a missing key.
abbrev pub or_zero : Option ℕ → ℕ
or_zero none = 0
or_zero (some n) = n

pub pin_of : Assoc ℕ → String → ℕ
pin_of pins id = or_zero (lookup id pins)

pub resolution : Assoc ℕ → Artifact → PinResolution
resolution pins a = pin_resolve (pin_of pins a.id) a.min_revision_num a.oldest_revision a.revision

-- The keys of the batched read.
pub keys : Assoc ℕ → List Artifact → List (String × ℕ)
keys pins [] = []
keys pins (a ∷ arts) =
    let rest = keys pins arts in
    let served = (resolution pins a).served in
    if ltb served a.revision then (a.id, served) ∷ rest else rest

module _ (render : Source → String) (pinning : Bool) where
  pub dto : Artifact → PinResolution → Served → SyncArtifactDto
  dto a res s =
      let rule = s.src.type == "rule" in
      let seeded =
        s.src.type == "subagent"
        && not (s.seed == "")
        && (s.src.memory_scope == "user" || s.src.memory_scope == "project") in
      record {
        id = a.id;
        revision = s.revision;
        type = s.src.type;
        name = s.src.name;
        content = render s.src;
        memory_scope = if seeded then s.src.memory_scope else "";
        memory_seed = if seeded then s.seed else "";
        target_tags = if rule then a.approved_target_tags else [];
        rule_scope = if rule && a.approved_rule_scope == "global" then "global" else "";
        oldest_servable = if pinning then res.oldest else 0;
        latest = if pinning then a.revision else 0;
        pin_override = if pinning then s.override else "";
      }

  -- The loop over the artifacts.
  pub serve_all :
      Assoc ℕ
      → Payloads
      → List Artifact
      → SyncListAuditCounts
      → List SyncArtifactDto × SyncListAuditCounts
  serve_all pins payloads [] counts = ([], counts)
  serve_all pins payloads (a ∷ arts) counts =
      let res = resolution pins a in
      let s = resolve_sync_payload a res payloads in
      let (out, counts') =
        serve_all pins payloads arts (add counts (ltb 0 (pin_of pins a.id)) s.override a.name) in
      (dto a res s ∷ out, counts')

pub data SyncError : Type 0 where
  bad_pins : PinError → SyncError
  store_failed : SyncError

abbrev pub from_store {ℓ} : {A : Type ℓ} → Option A → Result SyncError A
from_store none = err store_failed
from_store (some a) = ok a

abbrev pub from_pins : Result PinError (Assoc ℕ) → Result SyncError (Assoc ℕ)
from_pins (err e) = err (bad_pins e)
from_pins (ok pins) = ok pins

-- The store is read for payloads only where there are keys.
abbrev pub read_payloads :
    (List (String × ℕ) → Option Payloads) → List (String × ℕ) → Result SyncError Payloads
read_payloads list_payloads [] = ok (λ id n. none)
read_payloads list_payloads (k ∷ ks) = from_store (list_payloads (k ∷ ks))

-- handleSyncArtifacts, for a caller who is resolved: the body and the counts of the audit event.
unfoldable pub handle_sync_artifacts :
    (Source → String)
    → Bool
    → Option (List Artifact)
    → Option (List Artifact)
    → (List (String × ℕ) → Option Payloads)
    → List String
    → Result SyncError (List SyncArtifactDto × SyncListAuditCounts)
handle_sync_artifacts render pinning entitled org_rules list_payloads raw = do
  pins ← if pinning then from_pins (parse_pins raw) else ok []
  arts ← from_store entitled
  rules ← from_store org_rules
  payloads ← read_payloads list_payloads (keys pins (arts ++ rules))
  ok (serve_all render pinning pins payloads (arts ++ rules) no_counts)
