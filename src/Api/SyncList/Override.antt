-- ===== src/Api/SyncList/Override.antt =====
-- A caller is told whenever the revision served is not the one pinned.
use orbeat_community.Prelude.{
  ℕ, ◌≤◌, ◌<◌, String, ◌≡◌, ◌⊎◌, ◌↔◌, refl, sym, ◌∙◌, inl, inr, true, some, List, [], ◌∷◌, ltb, All,
  arith, Bool-cases, Option-cases,
}
use orbeat_community.Prelude.Assoc.{Assoc}
use orbeat_community.Api.Pins.{PinResolution, pin_resolve}
use orbeat_community.Api.Pins.Clamp.{pin_resolve-reason_iff}
use orbeat_community.Api.SyncList.{
  Artifact, Source, Payload, Payloads, Served, approved_source, serve_payload, resolve_sync_payload,
  SyncListAuditCounts, SyncArtifactDto, pin_of, resolution, dto, serve_all, add,
}

-- Content, seed and revision come from one place: the approved snapshot, or the payload that the
-- store has for the very revision that is reported.
abbrev pub IsCoherent : Artifact → Payloads → Served → Type 0
IsCoherent a payloads s =
    ((s.src ≡ approved_source a) × (s.seed ≡ a.memory_seed) × (s.revision ≡ a.revision))
    ⊎ ((pl : Payload) × (payloads a.id s.revision ≡ some pl)
        × (s.src ≡ pl.source)
        × (s.seed ≡ pl.memory_seed)
        × (s.revision < a.revision))

-- What is served for an artifact, content, seed and revision number, is either its approved
-- snapshot as a whole, or as a whole the payload of the earlier revision that is reported: never
-- the bytes of one under the number of another.
pub resolve_sync_payload-IsCoherent :
    (a : Artifact) (res : PinResolution) (payloads : Payloads)
    → IsCoherent a payloads (resolve_sync_payload a res payloads)
unfolding resolve_sync_payload serve_payload
resolve_sync_payload-IsCoherent a res payloads = elim (Bool-cases (ltb res.served a.revision)) [
  | inr newest ↦ rw newest (inl (refl, refl, refl))
  | inl older ↦ elim (Option-cases (payloads a.id res.served)) [
    | inl missing ↦ rw (older, missing) (inl (refl, refl, refl))
    | inr (pl, found) ↦ rw (older, found) (inr (pl, found, refl, refl, ground arith))
  ]
]

-- No reason is given to a pin exactly where the revision that is served is the one pinned, whatever
-- the floor, the surviving revisions and the payloads that the store still has: also where the
-- pinned revision went between the two reads.
pub resolve_sync_payload-override_iff :
    (a : Artifact) (pin floor min_num : ℕ) (payloads : Payloads)
    → 1 ≤ pin
    → let s = resolve_sync_payload a (pin_resolve pin floor min_num a.revision) payloads in
      (s.override ≡ "") ↔ (s.revision ≡ pin)
unfolding resolve_sync_payload serve_payload
resolve_sync_payload-override_iff a pin floor min_num payloads pos =
    let r = pin_resolve pin floor min_num a.revision in
    let (told, below, held) = pin_resolve-reason_iff pin floor min_num a.revision pos in
    elim (Bool-cases (ltb r.served a.revision)) [
      | inr newest ↦
          let same : r.served ≡ a.revision = ground arith in
          rw newest (λ e. sym same ∙ told.0 e, λ e. told.1 (same ∙ e))
      | inl older ↦
          let below_newest : pin < a.revision = ground arith in
          elim (Option-cases (payloads a.id r.served)) [
            | inl missing ↦ rw (older, missing) (λ e. cc, λ e. absurd (omega arith))
            | inr (pl, found) ↦ rw (older, found) told
          ]
    ]

-- The caller's pins against one artifact of the answer.
abbrev pub IsHonest : Assoc ℕ → SyncArtifactDto → Type 0
IsHonest pins d = (pin_of pins d.id ≡ 0) ⊎ ((d.pin_override ≡ "") ↔ (d.revision ≡ pin_of pins d.id))

-- In the answer of a server that supports pins, for whatever pins, artifacts and payloads: an
-- artifact that the caller pins carries no override exactly where its revision is the one pinned.
pub serve_all-Honest :
    (render : Source → String) (pins : Assoc ℕ) (payloads : Payloads) (arts : List Artifact)
    (counts : SyncListAuditCounts)
    → All (IsHonest pins) (serve_all render true pins payloads arts counts).0
unfolding serve_all dto resolution
serve_all-Honest render pins payloads [] counts = tt
serve_all-Honest render pins payloads (a ∷ arts) counts =
    let pin = pin_of pins a.id in
    let s = resolve_sync_payload a (resolution pins a) payloads in
    let rest =
      serve_all-Honest render pins payloads arts (add counts (ltb 0 pin) s.override a.name) in
    let here : IsHonest pins (dto render true a (resolution pins a) s) =
      elim (Bool-cases (ltb 0 pin)) [
        | inr absent ↦ inl (ground arith)
        | inl present ↦ inr (
            resolve_sync_payload-override_iff a pin a.min_revision_num a.oldest_revision payloads
              (ground arith))
      ] in
    (here, rest)
