-- ===== src/Api/SyncList/Counts.antt =====
-- What the audit event of a sync counts.
use orbeat_community.Prelude.{
  ℕ, ◌+◌, String, ◌≡◌, refl, Bool, true, List, [], ◌∷◌, ◌==◌, ltb, min, length, length-append,
  arith, if◌then◌else◌,
}
use orbeat_community.Prelude.Assoc.{Assoc}
use orbeat_community.Api.SyncList.{
  Artifact, Source, Payloads, resolve_sync_payload, max_grant_names, SyncListAuditCounts, no_counts,
  add, SyncArtifactDto, pin_of, resolution, dto, serve_all,
}

-- The names are as many as the overrides, up to the cap, and the flag says that the cap was passed.
abbrev pub IsCapped : SyncListAuditCounts → Type 0
IsCapped c =
    (length c.overridden_artifacts ≡ min c.overridden max_grant_names)
    × (c.truncated ≡ ltb max_grant_names c.overridden)

add-IsCapped :
    (c : SyncListAuditCounts) (has_pin : Bool) (override name : String)
    → IsCapped c
    → IsCapped (add c has_pin override name)
unfolding add
add-IsCapped c has_pin override name h =
    ground (arith, length-append c.overridden_artifacts (name ∷ []))

abbrev one_if : Bool → ℕ
one_if b = if b then 1 else 0

add_sums :
    (c : SyncListAuditCounts) (has_pin : Bool) (override name : String)
    → ((add c has_pin override name).pinned ≡ c.pinned + one_if has_pin)
      × ((add c has_pin override name).overridden
          ≡ c.overridden + (if override == "" then 0 else 1))
unfolding add
add_sums c has_pin override name = ground arith

-- The artifacts of the answer that carry an override, and those that the caller pins.
abbrev pub count_told : List SyncArtifactDto → ℕ
count_told [] = 0
count_told (d ∷ ds) = (if d.pin_override == "" then 0 else 1) + count_told ds

abbrev pub count_pinned : Assoc ℕ → List SyncArtifactDto → ℕ
count_pinned pins [] = 0
count_pinned pins (d ∷ ds) = (if ltb 0 (pin_of pins d.id) then 1 else 0) + count_pinned pins ds

module _ (render : Source → String) (pins : Assoc ℕ) (payloads : Payloads) where
  serve_all_counts :
      (arts : List Artifact) (c : SyncListAuditCounts)
      → IsCapped c
      → let r = serve_all render true pins payloads arts c in
        IsCapped r.1
        × (r.1.pinned ≡ c.pinned + count_pinned pins r.0)
        × (r.1.overridden ≡ c.overridden + count_told r.0)
  unfolding serve_all dto
  serve_all_counts [] c h = (h, omega arith, omega arith)
  serve_all_counts (a ∷ arts) c h =
      let s = resolve_sync_payload a (resolution pins a) payloads in
      let has_pin = ltb 0 (pin_of pins a.id) in
      let ih =
        serve_all_counts arts (add c has_pin s.override a.name)
          (add-IsCapped c has_pin s.override a.name h) in
      let sums = add_sums c has_pin s.override a.name in
      (ih.0, omega (arith, ih.1, sums.0), omega (arith, ih.2, sums.1))

  -- The audit event of a server that supports pins counts the artifacts of the answer that the
  -- caller pins, and those that carry an override, each once; it names as many of the latter as
  -- there are, at most 50, and says that it left some out exactly where there are more.
  pub serve_all-counts :
      (arts : List Artifact)
      → let r = serve_all render true pins payloads arts no_counts in
        (r.1.pinned ≡ count_pinned pins r.0)
        × (r.1.overridden ≡ count_told r.0)
        × (length r.1.overridden_artifacts ≡ min (count_told r.0) 50)
        × (r.1.truncated ≡ ltb 50 (count_told r.0))
  serve_all-counts arts =
      let ((names, flag), pinned, told) = serve_all_counts arts no_counts (refl, refl) in
      (
        omega (arith, pinned),
        omega (arith, told),
        ground (arith, names, told),
        ground (arith, flag, told),
      )
