-- ===== src/Govern/Tests.antt =====
-- Scanners at concrete inputs.
use orbeat_community.Prelude.{◌≡◌, refl, some, [], ◌∷◌}
use orbeat_community.Govern.{Finding, ArtifactPayload, Scanner, scan_all, composite_scan}

abbrev secret : Finding
secret = record { rule = "secret"; message = "found a key"; severity = "block" }

abbrev note : Finding
note = record { rule = "remote-exec"; message = "pipes to a shell"; severity = "warn" }

abbrev finds_secret : Scanner
finds_secret p = some (secret ∷ [])

abbrev finds_note : Scanner
finds_note p = some (note ∷ [])

abbrev payload : ArtifactPayload
payload = record { type = "skill"; name = "x"; content = "y"; memory_scope = ""; memory_seed = "" }

-- The findings of both scanners, in their order.
finds_both :
    composite_scan (some finds_note ∷ (some finds_secret ∷ [])) payload
    ≡ some (note ∷ (secret ∷ []))
unfolding composite_scan scan_all
finds_both = refl
