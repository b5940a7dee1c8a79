-- ===== src/RateLimit/Adapters/Seconds.antt =====
-- The retry hint in seconds, and the key of a principal.
use text.Mathlib.TextLemmas.{append-eq-nil_iff}
use orbeat_community.Prelude.{ℕ, ◌*◌, ◌≤◌, ◌≢◌, arith, ◌==◌, Bool-cases, inl, inr}
use orbeat_community.RateLimit.Sample.{second}
use orbeat_community.RateLimit.Adapters.{Principal, key_for, retry_seconds}

-- The hint is at least one second, waiting for it is waiting long enough, and it is the least such
-- number of seconds: a second less, where that is not 0, would be too short.
pub retry_seconds_lem :
    (d : ℕ)
    → (1 ≤ retry_seconds d)
      × (d ≤ retry_seconds d * second)
      × ((n : ℕ) → 1 ≤ n → d ≤ n * second → retry_seconds d ≤ n)
unfolding retry_seconds
retry_seconds_lem d = (ground arith, ground arith, λ n pos enough. ground arith)

-- A principal with a subject has a key that is not empty.
pub key_for-ne-empty : (p : Principal) → p.subject ≢ "" → key_for p ≢ ""
unfolding key_for
key_for-ne-empty p h = elim (Bool-cases (p.client_id == "")) [
  | inl bare ↦ rw bare h
  | inr both ↦ rw both (λ e. h ((append-eq-nil_iff.0 e).0))
]
