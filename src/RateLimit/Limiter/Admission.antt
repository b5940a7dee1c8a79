-- ===== src/RateLimit/Limiter/Admission.antt =====
-- A key that the limiter does not know yet.
use orbeat_community.Prelude.{ℕ, ◌≤◌, ◌≡◌, refl, String, Bool, true, none, inl, inr, Bool-cases}
use orbeat_community.Prelude.Assoc.{lookup}
use orbeat_community.RateLimit.TokenBucket.{TokenBucket, StartsFull}
use orbeat_community.RateLimit.Limiter.{
  Limiter, decide_at, decide_bucket, locate, locate_from, fresh,
}

module _ (t : TokenBucket) where
  decide_bucket-fresh :
      (l l' : Limiter t) (now : ℕ) (sample : Bool)
      → 1 ≤ l.burst
      → StartsFull t
      → (decide_bucket t l' (fresh t l) now sample).0.allowed ≡ true
  unfolding decide_bucket
  decide_bucket-fresh l l' now sample pos full = let ok = full l.rps l.burst now 1 pos in rw ok refl

  -- The first request of a key is allowed, also where the map is full: the ceiling on the entries
  -- costs an old bucket and never refuses a new caller. The burst is at least 1, as New makes it,
  -- and the token bucket starts full.
  pub decide_at_first :
      (l : Limiter t) (key : String) (now : ℕ) (sample : Bool)
      → StartsFull t
      → 1 ≤ l.burst
      → lookup key l.buckets ≡ none
      → (decide_at t l key now sample).0.allowed ≡ true
  unfolding decide_at locate locate_from
  decide_at_first l key now sample full pos absent = elim (Bool-cases (t.le l.rps t.zero)) [
    | inl off ↦ rw off refl
    | inr on ↦ rw (on, absent) (decide_bucket-fresh l _ now sample pos full)
  ]
