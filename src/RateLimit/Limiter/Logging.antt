-- ===== src/RateLimit/Limiter/Logging.antt =====
-- When a rejection is logged, and how AllowAt and AllowAtSampled agree.
use orbeat_community.Prelude.{
  ℕ, String, ◌≡◌, refl, ap, Bool, true, false, Option, none, some, ◌∙◌, ◌⊎◌, eq_refl, arith,
  Bool-cases, inl, inr,
}
use orbeat_community.Prelude.Assoc.{lookup, lookup-insert}
use orbeat_community.RateLimit.Sample.{sample_log}
use orbeat_community.RateLimit.TokenBucket.{TokenBucket}
use orbeat_community.RateLimit.Limiter.{
  Bucket, Limiter, locate_from, locate, decide_bucket, decide_at, allow_at, allow_at_sampled,
}

module _ (t : TokenBucket) where
  abbrev pub stamp_of : Option (Bucket t) → ℕ
  stamp_of none = 0
  stamp_of (some b) = b.last_logged

  -- When the key last produced a line, 0 if the limiter knows of none.
  abbrev pub last_logged_of : Limiter t → String → ℕ
  last_logged_of l key = stamp_of (lookup key l.buckets)

  last_logged-locate_from :
      (l : Limiter t) (key : String) (found : Option (Bucket t))
      → (locate_from t l key found).0.last_logged ≡ stamp_of found
  unfolding locate_from
  last_logged-locate_from l key none = refl
  last_logged-locate_from l key (some b) = refl

  last_logged-locate :
      (l : Limiter t) (key : String) → (locate t l key).0.last_logged ≡ last_logged_of l key
  unfolding locate
  last_logged-locate l key = last_logged-locate_from l key (lookup key l.buckets)

  module _ (l : Limiter t) (b : Bucket t) (now : ℕ) where
    decide_bucket_agrees :
        ((decide_bucket t l b now false).0.allowed ≡ (decide_bucket t l b now true).0.allowed)
        × ((decide_bucket t l b now false).0.retry_after
            ≡ (decide_bucket t l b now true).0.retry_after)
    unfolding decide_bucket
    decide_bucket_agrees = elim (Bool-cases (t.allow_n b.lim now 1).0) [
      | inl ok ↦ rw ok (refl, refl)
      | inr denied ↦ rw denied (refl, refl)
    ]

    last_logged-unsampled : (decide_bucket t l b now false).1.last_logged ≡ b.last_logged
    unfolding decide_bucket
    last_logged-unsampled = ground arith

    last_used-decide_bucket : (sample : Bool) → (decide_bucket t l b now sample).1.last_used ≡ now
    unfolding decide_bucket
    last_used-decide_bucket sample = ground arith

    last_logged-silent :
        (sample : Bool)
        → (decide_bucket t l b now sample).0.log_rejection ≡ false
        → (decide_bucket t l b now sample).1.last_logged ≡ b.last_logged
    unfolding decide_bucket
    last_logged-silent sample h = ground arith

    last_logged-logged :
        (sample : Bool)
        → (decide_bucket t l b now sample).0.log_rejection ≡ true
        → ((decide_bucket t l b now sample).1.last_logged ≡ now)
          × (sample_log b.last_logged now ≡ true)
    unfolding decide_bucket
    last_logged-logged sample h = (ground arith, ground arith)

  -- AllowAt and AllowAtSampled give the same answer and the same retry hint to the same call, and
  -- AllowAt leaves the key's log stamp as it found it.
  pub allow_at_agrees :
      (l : Limiter t) (key : String) (now : ℕ)
      → ((allow_at t l key now).0 ≡ (
        (allow_at_sampled t l key now).0.allowed,
        (allow_at_sampled t l key now).0.retry_after,
      ))
        × (last_logged_of (allow_at t l key now).1 key ≡ last_logged_of l key)
  unfolding allow_at allow_at_sampled decide_at
  allow_at_agrees l key now =
      let (b, l') = locate t l key in
      let b' = (decide_bucket t l' b now false).1 in
      elim (Bool-cases (t.le l.rps t.zero)) [
        | inl off ↦ rw off (refl, refl)
        | inr on ↦ rw on (
          ground (arith, decide_bucket_agrees l' b now),
          rw (lookup-insert key key b' l'.buckets, eq_refl key)
              (last_logged-unsampled l' b now ∙ last_logged-locate l key),
        )
      ]

  -- What a decision does to its own key when limiting is on.
  lookup-decide_at_self :
      (l : Limiter t) (key : String) (now : ℕ) (sample : Bool)
      → t.le l.rps t.zero ≡ false
      → lookup key (decide_at t l key now sample).1.buckets
        ≡ some (decide_bucket t (locate t l key).1 (locate t l key).0 now sample).1
  unfolding decide_at
  lookup-decide_at_self l key now sample on =
      let (b, l') = locate t l key in
      rw (on, lookup-insert key key (decide_bucket t l' b now sample).1 l'.buckets, eq_refl key)

  -- A logged rejection came after the interval, and stamps the bucket.
  pub decide_at_logged :
      (l : Limiter t) (key : String) (now : ℕ) (sample : Bool)
      → (decide_at t l key now sample).0.log_rejection ≡ true
      → (sample_log (last_logged_of l key) now ≡ true)
        × ((b : Bucket t) × (lookup key (decide_at t l key now sample).1.buckets ≡ some b)
            × (b.last_logged ≡ now)
            × (b.last_used ≡ now))
  decide_at_logged l key now sample h =
      let (b, l') = locate t l key in
      elim (Bool-cases (t.le l.rps t.zero)) [
        | inl off ↦ unfold decide_at in cc (rw off at h)
        | inr on ↦
            let h' : (decide_bucket t l' b now sample).0.log_rejection ≡ true =
              unfold decide_at in rw on at h in
            let (stamped, sampled) = last_logged-logged l' b now sample h' in
            (
              rw (← last_logged-locate l key) sampled,
              (
                (decide_bucket t l' b now sample).1,
                lookup-decide_at_self l key now sample on,
                stamped,
                last_used-decide_bucket l' b now sample,
              ),
            )
      ]

  -- Any other call keeps the stamp of a bucket that was there.
  pub decide_at_silent :
      (l : Limiter t) (key : String) (now : ℕ) (sample : Bool) (b : Bucket t)
      → (decide_at t l key now sample).0.log_rejection ≡ false
      → lookup key l.buckets ≡ some b
      → (b' : Bucket t) × (lookup key (decide_at t l key now sample).1.buckets ≡ some b')
        × (b'.last_logged ≡ b.last_logged)
        × ((b'.last_used ≡ now) ⊎ (b'.last_used ≡ b.last_used))
  decide_at_silent l key now sample b h there =
      let (c, l') = locate t l key in
      elim (Bool-cases (t.le l.rps t.zero)) [
        | inl off ↦ (b, unfold decide_at in rw off there, refl, inr refl)
        | inr on ↦
            let h' : (decide_bucket t l' c now sample).0.log_rejection ≡ false =
              unfold decide_at in rw on at h in
            (
              (decide_bucket t l' c now sample).1,
              lookup-decide_at_self l key now sample on,
              last_logged-silent l' c now sample h' ∙ last_logged-locate l key ∙ ap stamp_of there,
              inl (last_used-decide_bucket l' c now sample),
            )
      ]
