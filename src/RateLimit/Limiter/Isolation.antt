-- ===== src/RateLimit/Limiter/Isolation.antt =====
-- What a decision for one key does to the buckets of the others.
use mathlib.Core.Path.{subst}
use orbeat_community.Prelude.{
  ℕ, ◌≤◌, String, ◌≡◌, ◌≢◌, refl, Bool, true, not, ◌||◌, Option, none, some, [], ◌∷◌, ◌==◌, ◌⊎◌,
  eq_iff, arith, ltb, eqb, length, All, Bool-cases, inl, inr, ◌∙◌,
}
use orbeat_community.Prelude.Assoc.{Assoc, lookup, lookup-insert, lookup-erase, Distinct}
use orbeat_community.RateLimit.TokenBucket.{TokenBucket}
use orbeat_community.RateLimit.Limiter.{
  Bucket, Limiter, fresh, oldest_from, evict_if_full, locate_from, locate, decide_bucket, decide_at,
}

module _ (t : TokenBucket) where
  -- The time at which the loop of the eviction ends is no later than any that it has seen, and it
  -- is that of the key at which the loop ends.
  record Oldest (rest : Assoc (Bucket t)) (key : String) (oldest : ℕ) (found : String)
      : Type 0 where
    time : ℕ
    le_oldest : time ≤ oldest
    le_all : All (λ p. time ≤ p.1.last_used) rest
    at_found :
        ((found ≡ key) × (time ≡ oldest))
        ⊎ ((b : Bucket t) × (lookup found rest ≡ some b) × (time ≡ b.last_used))

  -- One round of the loop: whichever of the two it goes on with, both are seen.
  Oldest-cons :
      (k : String) (b : Bucket t) (rest : Assoc (Bucket t)) (key : String) (oldest : ℕ)
      (found : String) (key' : String) (oldest' : ℕ)
      → lookup k rest ≡ none
      → oldest' ≤ oldest
      → oldest' ≤ b.last_used
      → ((key' ≡ key) × (oldest' ≡ oldest)) ⊎ ((key' ≡ k) × (oldest' ≡ b.last_used))
      → Oldest rest key' oldest' found
      → Oldest ((k, b) ∷ rest) key oldest found
  Oldest-cons k b rest key oldest found key' oldest' new le le' which o = record {
    time = o.time;
    le_oldest = omega (arith, o.le_oldest);
    le_all = (omega (arith, o.le_oldest), o.le_all);
    at_found = elim o.at_found [
      | inl (same, at) ↦ elim which [
        | inl (old_key, old_time) ↦ inl (cc, cc)
        | inr (new_key, new_time) ↦ inr (b, unfold lookup in ground (arith, eq_iff k found), cc)
      ]
      | inr (c, there, at) ↦ inr (c, unfold lookup in ground (arith, eq_iff k found), at)
    ];
  }

  oldest_from-Oldest :
      (rest : Assoc (Bucket t)) (key : String) (oldest : ℕ)
      → key ≢ ""
      → All (λ p. p.0 ≢ "") rest
      → Distinct rest
      → Oldest rest key oldest (oldest_from t rest key oldest)
  unfolding oldest_from
  oldest_from-Oldest [] key oldest named ns d = record {
    time = oldest;
    le_oldest = omega arith;
    le_all = tt;
    at_found = inl (refl, refl);
  }
  oldest_from-Oldest ((k, b) ∷ rest) key oldest named (n, ns) (new, d) =
      elim (Bool-cases (key == "" || ltb b.last_used oldest)) [
        | inl e ↦ rw e (
            Oldest-cons k b rest key oldest _ k b.last_used new (ground (arith, eq_iff key ""))
              (omega arith) (inr (refl, refl)) (oldest_from-Oldest rest k b.last_used n ns d))
        | inr e ↦ rw e (
            Oldest-cons k b rest key oldest _ key oldest new (omega arith) (ground arith)
              (inl (refl, refl)) (oldest_from-Oldest rest key oldest named ns d))
      ]

  -- The bucket that the eviction drops was used no later than any other.
  victim_is_oldest :
      (m : Assoc (Bucket t)) (v : String) (b : Bucket t)
      → All (λ p. p.0 ≢ "") m
      → Distinct m
      → oldest_from t m "" 0 ≡ v
      → lookup v m ≡ some b
      → All (λ p. b.last_used ≤ p.1.last_used) m
  unfolding oldest_from
  victim_is_oldest [] v b ns d e there = tt
  victim_is_oldest ((k, c) ∷ rest) v b (n, ns) (new, d) e there =
      let o = oldest_from-Oldest rest k c.last_used n ns d in
      let same : o.time ≡ b.last_used = elim o.at_found [
        | inl (at, time) ↦ unfold lookup in ground (arith, eq_iff k v)
        | inr (a, at, time) ↦ unfold lookup in ground (arith, eq_iff k v)
      ] in
      subst (λ n. All (λ p. n ≤ p.1.last_used) ((k, c) ∷ rest)) same (o.le_oldest, o.le_all)

  -- Whether a new key makes the limiter drop a bucket.
  abbrev pub is_full : Limiter t → Bool
  is_full l = not (eqb l.max_entries 0 || ltb (length l.buckets) l.max_entries)

  -- A decision leaves the map that `locate` makes, but for the key's own bucket.
  lookup-decide_at_other :
      (l : Limiter t) (key j : String) (now : ℕ) (sample : Bool)
      → key ≢ j
      → (lookup j (decide_at t l key now sample).1.buckets ≡ lookup j l.buckets)
        ⊎ (lookup j (decide_at t l key now sample).1.buckets ≡ lookup j (locate t l key).1.buckets)
  unfolding decide_at
  lookup-decide_at_other l key j now sample ne =
      let (b, l') = locate t l key in
      let b' = (decide_bucket t l' b now sample).1 in
      elim (Bool-cases (t.le l.rps t.zero)) [
        | inl off ↦ inl (rw off)
        | inr on ↦ inr (rw (on, lookup-insert key j b' l'.buckets) (ground (arith, eq_iff key j)))
      ]

  -- Where another key's bucket is after `locate`: where it was, or dropped as the oldest.
  lookup-locate_other :
      (l : Limiter t) (key j : String) (found : Option (Bucket t))
      → key ≢ j
      → lookup key l.buckets ≡ found
      → (lookup j (locate_from t l key found).1.buckets ≡ lookup j l.buckets)
        ⊎ ((lookup key l.buckets ≡ none) × (is_full l ≡ true) × (oldest_from t l.buckets "" 0 ≡ j))
  unfolding locate_from evict_if_full
  lookup-locate_other l key j (some b) ne e = inl refl
  lookup-locate_other l key j none ne e = elim (Bool-cases (is_full l)) [
    | inr room ↦ inl (
        rw (lookup-insert key j (fresh t l) (evict_if_full t l).buckets)
          (ground (arith, eq_iff key j)))
    | inl full ↦ elim (Bool-cases (oldest_from t l.buckets "" 0 == j)) [
      | inl same ↦ inr (e, full, (eq_iff _ _).0 same)
      | inr other ↦ inl (
          rw (lookup-insert key j (fresh t l) (evict_if_full t l).buckets)
            (ground (arith, eq_iff key j, lookup-erase (oldest_from t l.buckets "" 0) j l.buckets)))
    ]
  ]

  -- A decision for one key leaves the bucket of another as it is, unless the key is new and the
  -- map is full; then the bucket may be dropped, and only if no bucket was used before it. The
  -- keys of the map are distinct and none is empty.
  pub decide_at_others :
      (l : Limiter t) (key j : String) (now : ℕ) (sample : Bool) (b : Bucket t)
      → key ≢ j
      → All (λ p. p.0 ≢ "") l.buckets
      → Distinct l.buckets
      → lookup j l.buckets ≡ some b
      → (lookup j (decide_at t l key now sample).1.buckets ≡ some b)
        ⊎ ((lookup key l.buckets ≡ none)
            × (is_full l ≡ true)
            × All (λ p. b.last_used ≤ p.1.last_used) l.buckets)
  decide_at_others l key j now sample b ne ns d there =
      elim (lookup-decide_at_other l key j now sample ne) [
        | inl kept ↦ inl (cc)
        | inr moved ↦ elim (lookup-locate_other l key j (lookup key l.buckets) ne refl) [
          | inl kept ↦ inl (moved ∙ unfold locate in (kept ∙ there))
          | inr (absent, full, oldest) ↦
              inr (absent, full, victim_is_oldest l.buckets j b ns d oldest there)
        ]
      ]

module _ (t : TokenBucket) where
  -- With no ceiling on the entries a decision for one key never touches another's bucket.
  pub lookup-decide_at_unbounded :
      (l : Limiter t) (key j : String) (now : ℕ) (sample : Bool)
      → key ≢ j
      → l.max_entries ≡ 0
      → lookup j (decide_at t l key now sample).1.buckets ≡ lookup j l.buckets
  lookup-decide_at_unbounded l key j now sample ne open_ended =
      elim (lookup-decide_at_other t l key j now sample ne) [
        | inl kept ↦ kept
        | inr moved ↦ elim (lookup-locate_other t l key j (lookup key l.buckets) ne refl) [
          | inl kept ↦ moved ∙ unfold locate in kept
          | inr (absent, full, oldest) ↦ ground arith
        ]
      ]
