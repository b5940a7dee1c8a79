-- ===== src/RateLimit/Limiter/Bounds.antt =====
-- How many buckets the limiter keeps, and which one it drops to make room.
use orbeat_community.Prelude.{
  ℕ, ◌≤◌, ◌<◌, String, ◌≡◌, ◌≢◌, refl, ◌∙◌, Bool, ◌||◌, Option, none, some, List, [], ◌∷◌, ◌==◌,
  eq_refl, arith, ltb, length, All, Bool-cases, inl, inr,
}
use orbeat_community.Prelude.Assoc.{
  Assoc, lookup, length-insert_le, length-insert_of_mem, length-erase-lt_of_mem, lookup-insert,
  All-lookup,
}
use orbeat_community.RateLimit.TokenBucket.{TokenBucket}
use orbeat_community.RateLimit.Limiter.{
  Bucket, Limiter, new, oldest_from, evict_if_full, locate_from, locate, fresh, len, decide_at,
  sweep_buckets, sweep, Call, decide, tick, call, run,
}

module _ (t : TokenBucket) where
  -- The loop ends at a key of the list, or at the key that it started from.
  oldest_from-mem :
      (m rest : Assoc (Bucket t)) (key : String) (oldest : ℕ)
      → All (λ p. lookup p.0 m ≢ none) rest
      → lookup key m ≢ none
      → lookup (oldest_from t rest key oldest) m ≢ none
  unfolding oldest_from
  oldest_from-mem m [] key oldest _ h = h
  oldest_from-mem m ((k, b) ∷ rest) key oldest (here, sub) h =
      elim (Bool-cases (key == "" || ltb b.last_used oldest)) [
        | inl e ↦ rw e (oldest_from-mem m rest k b.last_used sub here)
        | inr e ↦ rw e (oldest_from-mem m rest key oldest sub h)
      ]

  evicted-mem : (m : Assoc (Bucket t)) → 0 < length m → lookup (oldest_from t m "" 0) m ≢ none
  unfolding oldest_from
  evicted-mem [] h = absurd (omega arith)
  evicted-mem ((k, b) ∷ rest) h =
      let (here, sub) = All-lookup ((k, b) ∷ rest) in
      oldest_from-mem ((k, b) ∷ rest) rest k b.last_used sub here

  length-evict_if_full :
      (l : Limiter t)
      → 0 < l.max_entries
      → length l.buckets ≤ l.max_entries
      → length (evict_if_full t l).buckets < l.max_entries
  unfolding evict_if_full
  length-evict_if_full l pos h = ground (
    arith,
    length-erase-lt_of_mem (oldest_from t l.buckets "" 0) l.buckets,
    evicted-mem l.buckets,
  )

  max_entries-evict_if_full : (l : Limiter t) → (evict_if_full t l).max_entries ≡ l.max_entries
  unfolding evict_if_full
  max_entries-evict_if_full l = ground arith

  -- What `locate` leaves: the key is in the map, and the map within its bound.
  locate_from_bounds :
      (l : Limiter t) (key : String) (found : Option (Bucket t))
      → lookup key l.buckets ≡ found
      → 0 < l.max_entries
      → length l.buckets ≤ l.max_entries
      → (length (locate_from t l key found).1.buckets ≤ l.max_entries)
        × (lookup key (locate_from t l key found).1.buckets ≢ none)
  unfolding locate_from
  locate_from_bounds l key (some b) e pos h = (h, cc)
  locate_from_bounds l key none e pos h =
      let l' = evict_if_full t l in
      (
        omega (arith, length-insert_le key (fresh t l) l'.buckets, length-evict_if_full l pos h),
        rw (lookup-insert key key (fresh t l) l'.buckets, eq_refl key) (λ p. cc),
      )

  -- A decision keeps the map within its bound, also one for a key that was not there.
  length-decide_at :
      (l : Limiter t) (key : String) (now : ℕ) (sample : Bool)
      → 0 < l.max_entries
      → length l.buckets ≤ l.max_entries
      → length (decide_at t l key now sample).1.buckets ≤ l.max_entries
  unfolding decide_at locate
  length-decide_at l key now sample pos h =
      let (b, l') = locate t l key in
      let (fits, there) = locate_from_bounds l key (lookup key l.buckets) refl pos h in
      elim (Bool-cases (t.le l.rps t.zero)) [
        | inl off ↦ rw off h
        | inr on ↦ rw on (rw (length-insert_of_mem key _ l'.buckets there) fits)
      ]

  max_entries-decide_at :
      (l : Limiter t) (key : String) (now : ℕ) (sample : Bool)
      → (decide_at t l key now sample).1.max_entries ≡ l.max_entries
  unfolding decide_at locate locate_from
  max_entries-decide_at l key now sample = ground (arith, max_entries-evict_if_full l)

  length-sweep_buckets-le :
      (ttl now : ℕ) (m : Assoc (Bucket t)) → length (sweep_buckets t ttl now m) ≤ length m
  unfolding sweep_buckets
  length-sweep_buckets-le ttl now [] = omega arith
  length-sweep_buckets-le ttl now ((k, b) ∷ m) = ground (arith, length-sweep_buckets-le ttl now m)

  abbrev IsBounded : Limiter t → Type 0
  IsBounded l = (0 < l.max_entries) × (length l.buckets ≤ l.max_entries)

  call-IsBounded : (l : Limiter t) (c : Call t) → IsBounded l → IsBounded (call t l c)
  unfolding call
  call-IsBounded l (decide key now sample) (pos, h) = (
    rw (max_entries-decide_at l key now sample) pos,
    rw (max_entries-decide_at l key now sample) (length-decide_at l key now sample pos h),
  )
  call-IsBounded l (tick now) (pos, h) =
      unfold sweep in (pos, omega (arith, length-sweep_buckets-le l.ttl now l.buckets))

  run-IsBounded : (l : Limiter t) (cs : List (Call t)) → IsBounded l → IsBounded (run t l cs)
  unfolding run
  run-IsBounded l [] h = h
  run-IsBounded l (c ∷ cs) h = run-IsBounded (call t l c) cs (call-IsBounded l c h)

  max_entries-run : (l : Limiter t) (cs : List (Call t)) → (run t l cs).max_entries ≡ l.max_entries
  unfolding run call sweep
  max_entries-run l [] = refl
  max_entries-run l (decide key now sample ∷ cs) =
      max_entries-run (call t l (decide key now sample)) cs ∙ max_entries-decide_at l key now sample
  max_entries-run l (tick now ∷ cs) = max_entries-run (call t l (tick now)) cs

-- From a new limiter with a positive maxEntries, whatever the calls of AllowAt, AllowAtSampled and
-- sweep, at whatever times and for whatever keys, the limiter never holds more than maxEntries
-- buckets.
pub len-run-le :
    (t : TokenBucket) (rps : t.Float) (burst ttl max_entries : ℕ) (cs : List (Call t))
    → 0 < max_entries
    → len t (run t (new t rps burst ttl max_entries) cs) ≤ max_entries
len-run-le t rps burst ttl max_entries cs pos =
    let l = new t rps burst ttl max_entries in
    let start : IsBounded t l = unfold new in (pos, omega arith) in
    let kept : l.max_entries ≡ max_entries = unfold new in refl in
    omega (arith, (run-IsBounded t l cs start).1, max_entries-run t l cs)
