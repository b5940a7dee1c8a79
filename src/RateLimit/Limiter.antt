-- ===== src/RateLimit/Limiter.antt =====
-- internal/ratelimit/ratelimit.go. Each method holds the mutex from its first read to its last
-- write, so an execution is a sequence of method calls. `burst`, `maxEntries` are numbers: a
-- negative value takes the branches that 0 takes.
pub mod Admission
pub mod Bounds
pub mod Isolation
pub mod Logging
pub mod LogSpacing
use orbeat_community.Prelude.{
  ℕ, ◌+◌, String, Bool, true, false, ◌&&◌, ◌||◌, Option, none, some, List, [], ◌∷◌, ◌==◌, ltb, eqb,
  length, if◌then◌else◌,
}
use orbeat_community.Prelude.Assoc.{Assoc, lookup, insert, erase}
use orbeat_community.RateLimit.Sample.{sample_log}
use orbeat_community.RateLimit.TokenBucket.{TokenBucket}

-- What decideAt returns.
pub record Decision : Type 0 where
  pub allowed : Bool
  pub retry_after : ℕ
  pub log_rejection : Bool

abbrev pub admit : Decision
admit = record { allowed = true; retry_after = 0; log_rejection = false }

module _ (t : TokenBucket) where
  pub record Bucket : Type 0 where
    pub lim : t.Lim
    pub last_used : ℕ
    pub last_logged : ℕ

  pub record Limiter : Type 0 where
    pub buckets : Assoc Bucket
    pub rps : t.Float
    pub burst : ℕ
    pub ttl : ℕ
    pub max_entries : ℕ

  -- New, less the sweeper that it starts.
  unfoldable pub new : t.Float → ℕ → ℕ → ℕ → Limiter
  new rps burst ttl max_entries = record {
    buckets = [];
    rps = rps;
    burst = if ltb burst 1 then 1 else burst;
    ttl = ttl;
    max_entries = max_entries;
  }

  -- The loop of evictIfFullLocked: the key and time that it has found so far.
  pub oldest_from : Assoc Bucket → String → ℕ → String
  oldest_from [] oldest_key oldest = oldest_key
  oldest_from ((k, b) ∷ rest) oldest_key oldest =
      let older = oldest_key == "" || ltb b.last_used oldest in
      oldest_from rest (if older then k else oldest_key) (if older then b.last_used else oldest)

  unfoldable pub evict_if_full : Limiter → Limiter
  evict_if_full l =
      if eqb l.max_entries 0 || ltb (length l.buckets) l.max_entries
      then l
      else record l { buckets = erase (oldest_from l.buckets "" 0) l.buckets }

  abbrev pub fresh : Limiter → Bucket
  fresh l = record { lim = t.new_limiter l.rps l.burst; last_used = 0; last_logged = 0 }

  -- What decideAt does with the result of its map access: a bucket is made on a miss.
  pub locate_from : Limiter → String → Option Bucket → Bucket × Limiter
  locate_from l key (some b) = (b, l)
  locate_from l key none =
      let l' = evict_if_full l in (fresh l, record l' { buckets = insert key (fresh l) l'.buckets })

  pub locate : Limiter → String → Bucket × Limiter
  locate l key = locate_from l key (lookup key l.buckets)

  -- Duration(need / rps * float64(time.Second)) with need = max(1 - tokens, 0)
  pub retry_hint : Limiter → t.Lim → ℕ → ℕ
  retry_hint l lim now =
      let need = t.sub t.one (t.tokens_at lim now) in
      let need' = if t.lt need t.zero then t.zero else need in
      t.duration (t.mul (t.div need' l.rps) t.one_second)

  -- decideAt on the key's bucket: the decision, and the bucket that it leaves.
  pub decide_bucket : Limiter → Bucket → ℕ → Bool → Decision × Bucket
  decide_bucket l b now sample =
      let (ok, lim) = t.allow_n b.lim now 1 in
      let used = record b { lim = lim; last_used = now } in
      let log = sample && sample_log b.last_logged now in
      if ok then (admit, used) else (
        record { allowed = false; retry_after = retry_hint l lim now; log_rejection = log },
        (if log then record used { last_logged = now } else used),
      )

  unfoldable pub decide_at : Limiter → String → ℕ → Bool → Decision × Limiter
  decide_at l key now sample =
      if t.le l.rps t.zero
      then (admit, l)
      else (let (b, l') = locate l key in
          let (d, b') = decide_bucket l' b now sample in
          (d, record l' { buckets = insert key b' l'.buckets }))

  -- AllowAt drops the third return.
  unfoldable pub allow_at : Limiter → String → ℕ → (Bool × ℕ) × Limiter
  allow_at l key now = let (d, l') = decide_at l key now false in ((d.allowed, d.retry_after), l')

  unfoldable pub allow_at_sampled : Limiter → String → ℕ → Decision × Limiter
  allow_at_sampled l key now = decide_at l key now true

  -- b.lastUsed.Before(now.Add(-l.ttl))
  abbrev pub is_idle : ℕ → ℕ → Bucket → Bool
  is_idle ttl now b = ltb (b.last_used + ttl) now

  pub sweep_buckets : ℕ → ℕ → Assoc Bucket → Assoc Bucket
  sweep_buckets ttl now [] = []
  sweep_buckets ttl now ((k, b) ∷ rest) =
      let kept = sweep_buckets ttl now rest in if is_idle ttl now b then kept else (k, b) ∷ kept

  pub count_idle : ℕ → ℕ → Assoc Bucket → ℕ
  count_idle ttl now [] = 0
  count_idle ttl now ((k, b) ∷ rest) =
      (if is_idle ttl now b then 1 else 0) + count_idle ttl now rest

  -- sweep: the number of buckets that went, and the limiter that is left.
  unfoldable pub sweep : Limiter → ℕ → ℕ × Limiter
  sweep l now =
      (count_idle l.ttl now l.buckets, record l { buckets = sweep_buckets l.ttl now l.buckets })

  -- Len
  abbrev pub len : Limiter → ℕ
  len l = length l.buckets

  -- A call of one of the methods that write.
  pub data Call : Type 0 where
    decide : String → ℕ → Bool → Call
    tick : ℕ → Call

  pub call : Limiter → Call → Limiter
  call l (decide key now sample) = (decide_at l key now sample).1
  call l (tick now) = (sweep l now).1

  pub run : Limiter → List Call → Limiter
  run l [] = l
  run l (c ∷ cs) = run (call l c) cs
