-- ===== src/RateLimit/Limiter/LogSpacing.antt =====
-- How far apart the log lines of one key are, across decisions for every key and sweeps.
use orbeat_community.Prelude.{
  ℕ, ◌+◌, ◌≤◌, ◌<◌, String, ◌≡◌, ◌≢◌, refl, ap, Bool, true, false, ◌&&◌, some, List, [], ◌∷◌, ◌==◌,
  ◌∙◌, ◌⊎◌, eq_iff, arith, Bool-cases, inl, inr, if◌then◌else◌,
}
use orbeat_community.Prelude.Assoc.{Assoc, lookup}
use orbeat_community.RateLimit.Sample.{log_sample_interval, sample_log}
use orbeat_community.RateLimit.TokenBucket.{TokenBucket}
use orbeat_community.RateLimit.Limiter.{
  Bucket, Limiter, new, evict_if_full, locate_from, locate, decide_at, is_idle, sweep_buckets,
  sweep, Call, decide, tick, call,
}
use orbeat_community.RateLimit.Limiter.Isolation.{lookup-decide_at_unbounded}
use orbeat_community.RateLimit.Limiter.Logging.{
  stamp_of, last_logged_of, decide_at_logged, decide_at_silent,
}

-- Each time is at least an interval after the one before, the first after `last`.
abbrev pub SpacedFrom : ℕ → List ℕ → Type 0
SpacedFrom last [] = Unit
SpacedFrom last (x ∷ xs) = (last + log_sample_interval ≤ x) × SpacedFrom x xs

abbrev pub Spaced : List ℕ → Type 0
Spaced [] = Unit
Spaced (x ∷ xs) = SpacedFrom x xs

-- The same from a `last` that may be the zero time, for "never".
abbrev SpacedFrom? : ℕ → List ℕ → Type 0
SpacedFrom? last [] = Unit
SpacedFrom? last (x ∷ xs) =
    (0 < x) × ((last ≡ 0) ⊎ (last + log_sample_interval ≤ x)) × SpacedFrom? x xs

SpacedFrom-of_SpacedFrom? :
    (last : ℕ) (xs : List ℕ) → 0 < last → SpacedFrom? last xs → SpacedFrom last xs
SpacedFrom-of_SpacedFrom? last [] pos h = tt
SpacedFrom-of_SpacedFrom? last (x ∷ xs) pos (pos', gap, h) =
    (omega arith, SpacedFrom-of_SpacedFrom? x xs pos' h)

Spaced-of_SpacedFrom? : (xs : List ℕ) → SpacedFrom? 0 xs → Spaced xs
Spaced-of_SpacedFrom? [] h = tt
Spaced-of_SpacedFrom? (x ∷ xs) (pos, gap, h) = SpacedFrom-of_SpacedFrom? x xs pos h

module _ (t : TokenBucket) where
  abbrev pub time_of : Call t → ℕ
  time_of (decide key now sample) = now
  time_of (tick now) = now

  -- The clock does not run backwards.
  abbrev pub InOrder : ℕ → List (Call t) → Type 0
  InOrder clock [] = Unit
  InOrder clock (c ∷ cs) = (clock ≤ time_of c) × InOrder (time_of c) cs

  -- The call writes a log line for the key.
  pub logs_for : Limiter t → String → Call t → Bool
  logs_for l k (decide key now sample) = key == k && (decide_at t l key now sample).0.log_rejection
  logs_for l k (tick now) = false

  -- The times at which the calls write a log line for the key.
  pub log_times : Limiter t → String → List (Call t) → List ℕ
  unfolding logs_for
  log_times l k [] = []
  log_times l k (c ∷ cs) =
      let rest = log_times (call t l c) k cs in if logs_for l k c then time_of c ∷ rest else rest

  -- What the limiter remembers of the key's last line: none was written, the interval is over, or
  -- the bucket has its time and was used no earlier.
  abbrev Remembers : Limiter t → String → ℕ → ℕ → Type 0
  Remembers l k last clock =
      (last ≤ clock)
      × ((last ≡ 0)
          ⊎ (last + log_sample_interval ≤ clock)
          ⊎ ((b : Bucket t) × (lookup k l.buckets ≡ some b)
              × (b.last_logged ≡ last)
              × (last ≤ b.last_used)))

  lookup-sweep_buckets :
      (ttl now : ℕ) (k : String) (m : Assoc (Bucket t)) (b : Bucket t)
      → lookup k m ≡ some b
      → is_idle t ttl now b ≡ false
      → lookup k (sweep_buckets t ttl now m) ≡ some b
  unfolding lookup sweep_buckets
  lookup-sweep_buckets ttl now k [] b h kept = cc
  lookup-sweep_buckets ttl now k ((j, c) ∷ m) b h kept =
      ground (arith, lookup-sweep_buckets ttl now k m b, eq_iff j k)

  sweep-Remembers :
      (l : Limiter t) (k : String) (last clock now : ℕ)
      → log_sample_interval ≤ l.ttl
      → clock ≤ now
      → Remembers l k last clock
      → Remembers (sweep t l now).1 k last now
  unfolding sweep
  sweep-Remembers l k last clock now wide later (le, inl never) = (omega arith, inl never)
  sweep-Remembers l k last clock now wide later (le, inr (inl over)) =
      (omega arith, inr (inl (omega arith)))
  sweep-Remembers l k last clock now wide later (le, inr (inr (b, there, at, used))) =
      elim (Bool-cases (is_idle t l.ttl now b)) [
        | inl idle ↦ (omega arith, inr (inl (ground arith)))
        | inr kept ↦ (
          omega arith,
          inr (inr (b, lookup-sweep_buckets l.ttl now k l.buckets b there kept, at, used)),
        )
      ]

  decide-Remembers_other :
      (l : Limiter t) (k key : String) (last clock now : ℕ) (sample : Bool)
      → key ≢ k
      → l.max_entries ≡ 0
      → clock ≤ now
      → Remembers l k last clock
      → Remembers (decide_at t l key now sample).1 k last now
  decide-Remembers_other l k key last clock now sample ne open_ended later (le, inl never) =
      (omega arith, inl never)
  decide-Remembers_other l k key last clock now sample ne open_ended later (le, inr (inl over)) =
      (omega arith, inr (inl (omega arith)))
  decide-Remembers_other l k key last clock now sample ne open_ended later
        (le, inr (inr (b, there, at, used))) =
      (
        omega arith,
        inr (
            inr
              (b, lookup-decide_at_unbounded t l key k now sample ne open_ended ∙ there, at, used)),
      )

  decide-Remembers_silent :
      (l : Limiter t) (k : String) (last clock now : ℕ) (sample : Bool)
      → (decide_at t l k now sample).0.log_rejection ≡ false
      → clock ≤ now
      → Remembers l k last clock
      → Remembers (decide_at t l k now sample).1 k last now
  decide-Remembers_silent l k last clock now sample quiet later (le, inl never) =
      (omega arith, inl never)
  decide-Remembers_silent l k last clock now sample quiet later (le, inr (inl over)) =
      (omega arith, inr (inl (omega arith)))
  decide-Remembers_silent l k last clock now sample quiet later
        (le, inr (inr (b, there, at, used))) =
      let (b', there', same, used') = decide_at_silent t l k now sample b quiet there in
      (omega arith, inr (inr (b', there', same ∙ at, omega arith)))

  sample_log-gap :
      (last now : ℕ) → sample_log last now ≡ true → (last ≡ 0) ⊎ (last + log_sample_interval ≤ now)
  unfolding sample_log
  sample_log-gap last now h = ground arith

  gap_of_memory :
      (l : Limiter t) (k : String) (last clock now : ℕ)
      → sample_log (last_logged_of t l k) now ≡ true
      → clock ≤ now
      → Remembers l k last clock
      → (last ≡ 0) ⊎ (last + log_sample_interval ≤ now)
  gap_of_memory l k last clock now sampled later (le, inl never) = inl never
  gap_of_memory l k last clock now sampled later (le, inr (inl over)) = inr (omega arith)
  gap_of_memory l k last clock now sampled later (le, inr (inr (b, there, at, used))) =
      sample_log-gap last now (rw (← at, ← ap (stamp_of t) there) sampled)

  -- A line that is written comes after the interval, and is what the limiter then remembers.
  decide-Remembers_logged :
      (l : Limiter t) (k : String) (last clock now : ℕ) (sample : Bool)
      → (decide_at t l k now sample).0.log_rejection ≡ true
      → clock ≤ now
      → Remembers l k last clock
      → ((last ≡ 0) ⊎ (last + log_sample_interval ≤ now))
        × Remembers (decide_at t l k now sample).1 k now now
  decide-Remembers_logged l k last clock now sample logged later (le, memory) =
      let (sampled, (b, there, at, used)) = decide_at_logged t l k now sample logged in
      (
        gap_of_memory l k last clock now sampled later (le, memory),
        (omega arith, inr (inr (b, there, at, omega arith))),
      )

  abbrev IsOpenEnded : Limiter t → Type 0
  IsOpenEnded l = (l.max_entries ≡ 0) × (log_sample_interval ≤ l.ttl)

  decide_at-IsOpenEnded :
      (l : Limiter t) (key : String) (now : ℕ) (sample : Bool)
      → IsOpenEnded l
      → IsOpenEnded (decide_at t l key now sample).1
  unfolding decide_at locate locate_from evict_if_full
  decide_at-IsOpenEnded l key now sample h = ground arith

  log_times-SpacedFrom? :
      (l : Limiter t) (k : String) (last clock : ℕ) (cs : List (Call t))
      → 0 < clock
      → IsOpenEnded l
      → InOrder clock cs
      → Remembers l k last clock
      → SpacedFrom? last (log_times l k cs)
  unfolding log_times call
  log_times-SpacedFrom? l k last clock [] pos open_ended order memory = tt
  log_times-SpacedFrom? l k last clock (tick now ∷ cs) pos (none_, wide) (later, order) memory =
      log_times-SpacedFrom? (sweep t l now).1 k last now cs (omega arith)
        (unfold sweep in (none_, wide)) order (sweep-Remembers l k last clock now wide later memory)
  log_times-SpacedFrom? l k last clock (decide key now sample ∷ cs) pos open_ended (later, order)
        memory =
      let l' = (decide_at t l key now sample).1 in
      let kept = decide_at-IsOpenEnded l key now sample open_ended in
      let ih = λ (last' : ℕ). log_times-SpacedFrom? l' k last' now cs (omega arith) kept order in
      elim (Bool-cases (key == k)) [
        | inr other ↦ rw other (
            ih last (
              decide-Remembers_other l k key last clock now sample (ground (arith, eq_iff key k))
                open_ended.0 later memory))
        | inl same ↦
            let e = (eq_iff key k).0 same in
            let memory' : Remembers l key last clock = rw e memory in
            elim (Bool-cases (decide_at t l key now sample).0.log_rejection) [
              | inr quiet ↦
                  rw (same, quiet)
                    (ih last (
                      rw (← e)
                        (decide-Remembers_silent l key last clock now sample quiet later memory')))
              | inl logged ↦
                  let (gap, next) =
                    decide-Remembers_logged l key last clock now sample logged later memory' in
                  rw (same, logged) (omega arith, gap, ih now (rw (← e) next))
            ]
      ]

-- From a new limiter with no ceiling on its entries and a ttl no shorter than the interval, and
-- with calls (decisions for any keys, sampled or not, and sweeps) at times that do not run
-- backwards and are past the zero time, two log lines for the same key are at least an interval
-- apart, also where a sweep dropped the key's bucket between them.
pub log_times-Spaced :
    (t : TokenBucket) (rps : t.Float) (burst ttl : ℕ) (k : String) (cs : List (Call t))
    → log_sample_interval ≤ ttl
    → InOrder t 1 cs
    → Spaced (log_times t (new t rps burst ttl 0) k cs)
log_times-Spaced t rps burst ttl k cs wide order =
    let l = new t rps burst ttl 0 in
    let start : IsOpenEnded t l = unfold new in (refl, wide) in
    Spaced-of_SpacedFrom? (log_times t l k cs)
      (log_times-SpacedFrom? t l k 0 1 cs (omega arith) start order (omega arith, inl refl))
