-- ===== src/RateLimit/Concurrency.antt =====
-- internal/ratelimit/concurrency.go. Each method holds the mutex throughout, so an execution is a
-- sequence of method calls. `max` and `ttl` are numbers: a negative value takes the branches of 0.
pub mod Slots
pub mod Balance
use orbeat_community.Prelude.{
  ℕ, zero, suc, ◌+◌, ◌-◌, String, Bool, true, false, not, ◌&&◌, Option, none, some, List, [], ◌∷◌,
  ◌++◌, ◌==◌, ltb, leb, eqb, length, if◌then◌else◌,
}
use orbeat_community.Prelude.Assoc.{Assoc, lookup, insert}
use orbeat_community.RateLimit.Sample.{sample_log}

pub record Slot : Type 0 where
  pub n : ℕ
  pub idle_since : ℕ
  pub last_logged : ℕ

pub record ConcurrencyLimiter : Type 0 where
  pub slots : Assoc Slot
  pub max : ℕ
  pub ttl : ℕ

-- NewConcurrency, less the sweeper that it starts.
abbrev pub new_concurrency : ℕ → ℕ → ConcurrencyLimiter
new_concurrency max ttl = record { slots = []; max = max; ttl = ttl }

abbrev pub slot_or_new : Option Slot → Slot
slot_or_new none = record { n = 0; idle_since = 0; last_logged = 0 }
slot_or_new (some s) = s

-- What acquireAt returns, less the release function: see `take` below.
pub record Acquired : Type 0 where
  pub ok : Bool
  pub log_rejection : Bool

-- acquireAt on the key's slot.
pub acquire_slot : ℕ → Slot → ℕ → Bool → Acquired × Slot
acquire_slot max s now sample =
    let log = sample && sample_log s.last_logged now in
    if leb max s.n
    then (
      record { ok = false; log_rejection = log },
      (if log then record s { last_logged = now } else s),
    )
    else (record { ok = true; log_rejection = false }, record s { n = s.n + 1 })

unfoldable pub acquire_at : ConcurrencyLimiter → String → ℕ → Bool → Acquired × ConcurrencyLimiter
acquire_at c key now sample =
    if eqb c.max 0
    then (record { ok = true; log_rejection = false }, c)
    else (let (a, s) = acquire_slot c.max (slot_or_new (lookup key c.slots)) now sample in
        (a, record c { slots = insert key s c.slots }))

-- The slot that release leaves; `now` is the clock that it reads.
pub release_slot : ℕ → Slot → Slot
release_slot now s = record s {
  n = s.n - 1;
  idle_since = if eqb (s.n - 1) 0 then now else s.idle_since;
}

abbrev pub release_found : ConcurrencyLimiter → String → ℕ → Option Slot → ConcurrencyLimiter
release_found c key now none = c
release_found c key now (some s) =
    if eqb s.n 0 then c else record c { slots = insert key (release_slot now s) c.slots }

unfoldable pub release : ConcurrencyLimiter → String → ℕ → ConcurrencyLimiter
release c key now = release_found c key now (lookup key c.slots)

-- InFlight
abbrev pub count_of : Option Slot → ℕ
count_of none = 0
count_of (some s) = s.n

abbrev pub in_flight : ConcurrencyLimiter → String → ℕ
in_flight c key = count_of (lookup key c.slots)

-- The entry goes: its count is 0 and now.Sub(s.idleSince) >= c.ttl.
abbrev pub is_idle : ℕ → ℕ → Slot → Bool
is_idle ttl now s = not (ltb 0 s.n) && leb (s.idle_since + ttl) now

pub sweep_slots : ℕ → ℕ → Assoc Slot → Assoc Slot
sweep_slots ttl now [] = []
sweep_slots ttl now ((k, s) ∷ rest) =
    let kept = sweep_slots ttl now rest in if is_idle ttl now s then kept else (k, s) ∷ kept

-- sweep: the number of entries removed, and the limiter that is left.
unfoldable pub sweep : ConcurrencyLimiter → ℕ → ℕ × ConcurrencyLimiter
sweep c now =
    let kept = sweep_slots c.ttl now c.slots in
    (length c.slots - length kept, record c { slots = kept })

-- A release function: the key that it captured, and whether its sync.Once has run.
pub record Handle : Type 0 where
  pub key : String
  pub fired : Bool

-- The limiter and the release functions that its callers hold, the newest first.
pub record System : Type 0 where
  pub limiter : ConcurrencyLimiter
  pub handles : List Handle

-- once.Do of the i-th release function: the key to release, if this is its first call.
pub once_do : List Handle → ℕ → Option String × List Handle
once_do [] i = (none, [])
once_do (h ∷ hs) zero =
    if h.fired then (none, h ∷ hs) else (some h.key, record h { fired = true } ∷ hs)
once_do (h ∷ hs) (suc i) = let (r, hs') = once_do hs i in (r, h ∷ hs')

abbrev pub release_key : ConcurrencyLimiter → Option String → ℕ → ConcurrencyLimiter
release_key c none now = c
release_key c (some key) now = release c key now

-- AcquireAtSampled or Acquire: a caller that got a slot holds one more release function. Where the
-- cap is disabled, or no slot was taken, the function that it gets does nothing.
unfoldable pub take : System → String → ℕ → Bool → Acquired × System
take s key now sample =
    let (a, c) = acquire_at s.limiter key now sample in
    (
      a,
      (if a.ok && ltb 0 c.max
          then record { limiter = c; handles = record { key = key; fired = false } ∷ s.handles }
          else record s { limiter = c }),
    )

pub data Call : Type 0 where
  acquire : String → ℕ → Bool → Call
  give_back : ℕ → ℕ → Call
  tick : ℕ → Call

pub call : System → Call → System
call s (acquire key now sample) = (take s key now sample).1
call s (give_back i now) =
    let (key, hs) = once_do s.handles i in
    record { limiter = release_key s.limiter key now; handles = hs }
call s (tick now) = record s { limiter = (sweep s.limiter now).1 }

pub run : System → List Call → System
run s [] = s
run s (c ∷ cs) = run (call s c) cs
