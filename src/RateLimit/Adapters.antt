-- ===== src/RateLimit/Adapters.antt =====
-- internal/ratelimit/{http,mcp,key}.go: the limiters as an HTTP handler and as MCP middlewares.
-- Seconds are computed exactly; the source goes through float64, which agrees for the durations
-- below 2^22 seconds that its buckets give.
pub mod Seconds
pub mod Slot
use Prim.Native.String
use orbeat_community.Prelude.{
  ℕ, ◌+◌, ◌/◌, String, Bool, true, false, not, ◌||◌, Option, none, some, ◌==◌, ltb, if◌then◌else◌,
}
use orbeat_community.RateLimit.Sample.{second}
use orbeat_community.RateLimit.TokenBucket.{TokenBucket}
use orbeat_community.RateLimit.Limiter.{Limiter, Decision, allow_at_sampled}
use orbeat_community.RateLimit.Concurrency.{
  ConcurrencyLimiter, Acquired, acquire_at, release, in_flight,
}

-- auth.Principal, as far as the limiter reads it.
pub record Principal : Type 0 where
  pub subject : String
  pub client_id : String

unfoldable pub key_for : Principal → String
key_for p =
    if p.client_id == "" then p.subject else String.◌++◌ p.subject (String.◌++◌ "|" p.client_id)

-- ceil(retry.Seconds()), at least 1
unfoldable pub retry_seconds : ℕ → ℕ
retry_seconds d = let secs = (d + 999_999_999) / second in if ltb secs 1 then 1 else secs

-- What a wrapped handler does with a request: serve it, or refuse it with the seconds to wait and
-- whether a log line is written beside the counter.
pub data Outcome : Type 0 where
  served : Outcome
  refused : ℕ → Bool → Outcome

module _ (t : TokenBucket) where
  abbrev pub answer : Decision → Outcome
  answer d = if d.allowed then served else refused (retry_seconds d.retry_after) d.log_rejection

  -- HTTP: a request with no principal passes.
  unfoldable pub http : Limiter t → Option Principal → ℕ → Outcome × Limiter t
  http l none now = (served, l)
  http l (some p) now = let (d, l') = allow_at_sampled t l (key_for p) now in (answer d, l')

  -- MCP: `l` is nil where limiting is off, `key` is what the KeyFunc derives.
  unfoldable pub mcp :
      Option (Limiter t) → String → String → Option String → ℕ → Outcome × Option (Limiter t)
  mcp none method m key now = (served, none)
  mcp (some l) method m none now = (served, some l)
  mcp (some l) method m (some key) now =
      if not (m == method)
      then (served, some l)
      else (let (d, l') = allow_at_sampled t l key now in (answer d, some l'))

-- What MCPConcurrency returns: the handler's result, or {limit, inFlight}.
pub data Reply {ℓ} (A : Type ℓ) : Type ℓ where
  passed : A → Reply A
  capped : ℕ → ℕ → Reply A

module _ {A : Type 0} (next : ConcurrencyLimiter → A × ConcurrencyLimiter) where
  pub pass : ConcurrencyLimiter → Reply A × ConcurrencyLimiter
  pass c = let (a, c') = next c in (passed a, c')

  -- The metered part: acquire, and run the handler under a deferred release. `later` is the time
  -- at which the handler has returned. The release of a disabled cap does nothing.
  pub metered : ConcurrencyLimiter → String → ℕ → ℕ → Reply A × ConcurrencyLimiter
  metered c key now later =
      let (a, c') = acquire_at c key now true in
      if a.ok
      then (let (r, c'') = pass c' in (r, (if ltb 0 c.max then release c'' key later else c'')))
      else (capped c'.max (in_flight c' key), c')

  -- MCPConcurrency, for a limiter that is not nil.
  unfoldable pub mcp_concurrency :
      ConcurrencyLimiter → String → String → Option String → ℕ → ℕ → Reply A × ConcurrencyLimiter
  mcp_concurrency c method m none now later = pass c
  mcp_concurrency c method m (some key) now later =
      if not (m == method) then pass c else metered c key now later
