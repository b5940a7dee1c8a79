-- ===== src/RateLimit/Tests.antt =====
-- The rate limiters at concrete inputs. The token bucket of the tests never refills.
use orbeat_community.Prelude.{
  ℕ, ◌-◌, ◌/◌, ◌*◌, ◌≤◌, ◌≡◌, ◌⊎◌, refl, String, Bool, true, false, none, some, List, [], ◌∷◌,
  arith, leb, ltb, eq_iff, if◌then◌else◌,
}
use orbeat_community.Prelude.Assoc.{lookup}
use orbeat_community.RateLimit.Sample.{second}
use orbeat_community.RateLimit.TokenBucket.{TokenBucket, StartsFull}
use orbeat_community.RateLimit.Limiter.{
  Bucket, Limiter, new, len, Call, decide, tick, run, decide_at,
}
use orbeat_community.RateLimit.Limiter.Bounds.{len-run-le}
use orbeat_community.RateLimit.Limiter.Isolation.{decide_at_others}
use orbeat_community.RateLimit.Limiter.LogSpacing.{log_times-Spaced, log_times, Spaced}
use orbeat_community.RateLimit.Concurrency.{
  ConcurrencyLimiter, Slot, acquire_at, release, in_flight, Handle, acquire, give_back,
}
use orbeat_community.RateLimit.Concurrency.Balance.{start, live, in_flight-run}
use orbeat_community.RateLimit.Adapters.{mcp_concurrency}
use orbeat_community.RateLimit.Adapters.Slot.{Answers, mcp_concurrency_lem}

abbrev no_refill : TokenBucket
no_refill = record {
  Float = ℕ;
  zero = 0;
  one = 1;
  one_second = second;
  le = leb;
  lt = ltb;
  sub = ◌-◌;
  div = ◌/◌;
  mul = ◌*◌;
  duration = λ d. d;
  Lim = ℕ;
  new_limiter = λ rps burst. burst;
  allow_n = λ lim now n. if leb n lim then (true, lim - n) else (false, lim);
  tokens_at = λ lim now. lim;
}

no_refill-StartsFull : StartsFull no_refill
no_refill-StartsFull rps burst now n h = ground arith

abbrev calls : List (Call no_refill)
calls =
    decide "alice" 100 true ∷ (decide "alice" 200 true ∷ (decide "bob" 300 false ∷ (tick 400 ∷ [])))

len-run-le_example : len no_refill (run no_refill (new no_refill 1 1 100 1) calls) ≤ 1
len-run-le_example = len-run-le no_refill 1 1 100 1 calls (omega arith)

abbrev alice : Bucket no_refill
alice = record { lim = 3; last_used = 7; last_logged = 0 }

abbrev busy : Limiter no_refill
busy = record { buckets = ("alice", alice) ∷ []; rps = 1; burst = 5; ttl = 10; max_entries = 4 }

decide_at_others_example :
    (lookup "alice" (decide_at no_refill busy "bob" 9 true).1.buckets ≡ some alice)
    ⊎ ((lookup "bob" busy.buckets ≡ none) × (false ≡ true) × ((7 ≤ 7) × Unit {0}))
unfolding lookup
decide_at_others_example =
    decide_at_others no_refill busy "bob" "alice" 9 true alice
      (ground (arith, eq_iff "bob" "alice")) (ground (arith, eq_iff "alice" ""), tt) (refl, tt) refl

log_times-Spaced_example :
    Spaced (log_times no_refill (new no_refill 1 1 600_000_000_000 0) "alice" calls)
log_times-Spaced_example =
    log_times-Spaced no_refill 1 1 600_000_000_000 "alice" calls (omega arith)
      (omega arith, (omega arith, (omega arith, (omega arith, tt))))

in_flight-run_example :
    let s =
      orbeat_community.RateLimit.Concurrency.run
        (start 2 10)
        (acquire "a" 1 true ∷ (acquire "a" 2 true ∷ (give_back 0 3 ∷ (give_back 0 4 ∷ [])))) in
    (in_flight s.limiter "a" ≡ live "a" s.handles)
    × (live "a" s.handles ≤ 2)
    × ((now : ℕ) (sample : Bool)
        → (acquire_at s.limiter "a" now sample).0.ok ≡ ltb (live "a" s.handles) 2)
in_flight-run_example =
    in_flight-run 2 10
      (acquire "a" 1 true ∷ (acquire "a" 2 true ∷ (give_back 0 3 ∷ (give_back 0 4 ∷ [])))) "a"
      (omega arith)

abbrev idle : ConcurrencyLimiter → ℕ × ConcurrencyLimiter
idle c = (7, c)

abbrev full : ConcurrencyLimiter
full = record {
  slots = ("a", record { n = 2; idle_since = 0; last_logged = 0 }) ∷ [];
  max = 2;
  ttl = 10;
}

abbrev tools_call : String
tools_call = "tools/call"

mcp_concurrency_lem_example :
    let r = mcp_concurrency idle full tools_call tools_call (some "a") 1 2 in
    ((k : String) → in_flight r.1 k ≡ in_flight full k)
    × Answers idle full tools_call tools_call (some "a") 1 r.0
mcp_concurrency_lem_example =
    mcp_concurrency_lem idle full tools_call tools_call (some "a") 1 2 (λ c' k. refl)
