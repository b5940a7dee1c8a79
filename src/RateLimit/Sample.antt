-- ===== src/RateLimit/Sample.antt =====
-- internal/ratelimit/sample.go. A time.Time is its distance in nanoseconds from the zero time, so
-- that `IsZero` is a test for 0; `now.Sub(t) >= d` is `t + d <= now`, which the saturation of Sub
-- does not change, as no Duration is larger than the bound at which it saturates.
use orbeat_community.Prelude.{ℕ, ◌+◌, Bool, ◌||◌, eqb, leb}

abbrev pub second : ℕ
second = 1_000_000_000

-- time.Minute
abbrev pub log_sample_interval : ℕ
log_sample_interval = 60_000_000_000

unfoldable pub sample_log : ℕ → ℕ → Bool
sample_log last_logged now = eqb last_logged 0 || leb (last_logged + log_sample_interval) now
