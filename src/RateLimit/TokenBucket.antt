-- ===== src/RateLimit/TokenBucket.antt =====
-- golang.org/x/time/rate, which the limiter calls, and the floats of its arithmetic: parameters of
-- the model. A time is its distance in nanoseconds from the zero time, a duration a number of
-- nanoseconds.
use orbeat_community.Prelude.{ℕ, ◌≤◌, ◌≡◌, Bool, true}

pub record TokenBucket : Type 1 where
  pub Float : Type 0
  pub zero : Float
  pub one : Float
  -- float64(time.Second)
  pub one_second : Float
  -- a <= b and a < b
  pub le : Float → Float → Bool
  pub lt : Float → Float → Bool
  pub sub : Float → Float → Float
  pub div : Float → Float → Float
  pub mul : Float → Float → Float
  -- time.Duration(x), for x >= 0
  pub duration : Float → ℕ
  -- *rate.Limiter
  pub Lim : Type 0
  -- rate.NewLimiter(rate.Limit(rps), burst)
  pub new_limiter : Float → ℕ → Lim
  -- lim.AllowN(now, n): the answer, and the limiter that it leaves
  pub allow_n : Lim → ℕ → ℕ → Bool × Lim
  -- lim.TokensAt(now)
  pub tokens_at : Lim → ℕ → Float

-- A fresh limiter is full: it admits as many events as its burst.
abbrev pub StartsFull : TokenBucket → Type 0
StartsFull t =
    (rps : t.Float) (burst now n : ℕ)
    → n ≤ burst
    → (t.allow_n (t.new_limiter rps burst) now n).0 ≡ true
