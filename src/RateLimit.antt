-- ===== src/RateLimit.antt =====
-- internal/ratelimit: the token-bucket limiter, the concurrency cap and their log sampler.
mod Tests
pub mod Sample
pub mod TokenBucket
pub mod Limiter
pub mod Concurrency
pub mod Adapters
