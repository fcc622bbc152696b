-- ===== src/RateLimit.antt =====
-- internal/kernel/ratelimit: how many requests each caller may make.
pub mod Limiter
pub mod Bounds
pub mod Bursts
pub mod Examples
