-- ===== src/Http.antt =====
-- backend/app/api: the part of the HTTP middleware that keeps state.
pub mod RateLimiter
mod Tests
