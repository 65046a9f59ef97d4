-- ===== src/Search.antt =====
-- apps/api/src/search.rs: the rate limiter, and the search for users.
pub mod RateLimiter
pub mod Like
pub mod Users
