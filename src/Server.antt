-- ===== src/Server.antt =====
-- internal/server: the session store and the rate limiter.
pub mod Sessions
pub mod RateLimit
pub mod ClientIp
