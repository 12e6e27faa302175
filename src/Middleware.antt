-- ===== src/Middleware.antt =====
-- middleware/: what stands between the server and the handlers.
pub mod RateLimit
pub mod ClientIp
pub mod Headers
pub mod Metrics
