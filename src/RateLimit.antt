-- ===== src/RateLimit.antt =====
-- The in-memory rate limiter of eami-api/internal/api/ratelimit.go and
-- eami-gateway/internal/workflow/ratelimit.go, and the guard of the login route.
pub mod Limiter
pub mod Keep
pub mod Call
pub mod Invariant
pub mod Bound
pub mod Retry
pub mod Return
pub mod Middleware
pub mod ClientKey
pub mod Login
pub mod RunGuard
pub mod Runs
mod Examples
