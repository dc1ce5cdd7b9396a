-- ===== src/RateLimit.antt =====
-- gorouter/internal/middleware/ratelimit.go. A window is only touched under its mutex, so a critical
-- section is one function from window to window. Times are Unix seconds, read once for each critical
-- section and given as an argument: two sections may run in another order than their times.
pub mod Window
pub mod Counts
pub mod History
pub mod Cleanup
pub mod Retry
pub mod Again
pub mod Limiter
pub mod Recorded
pub mod Users
pub mod QuotaRules
