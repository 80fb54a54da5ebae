-- ===== src/Pending.antt =====
-- rabbitmq/common.go: `retryPendingMessages`, the timer that flushes again while messages wait.
mod Defs
pub mod Timer
unfoldable pub use Defs.{on_signal, on_timer, started, delays}
pub use Defs.{Retry, min_ℕ, pending_retry_delay, max_pending_retry_delay}
