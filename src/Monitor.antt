-- ===== src/Monitor.antt =====
-- rabbitmq/common.go: `monitorConnection` and `scheduleDelayedFlush`, which wait in goroutines of
-- their own. What their selects take, and in which order, is given.
mod Defs
pub mod Heals
pub mod Closed
pub mod Outage
unfoldable pub use Defs.{monitor_turn, monitor_connection, delayed_flush}
pub use Defs.{Wake, stopped, elapsed}
