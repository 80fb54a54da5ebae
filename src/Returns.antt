-- ===== src/Returns.antt =====
-- rabbitmq/returns.go: the tracker of the messages that the broker gave back.
mod Defs
pub mod Answers
unfoldable pub use Defs.{track, was_returned, run, new_tracker}
pub use Defs.{Event, returned, queried, closed_channel, Tracker}
