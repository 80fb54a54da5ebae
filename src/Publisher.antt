-- ===== src/Publisher.antt =====
-- rabbitmq/publisher.go: publishing a message and knowing that the broker has it.
mod Defs
pub mod Confirm
pub mod Message
unfoldable pub use Defs.{
  to_cache_message, from_cache_message, copy_headers, get_publish_message, confirm_answer,
  publish_confirmed, publish,
}
pub use Defs.{PublishMessage, CachedMessage, non_nil, named, Published, publishing_of}
