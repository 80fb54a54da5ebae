-- ===== src/Subscribe.antt =====
-- rabbitmq/consumer.go: how a handler gets registered, and how a binding that nothing handles any
-- more is taken off the queue.
mod Defs
mod Unbind
pub mod Registered
pub mod Delivered
pub mod Unbound
unfoldable pub use Defs.{
  exchange_of_message, subscription_of, store_handler_info, register_handler, subscribe,
  subscribe_route,
}
pub use Defs.{BindingCodec, Session, binding_of}
unfoldable pub use Unbind.{unbind_key, unbind_keys, unbind_unused_bindings, met}
pub use Unbind.{Tick, ticked}
