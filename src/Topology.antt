-- ===== src/Topology.antt =====
-- rabbitmq/rabbitmq.go: the exchanges, queues and bindings that a client declares on connecting.
mod Defs
pub mod Plan
pub mod Order
unfoldable pub use Defs.{
  milliseconds, create_topic_exchange, create_queue, bind_queue_to_exchange, create_topic_exchanges,
  create_queues, bind_queues, bind_registered_handlers, apply_topology,
}
