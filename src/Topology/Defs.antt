-- ===== src/Topology/Defs.antt =====
-- rabbitmq/rabbitmq.go: `applyTopology` and what it calls.
use gorabbit.Prelude.{
  ℕ, zero, suc, not, ◌/◌, Bytes, Bool, true, false, none, some, [], ◌∷◌, Assoc, codes,
  if◌then◌else◌,
}
use gorabbit.Prelude.Int.{ℤ, pos, negsuc}
use gorabbit.Setup.{Setup}
use gorabbit.Client.{HandlerInfo}
use gorabbit.Amqp.{Amqp, ◌>>◌, return, call, QueueArgs, exchange_declare, queue_declare, queue_bind}

-- The negation of a natural number.
abbrev minus : ℕ → ℤ
minus n = elim n [ zero ↦ pos 0 | suc k ↦ negsuc k ]

-- `d.Milliseconds()` of a duration in nanoseconds, rounded towards 0.
unfoldable pub milliseconds : ℤ → ℤ
milliseconds (pos n) = pos (n / 1_000_000)
milliseconds (negsuc n) = minus (suc n / 1_000_000)

unfoldable pub create_topic_exchange : Bytes → Amqp (Unit {0})
create_topic_exchange exchange = call (exchange_declare exchange)

unfoldable pub create_queue : Bytes → QueueArgs → Amqp (Unit {0})
create_queue queue args = call (queue_declare queue args)

unfoldable pub bind_queue_to_exchange : Bytes → Bytes → Bytes → Bool → Amqp (Unit {0})
unfolding create_topic_exchange
bind_queue_to_exchange exchange routing_key queue try_create_exchange =
    if try_create_exchange
    then create_topic_exchange exchange >> call (queue_bind queue routing_key exchange)
    else call (queue_bind queue routing_key exchange)

unfoldable pub create_topic_exchanges : Setup → Amqp (Unit {0})
unfolding create_topic_exchange
create_topic_exchanges s = do
  create_topic_exchange s.exchange_name
  if not s.is_consumer then return tt else (do
    create_topic_exchange s.queue_name
    create_topic_exchange s.dlq_name
    if s.with_retry then create_topic_exchange s.retry_name else return tt)

abbrev pub no_args : QueueArgs
no_args = record { dead_letter_exchange = none; message_ttl = none }

abbrev pub retry_args : Setup → QueueArgs
retry_args s = record {
  dead_letter_exchange = some s.queue_name;
  message_ttl = some (milliseconds s.retry_interval);
}

unfoldable pub create_queues : Setup → Amqp (Unit {0})
unfolding create_queue
create_queues s = do
  create_queue s.dlq_name no_args
  create_queue s.queue_name (record { dead_letter_exchange = some s.dlq_name; message_ttl = none })
  if s.with_retry then create_queue s.retry_name (retry_args s) else return tt

unfoldable pub bind_queues : Setup → Amqp (Unit {0})
unfolding bind_queue_to_exchange
bind_queues s = do
  bind_queue_to_exchange s.dlq_name (codes "#") s.dlq_name false
  bind_queue_to_exchange s.queue_name (codes "#") s.queue_name false
  if s.with_retry
      then bind_queue_to_exchange s.retry_name (codes "#") s.retry_name false
      else return tt

unfoldable pub bind_registered_handlers : Setup → Assoc HandlerInfo → Amqp (Unit {0})
unfolding bind_queue_to_exchange
bind_registered_handlers s [] = return tt
bind_registered_handlers s ((k, hi) ∷ rest) =
    bind_queue_to_exchange hi.exchange hi.binding_key s.queue_name true
    >> bind_registered_handlers s rest

unfoldable pub apply_topology : Setup → Assoc HandlerInfo → Amqp (Unit {0})
unfolding create_topic_exchanges create_queues bind_queues bind_registered_handlers
apply_topology s handlers = do
  create_topic_exchanges s
  if not s.is_consumer
      then return tt
      else (do create_queues s; bind_queues s; bind_registered_handlers s handlers)
