-- ===== src/Carrier/Defs.antt =====
-- gorabbit.go: `HeaderCarrier` and `NoopHeaderCarrier`, over any type of contexts; rabbitmq/rabbitmq.go,
-- `WithHeaderCarrier`; its calls in rabbitmq/publisher.go and rabbitmq/consumer.go.
use gorabbit.Prelude.{Option, none, some}
use gorabbit.Amqp.{Table, Delivery}
use gorabbit.Consumer.{table_of}

-- A map may be nil.
pub record HeaderCarrier (C : Type 0) : Type 0 where
  pub from_context : C → Option Table
  pub to_context : C → Option Table → C

module _ {C : Type 0} where
  unfoldable pub noop_header_carrier : HeaderCarrier C
  noop_header_carrier = record { from_context = λ c. none; to_context = λ c h. c }

  -- The field `headers` of the setup behind the option; `none` is a nil carrier.
  unfoldable pub with_header_carrier : Option (HeaderCarrier C) → HeaderCarrier C → HeaderCarrier C
  with_header_carrier none headers = headers
  with_header_carrier (some h) headers = h

  -- What `getPublishMessage` copies into the headers of the message.
  unfoldable pub ambient_headers : HeaderCarrier C → C → Table
  ambient_headers headers ctx = table_of (headers.from_context ctx)

  -- The context that `processMessage` gives the handler.
  unfoldable pub handler_context : HeaderCarrier C → C → Delivery → C
  handler_context headers ctx d = headers.to_context ctx d.headers
