-- ===== src/Carrier/Carried.antt =====
-- What a publisher's context carries reaches the handler, however often the message is retried.
use gorabbit.Prelude.{ℕ, zero, suc, Bytes, Option, ◌≡◌, ◌≢◌, lookup, IsUnique}
use gorabbit.Setup.{Setup}
use gorabbit.Message.{Message}
use gorabbit.Amqp.{Table, HeaderValue, Delivery}
use gorabbit.Publisher.{PublishMessage}
use gorabbit.Consumer.{table_of, retry_count_header_key, origin_exchange_header_key}
use gorabbit.Consumer.Dispatch.{returning}
use gorabbit.Carrier.Defs.{HeaderCarrier, ambient_headers}

-- A key that the retries do not write.
abbrev pub IsFree : Bytes → Type 0
IsFree k = (retry_count_header_key ≢ k) × (origin_exchange_header_key ≢ k)

-- The delivery after as many rounds through the retry queue.
abbrev pub rounds : ℕ → Setup → Delivery → Delivery
rounds zero s d = d
rounds (suc n) s d = returning s (rounds n s d)

-- What a carrier documents of one key, where `read` is the value that a context has for it: the
-- headers that it takes hold it, and the context that it makes of headers has theirs.
pub record Carries {C : Type 0} (headers : HeaderCarrier C) (read : C → Option HeaderValue)
    (k : Bytes) : Type 0 where
  pub unique : (ctx : C) → IsUnique (ambient_headers headers ctx)
  pub taken : (ctx : C) → lookup k (ambient_headers headers ctx) ≡ read ctx
  pub given : (ctx : C) (h : Option Table) → read (headers.to_context ctx h) ≡ lookup k (table_of h)

-- The delivery has the id, the body and the headers of the message.
pub record IsDeliveryOf (pm : PublishMessage) (d : Delivery) : Type 0 where
  pub id : d.message_id ≡ pm.msg_id
  pub body : d.body ≡ pm.msg_body
  pub headers : d.headers ≡ pm.msg_headers
