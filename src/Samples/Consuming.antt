-- ===== src/Samples/Consuming.antt =====
-- A delivery whose handler fails, its copy, and the handlers of a client.
use gorabbit.Prelude.{
  Bytes, true, Option, none, some, [], ◌∷◌, ◌++◌, codes, ◌≡◌, inl, inr, refl, is_empty, ◌==◌,
  if◌then◌else◌,
}
use gorabbit.Errors.{Error, ok, external}
use gorabbit.Scope.{handlers_map_key}
use gorabbit.Client.{Client, HandlerInfo, new_client}
use gorabbit.Amqp.{Delivery}
use gorabbit.Consumer.{Settlement, handler_for, retry_count, next_int, origin_of}
use gorabbit.Consumer.Dispatch.{returning, returning_lem}
use gorabbit.Subscribe.{
  BindingCodec, Session, register_handler, unbind_unused_bindings, met, Tick, ticked,
}
use gorabbit.Subscribe.Registered.{IsRegistered, register_handler_lem}
use gorabbit.Subscribe.Unbound.{IsClean, unbind_unused_bindings_lem}
use gorabbit.Flush.Memory.{memory_cache, empty_cache}
use gorabbit.Consumer.Loop.{ended, delivered, consume_turn}
use gorabbit.Consumer.Loop.Turns.{consume_turn_lem}
use gorabbit.Connection.{connected, closed}
use gorabbit.Prelude.{false, List}
use gorabbit.Samples.Data.{mailer, all_open, agreeable, counter}

abbrev refusing : Delivery → Option Error
refusing d = some (external 1)

abbrev failing : HandlerInfo
failing = record {
  exchange = codes "orders";
  binding_key = codes "InvoicePaid";
  handler = refusing;
}

unfoldable pub consumer : Client
unfolding new_client
consumer = record (new_client mailer) {
  conn = some 0;
  ch = some 1;
  pub_ch = some 2;
  returns = some 2;
  is_connected = true;
  handlers = (codes "orders:InvoicePaid", failing) ∷ [];
}

abbrev pub delivery : Delivery
delivery = record {
  exchange = codes "orders";
  routing_key = codes "InvoicePaid";
  content_type = codes "application/json";
  content_encoding = [];
  message_type = codes "InvoicePaid";
  body = codes "{}";
  headers = none;
  priority = 0;
  correlation_id = [];
  reply_to = [];
  message_id = codes "01";
  user_id = [];
  app_id = [];
  expiration = [];
}

abbrev pub no_error : Settlement → Option Error
no_error a = none

returning_lem_example :
    (handler_for consumer (returning consumer.setup delivery) ≡ handler_for consumer delivery)
    × (retry_count (returning consumer.setup delivery) ≡ next_int (retry_count delivery))
unfolding is_empty origin_of
returning_lem_example = returning_lem consumer delivery (refl, inr (inl refl))

-- An exchange's name and a binding key without a semicolon, with one between them.
pub cut : Bytes → Bytes × Bytes
cut [] = ([], [])
cut (c ∷ s) = let (before, after) = cut s in if c == b';' then ([], s) else (c ∷ before, after)

abbrev pub pairs : BindingCodec
pairs = record {
  marshal = λ exchange key. ok (exchange ++ b';' ∷ key);
  unmarshal = λ json. ok (cut json);
}

session : Session (memory_cache 100) pairs agreeable
session = record { client = consumer; cache = empty_cache 100; history = [] }

register_handler_lem_example :
    IsRegistered
      (memory_cache 100)
      pairs
      agreeable
      (handlers_map_key (codes "orders") (codes "Paid"))
      (record { exchange = codes "orders"; binding_key = codes "Paid"; handler = refusing })
      session
      (register_handler
        (memory_cache 100)
        pairs
        agreeable
        (codes "orders")
        (codes "Paid")
        refusing
        session)
register_handler_lem_example =
    register_handler_lem (memory_cache 100) pairs agreeable (codes "orders") (codes "Paid") refusing
      session

-- `Start` before the connection is there, and the tick that finds it.
abbrev offline : Session (memory_cache 100) pairs agreeable
offline = record session { client = record session.client { is_connected = false } }

abbrev one_tick : List (Tick (Session (memory_cache 100) pairs agreeable))
one_tick = ticked session ∷ []

unbind_unused_bindings_lem_example :
    let found = met (memory_cache 100) pairs agreeable all_open one_tick offline in
    let left =
      unbind_unused_bindings (memory_cache 100) pairs agreeable all_open one_tick offline in
    IsClean (memory_cache 100) pairs agreeable all_open found left
    × (connected all_open found.client ≡ false → left ≡ found)
unbind_unused_bindings_lem_example =
    unbind_unused_bindings_lem (memory_cache 100) pairs agreeable all_open one_tick offline

consume_turn_lem_example :
    let r =
      consume_turn counter no_error agreeable false
        (delivered delivery ∷ ended ∷ [])
        consumer
        0
        [] in
    (connected all_open consumer ≡ false → r ≡ (consumer, 0, []))
    × (connected all_open consumer ≡ true → closed r.0 ≡ false → r.0.is_connected ≡ false)
consume_turn_lem_example =
    consume_turn_lem counter no_error agreeable (delivered delivery ∷ ended ∷ []) consumer 0 []
