-- ===== src/Samples/Crossing.antt =====
-- A routed message on its way from one program to a handler of another, the context that it carries,
-- and the workers that take it.
use gorabbit.Prelude.{
  Bytes, true, Option, none, some, [], ◌∷◌, codes, ◌≡◌, ◌≢◌, ◌⊎◌, refl, arith, lookup, insert,
  is_empty, ◌∙◌, IsUnique,
}
use gorabbit.Errors.{Error, ok}
use gorabbit.Setup.Validity.{Built, start}
use gorabbit.Message.{Message, Marker, exchange_of, is_routed}
use gorabbit.Scope.{handlers_map_key}
use gorabbit.Client.{new_client}
use gorabbit.Amqp.{Table, text_value, HeaderValue, Delivery}
use gorabbit.Connection.Channels.{bind_handler}
use gorabbit.Publisher.{
  PublishMessage, get_publish_message, publish, publish_confirmed, publishing_of,
}
use gorabbit.Consumer.{handler_for, table_of}
use gorabbit.Subscribe.{Session, subscribe, binding_of}
use gorabbit.Flush.Memory.{memory_cache, empty_cache}
use gorabbit.EndToEnd.{OwnedBy, end_to_end_lem}
use gorabbit.Carrier.{HeaderCarrier}
use gorabbit.Samples.Publishing.{in_braces}
use gorabbit.Samples.Consuming.{pairs, delivery}
use gorabbit.Samples.Data.{billing, mailer, joined, fresh, agreeable, counter}

abbrev paid_event : Message
paid_event = record {
  type_name = codes "Paid";
  exchange = codes "orders";
  marker = Marker.routed_msg;
  route_by = some (codes "eu");
}

paid-owned : exchange_of paid_event ≡ codes "orders"
unfolding exchange_of
paid-owned = refl

abbrev paid : OwnedBy (codes "orders")
paid = record { message = paid_event; owned = paid-owned }

abbrev ambient : Table
ambient = (codes "tenant", text_value (codes "acme")) ∷ []

abbrev paid_message : PublishMessage
paid_message = record {
  msg_id = codes "02";
  msg_type_name = codes "Paid";
  routing_key = codes "Paid.eu";
  msg_body = codes "{}";
  msg_headers = some ambient;
}

abbrev paid_delivery : Delivery
paid_delivery = record delivery {
  routing_key = codes "Paid.eu";
  message_type = codes "Paid";
  message_id = codes "02";
  headers = some ambient;
}

abbrev accepting : Delivery → Option Error
accepting d = none

-- A consumer that has no handler yet.
idle_session : Session (memory_cache 100) pairs agreeable
unfolding new_client
idle_session = record { client = new_client mailer; cache = empty_cache 100; history = [] }

billing-Built : Built (codes "orders") (codes "amqp://broker") (codes "billing") joined.setup
unfolding joined fresh new_client billing
billing-Built = start

ambient-IsUnique : IsUnique ambient
unfolding lookup
ambient-IsUnique = (refl, tt)

paid_made : get_publish_message in_braces ambient (codes "02") (some paid_event) ≡ ok paid_message
unfolding get_publish_message insert is_empty
paid_made = refl

subscribed :
    (subscribe
      (memory_cache 100)
      pairs
      agreeable
      (some (record paid_event { route_by = none }))
      (some accepting)
      idle_session).1
    ≡ none
unfolding subscribe idle_session mailer new_client lookup is_empty
subscribed = refl

abbrev paid_session : Session (memory_cache 100) pairs agreeable
paid_session =
    (subscribe (memory_cache 100) pairs agreeable (some (record paid_event { route_by = none }))
      (some accepting) idle_session).0

names_differ : codes "orders" ≢ codes "mail"
names_differ e = ground arith

the_queue : paid_session.client.setup.queue_name ≡ codes "mail"
unfolding subscribe idle_session mailer new_client lookup is_empty bind_handler
the_queue = refl

away : codes "orders" ≢ paid_session.client.setup.queue_name
away e = names_differ (e ∙ the_queue)

same_exchange : codes "orders" ≡ joined.setup.exchange_name
unfolding joined fresh new_client billing
same_exchange = refl

end_to_end_lem_example :
    let sub : Message = record paid_event { route_by = none } in
    let r = subscribe (memory_cache 100) pairs agreeable (some sub) (some accepting) idle_session in
    let exact = lookup (handlers_map_key (codes "orders") (codes "Paid.eu")) r.0.client.handlers in
    (publish counter paid_message joined 0
      ≡ publish_confirmed counter
          (exchange_of paid_event)
          (codes "Paid.eu")
          (publishing_of counter paid_message)
          joined
          0)
    × ((handler_for r.0.client paid_delivery
          ≡ some (record {
            exchange = codes "orders";
            binding_key = binding_of (memory_cache 100) pairs agreeable (some sub) (codes "Paid");
            handler = accepting;
          }))
        ⊎ ((is_routed paid_event ≡ true)
            × (exact ≢ none)
            × (handler_for r.0.client paid_delivery ≡ exact)))
end_to_end_lem_example =
    end_to_end_lem counter (memory_cache 100) pairs agreeable in_braces ambient (codes "02") paid
      paid_message joined 0 none accepting idle_session paid_delivery billing-Built ambient-IsUnique
      paid_made (ground arith) subscribed same_exchange refl away

-- The values that a context has for the application, with a tenant in it.
record Scope : Type 0 where
  tenant : Option HeaderValue

abbrev tenant_key : Bytes
tenant_key = codes "tenant"

abbrev tenant_table : Option HeaderValue → Table
tenant_table none = []
tenant_table (some v) = (tenant_key, v) ∷ []

-- The carrier of an application that hands the tenant on.
abbrev tenant_carrier : HeaderCarrier Scope
tenant_carrier = record {
  from_context = λ ctx. some (tenant_table ctx.tenant);
  to_context = λ ctx h. record { tenant = lookup tenant_key (table_of h) };
}

abbrev acme : Scope
acme = record { tenant = some (text_value (codes "acme")) }

abbrev nobody : Scope
nobody = record { tenant = none }
