-- ===== src/EndToEnd.antt =====
-- From the publisher of one program to the handler of another: msg.go, `OwnedBy`, by which the
-- compiler lets a client publish the messages of its own exchange only; rabbitmq/publisher.go,
-- `Publish`; rabbitmq/consumer.go, `Subscribe` and `handlerFor`.
use gorabbit.Prelude.{
  Bytes, true, Option, none, some, ◌≡◌, ◌≢◌, ◌⊎◌, sym, ap, ◌∙◌, lookup, Lacks, IsUnique,
}
use gorabbit.Errors.{Error, Result, ok}
use gorabbit.Setup.Validity.{Built, Built-IsCoherent}
use gorabbit.Message.{Message, exchange_of, is_routed}
use gorabbit.Scope.{handlers_map_key}
use gorabbit.Client.{Client}
use gorabbit.Amqp.{Table, Delivery, Broker}
use gorabbit.Wire.{Wire}
use gorabbit.Cache.Interface.{Cache}
use gorabbit.Publisher.{
  PublishMessage, get_publish_message, publish, publish_confirmed, publishing_of,
}
use gorabbit.Publisher.Message.{get_publish_message_lem}
use gorabbit.Consumer.{handler_for}
use gorabbit.Subscribe.{BindingCodec, Session, subscribe, binding_of}
use gorabbit.Subscribe.Delivered.{subscribe_lem}

-- A message of the exchange with this name. `ownedBy(E)` is promoted by the same marker as
-- `exchangeName`, so the exchange of the type is E.
pub record OwnedBy (exchange : Bytes) : Type 0 where
  pub message : Message
  pub owned : exchange_of message ≡ exchange

-- A publisher built for an exchange, and a consumer to whose `Subscribe` of the type, whose name
-- has no dot, the answer was nil: a message that the publisher owns goes out on the exchange of the
-- message under the key that was made for it; and if the broker brings it to the consumer, on that
-- exchange, which is not the consumer's own, and under that key, it goes to the subscribed handler,
-- or, where the type is routed and a handler is registered for the very key, to that one.
pub end_to_end_lem :
    {exchange url app : Bytes} (W : Wire) (K : Cache) (J : BindingCodec) (broker : Broker)
    (marshal : Message → Result Bytes) (ambient : Table) (new_id : Bytes) (m : OwnedBy exchange)
    (pm : PublishMessage) (c : Client) (s : W.State) (route : Option Bytes)
    (f : Delivery → Option Error) (w : Session K J broker) (d : Delivery)
    → Built exchange url app c.setup
    → IsUnique ambient
    → get_publish_message marshal ambient new_id (some m.message) ≡ ok pm
    → Lacks b'.' m.message.type_name
    → (subscribe K J broker (some (record m.message { route_by = route })) (some f) w).1 ≡ none
    → d.exchange ≡ c.setup.exchange_name
    → d.routing_key ≡ pm.routing_key
    → d.exchange
      ≢ (subscribe K J broker
          (some (record m.message { route_by = route }))
          (some f)
          w).0.client.setup.queue_name
    → let sub : Message = record m.message { route_by = route } in
      let consumer = (subscribe K J broker (some sub) (some f) w).0.client in
      let exact = lookup (handlers_map_key m.message.exchange d.routing_key) consumer.handlers in
      (publish W pm c s
        ≡ publish_confirmed W (exchange_of m.message) pm.routing_key (publishing_of W pm) c s)
      × ((handler_for consumer d
            ≡ some (record {
              exchange = m.message.exchange;
              binding_key = binding_of K J broker (some sub) m.message.type_name;
              handler = f;
            }))
          ⊎ ((is_routed m.message ≡ true) × (exact ≢ none) × (handler_for consumer d ≡ exact)))
unfolding publish exchange_of is_routed
end_to_end_lem W K J broker marshal ambient new_id m pm c s route f w d b u e n h dx dk away =
    let sub : Message = record m.message { route_by = route } in
    let same : c.setup.exchange_name ≡ m.message.exchange =
      (Built-IsCoherent b).names.1 ∙ sym m.owned in
    let made = (get_publish_message_lem marshal ambient new_id m.message pm u).0 e in
    (
      ap (λ x. publish_confirmed W x pm.routing_key (publishing_of W pm) c s) same,
      subscribe_lem K J broker sub m.message.route_by f w d n h (record {
        exchange = dx ∙ same;
        away = λ q. away (dx ∙ same ∙ q);
        key = made.key ∙ ap ok (sym dk);
      }),
    )
