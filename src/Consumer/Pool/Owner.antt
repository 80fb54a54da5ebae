-- ===== src/Consumer/Pool/Owner.antt =====
-- Processing a delivery leaves the client its setup and its handlers.
use gorabbit.Prelude.{Bytes, none, some, Option, refl, ap, ◌∙◌, inl, inr, Bool-cases, Option-cases}
use gorabbit.Prelude.Int.{ltb_ℤ}
use gorabbit.Errors.{Error}
use gorabbit.Client.{Client}
use gorabbit.Connection.{set_connected}
use gorabbit.Amqp.{Delivery}
use gorabbit.Wire.{Wire}
use gorabbit.Publisher.Confirm.{publish_confirmed_lem}
use gorabbit.Consumer.Defs.{
  Settlement, process_message, handler_for, should_retry, next_count, retry_copy, retry_headers,
  republish_message, republish_message_to_retry_exchange, after_republish, after_handler,
}
use gorabbit.Consumer.Pool.{SameOwner}

pub SameOwner-trans : (a b c : Client) → SameOwner a b → SameOwner b c → SameOwner a c
SameOwner-trans a b c p q = (q.0 ∙ p.0, q.1 ∙ p.1)

module _ (W : Wire) (settle : Settlement → Option Error) (d : Delivery) (c : Client)
    (v : W.State) where
  republish_message-SameOwner :
      (exchange key : Bytes) (e : Delivery)
      → SameOwner c (republish_message W settle exchange key e c v).0
  unfolding republish_message set_connected
  republish_message-SameOwner exchange key e =
      elim (publish_confirmed_lem W exchange key (retry_copy e) c v).1 [
        | inl q ↦ (ap (λ (x : Client). x.setup) q, ap (λ (x : Client). x.handlers) q)
        | inr (q, _, _) ↦ (ap (λ (x : Client). x.setup) q, ap (λ (x : Client). x.handlers) q)
      ]

  after_republish-SameOwner :
      (p : Client × W.State × Option Error)
      → SameOwner c p.0
      → SameOwner c (after_republish W settle p).client
  after_republish-SameOwner (c', v', none) q = q
  after_republish-SameOwner (c', v', some e) q = q

  to_retry-SameOwner : SameOwner c (republish_message_to_retry_exchange W settle d c v).client
  unfolding republish_message_to_retry_exchange
  to_retry-SameOwner = elim (Bool-cases (ltb_ℤ c.setup.retry_count (next_count d))) [
    | inl e ↦ rw e (refl, refl)
    | inr e ↦ rw e (
        after_republish-SameOwner
          (republish_message W settle c.setup.retry_name d.routing_key
            (record d { headers = some (retry_headers c.setup d) }) c v)
          (republish_message-SameOwner c.setup.retry_name d.routing_key
            (record d { headers = some (retry_headers c.setup d) })))
  ]

  after_handler-SameOwner : (o : Option Error) → SameOwner c (after_handler W settle d c v o).client
  after_handler-SameOwner none = (refl, refl)
  after_handler-SameOwner (some x) = elim (Bool-cases (should_retry c.setup x)) [
    | inl e ↦ rw e to_retry-SameOwner
    | inr e ↦ rw e (refl, refl)
  ]

  pub process_message-SameOwner : SameOwner c (process_message W settle d c v).client
  unfolding process_message
  process_message-SameOwner = elim (Option-cases (handler_for c d)) [
    | inl e ↦ rw (e, process_message) (refl, refl)
    | inr (info, e) ↦ rw (e, process_message) (after_handler-SameOwner (info.handler d))
  ]
