-- ===== src/Consumer/Loop.antt =====
-- rabbitmq/consumer.go: `consume`, `consumeMessages` and `runWorker`. What a select takes, and in
-- which order, is given.
pub mod Turns
use gorabbit.Prelude.{
  ℕ, Bool, true, false, ◌||◌, Option, none, some, List, [], ◌∷◌, not, if◌then◌else◌,
}
use gorabbit.Errors.{Error, Result, ok, err, consume_failed, consume_closed}
use gorabbit.Client.{Client}
use gorabbit.Amqp.{Broker, History, Delivery, call, consume}
use gorabbit.Wire.{Wire}
use gorabbit.Connection.{closed, connected, set_connected}
use gorabbit.Connection.Channels.{with_consumer_channel}
use gorabbit.Consumer.Defs.{Settlement, Outcome, process_message}

-- What a worker's select takes: the end of the context or of the client, the end of the deliveries,
-- or a delivery.
pub data Take : Type 0 where
  stopped ended : Take
  delivered : Delivery → Take

module _ (W : Wire) (settle : Settlement → Option Error) where
  abbrev pub Worked : Type 0
  Worked = Client × W.State × List (Outcome W settle)

  -- `runWorker`: the outcomes of the deliveries that it takes, in order.
  unfoldable pub run_worker : List Take → Client → W.State → Worked
  unfolding process_message
  run_worker [] c s = (c, s, [])
  run_worker (stopped ∷ takes) c s = (c, s, [])
  run_worker (ended ∷ takes) c s = (c, s, [])
  run_worker (delivered d ∷ takes) c s =
      let o = process_message W settle d c s in
      let (c', s', os) = run_worker takes o.client o.wire in (c', s', o ∷ os)

  -- `consumeMessages` with one worker; `ctx_over` is the state of the context when it has ended.
  unfoldable pub after_workers : Bool → History → Worked → Client × W.State × History × Option Error
  unfolding closed
  after_workers ctx_over h (c, s, os) =
      (c, s, h, if ctx_over || closed c then none else some consume_closed)

  unfoldable pub after_consume :
      Bool
      → List Take
      → Client
      → W.State
      → History × Result (Unit {0})
      → Client × W.State × History × Option Error
  unfolding run_worker after_workers
  after_consume ctx_over takes c s (h, err e) = (c, s, h, some (consume_failed e))
  after_consume ctx_over takes c s (h, ok _) = after_workers ctx_over h (run_worker takes c s)

  unfoldable pub consume_messages :
      Broker
      → Bool
      → List Take
      → Client
      → W.State
      → History
      → Client × W.State × History × Option Error
  unfolding with_consumer_channel after_consume
  consume_messages broker ctx_over takes c s h = after_consume ctx_over takes c s (
      with_consumer_channel (W.is_closed s) (call (consume c.setup.queue_name c.setup.app_name)) c
        broker h)

  unfoldable pub after_messages :
      Client × W.State × History × Option Error → Client × W.State × History
  unfolding set_connected
  after_messages (c, s, h, some e) = (set_connected false c, s, h)
  after_messages (c, s, h, none) = (c, s, h)

  -- One turn of the loop of `consume`, whose first select fell through to its default. Without a
  -- connection it waits, and changes nothing.
  unfoldable pub consume_turn :
      Broker → Bool → List Take → Client → W.State → History → Client × W.State × History
  unfolding after_messages
  consume_turn broker ctx_over takes c s h =
      if not (connected (W.is_closed s) c)
      then (c, s, h)
      else after_messages (consume_messages broker ctx_over takes c s h)
