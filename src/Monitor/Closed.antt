-- ===== src/Monitor/Closed.antt =====
-- rabbitmq/rabbitmq.go, `Close`, against everything that could still run afterwards.
use gorabbit.Prelude.{ℕ, Bool, true, false, some, List, [], ◌∷◌, ◌≡◌, refl, arith, ◌∙◌, ap}
use gorabbit.Errors.{client_closed}
use gorabbit.Client.{Client}
use gorabbit.Amqp.{Broker}
use gorabbit.Connection.{connected, live, closed, try_dial}
use gorabbit.Connection.Dial.{connect}
use gorabbit.Connection.Channels.{close}
use gorabbit.Cache.Interface.{Cache}
use gorabbit.Wire.{Wire}
use gorabbit.Flush.{Codec, World, flush_cached_messages}
use gorabbit.Publisher.{PublishMessage}
use gorabbit.Publish.{Link, reconnect, after_connect, publish_prepared, after_reconnect}
use gorabbit.Monitor.Defs.{Wake, stopped, elapsed, monitor_turn, monitor_connection, delayed_flush}

module _ (K : Cache) (W : Wire) (J : Codec) (broker : Broker) where
  abbrev IsShut : Client → Type 0
  IsShut c = (c.done ≡ true) × (c.is_connected ≡ false)

  close-IsShut : (f : ℕ → Bool) (c : Client) → c.done ≡ false → IsShut (close f c).0
  unfolding close closed
  close-IsShut f c d = ground arith

  not_connected : (f : ℕ → Bool) (c : Client) → IsShut c → connected f c ≡ false
  unfolding connected live
  not_connected f c (d, u) = rw u refl

  not_live : (f : ℕ → Bool) (c : Client) → IsShut c → live f c ≡ false
  unfolding live
  not_live f c (d, u) = rw u refl

  refused :
      (l : Link K W J broker)
      → IsShut l.world.client
      → reconnect K W J broker l ≡ (l, some client_closed)
  unfolding reconnect after_connect connect try_dial closed
  refused l (d, u) = rw d refl

  unmoved : (l : Link K W J broker) → IsShut l.world.client → monitor_turn K W J broker l ≡ l
  unfolding monitor_turn
  unmoved l s = rw (not_connected (W.is_closed l.world.wire) l.world.client s, refused l s) refl

  monitor_connection-shut :
      (wakes : List Wake) (l : Link K W J broker)
      → IsShut l.world.client
      → monitor_connection K W J broker wakes l ≡ l
  unfolding monitor_connection
  monitor_connection-shut [] l s = refl
  monitor_connection-shut (stopped ∷ wakes) l s = refl
  monitor_connection-shut (elapsed ∷ wakes) l s =
      ap (monitor_connection K W J broker wakes) (unmoved l s) ∙ monitor_connection-shut wakes l s

  flush-shut : (w : World K W J) → IsShut w.client → flush_cached_messages K W J w ≡ (w, 0)
  unfolding flush_cached_messages
  flush-shut w s = rw (not_live (W.is_closed w.wire) w.client s, flush_cached_messages) refl

  delayed_flush-shut :
      (wake : Wake) (w : World K W J) → IsShut w.client → delayed_flush K W J broker wake w ≡ w
  unfolding delayed_flush
  delayed_flush-shut stopped w s = refl
  delayed_flush-shut elapsed w s = ap (λ r. r.0) (flush-shut w s)

  -- After the `Close` of a client that was not closed before, nothing brings it back and nothing
  -- goes out: a `Publish` answers that the client is closed, and neither sends nor caches the
  -- message; the monitor, however often its clock ticks, and a delayed flush change nothing.
  pub close_lem :
      (l : Link K W J broker)
      → l.world.client.done ≡ false
      → let c = (close (W.is_closed l.world.wire) l.world.client).0 in
        let shut : Link K W J broker = record l { world = record l.world { client = c } } in
        ((pm : PublishMessage) → publish_prepared K W J broker pm shut ≡ (shut, some client_closed))
        × ((wakes : List Wake) → monitor_connection K W J broker wakes shut ≡ shut)
        × ((wake : Wake) → delayed_flush K W J broker wake shut.world ≡ shut.world)
  unfolding publish_prepared after_reconnect
  close_lem l d =
      let c = (close (W.is_closed l.world.wire) l.world.client).0 in
      let shut : Link K W J broker = record l { world = record l.world { client = c } } in
      let s = close-IsShut (W.is_closed l.world.wire) l.world.client d in
      (
        λ pm. rw (not_connected (W.is_closed l.world.wire) c s, refused shut s) refl,
        λ wakes. monitor_connection-shut wakes shut s,
        λ wake. delayed_flush-shut wake shut.world s,
      )
