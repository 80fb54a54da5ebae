-- ===== src/Monitor/Defs.antt =====
-- The loop of `monitorConnection`, and the one wait of `scheduleDelayedFlush`.
use gorabbit.Prelude.{List, [], ◌∷◌, if◌then◌else◌}
use gorabbit.Amqp.{Broker}
use gorabbit.Cache.Interface.{Cache}
use gorabbit.Wire.{Wire}
use gorabbit.Connection.{connected}
use gorabbit.Flush.{Codec, World, flush_cached_messages}
use gorabbit.Publish.{Link, reconnect}

-- What a select takes: the end of the context or of the client, or the clock.
pub data Wake : Type 0 where
  stopped elapsed : Wake

module _ (K : Cache) (W : Wire) (J : Codec) (broker : Broker) where
  -- A tick: the error of `reconnect` is logged, but for a dial in flight, and dropped.
  unfoldable pub monitor_turn : Link K W J broker → Link K W J broker
  unfolding connected reconnect
  monitor_turn l =
      if connected (W.is_closed l.world.wire) l.world.client
      then l
      else (reconnect K W J broker l).0

  -- `monitorConnection`, over the first wakes of its life.
  unfoldable pub monitor_connection : List Wake → Link K W J broker → Link K W J broker
  unfolding monitor_turn
  monitor_connection [] l = l
  monitor_connection (stopped ∷ wakes) l = l
  monitor_connection (elapsed ∷ wakes) l = monitor_connection wakes (monitor_turn l)

  -- The goroutine of `scheduleDelayedFlush`.
  unfoldable pub delayed_flush : Wake → World K W J → World K W J
  unfolding flush_cached_messages
  delayed_flush stopped w = w
  delayed_flush elapsed w = (flush_cached_messages K W J w).0
