-- ===== src/Publish/Defs.antt =====
-- `reconnect`, and what `Publish` does with a message once it is made: try, and cache what could
-- not be delivered. The flush that `scheduleDelayedFlush` starts later is no part of a step here.
use gorabbit.Prelude.{Bool, true, false, Option, none, some, not, ◌||◌, if◌then◌else◌}
use gorabbit.Errors.{Error, Result, ok, err, is_unroutable, is_client_closed, is_topology_rejected}
use gorabbit.Client.{Client}
use gorabbit.Amqp.{Broker, History}
use gorabbit.Cache.Interface.{Cache}
use gorabbit.Wire.{Wire}
use gorabbit.Connection.{connected}
use gorabbit.Connection.Dial.{connect}
use gorabbit.Publisher.{PublishMessage, publish}
use gorabbit.Flush.{Codec, World, cache_message, signal_pending, flush_cached_messages}

module _ (K : Cache) (W : Wire) (J : Codec) (broker : Broker) where
  -- The client with its cache, and the calls that it has made.
  pub record Link : Type 0 where
    pub world : World K W J
    pub history : History

  abbrev pub with_world : Link → World K W J × Option Error → Link × Option Error
  with_world l (w, e) = (record l { world = w }, e)

  unfoldable pub after_connect : Link → Client × History × Result Bool → Link × Option Error
  unfolding flush_cached_messages
  after_connect l (c, h, err e) =
      (record l { world = record l.world { client = c }; history = h }, some e)
  after_connect l (c, h, ok false) =
      (record l { world = record l.world { client = c }; history = h }, none)
  after_connect l (c, h, ok true) = (
    record l {
      world = (flush_cached_messages K W J (record l.world { client = c })).0;
      history = h;
    },
    none,
  )

  -- `reconnect`
  unfoldable pub reconnect : Link → Link × Option Error
  unfolding after_connect
  reconnect l = after_connect l (connect (W.is_closed l.world.wire) broker l.world.client l.history)

  abbrev pub signalled : World K W J × Option Error → World K W J × Option Error
  signalled (w, some e) = (w, some e)
  signalled (w, none) = (record w { client = signal_pending w.client }, none)

  unfoldable pub after_attempt :
      PublishMessage → World K W J → Client × W.State × Option Error → World K W J × Option Error
  unfolding cache_message signal_pending
  after_attempt pm w (c, s, none) = (record w { client = c; wire = s }, none)
  after_attempt pm w (c, s, some e) =
      let failed = cache_message K W J pm (record w { client = c; wire = s }) in
      if is_unroutable e then signalled failed else failed

  unfoldable pub attempt : PublishMessage → World K W J → World K W J × Option Error
  unfolding publish after_attempt
  attempt pm w = after_attempt pm w (publish W pm w.client w.wire)

  unfoldable pub after_reconnect : PublishMessage → Link × Option Error → Link × Option Error
  unfolding attempt cache_message
  after_reconnect pm (l, none) = with_world l (attempt pm l.world)
  after_reconnect pm (l, some e) =
      if is_client_closed e || is_topology_rejected e
      then (l, some e)
      else with_world l (cache_message K W J pm l.world)

  -- `Publish`, of the message that `getPublishMessage` made.
  unfoldable pub publish_prepared : PublishMessage → Link → Link × Option Error
  unfolding after_reconnect attempt connected reconnect
  publish_prepared pm l =
      if not (connected (W.is_closed l.world.wire) l.world.client)
      then after_reconnect pm (reconnect l)
      else with_world l (attempt pm l.world)

  -- `Publish`
  unfoldable pub publish_message : Result PublishMessage → Link → Link × Option Error
  unfolding publish_prepared
  publish_message (err e) l = (l, some e)
  publish_message (ok pm) l = publish_prepared pm l
