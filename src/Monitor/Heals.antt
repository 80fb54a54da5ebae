-- ===== src/Monitor/Heals.antt =====
-- A client that lost its connection gets it back from the monitor.
use gorabbit.Prelude.{ℕ, ◌≤◌, Bool, true, false, some, ◌≡◌, refl, length}
use gorabbit.Errors.{Result, ok, err}
use gorabbit.Client.{Client}
use gorabbit.Amqp.{Broker, History}
use gorabbit.Amqp.Accepting.{IsAccepting}
use gorabbit.Connection.{connected, live}
use gorabbit.Connection.Dial.{connect}
use gorabbit.Connection.Accepted.{IsUp, connect-IsUp}
use gorabbit.Connection.Channels.{publish_channel}
use gorabbit.Publisher.Confirm.{HasChannel}
use gorabbit.Connection.Steady.{IsSteady, connect-IsSteady}
use gorabbit.Cache.Interface.{Cache}
use gorabbit.Wire.{Wire}
use gorabbit.Flush.{Codec, World, flush_cached_messages}
use gorabbit.Publish.{Link, reconnect, after_connect}
use gorabbit.Monitor.Defs.{monitor_turn}

module _ (K : Cache) (W : Wire) (J : Codec) (broker : Broker) where
  -- The flush of this world, on a client with a live connection, is what the world went through.
  pub record IsHealed (w w' : World K W J) : Type 0 where
    pub client : Client
    pub live : connected (W.is_closed w.wire) client ≡ true
    pub channel : HasChannel (publish_channel (W.is_closed w.wire) client)
    pub steady : IsSteady w.client client
    pub flushed : w' ≡ (flush_cached_messages K W J (record w { client = client })).0

  up-connected :
      (is_closed : ℕ → Bool) (c : Client) (n : ℕ)
      → c.conn ≡ some n
      → c.is_connected ≡ true
      → is_closed n ≡ false
      → connected is_closed c ≡ true
  unfolding connected live
  up-connected is_closed c n o u e = rw (o, u, e) refl

  up-channel :
      (is_closed : ℕ → Bool) (c : Client) (n ch k : ℕ)
      → c.conn ≡ some n
      → c.is_connected ≡ true
      → c.pub_ch ≡ some ch
      → c.returns ≡ some k
      → is_closed n ≡ false
      → HasChannel (publish_channel is_closed c)
  unfolding publish_channel live
  up-channel is_closed c n ch k o u p r e = rw (u, o, e, p, r) tt

  after_connect-IsHealed :
      (l : Link K W J broker) (n : ℕ) (r : Client × History × Result Bool)
      → IsUp n r
      → W.is_closed l.world.wire n ≡ false
      → IsSteady l.world.client r.0
      → IsHealed l.world (after_connect K W J broker l r).0.world
  unfolding after_connect
  after_connect-IsHealed l n (c, h, ok true) u e s = record {
    client = c;
    live = up-connected (W.is_closed l.world.wire) c n u.on u.up e;
    channel =
        up-channel (W.is_closed l.world.wire) c n u.publishes.0 u.tracks.0 u.on u.up u.publishes.1
          u.tracks.1 e;
    steady = s;
    flushed = refl;
  }
  after_connect-IsHealed l n (c, h, ok false) u e s = cc u.answer
  after_connect-IsHealed l n (c, h, err x) u e s = cc u.answer

  pub monitor_turn_lem :
      (l : Link K W J broker)
      → IsAccepting broker
      → l.world.client.done ≡ false
      → l.world.client.dialing ≡ false
      → ((n : ℕ) → length l.history ≤ n → W.is_closed l.world.wire n ≡ false)
      → (connected (W.is_closed l.world.wire) l.world.client ≡ false
          → IsHealed l.world (monitor_turn K W J broker l).world)
        × (connected (W.is_closed l.world.wire) l.world.client ≡ true
            → monitor_turn K W J broker l ≡ l)
  unfolding monitor_turn reconnect
  monitor_turn_lem l a d f o =
      let is_closed = W.is_closed l.world.wire in
      let c = l.world.client in
      (
        λ e.
            let (n, le, u) = connect-IsUp is_closed broker c l.history a d e f in
            rw e (
              after_connect-IsHealed l n (connect is_closed broker c l.history) u (o n le)
                (connect-IsSteady is_closed broker c l.history)),
        λ e. rw e refl,
      )
