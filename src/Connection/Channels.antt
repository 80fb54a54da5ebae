-- ===== src/Connection/Channels.antt =====
-- rabbitmq/rabbitmq.go: who gets a channel of the client, `bindHandler`, and `Close`.
use gorabbit.Prelude.{
  ℕ, Bool, true, false, ◌||◌, none, some, List, [], ◌∷◌, ◌++◌, not, if◌then◌else◌, ◌≡◌, arith, ◌↔◌,
}
use gorabbit.Errors.{Result, ok, err, not_connected}
use gorabbit.Client.{Client, HandlerInfo}
use gorabbit.Amqp.{Amqp, Broker, History, Call, cancel, close_channel, close_connection}
use gorabbit.Topology.{bind_queue_to_exchange}
use gorabbit.Connection.Defs.{live, open_conn, is_set, closed}

module _ (is_closed : ℕ → Bool) where
  -- `publishChannel`: the publish channel and its tracker.
  unfoldable pub publish_channel : Client → Result (ℕ × ℕ)
  unfolding live
  publish_channel c = if not (live is_closed c) then err not_connected else elim c.pub_ch [
    | none ↦ err not_connected
    | some ch ↦ elim c.returns [ none ↦ err not_connected | some r ↦ ok (ch, r) ]
  ]

  -- `withConsumerChannel`; the function makes its calls on the channel that it is given.
  unfoldable pub with_consumer_channel {ℓ} : {A : Type ℓ} → Amqp A → Client → Amqp A
  unfolding live
  with_consumer_channel fn c b h =
      if not (live is_closed c) || not (is_set c.ch) then (h, err not_connected) else fn b h

  -- `cancelConsumer`: the calls that it makes. The answer is logged and dropped.
  unfoldable pub cancel_consumer : Client → List Call
  cancel_consumer c =
      if not c.setup.is_consumer
      then []
      else if not (is_set c.ch) || not (open_conn is_closed c.conn)
      then []
      else cancel c.setup.app_name ∷ []

  -- The calls of the last section of `Close`.
  unfoldable pub close_calls : Client → List Call
  close_calls c =
      (if is_set c.ch then close_channel ∷ [] else [])
      ++ ((if is_set c.pub_ch then close_channel ∷ [] else [])
          ++ (if is_set c.conn then close_connection ∷ [] else []))

  -- `Close` under `closeOnce`; `waitForConsumer` changes nothing here (Consumer/Shutdown). The key of
  -- the cache is released by `release_cache_key` (Claim).
  unfoldable pub close : Client → Client × List Call
  unfolding cancel_consumer close_calls closed
  close c =
      if closed c
      then (c, [])
      else (record c { done = true; is_connected = false }, cancel_consumer c ++ close_calls c)

-- `bindHandler`: the client after the bind, and what went over the wire.
abbrev pub after_bind : Client → History × Result (Unit {0}) → Client × History
after_bind c (h, ok _) = (c, h)
after_bind c (h, err e) = (record c { is_connected = false }, h)

unfoldable pub bind_handler : Broker → HandlerInfo → Client → History → Client × History
bind_handler b hi c h =
    if not c.is_connected || not (is_set c.ch)
    then (c, h)
    else after_bind c
        (bind_queue_to_exchange hi.exchange hi.binding_key c.setup.queue_name true b h)

-- A publish channel is handed out exactly by a live client that holds one and its tracker, and it
-- is the client's own; no channel is handed out after the `Close` of a client that was not closed
-- before.
pub publish_channel_lem :
    (is_closed : ℕ → Bool) (c : Client) (ch r : ℕ)
    → ((publish_channel is_closed c ≡ ok (ch, r))
        ↔ ((live is_closed c ≡ true) × (c.pub_ch ≡ some ch) × (c.returns ≡ some r)))
      × (c.done ≡ false → publish_channel is_closed (close is_closed c).0 ≡ err not_connected)
unfolding publish_channel close
publish_channel_lem is_closed c ch r = (ground arith, λ d. ground arith)
