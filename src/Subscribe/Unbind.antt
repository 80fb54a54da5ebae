-- ===== src/Subscribe/Unbind.antt =====
-- `unbindUnusedBindings`: its wait for a connection, and the loop over the bindings that runs of the
-- program have recorded.
use gorabbit.Prelude.{
  Bytes, Bool, Option, none, some, List, [], ◌∷◌, if◌then◌else◌, is_empty, lookup, ℕ,
}
use gorabbit.Errors.{Result, ok, err}
use gorabbit.Scope.{cache_scope, handlers_map_key, handler_info_pattern}
use gorabbit.Amqp.{Broker, History, call, queue_unbind}
use gorabbit.Cache.Interface.{Cache}
use gorabbit.Connection.{connected}
use gorabbit.Connection.Channels.{with_consumer_channel}
use gorabbit.Subscribe.Defs.{BindingCodec, Session}

-- What the select of the wait takes: the end of the context or of the client, or the ticker, with
-- the client, the cache and the broker as the other goroutines have left them by then.
pub data Tick {ℓ} (A : Type ℓ) : Type ℓ where
  stopped : Tick A
  ticked : A → Tick A

module _ (K : Cache) (J : BindingCodec) (broker : Broker) (is_closed : ℕ → Bool) where
  abbrev pub decoded : Bytes → Option (Bytes × Bytes)
  decoded json =
      if is_empty json then none else elim (J.unmarshal json) [ err e ↦ none | ok b ↦ some b ]

  -- What `Get` answered, as an exchange and a binding key; `none` is a `continue`.
  abbrev pub read_binding : Result (Option Bytes) → Option (Bytes × Bytes)
  read_binding (err e) = none
  read_binding (ok none) = none
  read_binding (ok (some json)) = decoded json

  -- The unbind was answered: a refusal leaves the record, else it is deleted.
  abbrev pub after_unbind :
      Bytes → Session K J broker → History × Result (Unit {0}) → Session K J broker
  after_unbind key w (h, err e) = record w { history = h }
  after_unbind key w (h, ok _) = record w { history = h; cache = (K.delete (key ∷ []) w.cache).0 }

  unfoldable pub unbind_binding :
      Bytes → Session K J broker → Option (Bytes × Bytes) → Session K J broker
  unfolding handlers_map_key with_consumer_channel
  unbind_binding key w none = w
  unbind_binding key w (some (exchange, binding_key)) =
      elim (lookup (handlers_map_key exchange binding_key) w.client.handlers) [
        | some registered ↦ w
        | none ↦ after_unbind key w (
            with_consumer_channel is_closed
              (call (queue_unbind w.client.setup.queue_name binding_key exchange)) w.client broker
              w.history)
      ]

  -- The body of the loop for one key.
  unfoldable pub unbind_key : Bytes → Session K J broker → Session K J broker
  unfolding unbind_binding
  unbind_key key w = unbind_binding key w (read_binding (K.get key w.cache))

  unfoldable pub unbind_keys : List Bytes → Session K J broker → Session K J broker
  unfolding unbind_key
  unbind_keys [] w = w
  unbind_keys (key ∷ keys) w = unbind_keys keys (unbind_key key w)

  unfoldable pub after_list :
      Session K J broker → K.Store × Result (List Bytes) → Session K J broker
  unfolding unbind_keys
  after_list w (k, err e) = record w { cache = k }
  after_list w (k, ok keys) = unbind_keys keys (record w { cache = k })

  -- The part behind the wait.
  unfoldable pub unbind_recorded : Session K J broker → Session K J broker
  unfolding after_list cache_scope handler_info_pattern
  unbind_recorded w =
      after_list w (K.get_all_keys (handler_info_pattern (cache_scope w.client.setup)) w.cache)

  unfoldable pub unbind_unused_bindings :
      List (Tick (Session K J broker)) → Session K J broker → Session K J broker
  unfolding connected unbind_recorded
  unbind_unused_bindings [] w = if connected is_closed w.client then unbind_recorded w else w
  unbind_unused_bindings (stopped ∷ ticks) w =
      if connected is_closed w.client then unbind_recorded w else w
  unbind_unused_bindings (ticked w' ∷ ticks) w =
      let rest = unbind_unused_bindings ticks w' in
      if connected is_closed w.client then unbind_recorded w else rest

  -- The state in which the wait ends.
  unfoldable pub met : List (Tick (Session K J broker)) → Session K J broker → Session K J broker
  unfolding connected
  met [] w = w
  met (stopped ∷ ticks) w = w
  met (ticked w' ∷ ticks) w =
      let rest = met ticks w' in if connected is_closed w.client then w else rest
