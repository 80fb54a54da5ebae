-- ===== src/Boot/Defs.antt =====
-- `Setup.Connect`, with the registry of the process's claims. The loops that it starts are no part
-- of it here.
use gorabbit.Prelude.{ℕ, Bool, Option, none, some, if◌then◌else◌}
use gorabbit.Errors.{Error, Result, ok, err, cache_required, is_topology_rejected}
use gorabbit.Setup.{Setup, validate}
use gorabbit.Claim.{Registry, claim_cache_key, release_cache_key}
use gorabbit.Client.{Client, new_client}
use gorabbit.Amqp.{Broker, History}
use gorabbit.Cache.Interface.{Cache}
use gorabbit.Wire.{Wire}
use gorabbit.Connection.{closed}
use gorabbit.Connection.Channels.{close}
use gorabbit.Flush.{Codec}
use gorabbit.Publish.{Link, reconnect}

-- `Close`, with the release of the key at its end.
unfoldable pub close_client : (ℕ → Bool) → Registry → Client → Registry × Client
unfolding closed close release_cache_key
close_client is_closed keys c =
    if closed c then (keys, c) else release_cache_key keys (close is_closed c).0

module _ (K : Cache) (W : Wire) (J : Codec) (broker : Broker) where
  -- `reconnect` has answered: only a topology that the broker rejects ends the start.
  unfoldable pub after_boot :
      Registry → Link K W J broker × Option Error → Registry × Result (Link K W J broker)
  unfolding close_client
  after_boot keys (l, none) = (keys, ok l)
  after_boot keys (l, some e) =
      if is_topology_rejected e
      then ((close_client (W.is_closed l.world.wire) keys l.world.client).0, err e)
      else (keys, ok l)

  unfoldable pub after_claim :
      K.Store
      → W.State
      → History
      → Registry × Client × Option Error
      → Registry × Result (Link K W J broker)
  unfolding after_boot reconnect
  after_claim store wire h (keys, c, some e) = (keys, err e)
  after_claim store wire h (keys, c, none) = after_boot keys (
      reconnect K W J broker
        (record { world = record { client = c; cache = store; wire = wire }; history = h }))

  -- `Connect`; a nil cache is `none`.
  unfoldable pub connect_setup :
      Setup → Option K.Store → W.State → History → Registry → Registry × Result (Link K W J broker)
  unfolding validate claim_cache_key new_client after_claim
  connect_setup s cache wire h keys = elim (validate s) [
    | err e ↦ (keys, err e)
    | ok u ↦ elim cache [
      | none ↦ (keys, err cache_required)
      | some store ↦ after_claim store wire h (claim_cache_key J.quoted keys (new_client s))
    ]
  ]
