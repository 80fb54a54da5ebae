-- ===== src/Publish/Kept.antt =====
-- A caller who is told nil may drop the message.
use gorabbit.Prelude.{true, Option, none, some, ◌≡◌, ◌⊎◌, ◌||◌}
use gorabbit.Errors.{Error, is_client_closed, is_topology_rejected}
use gorabbit.Client.{Client}
use gorabbit.Amqp.{Broker}
use gorabbit.Cache.Interface.{Cache}
use gorabbit.Wire.{Wire}
use gorabbit.Publisher.{PublishMessage, publish}
use gorabbit.Flush.{Codec, World, cache_message}
use gorabbit.Publish.Defs.{Link}

module _ (K : Cache) (W : Wire) (J : Codec) (broker : Broker) (pm : PublishMessage) where
  -- The message was published, with a nil error, and this is the world after it.
  pub record IsSent (w : World K W J) : Type 0 where
    pub before : World K W J
    pub sent : (publish W pm before.client before.wire).2 ≡ none
    pub wire : w.wire ≡ (publish W pm before.client before.wire).1

  -- The cache took the message, with a nil error, and this is the cache after it.
  pub record IsCached (w : World K W J) : Type 0 where
    pub before : World K W J
    pub taken : (cache_message K W J pm before).1 ≡ none
    pub cache : w.cache ≡ (cache_message K W J pm before).0.cache

  -- The cache refused the message with this error.
  pub record IsRefused (e : Error) : Type 0 where
    pub before : World K W J
    pub refused : (cache_message K W J pm before).1 ≡ some e

  -- What the answer says about the message.
  pub record IsAnswered (r : World K W J × Option Error) : Type 0 where
    pub kept : r.1 ≡ none → IsSent r.0 ⊎ IsCached r.0
    pub failed :
        (e : Error)
        → r.1 ≡ some e
        → IsRefused e ⊎ (is_client_closed e || is_topology_rejected e) ≡ true

  -- The answer of a link is the answer of its world.
  abbrev pub of_world : Link K W J broker × Option Error → World K W J × Option Error
  of_world (l, e) = (l.world, e)
