-- ===== src/Samples/Recovering.antt =====
-- A message published in an outage, and the tick that delivers it.
use gorabbit.Prelude.{
  Bytes, false, none, some, [], ◌∷◌, codes, ◌≡◌, refl, map, inl, ◌∙◌, lookup, insert, is_empty,
  arith,
}
use gorabbit.Errors.{ok, transport}
use gorabbit.Scope.{cache_key, lease_key, cached_message_pattern, cache_scope}
use gorabbit.Client.{Client}
use gorabbit.Amqp.{Broker}
use gorabbit.Connection.{connected, live}
use gorabbit.Cache.Memory.{set, get, get_all_keys, matching_keys, evict_expired}
use gorabbit.Cache.Glob.{glob_match}
use gorabbit.Publisher.{to_cache_message}
use gorabbit.Flush.{decoded}
use gorabbit.Flush.Memory.{memory_cache, memory_laws, memory_working, memory_view, empty_cache, Map}
use gorabbit.Publish.{Link, publish_prepared}
use gorabbit.Monitor.{monitor_turn}
use gorabbit.Monitor.Outage.{IsHandedOver, outage_lem, caching, resumed}
use gorabbit.Samples.Publishing.{sample_codec, made}
use gorabbit.Samples.Running.{counter-IsConfirming}
use gorabbit.Samples.Data.{billing, fresh, joined, agreeable, counter}

abbrev refusing : Broker
refusing h c = some (transport 1)

abbrev scope : Bytes
scope = codes "publisher:billing:orders"

abbrev lost : Client
lost = record joined { is_connected = false }

abbrev cut_off : Link (memory_cache 100) counter sample_codec refusing
cut_off = record {
  world = record { client = lost; cache = empty_cache 100; wire = 0 };
  history = [];
}

abbrev store : Map
store =
    caching (memory_cache 100) (memory_laws 100) (memory_working 100) counter sample_codec refusing
      agreeable lost (codes "01") (codes "01") (empty_cache 100)

abbrev kept : Map
kept = ((memory_cache 100).get_all_keys (cached_message_pattern (cache_scope lost.setup)) store).0

stored :
    (memory_cache 100).get_all_keys (cached_message_pattern (cache_scope lost.setup)) store
    ≡ (kept, ok (map (cache_key (cache_scope lost.setup)) (codes "01" ∷ [])))
unfolding joined fresh get_all_keys matching_keys glob_match evict_expired insert
    cached_message_pattern cache_key billing empty_cache set cache_scope
stored = refl

encoded : sample_codec.marshal (to_cache_message made) ≡ ok (codes "01")
unfolding to_cache_message
encoded = refl

decodes :
    decoded (memory_cache 100) counter sample_codec (codes "01") ≡ some (to_cache_message made)
unfolding to_cache_message is_empty
decodes = refl

nothing_free : get 100 (lease_key (cache_scope lost.setup) (codes "01")) (empty_cache 100).0 ≡ none
unfolding get empty_cache lookup
nothing_free = refl

outage_lem_example :
    let K = memory_cache 100 in
    let (l', e) = publish_prepared K counter sample_codec refusing made cut_off in
    (e ≡ none)
    × IsHandedOver K
        (memory_laws 100)
        (memory_working 100)
        counter
        sample_codec
        refusing
        agreeable
        lost.setup
        made
        cut_off.world.wire
        (monitor_turn K counter sample_codec agreeable (
          resumed K
            (memory_laws 100)
            (memory_working 100)
            counter
            sample_codec
            refusing
            agreeable
            l')).world
unfolding agreeable joined fresh connected live
outage_lem_example =
    outage_lem (memory_cache 100) (memory_laws 100) (memory_working 100) counter sample_codec
      refusing agreeable cut_off made (codes "01") kept (codes "01" ∷ [])
      (λ h c. (transport 1, refl)) (λ h c. refl) counter-IsConfirming refl refl refl refl
      (λ n h. refl) encoded decodes (memory_view 100 (empty_cache 100) _ ∙ nothing_free) stored
      (ground arith) (inl refl)
