-- ===== src/Flush/Order.antt =====
-- rabbitmq/common.go, `cachedMessageKeys`: the order in which a flush goes through the cache.
use gorabbit.Prelude.{Bytes, true, false, List, [], ◌∷◌, map, ◌≡◌, refl, ap, ◌∙◌}
use mathlib.Core.List.{Perm}
use gorabbit.Prelude.Sort.{sort, bytes_le}
use gorabbit.Prelude.Sort.Order.{
  IsAscending, sort-IsAscending, sort-Perm, sort-map, bytes_le-append,
}
use gorabbit.Errors.{ok}
use gorabbit.Scope.{cache_scope, cache_key, cached_message_prefix, cached_message_pattern}
use gorabbit.Cache.Interface.{Cache}
use gorabbit.Wire.{Wire}
use gorabbit.Connection.{live}
use gorabbit.Flush.Defs.{
  Codec, World, flush_keys, flush_cached_messages, after_keys, end_flush, set_flushing, put_cache,
}

-- Keys of one scope are in the order of their ids.
cache_key-le : (scope s t : Bytes) → bytes_le (cache_key scope s) (cache_key scope t) ≡ bytes_le s t
unfolding cache_key
cache_key-le scope s t =
    bytes_le-append cached_message_prefix _ _
    ∙ bytes_le-append (b':' ∷ []) _ _
    ∙ bytes_le-append scope _ _
    ∙ bytes_le-append (b':' ∷ []) s t

module _ (K : Cache) (W : Wire) (J : Codec) where
  started :
      (w : World K W J)
      → live (W.is_closed w.wire) w.client ≡ true
      → w.client.flushing ≡ false
      → flush_cached_messages K W J w
        ≡ after_keys K W J
            (set_flushing K W J true w)
            (K.get_all_keys (cached_message_pattern (cache_scope w.client.setup)) w.cache)
  unfolding flush_cached_messages
  started w l f = rw (l, f, flush_cached_messages) refl

  pub flush-IsAscending :
      (w : World K W J) (k : K.Store) (ids : List Bytes)
      → live (W.is_closed w.wire) w.client ≡ true
      → w.client.flushing ≡ false
      → K.get_all_keys (cached_message_pattern (cache_scope w.client.setup)) w.cache
        ≡ (k, ok (map (cache_key (cache_scope w.client.setup)) ids))
      → (flush_cached_messages K W J w
          ≡ end_flush K W J (
              flush_keys K W J
                (map (cache_key (cache_scope w.client.setup)) (sort ids))
                0
                (put_cache K W J (set_flushing K W J true w) k)))
        × IsAscending (sort ids)
        × Perm (sort ids) ids
  unfolding after_keys
  flush-IsAscending w k ids l f e = (
    started w l f
        ∙ ap (after_keys K W J (set_flushing K W J true w)) e
        ∙ ap
            (λ keys.
              end_flush K W J
                (flush_keys K W J keys 0 (put_cache K W J (set_flushing K W J true w) k)))
            (sort-map (cache_key (cache_scope w.client.setup))
              (cache_key-le (cache_scope w.client.setup)) ids),
    sort-IsAscending ids,
    sort-Perm ids,
  )
