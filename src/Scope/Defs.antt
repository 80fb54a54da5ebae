-- ===== src/Scope/Defs.antt =====
-- The keys and patterns, as the code formats them.
use gorabbit.Prelude.{Bytes, [], ◌∷◌, ◌++◌, ◌==◌, if◌then◌else◌, codes}
use gorabbit.Setup.{Setup}

abbrev pub cached_message_prefix : Bytes
cached_message_prefix = codes "gorabbit:cached_messages"

abbrev pub publish_lease_prefix : Bytes
publish_lease_prefix = codes "gorabbit:publish_lease"

abbrev pub handler_info_cache_prefix : Bytes
handler_info_cache_prefix = codes "gorabbit:handler-info"

-- `cacheScope`
unfoldable pub cache_scope : Setup → Bytes
cache_scope s =
    if s.is_consumer
    then codes "consumer:" ++ (s.app_name ++ b':' ∷ (s.exchange_name ++ b':' ∷ s.queue_name))
    else codes "publisher:" ++ (s.app_name ++ b':' ∷ s.exchange_name)

-- `cacheKey`
unfoldable pub cache_key : Bytes → Bytes → Bytes
cache_key scope msg_id = cached_message_prefix ++ b':' ∷ (scope ++ b':' ∷ msg_id)

-- `leaseKey`
unfoldable pub lease_key : Bytes → Bytes → Bytes
lease_key scope msg_id = publish_lease_prefix ++ b':' ∷ (scope ++ b':' ∷ msg_id)

-- `handlerInfoCacheKey`, of the exchange and the binding key of a handler.
unfoldable pub handler_info_cache_key : Bytes → Bytes → Bytes → Bytes
handler_info_cache_key scope exchange binding_key =
    handler_info_cache_prefix ++ b':' ∷ (scope ++ b':' ∷ (exchange ++ b':' ∷ binding_key))

-- `handlersMapKey`
unfoldable pub handlers_map_key : Bytes → Bytes → Bytes
handlers_map_key exchange binding_key = exchange ++ b':' ∷ binding_key

-- `key[strings.LastIndex(key, ":")+1:]`: what stands behind the last colon, or the whole key.
unfoldable pub after_last_colon : Bytes → Bytes → Bytes
after_last_colon tail [] = tail
after_last_colon tail (c ∷ s) = after_last_colon (if c == b':' then s else tail) s

unfoldable pub msg_id_from_cache_key : Bytes → Bytes
unfolding after_last_colon
msg_id_from_cache_key key = after_last_colon key key

-- The pattern of `cachedMessageKeys`.
unfoldable pub cached_message_pattern : Bytes → Bytes
unfolding cache_key
cached_message_pattern scope = cache_key scope [] ++ codes "*"

-- The pattern of `unbindUnusedBindings`.
unfoldable pub handler_info_pattern : Bytes → Bytes
handler_info_pattern scope = handler_info_cache_prefix ++ b':' ∷ (scope ++ codes ":*")
