-- ===== src/Samples/Naming.antt =====
-- Routes, keys, patterns and setups of the samples.
use gorabbit.Prelude.{◌∷◌, codes, arith, ◌≡◌, ◌≢◌, ◌≤◌, ◌<◌, refl, ◌++◌, ◌↔◌, take}
use gorabbit.Errors.{ok, err, routing_key_too_long}
use gorabbit.Routing.{encode_route, routed_key, check_routing_key_length}
use gorabbit.Routing.Encoding.{decode_route, decode-encode_route}
use gorabbit.Routing.Keys.{check_routing_key_length_lem}
use gorabbit.Scope.{cache_scope, cache_key, cached_message_pattern}
use gorabbit.Scope.Isolation.{HasPlainNames, cached_message_pattern_iff, queue_name_colon}
use gorabbit.Cache.Glob.Relation.{Matches}
use gorabbit.Samples.Data.{billing, mailer}

decode-encode_route_example : decode_route (encode_route (codes "eu.west/*")) ≡ codes "eu.west/*"
decode-encode_route_example = decode-encode_route (codes "eu.west/*")

check_routing_key_length_lem_example :
    ((check_routing_key_length (codes "Paid") ≡ ok tt) ↔ (4 ≤ 255))
    × (255 < 4
        → check_routing_key_length (codes "Paid") ≡ err (routing_key_too_long 4 (codes "Paid")))
    × (8 ≤ 255 → check_routing_key_length (routed_key (codes "Paid") (codes "a")) ≡ ok tt)
unfolding take
check_routing_key_length_lem_example = check_routing_key_length_lem (codes "Paid") (codes "a")

IsPlain-billing : HasPlainNames billing
unfolding billing
IsPlain-billing = record { app = ground arith; exchange = ground arith; queue = ground arith }

IsPlain-mailer : HasPlainNames mailer
unfolding mailer
IsPlain-mailer = record { app = ground arith; exchange = ground arith; queue = ground arith }

cached_message_pattern_iff_example :
    Matches
      (cached_message_pattern (cache_scope mailer))
      (cache_key (cache_scope billing) (codes "01"))
    ↔ (cache_scope mailer ≡ cache_scope billing)
cached_message_pattern_iff_example =
    cached_message_pattern_iff mailer billing (codes "01") IsPlain-mailer IsPlain-billing

queue_name_colon_example :
    let t = record mailer { queue_name = mailer.queue_name ++ b':' ∷ codes "eu" } in
    Matches (cached_message_pattern (cache_scope mailer)) (cache_key (cache_scope t) (codes "01"))
    × (cache_scope mailer ≢ cache_scope t)
unfolding mailer
queue_name_colon_example = queue_name_colon mailer (codes "eu") (codes "01") IsPlain-mailer refl
