-- ===== src/Samples/Publishing.antt =====
-- A publish that the broker acks, and a flush of one message through the memory cache.
use gorabbit.Prelude.{Bytes, true, false, none, some, [], codes, ◌≡◌, ◌≢◌, ◌⊎◌, is_empty}
use gorabbit.Errors.{Result, ok, err, nil_message, empty_type_name}
use gorabbit.Message.{Message}
use gorabbit.Publisher.{PublishMessage, get_publish_message}
use gorabbit.Publisher.Message.{IsMadeOf, get_publish_message_lem}
use gorabbit.Flush.{Codec, World, flush_cached_messages, cache_message}
use gorabbit.Flush.Memory.{memory_cache, memory_laws, empty_cache}
use gorabbit.Flush.Safety.{seen, listed, WasDelivered, flush_cached_messages_lem}
use gorabbit.Publish.{Link}
use gorabbit.Boot.{connect_setup}
use gorabbit.Boot.Claims.{IsBooted, connect_setup_lem}
use gorabbit.Setup.{validate}
use gorabbit.Prelude.{false}
use gorabbit.Samples.Data.{billing, all_open, agreeable, joined, all_open, counter, invoice}

abbrev pub in_braces : Message → Result Bytes
in_braces m = ok (codes "{}")

abbrev pub made : PublishMessage
made = record {
  msg_id = codes "01";
  msg_type_name = codes "InvoicePaid";
  routing_key = codes "InvoicePaid";
  msg_body = codes "{}";
  msg_headers = some [];
}

get_publish_message_lem_example :
    (get_publish_message in_braces [] (codes "01") (some invoice) ≡ ok made
      → IsMadeOf in_braces [] (codes "01") invoice made)
    × (get_publish_message in_braces [] (codes "01") none ≡ err nil_message)
    × (false ≡ true
        → get_publish_message in_braces [] (codes "01") (some invoice) ≡ err empty_type_name)
unfolding invoice is_empty
get_publish_message_lem_example = get_publish_message_lem in_braces [] (codes "01") invoice made tt

-- The encoding keeps the id, and forgets the rest of what the sample leaves fixed.
abbrev pub sample_codec : Codec
sample_codec = record {
  marshal = λ m. ok m.msg_id;
  unmarshal = λ b. ok (record {
    msg_id = b;
    msg_type_name = codes "InvoicePaid";
    routing_key = codes "InvoicePaid";
    message = codes "{}";
    msg_headers = some [];
  });
  quoted = λ b. b;
}

unfoldable pub empty : World (memory_cache 100) counter sample_codec
empty = record { client = joined; cache = empty_cache 100; wire = 0 }

-- The client has one cached message.
abbrev pub waiting : World (memory_cache 100) counter sample_codec
waiting = (cache_message (memory_cache 100) counter sample_codec made empty).0

flush_cached_messages_lem_example :
    let K = memory_cache 100 in
    let laws = memory_laws 100 in
    let after = (flush_cached_messages K counter sample_codec waiting).0 in
    let found = seen K laws counter sample_codec (codes "publisher:billing:orders") (codes "01") in
    (found after ≡ found waiting)
    ⊎ WasDelivered K laws counter sample_codec
        (codes "publisher:billing:orders")
        (codes "01")
        (listed K laws counter sample_codec (codes "publisher:billing:orders") (codes "01") waiting)
flush_cached_messages_lem_example =
    flush_cached_messages_lem (memory_cache 100) (memory_laws 100) counter sample_codec
      (codes "publisher:billing:orders") (codes "01") waiting

abbrev linked : Link (memory_cache 100) counter sample_codec agreeable
linked = record { world = empty; history = [] }

connect_setup_lem_example :
    let r =
      connect_setup
        (memory_cache 100)
        counter
        sample_codec
        agreeable
        billing
        (some (empty_cache 100))
        0
        []
        [] in
    IsBooted (memory_cache 100) counter sample_codec agreeable billing [] r
    × ((l : Link (memory_cache 100) counter sample_codec agreeable)
        → r.1 ≡ ok l
        → (validate billing ≡ ok tt) × (some (empty_cache 100) ≢ none))
connect_setup_lem_example =
    connect_setup_lem (memory_cache 100) counter sample_codec agreeable billing
      (some (empty_cache 100)) 0 [] []
