-- ===== src/Samples/Running.antt =====
-- A client that loses its connection, flushes and closes.
use gorabbit.Prelude.{
  length, ◌≢◌, ◌++◌, Bytes, true, false, none, some, List, [], ◌∷◌, codes, ◌≡◌, refl, lookup,
  insert, map, inl, inr, is_empty, arith, ◌∙◌, ◌||◌,
}
use gorabbit.Errors.{ok}
use gorabbit.Scope.{cached_message_pattern, cache_key, lease_key}
use gorabbit.Cache.Memory.{evict_expired, get, set, get_all_keys, matching_keys}
use gorabbit.Cache.Glob.{glob_match}
use gorabbit.Client.{Client}
use gorabbit.Connection.{connected, open_conn, live}
use gorabbit.Connection.Dial.{connect}
use gorabbit.Connection.Channels.{close}
use gorabbit.Connection.Connect.{dropped}
use gorabbit.Connection.Balance.{connect-Balance, one_if, one_if_ok}
use gorabbit.Amqp.Balance.{Balance}
use gorabbit.Flush.{World, flush_cached_messages, cache_message}
use gorabbit.Flush.Memory.{memory_cache, empty_cache, Map}
use gorabbit.Publisher.{PublishMessage}
use gorabbit.Publish.{Link, publish_prepared}
use gorabbit.Errors.{client_closed}
use gorabbit.Monitor.{Wake, monitor_connection, delayed_flush}
use gorabbit.Monitor.Closed.{close_lem}
use gorabbit.Returns.{was_returned, run, new_tracker}
use gorabbit.Connection.Channels.{publish_channel}
use gorabbit.Publisher.{CachedMessage, from_cache_message}
use gorabbit.Publisher.Confirm.{HasChannel}
use gorabbit.Flush.{decoded}
use gorabbit.Flush.Turn.{IsConfirming, after_sends}
use gorabbit.Flush.Memory.{memory_laws, memory_working, memory_view}
use gorabbit.Flush.Delivers.{flush_delivers_lem}
use gorabbit.Samples.Publishing.{sample_codec, empty, waiting, made}
use gorabbit.Samples.Data.{billing, fresh, joined, all_open, agreeable, counter}

-- The client has lost its connection, and the message waits in its cache.
abbrev lost : Link (memory_cache 100) counter sample_codec agreeable
lost = record {
  world = record waiting { client = record waiting.client { is_connected = false } };
  history = [];
}

close_lem_example :
    let c = (close all_open lost.world.client).0 in
    let shut : Link (memory_cache 100) counter sample_codec agreeable = record lost {
      world = record lost.world { client = c };
    } in
    ((pm : PublishMessage)
      → publish_prepared (memory_cache 100) counter sample_codec agreeable pm shut
        ≡ (shut, some client_closed))
    × ((wakes : List Wake)
        → monitor_connection (memory_cache 100) counter sample_codec agreeable wakes shut ≡ shut)
    × ((wake : Wake)
        → delayed_flush (memory_cache 100) counter sample_codec agreeable wake shut.world
          ≡ shut.world)
unfolding empty joined fresh cache_message
close_lem_example = close_lem (memory_cache 100) counter sample_codec agreeable lost refl

abbrev broken : Client
broken = record joined { is_connected = false }

connect-Balance_example :
    let (c', h', r) = connect all_open agreeable broken [] in
    ((broken.done || connected all_open broken || broken.dialing) ≡ true
      → (h' ≡ []) × (c' ≡ broken))
    × ((broken.done || connected all_open broken || broken.dialing) ≡ false
        → Balance agreeable [] h' (one_if (open_conn all_open broken.conn)) (one_if_ok r)
          × (r ≡ ok true → c'.conn ≡ some (length (dropped all_open broken [])))
          × (r ≢ ok true → c'.conn ≡ none))
connect-Balance_example = connect-Balance all_open agreeable broken []

-- A second message, which was cached after the first and has the smaller id.
abbrev two_waiting : World (memory_cache 100) counter sample_codec
two_waiting =
    (cache_message (memory_cache 100) counter sample_codec (record made { msg_id = codes "00" })
      waiting).0

abbrev scope : Bytes
scope = codes "publisher:billing:orders"

abbrev ids : List Bytes
ids = codes "01" ∷ codes "00" ∷ []

abbrev kept : Map
kept = ((memory_cache 100).get_all_keys (cached_message_pattern scope) two_waiting.cache).0

two_listed :
    (memory_cache 100).get_all_keys (cached_message_pattern scope) two_waiting.cache
    ≡ (kept, ok (map (cache_key scope) ids))
unfolding empty joined fresh cache_message get_all_keys matching_keys glob_match evict_expired
    insert cached_message_pattern cache_key billing empty_cache set
two_listed = refl

pub counter-IsConfirming : IsConfirming counter
unfolding was_returned run new_tracker lookup
counter-IsConfirming = record {
  confirms = λ x k m s. record {
    sent = refl;
    awaited = refl;
    kept = ground arith;
    waited = refl;
    acked = refl;
  };
  stays = λ x k m s n. refl;
}

has_channel : HasChannel (publish_channel all_open two_waiting.client)
unfolding publish_channel live empty joined fresh cache_message
has_channel = tt

-- What the codec makes of an id.
abbrev second : CachedMessage
second = record {
  msg_id = codes "00";
  msg_type_name = codes "InvoicePaid";
  routing_key = codes "InvoicePaid";
  message = codes "{}";
  msg_headers = some [];
}

second_cached : get 100 (cache_key scope (codes "00")) two_waiting.cache.0 ≡ some (codes "00")
unfolding empty joined fresh cache_message get evict_expired insert lookup cache_key billing
    empty_cache set
second_cached = refl

second_decodes : decoded (memory_cache 100) counter sample_codec (codes "00") ≡ some second
unfolding is_empty
second_decodes = refl

second_free : get 100 (lease_key scope (codes "00")) two_waiting.cache.0 ≡ none
unfolding empty joined fresh cache_message get evict_expired insert lookup cache_key lease_key
    billing empty_cache set
second_free = refl

flush_delivers_lem_example :
    let K = memory_cache 100 in
    let laws = memory_laws 100 in
    let after = (flush_cached_messages K counter sample_codec two_waiting).0 in
    (laws.view after.cache (cache_key scope (codes "00")) ≡ none)
    × ((before : List PublishMessage) × (later : List PublishMessage) × (after.wire
          ≡ after_sends counter two_waiting.client.setup.exchange_name
              (before ++ from_cache_message second ∷ later)
              two_waiting.wire))
unfolding empty joined fresh cache_message
flush_delivers_lem_example =
    flush_delivers_lem (memory_cache 100) (memory_laws 100) (memory_working 100) counter
      sample_codec (codes "00") two_waiting kept ids (codes "00") second counter-IsConfirming
      has_channel refl two_listed (ground arith) (inr (inl refl))
      (memory_view 100 two_waiting.cache _ ∙ second_cached) second_decodes
      (memory_view 100 two_waiting.cache _ ∙ second_free)
