-- ===== src/Lib.antt =====
-- gorabbit: a Go library that publishes and consumes typed messages over RabbitMQ and keeps what it
-- could not deliver in a cache, to publish it when the connection is back.
--
-- The parts and how they interact. A program builds a `Setup` and connects, which gives a `Client`
-- with a connection, two channels and the declared exchanges and queues. `Publish` makes a
-- message with its routing key, sends it on the publish channel with `mandatory` and waits for the
-- broker's confirm. Cached messages are read back and published by a flush, which reserves each
-- one with a lease in the same cache, since several processes may share it. A process claims its
-- cache key so that two clients never share one.
--
-- Which file models which part (paths from the root of the repository):
--   Message          msg.go
--   Cache/Interface  cache.go, the interface; Cache/Memory the map with its ttls, a clock reading
--                    being an argument of each method, and what its callers see of it (Refines);
--                    Cache/Glob the matcher of keys
--   Routing          rabbitmq/routing.go
--   Setup            rabbitmq/rabbitmq.go, `Setup`, the options, `validate`
--   Scope            the keys of rabbitmq/common.go, rabbitmq/lease.go and rabbitmq/consumer.go
--   Client           rabbitmq/rabbitmq.go, the fields of `Client`
--   Topology         rabbitmq/rabbitmq.go, `applyTopology`
--   Connection       rabbitmq/rabbitmq.go, `connect` and `dial` (Connect, Dialled), the channels and `Close`
--                    (Channels), several goroutines over one client (Threads), and the count of
--                    the connections that are opened and closed (Balance, Amqp/Balance)
--   Claim            rabbitmq/claim.go
--   Publisher        rabbitmq/publisher.go
--   Flush            rabbitmq/common.go, `flushCachedMessages`, and rabbitmq/lease.go; several
--                    replicas at one message, and one that dies with it (Replicas)
--   Publish          rabbitmq/publisher.go, `Publish`, and `reconnect` of rabbitmq/common.go
--   Boot             rabbitmq/rabbitmq.go, `Setup.Connect`
--   Monitor          rabbitmq/common.go, `monitorConnection` and `scheduleDelayedFlush`; a message
--                    published in an outage (Outage)
--   Pending          rabbitmq/common.go, `retryPendingMessages`
--   Returns          rabbitmq/returns.go
--   Consumer         rabbitmq/consumer.go, `processMessage` and what it calls; `consume`,
--                    `consumeMessages` with one worker, and `runWorker` (Loop); the workers of a
--                    concurrency above 1 side by side (Pool); `Start`, and `Close` with its wait
--                    for them (Shutdown)
--   Subscribe        rabbitmq/consumer.go, `Subscribe`, `SubscribeRoute`, `unbindUnusedBindings`
--   Carrier          gorabbit.go, the header carrier, and where the client calls it
--   EndToEnd         from `Publish` in one program to `handlerFor` in another
--   Errors           the error values of the package
--   Samples          runs on concrete inputs
--
-- How it is modelled. A string or byte slice is a list of its bytes; an `int` or a duration is a
-- sign and a size (Prelude/Int), a duration in nanoseconds; the multiplications of the lease wrap
-- around in 64 bits. A Go map is an association list. A function under a mutex maps a state to a
-- state; the connection, channels and the tracker of returns are numbers, named in the order in which they are opened. Calls to the broker are
-- recorded in a history, and the broker is a function from the history and the call to its answer
-- (Amqp). What a publish meets is an `Attempt` (Wire). JSON, the verb %q of fmt, the header
-- carrier and fresh ids are arguments.
--
-- Fuel. `glob_loop` is the only function on fuel; the theorem on `glob_match` shows that the fuel
-- it starts with is enough for every pattern and text.
--
-- Interleavings are step relations over a state that holds the shared parts and where each of the
-- threads stands (Connection/Threads, Flush/Replicas, Consumer/Pool, Consumer/Shutdown);
-- the other loops are given the list of what their selects take.
--
-- Not modelled: logging; the contents of contexts, but for what a header carrier reads and writes;
-- the timestamp of a message; the redis cache and the programs of e2e/, which exercise the library;
-- a second call of `Start`, which would run a second `consume`.
pub mod Prelude
pub mod Errors
pub mod Message
pub mod Routing
pub mod Cache
pub mod Setup
pub mod Scope
pub mod Amqp
pub mod Client
pub mod Topology
pub mod Connection
pub mod Claim
pub mod Wire
pub mod Publisher
pub mod Flush
pub mod Consumer
pub mod Subscribe
pub mod Returns
pub mod Publish
pub mod Pending
pub mod Boot
pub mod Monitor
pub mod Carrier
pub mod EndToEnd
pub mod Samples
