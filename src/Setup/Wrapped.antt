-- ===== src/Setup/Wrapped.antt =====
-- rabbitmq/rabbitmq.go: `ConsumerSetup`, which `WithConsumer` hands out and whose methods are the
-- only way to the options of a queue.
use gorabbit.Prelude.{Bytes, Bool, true, Option, ◌≡◌, refl, arith}
use gorabbit.Prelude.Int.{ℤ}
use gorabbit.Errors.{Error}
use gorabbit.Setup.Defs.{
  Setup, with_consumer, with_reconnect_delay, with_dial_timeout, with_publish_confirm_timeout,
  with_retry_policy, with_prefetch_count, with_concurrency,
}
use gorabbit.Setup.Validity.{
  Built, consumer, reconnect_delay, dial_timeout, confirm_timeout, retry, prefetch, concurrency,
}

pub record ConsumerSetup : Type 0 where
  pub setup : Setup

-- A method of `ConsumerSetup` that calls the one of its setup and returns itself.
abbrev on_setup : (Setup → Setup) → ConsumerSetup → ConsumerSetup
on_setup f c = record c { setup = f c.setup }

unfoldable consumer_reconnect_delay : ℤ → ConsumerSetup → ConsumerSetup
consumer_reconnect_delay d c = on_setup (with_reconnect_delay d) c

unfoldable consumer_dial_timeout : ℤ → ConsumerSetup → ConsumerSetup
consumer_dial_timeout d c = on_setup (with_dial_timeout d) c

unfoldable consumer_publish_confirm_timeout : ℤ → ConsumerSetup → ConsumerSetup
consumer_publish_confirm_timeout d c = on_setup (with_publish_confirm_timeout d) c

-- A chain of calls that has come to a `ConsumerSetup`.
data Chain (exchange url app : Bytes) : ConsumerSetup → Type 0 where
  wrapped :
      (q : Bytes) (s : Setup)
      → Built exchange url app s
      → Chain exchange url app (record { setup = with_consumer q s })
  retried :
      (n d : ℤ) (f : Option (Error → Bool)) (c : ConsumerSetup)
      → Chain exchange url app c
      → Chain exchange url app (on_setup (with_retry_policy n d f) c)
  prefetched :
      (n : ℤ) (c : ConsumerSetup)
      → Chain exchange url app c
      → Chain exchange url app (on_setup (with_prefetch_count n) c)
  concurrent :
      (n : ℤ) (c : ConsumerSetup)
      → Chain exchange url app c
      → Chain exchange url app (on_setup (with_concurrency n) c)
  delayed :
      (d : ℤ) (c : ConsumerSetup)
      → Chain exchange url app c
      → Chain exchange url app (consumer_reconnect_delay d c)
  dialled :
      (d : ℤ) (c : ConsumerSetup)
      → Chain exchange url app c
      → Chain exchange url app (consumer_dial_timeout d c)
  confirming :
      (d : ℤ) (c : ConsumerSetup)
      → Chain exchange url app c
      → Chain exchange url app (consumer_publish_confirm_timeout d c)

-- Such a chain builds a setup that has its queue, as `Connect` finds it.
Chain-Built :
    {exchange url app : Bytes} {c : ConsumerSetup}
    → Chain exchange url app c
    → Built exchange url app c.setup × (c.setup.is_consumer ≡ true)
unfolding consumer_reconnect_delay consumer_dial_timeout consumer_publish_confirm_timeout
    with_consumer with_reconnect_delay with_dial_timeout with_publish_confirm_timeout
    with_retry_policy with_prefetch_count with_concurrency
Chain-Built (wrapped q s b) = (consumer q s b, refl)
Chain-Built (retried n d f c h) = let (b, e) = Chain-Built h in (retry n d f c.setup e b, e)
Chain-Built (prefetched n c h) = let (b, e) = Chain-Built h in (prefetch n c.setup e b, e)
Chain-Built (concurrent n c h) = let (b, e) = Chain-Built h in (concurrency n c.setup e b, e)
Chain-Built (delayed d c h) =
    let (b, e) = Chain-Built h in (reconnect_delay d c.setup b, ground (arith, e))
Chain-Built (dialled d c h) =
    let (b, e) = Chain-Built h in (dial_timeout d c.setup b, ground (arith, e))
Chain-Built (confirming d c h) = let (b, e) = Chain-Built h in (confirm_timeout d c.setup b, e)
