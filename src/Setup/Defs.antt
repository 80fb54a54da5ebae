-- ===== src/Setup/Defs.antt =====
-- rabbitmq/rabbitmq.go: `Setup`, its options, `validate`. The logger and the header carrier of a
-- setup are no part of the record: the first writes nothing back, the second is an argument of the
-- functions that call it. A setter that works through a pointer returns the new setup; a
-- `ConsumerSetup` is the setup that it wraps.
use gorabbit.Prelude.{
  ℕ, Bytes, Bool, true, false, Option, none, some, ◌++◌, ◌&&◌, not, if◌then◌else◌, codes, is_empty,
}
use gorabbit.Prelude.Int.{ℤ, pos, is_positive, ltb_ℤ}
use gorabbit.Errors.{
  Error, Result, ok, err, invalid_setup, SetupFault, url_required, exchange_required, app_required,
  retry_count_positive, retry_interval_positive, confirm_timeout_positive, concurrency_positive,
  concurrency_over_prefetch,
}

pub record Setup : Type 0 where
  pub amqp_url : Bytes
  pub exchange_name : Bytes
  pub app_name : Bytes
  pub queue_name : Bytes
  pub dlq_name : Bytes
  pub retry_name : Bytes
  pub pre_fetch_count : ℤ
  pub concurrency : ℤ
  pub with_retry : Bool
  pub retry_count : ℤ
  pub retry_interval : ℤ
  pub reconnect_delay : ℤ
  pub dial_timeout : ℤ
  pub confirm_timeout : ℤ
  pub is_consumer : Bool
  pub retryable_error_func : Option (Error → Bool)

-- Durations are nanoseconds.
abbrev pub second : ℕ
second = 1_000_000_000

abbrev pub default_reconnect_delay : ℤ
default_reconnect_delay = pos 2_000_000_000

abbrev pub default_publish_confirm_timeout : ℤ
default_publish_confirm_timeout = pos 5_000_000_000

-- `NewSetup`; `exchange` is the name that the type E gives.
unfoldable pub new_setup : Bytes → Bytes → Bytes → Setup
new_setup exchange amqp_url app_name = record {
  amqp_url = amqp_url;
  exchange_name = exchange;
  app_name = app_name;
  queue_name = codes "";
  dlq_name = codes "";
  retry_name = codes "";
  pre_fetch_count = pos 0;
  concurrency = pos 1;
  with_retry = false;
  retry_count = pos 0;
  retry_interval = pos 0;
  reconnect_delay = default_reconnect_delay;
  dial_timeout = pos 0;
  confirm_timeout = default_publish_confirm_timeout;
  is_consumer = false;
  retryable_error_func = none;
}

unfoldable pub with_consumer : Bytes → Setup → Setup
with_consumer queue_name s = record s {
  queue_name = queue_name;
  dlq_name = queue_name ++ codes ".dlq";
  retry_name = queue_name ++ codes ".retry";
  is_consumer = true;
}

unfoldable pub with_reconnect_delay : ℤ → Setup → Setup
with_reconnect_delay d s = if is_positive d then record s { reconnect_delay = d } else s

unfoldable pub with_dial_timeout : ℤ → Setup → Setup
with_dial_timeout d s = if is_positive d then record s { dial_timeout = d } else s

unfoldable pub with_publish_confirm_timeout : ℤ → Setup → Setup
with_publish_confirm_timeout d s = record s { confirm_timeout = d }

unfoldable pub with_retry_policy : ℤ → ℤ → Option (Error → Bool) → Setup → Setup
with_retry_policy count interval retryable s = record s {
  retry_count = count;
  retry_interval = interval;
  with_retry = true;
  retryable_error_func = retryable;
}

unfoldable pub with_prefetch_count : ℤ → Setup → Setup
with_prefetch_count count s = record s { pre_fetch_count = count }

unfoldable pub with_concurrency : ℤ → Setup → Setup
with_concurrency n s = record s { concurrency = n }

-- The switch of `validate`, as the case that it stops at.
unfoldable pub setup_fault : Setup → Option SetupFault
setup_fault s =
    if is_empty s.amqp_url
    then some url_required
    else if is_empty s.exchange_name
    then some exchange_required
    else if is_empty s.app_name
    then some app_required
    else if s.with_retry && not (is_positive s.retry_count)
    then some retry_count_positive
    else if s.with_retry && not (is_positive s.retry_interval)
    then some retry_interval_positive
    else if not (is_positive s.confirm_timeout)
    then some confirm_timeout_positive
    else if ltb_ℤ s.concurrency (pos 1)
    then some concurrency_positive
    else if is_positive s.pre_fetch_count && ltb_ℤ s.pre_fetch_count s.concurrency
    then some concurrency_over_prefetch
    else none

unfoldable pub validate : Setup → Result (Unit {0})
unfolding setup_fault
validate s = elim (setup_fault s) [ none ↦ ok tt | some f ↦ err (invalid_setup f) ]
