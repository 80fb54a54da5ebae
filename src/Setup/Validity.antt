-- ===== src/Setup/Validity.antt =====
-- What `validate` accepts, and what every chain of options guarantees before it.
use gorabbit.Prelude.{
  Bytes, Bool, true, false, Option, none, ◌++◌, codes, is_empty, ◌≡◌, ◌≢◌, ◌↔◌, arith, Option-cases,
  inl, inr,
}
use gorabbit.Prelude.Int.{ℤ, pos, negsuc, is_positive, ltb_ℤ}
use gorabbit.Errors.{Error, ok, err, SetupFault, invalid_setup}
use gorabbit.Setup.Defs.{
  Setup, new_setup, with_consumer, with_reconnect_delay, with_dial_timeout,
  with_publish_confirm_timeout, with_retry_policy, with_prefetch_count, with_concurrency,
  setup_fault, validate,
}

-- A setup with which a client can work: the names are there, retrying is bounded and waits, a
-- confirm is waited for, and there is a delivery for each worker.
pub record IsUsable (s : Setup) : Type 0 where
  pub url : is_empty s.amqp_url ≡ false
  pub exchange : is_empty s.exchange_name ≡ false
  pub app : is_empty s.app_name ≡ false
  pub retries : s.with_retry ≡ true → is_positive s.retry_count ≡ true
  pub interval : s.with_retry ≡ true → is_positive s.retry_interval ≡ true
  pub confirm : is_positive s.confirm_timeout ≡ true
  pub workers : is_positive s.concurrency ≡ true
  pub prefetch :
      is_positive s.pre_fetch_count ≡ true → ltb_ℤ s.pre_fetch_count s.concurrency ≡ false

at_least_one : (n : ℤ) → (ltb_ℤ n (pos 1) ≡ false) ↔ (is_positive n ≡ true)
at_least_one (pos n) = ground arith
at_least_one (negsuc n) = (λ e. cc, λ e. cc)

faultless-IsUsable : (s : Setup) → setup_fault s ≡ none → IsUsable s
unfolding setup_fault
faultless-IsUsable s h = record {
  url = ground arith;
  exchange = ground arith;
  app = ground arith;
  retries = ground arith;
  interval = ground arith;
  confirm = ground arith;
  workers = ground (arith, at_least_one s.concurrency);
  prefetch = ground arith;
}

IsUsable-faultless : (s : Setup) → IsUsable s → setup_fault s ≡ none
unfolding setup_fault
IsUsable-faultless s u = ground (arith, at_least_one s.concurrency)

-- `validate` accepts exactly the setups with which a client can work, and what it refuses it
-- refuses with an error of the setup.
pub validate_iff :
    (s : Setup)
    → ((validate s ≡ ok tt) ↔ IsUsable s)
      × ((validate s ≢ ok tt) → (f : SetupFault) × (validate s ≡ err (invalid_setup f)))
unfolding validate
validate_iff s = elim (Option-cases (setup_fault s)) [
  | inl e ↦
      ((λ _. faultless-IsUsable s e, λ _. rw (e, validate)), λ n. absurd (n (rw (e, validate))))
  | inr (f, e) ↦
      let r : validate s ≡ err (invalid_setup f) = rw (e, validate) in
      ((λ v. cc, λ u. cc (IsUsable-faultless s u)), λ _. (f, r))
]

-- A chain of calls of the package's interface, from `NewSetup` on. The options of a queue need a
-- `ConsumerSetup`, which only `WithConsumer` hands out.
pub data Built (exchange url app : Bytes) : Setup → Type 0 where
  start : Built exchange url app (new_setup exchange url app)
  consumer :
      (q : Bytes) (s : Setup)
      → Built exchange url app s
      → Built exchange url app (with_consumer q s)
  reconnect_delay :
      (d : ℤ) (s : Setup)
      → Built exchange url app s
      → Built exchange url app (with_reconnect_delay d s)
  dial_timeout :
      (d : ℤ) (s : Setup)
      → Built exchange url app s
      → Built exchange url app (with_dial_timeout d s)
  confirm_timeout :
      (d : ℤ) (s : Setup)
      → Built exchange url app s
      → Built exchange url app (with_publish_confirm_timeout d s)
  retry :
      (n d : ℤ) (f : Option (Error → Bool)) (s : Setup)
      → s.is_consumer ≡ true
      → Built exchange url app s
      → Built exchange url app (with_retry_policy n d f s)
  prefetch :
      (n : ℤ) (s : Setup)
      → s.is_consumer ≡ true
      → Built exchange url app s
      → Built exchange url app (with_prefetch_count n s)
  concurrency :
      (n : ℤ) (s : Setup)
      → s.is_consumer ≡ true
      → Built exchange url app s
      → Built exchange url app (with_concurrency n s)

-- What such a setup keeps: a publisher has no retry, no prefetch and one worker; a consumer's
-- dead-letter and retry names are its queue's; the delay between reconnections is never 0.
pub record IsCoherent (exchange url app : Bytes) (s : Setup) : Type 0 where
  pub names : (s.amqp_url ≡ url) × (s.exchange_name ≡ exchange) × (s.app_name ≡ app)
  pub publisher :
      s.is_consumer ≡ false
      → (s.with_retry ≡ false) × (s.pre_fetch_count ≡ pos 0) × (s.concurrency ≡ pos 1)
  pub consumer_names :
      s.is_consumer ≡ true
      → (s.dlq_name ≡ s.queue_name ++ codes ".dlq")
        × (s.retry_name ≡ s.queue_name ++ codes ".retry")
  pub waits : is_positive s.reconnect_delay ≡ true

-- Every setup that the options can build keeps its names, waits between two reconnections, and is a
-- publisher without retry, prefetch and concurrency or a consumer whose dead-letter and retry names
-- are its queue's.
pub Built-IsCoherent :
    {exchange url app : Bytes} {s : Setup}
    → Built exchange url app s
    → IsCoherent exchange url app s
unfolding new_setup with_consumer with_reconnect_delay with_dial_timeout
    with_publish_confirm_timeout with_retry_policy with_prefetch_count with_concurrency
Built-IsCoherent start = ground arith
Built-IsCoherent (consumer q s b) = ground (arith, Built-IsCoherent b)
Built-IsCoherent (reconnect_delay d s b) = ground (arith, Built-IsCoherent b)
Built-IsCoherent (dial_timeout d s b) = ground (arith, Built-IsCoherent b)
Built-IsCoherent (confirm_timeout d s b) = ground (arith, Built-IsCoherent b)
Built-IsCoherent (retry n d f s c b) = ground (arith, Built-IsCoherent b)
Built-IsCoherent (prefetch n s c b) = ground (arith, Built-IsCoherent b)
Built-IsCoherent (concurrency n s c b) = ground (arith, Built-IsCoherent b)
