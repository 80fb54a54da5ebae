-- ===== src/Errors.antt =====
-- The errors that the library creates (`errors.New`, and `fmt.Errorf` with `%w` around one of
-- them), those that it receives from its dependencies, and results that may be one of them.
use gorabbit.Prelude.{ℕ, Bytes, Bool, true, false, ◌≡◌, refl, ◌⊎◌, inl, inr}

-- A case of `Setup.validate` (rabbitmq/rabbitmq.go).
pub data SetupFault : Type 0 where
  url_required exchange_required app_required retry_count_positive : SetupFault
  retry_interval_positive confirm_timeout_positive concurrency_positive : SetupFault
  concurrency_over_prefetch : SetupFault

-- An `amqp091.Error` with its reply code, or another error of the client (a socket's, a timeout).
pub data AmqpError : Type 0 where
  reply transport : ℕ → AmqpError

pub data Error : Type 0 where
  -- rabbitmq/routing.go: ErrRoutingKeyTooLong with the length and the cut key, errMissingRouteBy
  routing_key_too_long : ℕ → Bytes → Error
  missing_route_by : Bytes → Error
  -- rabbitmq/claim.go: ErrCacheKeyTaken with the holder and the key
  cache_key_taken : Bytes → Bytes → Error
  -- rabbitmq/publisher.go
  not_confirmed empty_type_name unroutable : Error
  -- rabbitmq/common.go
  nil_message : Error
  empty_exchange_name : Bytes → Error
  -- rabbitmq/rabbitmq.go
  client_closed not_connected dial_in_progress cache_required : Error
  topology_rejected : Error → Error
  invalid_setup : SetupFault → Error
  -- rabbitmq/consumer.go
  not_a_consumer handler_required consume_closed panic_recovered : Error
  handler_registered : Bytes → Error
  consume_failed : Error → Error
  -- An error of the amqp091 client.
  amqp : AmqpError → Error
  -- `context.DeadlineExceeded`
  deadline_exceeded : Error
  -- Any other error of a dependency or of a handler.
  external : ℕ → Error

pub data Result {ℓ} (A : Type ℓ) : Type ℓ where
  ok : A → Result A
  err : Error → Result A

-- `if err != nil { return err }` between two steps.
infixl 5 ◌>>=◌
abbrev pub ◌>>=◌ {ℓ κ} : {T : Type ℓ} {U : Type κ} → Result T → (T → Result U) → Result U
(err fault) >>= k = err fault
(ok value) >>= k = k value

infixl 5 ◌>>◌
abbrev pub ◌>>◌ {ℓ κ} : {T : Type ℓ} {U : Type κ} → Result T → Result U → Result U
step >> r = step >>= λ _. r

pub Result-cases {ℓ} :
    {T : Type ℓ} (answer : Result T)
    → ((value : T) × (answer ≡ ok value)) ⊎ ((fault : Error) × (answer ≡ err fault))
Result-cases (err fault) = inr (fault, refl)
Result-cases (ok value) = inl (value, refl)

-- `errors.Is(err, errUnroutable)`
abbrev pub is_unroutable : Error → Bool
is_unroutable unroutable = true
is_unroutable _ = false

-- `errors.Is(err, ErrTopologyRejected)`
abbrev pub is_topology_rejected : Error → Bool
is_topology_rejected (topology_rejected e) = true
is_topology_rejected _ = false

-- `errors.Is(err, ErrClientClosed)`
abbrev pub is_client_closed : Error → Bool
is_client_closed client_closed = true
is_client_closed _ = false
