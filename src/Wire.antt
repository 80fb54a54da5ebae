-- ===== src/Wire.antt =====
-- What a publish meets outside the program: the amqp091 channel, the broker, the caller's context.
use gorabbit.Prelude.{ℕ, Bytes, Bool, Option, List}
use gorabbit.Errors.{Error, AmqpError}
use gorabbit.Amqp.{Publishing}
use gorabbit.Returns.{Event}

-- The answers to one `PublishWithDeferredConfirmWithContext` and to what follows it: its error;
-- whether the caller's context was over by then; whether there is a confirmation to wait for; the
-- two answers of `WaitContext`; and what the tracker of returns had taken by then, the latest first.
pub record Attempt : Type 0 where
  pub publish_err : Option AmqpError
  pub ctx_over : Bool
  pub has_confirmation : Bool
  pub acked : Bool
  pub wait_err : Option Error
  pub events : List Event

-- The world on the other side of the socket: a mandatory publish to an exchange under a key, and
-- `IsClosed` of a connection.
pub record Wire : Type 1 where
  pub State : Type 0
  pub publish : Bytes → Bytes → Publishing → State → State × Attempt
  pub is_closed : State → ℕ → Bool
