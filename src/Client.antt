-- ===== src/Client.antt =====
-- rabbitmq/rabbitmq.go: the state of a `Client`, `handlerInfo` and `brokerConn`. The mutexes, the
-- wait group and the cache are no fields: a function runs under the lock that the code takes, and
-- takes the cache as an argument.
use gorabbit.Prelude.{ℕ, Bytes, Bool, false, Option, none, [], Assoc}
use gorabbit.Errors.{Error}
use gorabbit.Setup.{Setup}
use gorabbit.Amqp.{Delivery}

pub record BrokerConn : Type 0 where
  pub conn : ℕ
  pub ch : ℕ
  pub pub_ch : ℕ
  pub returns : ℕ

-- The handler's answer to a delivery: `none` is a nil error.
pub record HandlerInfo : Type 0 where
  pub exchange : Bytes
  pub binding_key : Bytes
  pub handler : Delivery → Option Error

-- A pointer that may be nil is an option. `done` says that the channel is closed, `pending` that
-- its one place is taken.
pub record Client : Type 0 where
  pub setup : Setup
  pub conn : Option ℕ
  pub ch : Option ℕ
  pub pub_ch : Option ℕ
  pub returns : Option ℕ
  pub is_connected : Bool
  pub claimed_key : Bool
  pub setup_err : Option Error
  pub done : Bool
  pub dialing : Bool
  pub flushing : Bool
  pub pending : Bool
  pub handlers : Assoc HandlerInfo

unfoldable pub new_client : Setup → Client
new_client setup = record {
  setup = setup;
  conn = none;
  ch = none;
  pub_ch = none;
  returns = none;
  is_connected = false;
  claimed_key = false;
  setup_err = none;
  done = false;
  dialing = false;
  flushing = false;
  pending = false;
  handlers = [];
}
