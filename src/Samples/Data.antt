-- ===== src/Samples/Data.antt =====
-- The clients, messages and brokers of the samples.
use gorabbit.Prelude.{ℕ, Bool, true, false, none, some, [], codes}
use gorabbit.Prelude.Int.{pos}
use gorabbit.Setup.{Setup, new_setup, with_consumer, with_retry_policy, with_prefetch_count}
use gorabbit.Client.{Client, new_client, HandlerInfo}
use gorabbit.Message.{Message, Marker}
use gorabbit.Amqp.{Publishing, Broker}
use gorabbit.Wire.{Wire, Attempt}

unfoldable pub billing : Setup
unfolding new_setup
billing = new_setup (codes "orders") (codes "amqp://broker") (codes "billing")

unfoldable pub mailer : Setup
unfolding new_setup with_consumer with_retry_policy with_prefetch_count
mailer = with_prefetch_count (pos 5) (
    with_retry_policy (pos 3) (pos 1_000_000_000) none (
      with_consumer (codes "mail")
        (new_setup (codes "orders") (codes "amqp://broker") (codes "mailer"))))

unfoldable pub fresh : Client
unfolding new_client billing
fresh = new_client billing

-- The client on connection 0 with its channels 1 and 2.
unfoldable pub joined : Client
unfolding fresh
joined = record fresh {
  conn = some 0;
  ch = some 1;
  pub_ch = some 2;
  returns = some 2;
  is_connected = true;
}

abbrev pub all_open : ℕ → Bool
all_open k = false

unfoldable pub agreeable : Broker
agreeable h c = none

abbrev pub acked_attempt : Attempt
acked_attempt = record {
  publish_err = none;
  ctx_over = false;
  has_confirmation = true;
  acked = true;
  wait_err = none;
  events = [];
}

-- A broker that acks whatever it gets, and counts it.
abbrev pub counter : Wire
counter = record {
  State = ℕ;
  publish = λ x k m s. (ℕ.suc s, acked_attempt);
  is_closed = λ s. all_open;
}

unfoldable pub invoice : Message
invoice = record {
  type_name = codes "InvoicePaid";
  exchange = codes "orders";
  marker = Marker.msg;
  route_by = none;
}

unfoldable pub letter : Publishing
letter = record {
  content_type = codes "application/json";
  content_encoding = [];
  message_type = codes "InvoicePaid";
  body = codes "{}";
  headers = none;
  persistent = true;
  priority = 0;
  correlation_id = [];
  reply_to = [];
  message_id = codes "01";
  user_id = [];
  app_id = [];
  expiration = [];
}

unfoldable pub on_invoice : HandlerInfo
on_invoice = record {
  exchange = codes "orders";
  binding_key = codes "InvoicePaid";
  handler = λ d. none;
}
