-- ===== src/Amqp.antt =====
-- The amqp091 client as the code uses it: the calls that it makes, in order, and the answers of a
-- broker that may depend on all the calls before. What a broker does with a call is no part of the
-- model; a connection or a channel is named by the place of the call that opened it.
use gorabbit.Prelude.{
  ℕ, Bytes, Bool, true, false, Option, none, some, List, [], ◌∷◌, ◌++◌, length, Assoc, ◌≡◌, refl,
}
use gorabbit.Prelude.Int.{ℤ}
use gorabbit.Errors.{Error, AmqpError, amqp, Result, ok, err}
pub mod Foreign
pub mod Balance
pub mod Accepting

-- The values of an `amqp091.Table` that the code tells apart.
pub data HeaderValue : Type 0 where
  int_value int32_value int64_value : ℤ → HeaderValue
  text_value : Bytes → HeaderValue
  other_value : ℕ → HeaderValue

abbrev pub Table : Type 0
Table = Assoc HeaderValue

-- The arguments of a queue: "x-dead-letter-exchange" and "x-message-ttl".
pub record QueueArgs : Type 0 where
  pub dead_letter_exchange : Option Bytes
  pub message_ttl : Option ℤ

-- `amqp091.Publishing`, without its timestamp.
pub record Publishing : Type 0 where
  pub content_type : Bytes
  pub content_encoding : Bytes
  pub message_type : Bytes
  pub body : Bytes
  pub headers : Option Table
  pub persistent : Bool
  pub priority : ℕ
  pub correlation_id : Bytes
  pub reply_to : Bytes
  pub message_id : Bytes
  pub user_id : Bytes
  pub app_id : Bytes
  pub expiration : Bytes

-- `amqp091.Delivery`, as far as the code reads it.
pub record Delivery : Type 0 where
  pub exchange : Bytes
  pub routing_key : Bytes
  pub content_type : Bytes
  pub content_encoding : Bytes
  pub message_type : Bytes
  pub body : Bytes
  pub headers : Option Table
  pub priority : ℕ
  pub correlation_id : Bytes
  pub reply_to : Bytes
  pub message_id : Bytes
  pub user_id : Bytes
  pub app_id : Bytes
  pub expiration : Bytes

pub data Call : Type 0 where
  -- `DialConfig`: the url, the connection's name, the timeout where one is set
  dial : Bytes → Bytes → Option ℤ → Call
  open_channel : Call
  confirm_mode : Call
  qos : ℤ → Call
  close_connection : Call
  close_channel : Call
  -- always a durable topic exchange
  exchange_declare : Bytes → Call
  -- always a durable queue
  queue_declare : Bytes → QueueArgs → Call
  -- queue, key, exchange
  queue_bind : Bytes → Bytes → Bytes → Call
  queue_unbind : Bytes → Bytes → Bytes → Call
  -- queue, consumer tag
  consume : Bytes → Bytes → Call
  cancel : Bytes → Call

abbrev pub History : Type 0
History = List Call

-- `none` is success.
abbrev pub Broker : Type 0
Broker = History → Call → Option AmqpError

abbrev pub Amqp {ℓ} : Type ℓ → Type ℓ
Amqp A = Broker → History → History × Result A

-- What follows a call, if it was answered without an error.
abbrev pub resume {ℓ κ} :
    {A : Type ℓ} {B : Type κ} → (A → Amqp B) → Broker → History × Result A → History × Result B
resume f broker (h, ok a) = f a broker h
resume f broker (h, err e) = (h, err e)

infixl 5 ◌>>=◌
abbrev pub ◌>>=◌ {ℓ κ} : {T : Type ℓ} {U : Type κ} → Amqp T → (T → Amqp U) → Amqp U
◌>>=◌ m f broker h = resume f broker (m broker h)

infixl 5 ◌>>◌
abbrev pub ◌>>◌ {ℓ κ} : {T : Type ℓ} {U : Type κ} → Amqp T → Amqp U → Amqp U
m >> k = m >>= λ _. k

abbrev pub return {ℓ} : {A : Type ℓ} → A → Amqp A
return a broker h = (h, ok a)

abbrev pub answer : Option AmqpError → Result (Unit {0})
answer none = ok tt
answer (some e) = err (amqp e)

-- One call on the wire.
unfoldable pub call : Call → Amqp (Unit {0})
call c broker h = (h ++ c ∷ [], answer (broker h c))

-- A call that opens something, which is named by its place.
unfoldable pub open_call : Call → Amqp ℕ
unfolding call
open_call c broker h = (call c >> return (length h)) broker h

abbrev pub close_on_error {ℓ} : {A : Type ℓ} → History × Result A → History × Result A
close_on_error (h, ok a) = (h, ok a)
close_on_error (h, err e) = (h ++ close_connection ∷ [], err e)

-- On an error `_ = conn.Close()`, whose own answer is dropped, and then the error.
unfoldable pub closing {ℓ} : {A : Type ℓ} → Amqp A → Amqp A
closing m broker h = close_on_error (m broker h)

pub resume_assoc {ℓ κ μ} :
    {A : Type ℓ} {B : Type κ} {C : Type μ} (f : A → Amqp B) (g : B → Amqp C) (broker : Broker)
    (r : History × Result A)
    → resume g broker (resume f broker r) ≡ resume (λ a. f a >>= g) broker r
resume_assoc f g broker (h, ok a) = refl
resume_assoc f g broker (h, err e) = refl
