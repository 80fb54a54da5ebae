-- ===== src/Amqp/Foreign.antt =====
-- The errors of calls and of chains of calls are the amqp091 client's own.
use gorabbit.Prelude.{length, Option, none, some}
use gorabbit.Errors.{AmqpError, Result, ok, err, amqp}
use gorabbit.Amqp.{
  Amqp, Broker, History, Call, call, open_call, closing, return, resume, answer, close_on_error,
}

abbrev pub IsForeign {ℓ} : {A : Type ℓ} → Result A → Type 0
IsForeign (ok a) = Unit
IsForeign (err (amqp e)) = Unit
IsForeign (err e) = ⊥

pub call-IsForeign : (c : Call) (b : Broker) (h : History) → IsForeign (call c b h).1
unfolding call
call-IsForeign c b h = go (b h c)
  where
    go : (o : Option AmqpError) → IsForeign (answer o)
    go none = tt
    go (some e) = tt

pub resume-IsForeign {ℓ κ} :
    {A : Type ℓ} {B : Type κ} (f : A → Amqp B) (b : Broker) (r : History × Result A)
    → IsForeign r.1
    → ((a : A) (h : History) → IsForeign (f a b h).1)
    → IsForeign (resume f b r).1
resume-IsForeign f b (h, ok a) p q = q a h
resume-IsForeign f b (h, err (amqp e)) p q = tt
resume-IsForeign f b (h, err _) p q = p

pub open_call-IsForeign : (c : Call) (b : Broker) (h : History) → IsForeign (open_call c b h).1
unfolding open_call
open_call-IsForeign c b h =
    resume-IsForeign (λ _. return (length h)) b (call c b h) (call-IsForeign c b h) (λ a h'. tt)

closing_result-IsForeign {ℓ} :
    {A : Type ℓ} (r : History × Result A) → IsForeign r.1 → IsForeign (close_on_error r).1
closing_result-IsForeign (h, ok a) p = tt
closing_result-IsForeign (h, err e) p = p

pub closing-IsForeign {ℓ} :
    {A : Type ℓ} (m : Amqp A) (b : Broker) (h : History)
    → IsForeign (m b h).1
    → IsForeign (closing m b h).1
unfolding closing
closing-IsForeign m b h p = closing_result-IsForeign (m b h) p
