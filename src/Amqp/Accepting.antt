-- ===== src/Amqp/Accepting.antt =====
-- Computations over a broker that accepts every call.
use gorabbit.Prelude.{none, ◌≡◌, refl, length}
use gorabbit.Errors.{Result, ok, err}
use gorabbit.Amqp.{
  Amqp, Broker, History, Call, call, open_call, closing, close_on_error, return, resume,
}

abbrev pub IsAccepting : Broker → Type 0
IsAccepting b = (h : History) (c : Call) → b h c ≡ none

-- A value, with the property.
abbrev pub Yields {ℓ} : {A : Type ℓ} → (A → Type 0) → Result A → Type 0
Yields P (ok a) = P a
Yields P (err e) = ⊥

abbrev pub Anything {ℓ} : {A : Type ℓ} → A → Type 0
Anything a = Unit

pub resume-Yields {ℓ κ} :
    {A : Type ℓ} {B : Type κ} (P : A → Type 0) (Q : B → Type 0) (f : A → Amqp B) (b : Broker)
    (r : History × Result A)
    → Yields P r.1
    → ((a : A) (h : History) → P a → Yields Q (f a b h).1)
    → Yields Q (resume f b r).1
resume-Yields P Q f b (h, ok a) p q = q a h p
resume-Yields P Q f b (h, err e) p q = p

pub call-Yields :
    (c : Call) (b : Broker) (h : History) → IsAccepting b → Yields Anything (call c b h).1
unfolding call
call-Yields c b h a = rw (a h c) tt

pub open_call-Yields :
    (c : Call) (b : Broker) (h : History)
    → IsAccepting b
    → Yields (λ n. n ≡ length h) (open_call c b h).1
unfolding open_call
open_call-Yields c b h a =
    resume-Yields Anything (λ n. n ≡ length h) (λ _. return (length h)) b (call c b h)
      (call-Yields c b h a) (λ u k p. refl)

pub closing-Yields {ℓ} :
    {A : Type ℓ} (P : A → Type 0) (m : Amqp A) (b : Broker) (h : History)
    → Yields P (m b h).1
    → Yields P (closing m b h).1
unfolding closing
closing-Yields {A = A} P m b h p = go (m b h) p
  where
    go : (r : History × Result A) → Yields P r.1 → Yields P (close_on_error r).1
    go (k, ok a) q = q
    go (k, err e) q = q
