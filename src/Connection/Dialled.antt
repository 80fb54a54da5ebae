-- ===== src/Connection/Dialled.antt =====
-- rabbitmq/rabbitmq.go, `dial`: what a dial that succeeds hands out.
use gorabbit.Prelude.{
  ℕ, ◌+◌, none, some, [], ◌∷◌, ◌++◌, ◌≡◌, refl, ap, ap₂, ◌∙◌, Option, inl, inr, arith, Bool-cases,
  length, length-append, ◌&&◌,
}
use gorabbit.Prelude.Int.{is_positive}
use gorabbit.Errors.{AmqpError, Result, ok, err}
use gorabbit.Setup.{Setup}
use gorabbit.Client.{BrokerConn}
use gorabbit.Amqp.{
  Amqp, Broker, History, Call, call, open_call, closing, close_on_error, resume, return, answer,
  open_channel, confirm_mode, qos, ◌>>=◌, ◌>>◌,
}
use gorabbit.Connection.Defs.{dial_broker, dial_call, open_channels, set_prefetch}

-- The connection of the `n`th call of the history, with the channels of the two calls behind it; the
-- tracker of returns listens to the second.
abbrev pub numbered : ℕ → BrokerConn
numbered n = record { conn = n; ch = n + 1; pub_ch = n + 2; returns = n + 2 }

resume-ok {ℓ κ} :
    {A : Type ℓ} {B : Type κ} (f : A → Amqp B) (b : Broker) (r : History × Result A) {x : B}
    → (resume f b r).1 ≡ ok x
    → (a : A) × (r.1 ≡ ok a) × ((f a b r.0).1 ≡ ok x)
resume-ok f b (h, ok a) e = (a, refl, e)
resume-ok f b (h, err y) e = cc

closing-ok {ℓ} :
    {A : Type ℓ} (m : Amqp A) (b : Broker) (h : History) {x : A}
    → (closing m b h).1 ≡ ok x
    → (m b h).1 ≡ ok x
unfolding closing
closing-ok {A = A} m b h {x} = inside (m b h)
  where
    inside : (r : History × Result A) → (close_on_error r).1 ≡ ok x → r.1 ≡ ok x
    inside (k, ok a) e = e
    inside (k, err y) e = e

-- A call that was answered without an error, and the name of what it opened.
open_call-ok :
    (c : Call) (b : Broker) (h : History) {n : ℕ}
    → (open_call c b h).1 ≡ ok n
    → (n ≡ length h) × ((open_call c b h).0 ≡ h ++ c ∷ [])
unfolding open_call call
open_call-ok c b h {n} e = by_answer (b h c) e
  where
    by_answer :
        (o : Option AmqpError)
        → (resume (λ _. return (length h)) b (h ++ c ∷ [], answer o)).1 ≡ ok n
        → (n ≡ length h)
          × ((resume (λ _. return (length h)) b (h ++ c ∷ [], answer o)).0 ≡ h ++ c ∷ [])
    by_answer none f = (cc, refl)
    by_answer (some x) f = cc

next_place : (c : Call) (h : History) → length (h ++ c ∷ []) ≡ length h + 1
next_place c h = omega (arith, length-append h (c ∷ []))

set_prefetch-ok :
    (s : Setup) (bc : BrokerConn) (b : Broker) (h : History) {x : BrokerConn}
    → (set_prefetch s bc b h).1 ≡ ok x
    → x ≡ bc
unfolding set_prefetch
set_prefetch-ok s bc b h {x} e =
    elim (Bool-cases (s.is_consumer && is_positive s.pre_fetch_count)) [
      | inl f ↦
          let (u, _, g) =
            resume-ok (λ _. return bc) b (call (qos s.pre_fetch_count) b h) (rw f at e) in
          cc g
      | inr f ↦ cc (rw f at e)
    ]

open_channels-ok :
    (s : Setup) (conn : ℕ) (b : Broker) (h : History) {x : BrokerConn}
    → (open_channels s conn b h).1 ≡ ok x
    → x ≡ record { conn = conn; ch = length h; pub_ch = length h + 1; returns = length h + 1 }
unfolding open_channels
open_channels-ok s conn b h {x} e =
    let bc = λ (ch pub_ch : ℕ).
      let r : BrokerConn = record { conn = conn; ch = ch; pub_ch = pub_ch; returns = pub_ch } in
      r in
    let confirmed = λ (ch pub_ch : ℕ). call confirm_mode >> set_prefetch s (bc ch pub_ch) in
    let second = λ (ch : ℕ). open_call open_channel >>= confirmed ch in
    let (ch, e1, f1) = resume-ok second b (open_call open_channel b h) e in
    let h1 = (open_call open_channel b h).0 in
    let (pub_ch, e2, f2) = resume-ok (confirmed ch) b (open_call open_channel b h1) f1 in
    let h2 = (open_call open_channel b h1).0 in
    let (u, e3, f3) =
      resume-ok (λ _. set_prefetch s (bc ch pub_ch)) b (call confirm_mode b h2) f2 in
    let (first, grown) = open_call-ok open_channel b h e1 in
    let (again, _) = open_call-ok open_channel b h1 e2 in
    let places : pub_ch ≡ length h + 1 = again ∙ ap length grown ∙ next_place open_channel h in
    set_prefetch-ok s (bc ch pub_ch) b (call confirm_mode b h2).0 f3 ∙ ap₂ bc first places

-- A dial that succeeds hands out the connection of the next call and its two channels.
pub dial_broker-ok :
    (s : Setup) (b : Broker) (h : History) {x : BrokerConn}
    → (dial_broker s b h).1 ≡ ok x
    → x ≡ numbered (length h)
unfolding dial_broker
dial_broker-ok s b h {x} e =
    let inner = λ (conn : ℕ). closing (open_channels s conn) in
    let (conn, e1, f1) = resume-ok inner b (open_call (dial_call s) b h) e in
    let h1 = (open_call (dial_call s) b h).0 in
    let (first, grown) = open_call-ok (dial_call s) b h e1 in
    let there = open_channels-ok s conn b h1 (closing-ok (open_channels s conn) b h1 f1) in
    let places : length h1 ≡ length h + 1 = ap length grown ∙ next_place (dial_call s) h in
    there ∙ rw (first, places) (at_places (length h))
  where
    at_places :
        (n : ℕ)
        → (let r : BrokerConn = record {
          conn = n;
          ch = n + 1;
          pub_ch = n + 1 + 1;
          returns = n + 1 + 1;
        } in
            r)
          ≡ numbered n
    at_places n = ap (λ m. record { conn = n; ch = n + 1; pub_ch = m; returns = m }) (omega arith)
