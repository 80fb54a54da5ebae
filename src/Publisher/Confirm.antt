-- ===== src/Publisher/Confirm.antt =====
-- What a nil error of a publish means, and what each failure leaves behind.
use gorabbit.Prelude.{
  ℕ, Bytes, true, false, none, some, ◌≡◌, ◌≢◌, ◌↔◌, ◌⊎◌, inl, inr, refl, Bool-cases, arith,
  if◌then◌else◌,
}
use gorabbit.Errors.{Error, Result, ok, err, Result-cases}
use gorabbit.Client.{Client}
use gorabbit.Amqp.{Publishing}
use gorabbit.Returns.{was_returned, run}
use gorabbit.Wire.{Wire, Attempt}
use gorabbit.Connection.{set_connected}
use gorabbit.Connection.Channels.{publish_channel}
use gorabbit.Publisher.Defs.{publish_confirmed, confirm_answer}

-- The broker has the message: it was handed over without an error, acked, and not given back.
pub record IsDelivered (msg_id : Bytes) (a : Attempt) : Type 0 where
  pub sent : a.publish_err ≡ none
  pub awaited : a.has_confirmation ≡ true
  pub kept : (was_returned msg_id (run a.events)).1 ≡ false
  pub waited : a.wait_err ≡ none
  pub acked : a.acked ≡ true

pub confirm_answer_iff :
    (id : Bytes) (a : Attempt) → ((confirm_answer id a).1 ≡ none) ↔ IsDelivered id a
unfolding confirm_answer
confirm_answer_iff id a = ground arith

abbrev pub HasChannel : Result (ℕ × ℕ) → Type 0
HasChannel (ok r) = Unit
HasChannel (err e) = ⊥

never : {e : Error} → ¬ (some e ≡ none)
never n = cc

-- The connection is given up only with an error, while the caller waits.
confirm_answer_drop :
    (id : Bytes) (a : Attempt)
    → (confirm_answer id a).0 ≡ true
    → ((confirm_answer id a).1 ≢ none) × (a.ctx_over ≡ false)
unfolding confirm_answer
confirm_answer_drop id a h = (λ n. ground arith, ground arith)

drop_cases :
    (id : Bytes) (a : Attempt) (c : Client)
    → let c' = if (confirm_answer id a).0 then set_connected false c else c in
      (c' ≡ c)
      ⊎ ((c' ≡ set_connected false c) × ((confirm_answer id a).1 ≢ none) × (a.ctx_over ≡ false))
drop_cases id a c = elim (Bool-cases (confirm_answer id a).0) [
  | inl e ↦ let (failed, waiting) = confirm_answer_drop id a e in rw e (inr (refl, failed, waiting))
  | inr e ↦ rw e (inl refl)
]

confirm_answer-IsDelivered :
    (id : Bytes) (a : Attempt) → IsDelivered id a → confirm_answer id a ≡ (false, none)
unfolding confirm_answer
confirm_answer-IsDelivered id a d = ground (arith, d.sent, d.awaited, d.kept, d.waited, d.acked)

module _ (W : Wire) (exchange key : Bytes) (msg : Publishing) (c : Client) (s : W.State) where
  open W use {publish as send, is_closed}

  no_channel :
      {e : Error}
      → publish_channel (is_closed s) c ≡ err e
      → publish_confirmed W exchange key msg c s ≡ (c, s, some e)
  unfolding publish_confirmed
  no_channel h = rw (h, publish_confirmed)

  with_channel :
      {r : ℕ × ℕ}
      → publish_channel (is_closed s) c ≡ ok r
      → let (s', a) = send exchange key msg s in
        publish_confirmed W exchange key msg c s ≡ (
          if (confirm_answer msg.message_id a).0 then set_connected false c else c,
          s',
          (confirm_answer msg.message_id a).1,
        )
  unfolding publish_confirmed
  with_channel h = rw (h, publish_confirmed)

  pub publish_confirmed_lem :
      let (c', s', e) = publish_confirmed W exchange key msg c s in
      let a = (send exchange key msg s).1 in
      ((e ≡ none) ↔ (HasChannel (publish_channel (is_closed s) c) × IsDelivered msg.message_id a))
      × ((c' ≡ c) ⊎ ((c' ≡ set_connected false c) × (e ≢ none) × (a.ctx_over ≡ false)))
      × (¬ HasChannel (publish_channel (is_closed s) c) → (s' ≡ s) × (c' ≡ c))
  publish_confirmed_lem = elim (Result-cases (publish_channel (is_closed s) c)) [
    | inl (r, h) ↦
        rw (with_channel h, h)
          (
            (λ n. (tt, (confirm_answer_iff _ _).0 n), λ q. (confirm_answer_iff _ _).1 q.1),
            drop_cases msg.message_id (send exchange key msg s).1 c,
            λ n. absurd (n tt),
          )
    | inr (x, h) ↦
        rw (no_channel h, h) ((λ n. absurd (never n), λ q. absurd q.0), inl refl, λ _. (refl, refl))
  ]

  -- What a publish leaves that the broker confirms.
  pub confirmed :
      HasChannel (publish_channel (is_closed s) c)
      → IsDelivered msg.message_id (send exchange key msg s).1
      → publish_confirmed W exchange key msg c s ≡ (c, (send exchange key msg s).0, none)
  confirmed channel d = elim (Result-cases (publish_channel (is_closed s) c)) [
    | inl (r, h) ↦
        rw (with_channel h, confirm_answer-IsDelivered msg.message_id (send exchange key msg s).1 d)
          refl
    | inr (x, h) ↦ absurd (rw h at channel)
  ]
