-- ===== src/Consumer/Retry.antt =====
-- When a delivery is answered, and with what.
use gorabbit.Prelude.{
  Bool, true, false, Option, none, some, ◌≡◌, ◌≢◌, ◌⊎◌, inl, inr, refl, sym, ap, ◌∙◌, Bool-cases,
  Option-cases,
}
use gorabbit.Prelude.Int.{ltb_ℤ}
use gorabbit.Errors.{Error}
use gorabbit.Client.{Client, HandlerInfo}
use gorabbit.Amqp.{Delivery}
use gorabbit.Wire.{Wire}
use gorabbit.Publisher.Confirm.{IsDelivered, publish_confirmed_lem}
use gorabbit.Consumer.Defs.{
  Settlement, acked, dead_lettered, Outcome, handler_for, should_retry, next_count, retry_headers,
  retry_copy, republish_message, republish_message_to_retry_exchange, process_message,
  after_republish, after_handler, end_with,
}

clash : {b : Bool} → b ≡ false → b ≡ true → ⊥
clash e f = cc

module _ (W : Wire) (settle : Settlement → Option Error) (d : Delivery) (c : Client)
    (s : W.State) where
  open W use {publish as send}

  -- The delivery with the headers of its copy.
  abbrev pub counted : Delivery
  counted = record d { headers = some (retry_headers c.setup d) }

  -- The handler of the delivery returned nil.
  pub record IsAccepted : Type 0 where
    pub info : HandlerInfo
    pub found : handler_for c d ≡ some info
    pub returned : info.handler d ≡ none

  -- The handler of the delivery failed, the setup tries that failure again and has a try left.
  pub record IsRetried : Type 0 where
    pub info : HandlerInfo
    pub error : Error
    pub found : handler_for c d ≡ some info
    pub failed : info.handler d ≡ some error
    pub tries : should_retry c.setup error ≡ true
    pub left : ltb_ℤ c.setup.retry_count (next_count d) ≡ false

  -- The broker has the copy, on the retry exchange and under the key of the delivery.
  abbrev pub HasCopy : Type 0
  HasCopy =
      IsDelivered d.message_id (send c.setup.retry_name d.routing_key (retry_copy counted) s).1

  abbrev copied : Client × W.State × Option Error
  copied = republish_message W settle c.setup.retry_name d.routing_key counted c s

  copied-HasCopy : copied.2 ≡ none → HasCopy
  unfolding republish_message
  copied-HasCopy e =
      ((publish_confirmed_lem W c.setup.retry_name d.routing_key (retry_copy counted) c s).0.0 e).1

  -- What the answer to a delivery says about it.
  pub record IsSettled (o : Outcome W settle) : Type 0 where
    pub acks : o.settled ≡ some acked → IsAccepted ⊎ (IsRetried × HasCopy)
    pub leaves : o.settled ≡ none → IsRetried × (o.error ≢ none)
    pub rejects :
        o.settled ≡ some dead_lettered → ¬ IsAccepted × ¬ IsRetried × (o.client ≡ c) × (o.wire ≡ s)

  same_info : {a b : HandlerInfo} → some a ≡ some b → a ≡ b
  same_info e = cc

  after_republish-IsSettled :
      (p : Client × W.State × Option Error)
      → IsRetried
      → (p.2 ≡ none → HasCopy)
      → IsSettled (after_republish W settle p)
  after_republish-IsSettled (c', s', none) r h = record {
    acks = λ _. inr (r, h refl);
    leaves = λ e. cc;
    rejects = λ e. cc;
  }
  after_republish-IsSettled (c', s', some x) r h = record {
    acks = λ e. cc;
    leaves = λ _. (r, λ e. cc);
    rejects = λ e. cc;
  }

  rejected-IsSettled : ¬ IsAccepted → ¬ IsRetried → IsSettled (end_with W settle dead_lettered c s)
  rejected-IsSettled na nr = record {
    acks = λ e. cc;
    leaves = λ e. cc;
    rejects = λ _. (na, nr, refl, refl);
  }

  to_retry-IsSettled :
      (info : HandlerInfo) (x : Error)
      → handler_for c d ≡ some info
      → info.handler d ≡ some x
      → should_retry c.setup x ≡ true
      → ¬ IsAccepted
      → IsSettled (republish_message_to_retry_exchange W settle d c s)
  unfolding republish_message_to_retry_exchange
  to_retry-IsSettled info x f g t na =
      elim (Bool-cases (ltb_ℤ c.setup.retry_count (next_count d))) [
        | inl b ↦ rw b (rejected-IsSettled na (λ r. cc r.left))
        | inr b ↦ rw b (
            after_republish-IsSettled copied
              (record { info = info; error = x; found = f; failed = g; tries = t; left = b })
              copied-HasCopy)
      ]

  accepted_only :
      (info : HandlerInfo) (x : Error)
      → handler_for c d ≡ some info
      → info.handler d ≡ some x
      → ¬ IsAccepted
  accepted_only info x f g a =
      let e = same_info (sym f ∙ a.found) in
      never (sym g ∙ ap (λ (i : HandlerInfo). i.handler d) e ∙ a.returned)
    where
      never : some x ≡ none → ⊥
      never n = cc

  same_error :
      (info : HandlerInfo) (x : Error)
      → handler_for c d ≡ some info
      → info.handler d ≡ some x
      → (r : IsRetried) → x ≡ r.error
  same_error info x f g r =
      let e = same_info (sym f ∙ r.found) in
      cancel (sym g ∙ ap (λ (i : HandlerInfo). i.handler d) e ∙ r.failed)
    where
      cancel : {y : Error} → some x ≡ some y → x ≡ y
      cancel n = cc

  failed-IsSettled :
      (info : HandlerInfo) (x : Error)
      → handler_for c d ≡ some info
      → info.handler d ≡ some x
      → IsSettled (after_handler W settle d c s (some x))
  failed-IsSettled info x f g = elim (Bool-cases (should_retry c.setup x)) [
    | inl t ↦ rw t (to_retry-IsSettled info x f g t (accepted_only info x f g))
    | inr t ↦ rw t (
        rejected-IsSettled (accepted_only info x f g)
          (λ r. clash (sym (ap (should_retry c.setup) (same_error info x f g r)) ∙ t) r.tries))
  ]

  handled-IsSettled :
      (info : HandlerInfo)
      → handler_for c d ≡ some info
      → IsSettled (after_handler W settle d c s (info.handler d))
  handled-IsSettled info f = elim (Option-cases (info.handler d)) [
    | inl g ↦ rw g (record {
      acks = λ _. inl (record { info = info; found = f; returned = g });
      leaves = λ e. cc;
      rejects = λ e. cc;
    })
    | inr (x, g) ↦ rw g (failed-IsSettled info x f g)
  ]

  pub process_message_lem : IsSettled (process_message W settle d c s)
  unfolding process_message
  process_message_lem = elim (Option-cases (handler_for c d)) [
    | inl f ↦ rw (f, process_message) (rejected-IsSettled (λ a. cc a.found) (λ r. cc r.found))
    | inr (info, f) ↦ rw (f, process_message) (handled-IsSettled info f)
  ]
