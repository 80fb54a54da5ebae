-- ===== src/Amqp/Balance.antt =====
-- How many connections a sequence of calls opens and closes.
use gorabbit.Prelude.{
  ℕ, ◌+◌, Option, none, some, List, [], ◌∷◌, ◌++◌, ◌≡◌, refl, sym, ap, ◌∙◌, arith, append-nil,
  append_assoc,
}
use gorabbit.Errors.{AmqpError, Result, ok, err}
use gorabbit.Amqp.{Amqp, Broker, History, Call, call, resume, dial, close_connection}

abbrev pub accepted : Option AmqpError → ℕ
accepted none = 1
accepted (some e) = 0

-- The connections that a call opens, by the broker's answer to it, and that it closes.
abbrev opens : Broker → History → Call → ℕ
opens b h (dial u n t) = accepted (b h (dial u n t))
opens b h _ = 0

abbrev closes : Call → ℕ
closes close_connection = 1
closes _ = 0

abbrev pub opened : Broker → History → List Call → ℕ
opened b h [] = 0
opened b h (c ∷ cs) = opens b h c + opened b (h ++ c ∷ []) cs

abbrev pub closed_by : List Call → ℕ
closed_by [] = 0
closed_by (c ∷ cs) = closes c + closed_by cs

-- From a history to a longer one: the connections that were there and those that were opened are
-- those that were closed and those that are there.
pub record Balance (b : Broker) (h h' : History) (n m : ℕ) : Type 0 where
  pub calls : List Call
  pub grown : h' ≡ h ++ calls
  pub even : n + opened b h calls ≡ closed_by calls + m

opened-append :
    (b : Broker) (h : History) (cs ds : List Call)
    → opened b h (cs ++ ds) ≡ opened b h cs + opened b (h ++ cs) ds
opened-append b h [] ds = rw (append-nil h) (omega arith)
opened-append b h (c ∷ cs) ds =
    let there : (h ++ c ∷ []) ++ cs ≡ h ++ c ∷ cs = append_assoc h (c ∷ []) cs in
    omega (arith, opened-append b (h ++ c ∷ []) cs ds, ap (λ k. opened b k ds) there)

closed_by-append : (cs ds : List Call) → closed_by (cs ++ ds) ≡ closed_by cs + closed_by ds
closed_by-append [] ds = omega arith
closed_by-append (c ∷ cs) ds = omega (arith, closed_by-append cs ds)

pub Balance-refl : {b : Broker} {h : History} {n : ℕ} → Balance b h h n n
Balance-refl {b} {h} {n} = record { calls = []; grown = sym (append-nil h); even = omega arith }

pub Balance-trans :
    {b : Broker} {h k l : History} {n m i : ℕ}
    → Balance b h k n m
    → Balance b k l m i
    → Balance b h l n i
Balance-trans {b} {h} p q = record {
  calls = p.calls ++ q.calls;
  grown = q.grown ∙ ap (λ k. k ++ q.calls) p.grown ∙ append_assoc h p.calls q.calls;
  even = omega (
    arith,
    p.even,
    q.even,
    opened-append b h p.calls q.calls,
    closed_by-append p.calls q.calls,
    ap (λ k. opened b k q.calls) p.grown,
  );
}

-- One more connection on both sides.
pub Balance-frame :
    {b : Broker} {h k : History} {n m : ℕ} (i : ℕ)
    → Balance b h k n m
    → Balance b h k (n + i) (m + i)
Balance-frame i p = record { calls = p.calls; grown = p.grown; even = omega (arith, p.even) }

pub Balance-close : {b : Broker} {h : History} → Balance b h (h ++ close_connection ∷ []) 1 0
Balance-close = record { calls = close_connection ∷ []; grown = refl; even = omega arith }

-- A call that neither opens nor closes a connection.
abbrev pub IsPlain : Call → Type 0
IsPlain (dial u n t) = ⊥
IsPlain close_connection = ⊥
IsPlain _ = Unit

abbrev pub ArePlain : List Call → Type 0
ArePlain [] = Unit
ArePlain (dial u n t ∷ cs) = ⊥
ArePlain (close_connection ∷ cs) = ⊥
ArePlain (_ ∷ cs) = ArePlain cs

pub call-Balance :
    (c : Call) (b : Broker) (h : History) → IsPlain c → Balance b h (call c b h).0 0 0
unfolding call
call-Balance c b h p = record { calls = c ∷ []; grown = refl; even = plain c p }
  where
    plain : (c : Call) → IsPlain c → 0 + opened b h (c ∷ []) ≡ closed_by (c ∷ []) + 0
    plain (dial u n t) p = absurd p
    plain close_connection p = absurd p
    plain _ p = omega arith

pub resume-Balance {ℓ κ} :
    {A : Type ℓ} {B : Type κ} (f : A → Amqp B) (b : Broker) (h : History) (r : History × Result A)
    → Balance b h r.0 0 0
    → ((a : A) (k : History) → Balance b k (f a b k).0 0 0)
    → Balance b h (resume f b r).0 0 0
resume-Balance f b h (k, ok a) p q = Balance-trans p (q a k)
resume-Balance f b h (k, err e) p q = p
