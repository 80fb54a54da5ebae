-- ===== src/Pending/Timer.antt =====
-- The timer is set exactly while messages wait, and its delay stays between its bounds.
use gorabbit.Prelude.{ℕ, suc, ◌*◌, ◌≤◌, true, false, none, some, ◌≡◌, refl, arith, ap, ◌∙◌}
use gorabbit.Pending.Defs.{
  Retry, started, on_signal, on_timer, delays, min_ℕ, pending_retry_delay, max_pending_retry_delay,
}

-- A turn of the loop: a signal, or the timer that was set.
pub data Turn : Retry → Retry → Type 0 where
  signal : (r : Retry) → Turn r (on_signal r)
  fire : (r : Retry) (d left : ℕ) → r.timer ≡ some d → Turn r (on_timer left r)

pub data Turns : Retry → Type 0 where
  start : Turns started
  turn : {r t : Retry} → Turns r → Turn r t → Turns t

-- Messages wait exactly while the timer is set, and it is set to the delay, which is within bounds.
pub record IsTimed (r : Retry) : Type 0 where
  pub set : r.waiting ≡ true → r.timer ≡ some r.delay
  pub idle : r.waiting ≡ false → r.timer ≡ none
  pub at_least : pending_retry_delay ≤ r.delay
  pub at_most : r.delay ≤ max_pending_retry_delay

-- 2 ^ n
abbrev pub power : ℕ → ℕ
power ℕ.zero = 1
power (suc n) = 2 * power n

capped : (p m : ℕ) → min_ℕ (2 * min_ℕ (p * 5_000_000_000) m) m ≡ min_ℕ (2 * p * 5_000_000_000) m
capped p m = ground arith

-- After n flushes in a row that left messages behind, the delay is 5 s times 2 ^ n, but 5 min at
-- most.
pub delays_lem :
    (n : ℕ)
    → (delays n (on_signal started)).delay
      ≡ min_ℕ (power n * pending_retry_delay) max_pending_retry_delay
unfolding delays on_signal on_timer started
delays_lem ℕ.zero = refl
delays_lem (suc n) =
    ap (λ d. min_ℕ (2 * d) max_pending_retry_delay) (delays_lem n)
    ∙ capped (power n) max_pending_retry_delay
