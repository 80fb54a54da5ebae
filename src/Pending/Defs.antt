-- ===== src/Pending/Defs.antt =====
-- The loop of `retryPendingMessages` as a state with the cases of its select; a flush is given by
-- the number of messages that it leaves. Delays are nanoseconds.
use gorabbit.Prelude.{ℕ, suc, ◌*◌, Bool, true, false, Option, none, some, if◌then◌else◌, ltb, ◌==◌}

abbrev pub pending_retry_delay : ℕ
pending_retry_delay = 5_000_000_000

abbrev pub max_pending_retry_delay : ℕ
max_pending_retry_delay = 300_000_000_000

-- `timer` is the time that the timer was last set to, until it fires.
pub record Retry : Type 0 where
  pub delay : ℕ
  pub waiting : Bool
  pub timer : Option ℕ

unfoldable pub started : Retry
started = record { delay = pending_retry_delay; waiting = false; timer = none }

-- The case of `c.pending`.
unfoldable pub on_signal : Retry → Retry
on_signal r =
    if r.waiting
    then r
    else record { delay = pending_retry_delay; waiting = true; timer = some pending_retry_delay }

abbrev pub min_ℕ : ℕ → ℕ → ℕ
min_ℕ a b = if ltb b a then b else a

-- The case of the timer, whose flush left this many messages.
unfoldable pub on_timer : ℕ → Retry → Retry
on_timer left r =
    if left == 0
    then record { delay = r.delay; waiting = false; timer = none }
    else let delay = min_ℕ (2 * r.delay) max_pending_retry_delay in
      record { delay = delay; waiting = r.waiting; timer = some delay }

-- The state after the timer has fired, each time with messages left.
unfoldable pub delays : ℕ → Retry → Retry
unfolding on_timer
delays ℕ.zero r = r
delays (suc n) r = on_timer 1 (delays n r)
