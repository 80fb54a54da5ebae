-- ===== src/Prelude/Int.antt =====
-- Go's `int` and `time.Duration` (nanoseconds), which may be negative: a sign and a size. The
-- code under study compares them with 0 and 1, adds one, doubles, and takes `min` and `max`.
use gorabbit.Prelude.Tests.{ltb, if◌then◌else◌}
use Prim.Native.Nat.{ℕ, zero, suc, ◌-◌, ◌%◌, ◌^◌, ◌<◌}
use mathlib.Core.Path.{◌≡◌}
use native.Mathlib.Nat.{mod-eq_of_lt}
use native.Mathlib.Omega.{arith}
use mathlib.Core.Bool.{Bool, true, false}

-- `negsuc n` is -(n + 1).
pub data ℤ : Type 0 where
  pos : ℕ → ℤ
  negsuc : ℕ → ℤ

-- d > 0
abbrev pub is_positive : ℤ → Bool
is_positive (pos n) = ltb 0 n
is_positive (negsuc n) = false

-- The value where it is positive, else 0.
abbrev pub pos_part : ℤ → ℕ
pos_part (pos n) = n
pos_part (negsuc n) = 0

-- a < b
abbrev pub ltb_ℤ : ℤ → ℤ → Bool
ltb_ℤ (pos a) (pos b) = ltb a b
ltb_ℤ (pos a) (negsuc b) = false
ltb_ℤ (negsuc a) (pos b) = true
ltb_ℤ (negsuc a) (negsuc b) = ltb b a

-- a + 1
abbrev pub add_one_ℤ : ℤ → ℤ
add_one_ℤ (pos a) = pos (suc a)
add_one_ℤ (negsuc zero) = pos 0
add_one_ℤ (negsuc (suc a)) = negsuc a

-- What is left of a value in 64 bits, in two's complement.
unfoldable pub int64 : ℤ → ℤ
int64 (pos n) = let m = n % 2 ^ 64 in if ltb m (2 ^ 63) then pos m else negsuc (2 ^ 64 - 1 - m)
int64 (negsuc n) = let m = n % 2 ^ 64 in if ltb m (2 ^ 63) then negsuc m else pos (2 ^ 64 - 1 - m)

below : (n : ℕ) → n < 2 ^ 63 → n < 2 ^ 64
below n h = omega (arith, h)

pub int64_fits : (n : ℕ) → n < 2 ^ 63 → int64 (pos n) ≡ pos n
unfolding int64
int64_fits n h = rw (mod-eq_of_lt (below n h)) (ground (arith, h))
