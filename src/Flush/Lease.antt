-- ===== src/Flush/Lease.antt =====
-- rabbitmq/lease.go: the lease against the publish that it covers.
use gorabbit.Prelude.{◌<◌, ◌^◌, true, ◌≡◌, arith}
use gorabbit.Prelude.Int.{ℤ, is_positive, pos_part}
use gorabbit.Setup.{Setup}
use gorabbit.Flush.Defs.{
  publish_lease_ttl, publish_attempt_timeout, double, max_ℤ, min_publish_lease_ttl,
}

max_positive : (a b : ℤ) → is_positive b ≡ true → is_positive (max_ℤ a b) ≡ true
max_positive a b h = ground arith

pub lease-positive : (s : Setup) → is_positive (publish_lease_ttl s) ≡ true
unfolding publish_lease_ttl
lease-positive s =
    max_positive (double (publish_attempt_timeout s)) min_publish_lease_ttl (ground arith)

-- The confirm timeout that `validate` accepts and whose fourfold fits into 63 bits.
pub record IsTimely (s : Setup) : Type 0 where
  pub positive : is_positive s.confirm_timeout ≡ true
  pub fits : pos_part s.confirm_timeout < 2 ^ 61
