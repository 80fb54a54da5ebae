-- ===== src/Samples/Replicas.antt =====
-- Two replicas at one message, and one that takes over from another.
use gorabbit.Prelude.{ℕ, ◌+◌, ◌≤◌, Bytes, none, some, [], ◌∷◌, codes, ◌≡◌, refl, lookup, insert}
use gorabbit.Setup.{Setup}
use gorabbit.Scope.{cache_key, lease_key}
use gorabbit.Cache.Memory.{Entries, set_if_absent, evict_expired, delete, get}
use gorabbit.Flush.{publish_lease_ttl}
use gorabbit.Flush.Replicas.{
  System, update, enter, won_at, idle, reserved, holding, confirmed, Reach, here, next, reserve,
  lose, find, confirm, remove, IsInitial,
}
use gorabbit.Flush.Replicas.Once.{Reach-once}
use gorabbit.Samples.Data.{billing}
use gorabbit.Prelude.Int.{pos_part}

abbrev both_billing : ℕ → Setup
both_billing i = billing

abbrev lease : Bytes
lease = lease_key (codes "s") (codes "1")

-- One message in the cache, and nobody at it.
abbrev resting : System
resting = record {
  now = 10;
  entries =
      (cache_key (codes "s") (codes "1"), record { contents = codes "m"; expires_at = none }) ∷ [];
  phases = λ i. idle;
  accepted = 0;
}

resting-IsInitial : IsInitial resting
unfolding lookup
resting-IsInitial = record { unique = (refl, tt); at_rest = λ i. refl; unsent = refl }

abbrev leased : System → Entries
leased s = (set_if_absent s.now lease (codes "c") (publish_lease_ttl billing) s.entries).0

abbrev reserved_once : System
reserved_once = enter resting 0 (reserved 10) (leased resting)

abbrev lost_once : System
lost_once = record reserved_once { entries = leased reserved_once }

abbrev found : System
found = enter lost_once 0 (holding 10) lost_once.entries

abbrev confirmed_once : System
confirmed_once = record found {
  phases = update 0 (confirmed 10) found.phases;
  accepted = found.accepted + 1;
}

abbrev removed_once : System
removed_once =
    enter confirmed_once 0 idle
      (delete (cache_key (codes "s") (codes "1") ∷ []) confirmed_once.entries)

-- One replica publishes the message while another asks for it.
removed-Reach : Reach (codes "s") (codes "1") both_billing resting removed_once
unfolding set_if_absent evict_expired lookup get cache_key lease_key publish_lease_ttl billing
    insert
removed-Reach =
    next
      (next
        (next
          (next (next here (reserve resting 0 (codes "c") refl refl))
            (lose reserved_once 1 (codes "c") refl refl))
          (find lost_once 0 10 (codes "m") refl refl))
        (confirm found 0 10 refl))
      (remove confirmed_once 0 10 refl)

Reach-once_example :
    ((i j a b : ℕ)
      → won_at (removed_once.phases i) ≡ some a
      → won_at (removed_once.phases j) ≡ some b
      → i ≡ j)
    × (removed_once.accepted ≤ 1)
Reach-once_example = Reach-once (codes "s") (codes "1") both_billing resting-IsInitial removed-Reach

abbrev longest : ℕ
longest = pos_part (publish_lease_ttl billing)
