-- ===== src/Flush/Replicas.antt =====
-- rabbitmq/common.go and rabbitmq/lease.go: the replicas of one application flush one message that
-- waits in a memory cache that they share. A step is what one replica does between two points where
-- another may run: one call of the cache, or the publish with its answer.
pub mod Calls
pub mod Lock
pub mod Once
pub mod Takeover
use gorabbit.Prelude.{
  ℕ, ◌+◌, ◌≤◌, Bytes, Bool, true, false, Option, none, some, List, [], ◌∷◌, ◌≡◌, ◌≢◌, ◌==◌,
  if◌then◌else◌, IsUnique,
}
use gorabbit.Prelude.Int.{ℤ, pos_part}
use gorabbit.Setup.{Setup}
use gorabbit.Scope.{cache_key, lease_key}
use gorabbit.Cache.Memory.{Entries, set, set_if_absent, get, get_all_keys, delete}
use gorabbit.Flush.Defs.{publish_lease_ttl}

-- Where a replica stands in `flushCachedMessages` with the message, and since when it holds the
-- reservation: not at it; before `readCachedMessage`; before `publish`; with the broker's
-- confirmation; with a failed publish.
pub data Phase : Type 0 where
  idle : Phase
  reserved holding confirmed failed : ℕ → Phase

pub record System : Type 0 where
  pub now : ℕ
  pub entries : Entries
  pub phases : ℕ → Phase
  -- How many times the broker has confirmed the message to one of them.
  pub accepted : ℕ

abbrev pub update : ℕ → Phase → (ℕ → Phase) → ℕ → Phase
update i p f j = if i == j then p else f j

abbrev pub enter : System → ℕ → Phase → Entries → System
enter s i p m = record s { phases = update i p s.phases; entries = m }

-- When the reservation was won that the phase is under.
abbrev pub won_at : Phase → Option ℕ
won_at idle = none
won_at (reserved t) = some t
won_at (holding t) = some t
won_at (confirmed t) = some t
won_at (failed t) = some t

-- A call of the cache.
pub data Op : Type 0 where
  op_set op_set_if_absent : Bytes → Bytes → ℤ → Op
  op_list op_delete : Bytes → Op

abbrev pub run_op : ℕ → Op → Entries → Entries
run_op now (op_set k c ttl) m = set now k c ttl m
run_op now (op_set_if_absent k c ttl) m = (set_if_absent now k c ttl m).0
run_op now (op_list p) m = (get_all_keys now p m).0
run_op now (op_delete k) m = delete (k ∷ []) m

-- The call writes under another key.
abbrev pub Spares : Bytes → Op → Type 0
Spares j (op_set k c ttl) = k ≢ j
Spares j (op_set_if_absent k c ttl) = k ≢ j
Spares j (op_list p) = Unit
Spares j (op_delete k) = k ≢ j

-- `scope` is the scope that the replicas share, `id` the message's, `setups` their setups.
module _ (scope id : Bytes) (setups : ℕ → Setup) where
  -- Each constructor is a line of the flush's loop, but for the last two: a call for another key, by
  -- whatever client, and the clock, which does not run over a reservation that is held.
  pub data Step : System → System → Type 0 where
    reserve :
        (s : System) (i : ℕ) (c : Bytes)
        → s.phases i ≡ idle
        → (set_if_absent s.now (lease_key scope id) c (publish_lease_ttl (setups i)) s.entries).1
          ≡ true
        → Step s (
            enter s i
              (reserved s.now)
              (set_if_absent s.now
                (lease_key scope id)
                c
                (publish_lease_ttl (setups i))
                s.entries).0)
    lose :
        (s : System) (i : ℕ) (c : Bytes)
        → s.phases i ≡ idle
        → (set_if_absent s.now (lease_key scope id) c (publish_lease_ttl (setups i)) s.entries).1
          ≡ false
        → Step s (record s {
          entries =
              (set_if_absent s.now
                (lease_key scope id)
                c
                (publish_lease_ttl (setups i))
                s.entries).0;
        })
    find :
        (s : System) (i t : ℕ) (json : Bytes)
        → s.phases i ≡ reserved t
        → get s.now (cache_key scope id) s.entries ≡ some json
        → Step s (enter s i (holding t) s.entries)
    -- Nothing is under the key, or nothing that decodes.
    skip : (s : System) (i t : ℕ) → s.phases i ≡ reserved t → Step s (enter s i idle s.entries)
    confirm :
        (s : System) (i t : ℕ)
        → s.phases i ≡ holding t
        → Step s (record s { phases = update i (confirmed t) s.phases; accepted = s.accepted + 1 })
    fail : (s : System) (i t : ℕ) → s.phases i ≡ holding t → Step s (enter s i (failed t) s.entries)
    remove :
        (s : System) (i t : ℕ)
        → s.phases i ≡ confirmed t
        → Step s (enter s i idle (delete (cache_key scope id ∷ []) s.entries))
    release :
        (s : System) (i t : ℕ)
        → s.phases i ≡ failed t
        → Step s (enter s i idle (delete (lease_key scope id ∷ []) s.entries))
    -- A process that dies, but for one that dies with the confirmation and before the removal.
    die :
        (s : System) (i : ℕ)
        → ((t : ℕ) → s.phases i ≢ confirmed t)
        → Step s (enter s i idle s.entries)
    elsewhere :
        (s : System) (o : Op)
        → Spares (cache_key scope id) o
        → Spares (lease_key scope id) o
        → Step s (record s { entries = run_op s.now o s.entries })
    tick :
        (s : System) (t : ℕ)
        → s.now ≤ t
        → ((i u : ℕ)
            → won_at (s.phases i) ≡ some u
            → t ≤ u + pos_part (publish_lease_ttl (setups i)))
        → Step s (record s { now = t })

  pub data Reach (s : System) : System → Type 0 where
    here : Reach s s
    next : {t u : System} → Reach s t → Step t u → Reach s u

-- One entry for a key, nobody at the message, and no confirmation yet.
pub record IsInitial (s : System) : Type 0 where
  pub unique : IsUnique s.entries
  pub at_rest : (i : ℕ) → s.phases i ≡ idle
  pub unsent : s.accepted ≡ 0
