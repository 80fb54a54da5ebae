-- ===== src/Cache/Memory/Keys.antt =====
-- A Go map has one entry for a key: every method of the memory cache keeps it so. What eviction
-- leaves behind.
use gorabbit.Prelude.{
  ℕ, ◌≤◌, Bytes, true, false, Option, none, some, List, [], ◌∷◌, if◌then◌else◌, lookup, ◌≡◌, refl,
  arith, bytes_eq_iff, Bool-cases, Option-cases, inl, inr, IsUnique, insert-IsUnique,
  erase-IsUnique,
}
use gorabbit.Prelude.Int.{ℤ}
use gorabbit.Cache.Memory.Defs.{
  MemoryEntry, Entries, expired, evict_expired, store, set, set_if_absent, get_all_keys, delete,
}

-- An entry that is not past its expiry.
abbrev pub live : ℕ → Option MemoryEntry → Option MemoryEntry
live now none = none
live now (some e) = if expired now e then none else some e

-- An entry that is past its expiry stays so.
pub expired_later : (t t' : ℕ) (e : MemoryEntry) → t ≤ t' → expired t e ≡ true → expired t' e ≡ true
unfolding expired
expired_later t t' e h x = ground arith

pub lookup-evict_expired :
    (now : ℕ) (k : Bytes) (m : Entries)
    → IsUnique m
    → lookup k (evict_expired now m) ≡ live now (lookup k m)
unfolding lookup evict_expired
lookup-evict_expired now k [] u = refl
lookup-evict_expired now k ((j, e) ∷ m) u =
    ground (arith, bytes_eq_iff j k, lookup-evict_expired now k m)

pub evict_expired-IsUnique : (now : ℕ) (m : Entries) → IsUnique m → IsUnique (evict_expired now m)
unfolding evict_expired
evict_expired-IsUnique now [] u = tt
evict_expired-IsUnique now ((k, e) ∷ m) u = elim (Bool-cases (expired now e)) [
  | inl x ↦ rw x (evict_expired-IsUnique now m u.1)
  | inr x ↦ rw x (rw (lookup-evict_expired now k m u.1, u.0), evict_expired-IsUnique now m u.1)
]

delete-IsUnique : (keys : List Bytes) (m : Entries) → IsUnique m → IsUnique (delete keys m)
unfolding delete
delete-IsUnique [] m u = u
delete-IsUnique (k ∷ keys) m u = delete-IsUnique keys _ (erase-IsUnique k m u)

pub set_if_absent_absent :
    (now : ℕ) (k c : Bytes) (ttl : ℤ) (m : Entries)
    → lookup k (evict_expired now m) ≡ none
    → set_if_absent now k c ttl m ≡ (set now k c ttl m, true)
unfolding set_if_absent set
set_if_absent_absent now k c ttl m e = rw (e, set_if_absent)

pub set_if_absent_taken :
    (now : ℕ) (k c : Bytes) (ttl : ℤ) (m : Entries) {d : MemoryEntry}
    → lookup k (evict_expired now m) ≡ some d
    → set_if_absent now k c ttl m ≡ (evict_expired now m, false)
unfolding set_if_absent
set_if_absent_taken now k c ttl m e = rw (e, set_if_absent)

set-IsUnique :
    (now : ℕ) (k c : Bytes) (ttl : ℤ) (m : Entries) → IsUnique m → IsUnique (set now k c ttl m)
unfolding set store
set-IsUnique now k c ttl m u = insert-IsUnique k _ _ (evict_expired-IsUnique now m u)

set_if_absent-IsUnique :
    (now : ℕ) (k c : Bytes) (ttl : ℤ) (m : Entries)
    → IsUnique m
    → IsUnique (set_if_absent now k c ttl m).0
set_if_absent-IsUnique now k c ttl m u = elim (Option-cases (lookup k (evict_expired now m))) [
  | inl e ↦ rw (set_if_absent_absent now k c ttl m e) (set-IsUnique now k c ttl m u)
  | inr (d, e) ↦ rw (set_if_absent_taken now k c ttl m e) (evict_expired-IsUnique now m u)
]

-- Every method that writes keeps one entry for a key.
pub methods-IsUnique :
    (now : ℕ) (k c : Bytes) (ttl : ℤ) (keys : List Bytes) (m : Entries)
    → IsUnique m
    → IsUnique (set now k c ttl m)
      × IsUnique (set_if_absent now k c ttl m).0
      × IsUnique (get_all_keys now k m).0
      × IsUnique (delete keys m)
unfolding get_all_keys
methods-IsUnique now k c ttl keys m u = (
  set-IsUnique now k c ttl m u,
  set_if_absent-IsUnique now k c ttl m u,
  evict_expired-IsUnique now m u,
  delete-IsUnique keys m u,
)
