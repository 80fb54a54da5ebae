-- ===== src/Cache/Memory/Defs.antt =====
-- cache.go, `memoryCache`. Each method runs under the lock of the cache, and reads the clock as
-- one value, `now`, in nanoseconds.
use gorabbit.Prelude.{
  ℕ, ◌+◌, Bytes, Bool, true, false, Option, none, some, List, [], ◌∷◌, ltb, if◌then◌else◌, lookup,
  insert, erase, Assoc,
}
use gorabbit.Prelude.Int.{ℤ, is_positive, pos_part}
use gorabbit.Cache.Glob.{glob_match}

-- `expires_at` is absent where Go has the zero time.
pub record MemoryEntry : Type 0 where
  pub contents : Bytes
  pub expires_at : Option ℕ

-- The field `entries`.
abbrev pub Entries : Type 0
Entries = Assoc MemoryEntry

unfoldable pub new_memory_cache : Entries
new_memory_cache = []

unfoldable pub expired : ℕ → MemoryEntry → Bool
expired now e = elim e.expires_at [ none ↦ false | some t ↦ ltb t now ]

unfoldable pub evict_expired : ℕ → Entries → Entries
unfolding expired
evict_expired now [] = []
evict_expired now ((k, e) ∷ m) =
    let rest = evict_expired now m in if expired now e then rest else (k, e) ∷ rest

-- `ttl` is a duration, which the caller may give as 0 or less for no expiry.
unfoldable pub new_entry : ℕ → Bytes → ℤ → MemoryEntry
new_entry now contents ttl = record {
  contents = contents;
  expires_at = if is_positive ttl then some (now + pos_part ttl) else none;
}

unfoldable pub store : ℕ → Bytes → Bytes → ℤ → Entries → Entries
unfolding new_entry
store now key contents ttl m = insert key (new_entry now contents ttl) m

unfoldable pub set : ℕ → Bytes → Bytes → ℤ → Entries → Entries
unfolding store evict_expired
set now key contents ttl m = store now key contents ttl (evict_expired now m)

unfoldable pub set_if_absent : ℕ → Bytes → Bytes → ℤ → Entries → Entries × Bool
unfolding store evict_expired
set_if_absent now key contents ttl m =
    let kept = evict_expired now m in
    elim (lookup key kept) [
      | some taken ↦ (kept, false)
      | none ↦ (store now key contents ttl kept, true)
    ]

-- `none` is the nil slice.
unfoldable pub get : ℕ → Bytes → Entries → Option Bytes
unfolding expired
get now key m = elim (lookup key m) [
  | none ↦ none
  | some e ↦ if expired now e then none else some e.contents
]

-- `globMatch` ends (Cache/Glob), so its answer is one of the two truth values.
abbrev pub answered_true : Option Bool → Bool
answered_true (some b) = b
answered_true none = false

unfoldable pub matching_keys : Bytes → Entries → List Bytes
matching_keys pattern [] = []
matching_keys pattern ((k, e) ∷ m) =
    let keys = matching_keys pattern m in
    if answered_true (glob_match pattern k) then k ∷ keys else keys

unfoldable pub get_all_keys : ℕ → Bytes → Entries → Entries × List Bytes
unfolding matching_keys evict_expired
get_all_keys now pattern m = let kept = evict_expired now m in (kept, matching_keys pattern kept)

unfoldable pub delete : List Bytes → Entries → Entries
delete [] m = m
delete (key ∷ keys) m = delete keys (erase key m)
