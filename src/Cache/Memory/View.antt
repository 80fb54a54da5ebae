-- ===== src/Cache/Memory/View.antt =====
-- What a reader of the memory cache sees, now and later, after each method: a map in which an
-- entry with a ttl disappears once the ttl is over.
use gorabbit.Prelude.{
  ℕ, ◌+◌, ◌≤◌, ◌<◌, Bytes, Bool, true, false, Option, none, some, List, [], ◌∷◌, if◌then◌else◌, ltb,
  lookup, erase, ◌≡◌, ◌≢◌, ◌↔◌, refl, arith, bytes_eq, bytes_eq_refl, Bool-cases, Option-cases, inl,
  inr, ap, sym, ◌∙◌, IsUnique, lookup-insert, lookup-erase, ◌||◌, ◌&&◌,
}
use mathlib.Core.Bool.{false≢true}
use gorabbit.Prelude.Int.{ℤ, is_positive, pos_part}
use gorabbit.Cache.Memory.Defs.{
  MemoryEntry, Entries, expired, evict_expired, new_entry, store, set, set_if_absent, get, delete,
}
use gorabbit.Cache.Memory.Keys.{
  live, methods-IsUnique, expired_later, lookup-evict_expired, set_if_absent_absent,
  set_if_absent_taken,
}

-- The key is one of the list.
unfoldable pub has_key : Bytes → List Bytes → Bool
has_key j [] = false
has_key j (k ∷ keys) = bytes_eq k j || has_key j keys

seen : ℕ → Option MemoryEntry → Option Bytes
seen t none = none
seen t (some e) = if expired t e then none else some e.contents

get_lem : (t : ℕ) (k : Bytes) (m : Entries) → get t k m ≡ seen t (lookup k m)
unfolding get seen
get_lem t k m = elim (Option-cases (lookup k m)) [ inl e ↦ rw (e, get) | inr (d, e) ↦ rw (e, get) ]

seen-live : (t t' : ℕ) (o : Option MemoryEntry) → t ≤ t' → seen t' (live t o) ≡ seen t' o
unfolding seen
seen-live t t' none h = refl
seen-live t t' (some e) h = ground (arith, expired_later t t' e)

-- Eviction is not visible, then or later.
pub get-evict_expired :
    (t t' : ℕ) (k : Bytes) (m : Entries)
    → IsUnique m
    → t ≤ t'
    → get t' k (evict_expired t m) ≡ get t' k m
get-evict_expired t t' k m u h =
    rw (get_lem t' k (evict_expired t m), lookup-evict_expired t k m u, get_lem t' k m)
      (seen-live t t' (lookup k m) h)

-- What `set` at time `t` shows at time `t'`.
abbrev pub lasting : ℕ → ℕ → Bytes → ℤ → Option Bytes
lasting t t' contents ttl =
    if is_positive ttl && ltb (t + pos_part ttl) t' then none else some contents

seen-new_entry :
    (t t' : ℕ) (c : Bytes) (ttl : ℤ) → seen t' (some (new_entry t c ttl)) ≡ lasting t t' c ttl
unfolding seen new_entry expired
seen-new_entry t t' c ttl = elim (Bool-cases (is_positive ttl)) [ inl e ↦ rw e | inr e ↦ rw e ]

get-store :
    (t t' : ℕ) (k j c : Bytes) (ttl : ℤ) (m : Entries)
    → get t' j (store t k c ttl m) ≡ (if bytes_eq k j then lasting t t' c ttl else get t' j m)
unfolding store
get-store t t' k j c ttl m = elim (Bool-cases (bytes_eq k j)) [
  | inl e ↦ rw (get_lem t' j _, lookup-insert k j _ m, e) (seen-new_entry t t' c ttl)
  | inr e ↦ rw (get_lem t' j _, lookup-insert k j _ m, e, get_lem t' j m)
]

-- In a map with one entry for a key: after `set` at time `t`, a reader at any time from then on
-- finds the data under the key until the ttl is over (for ever where the ttl is not positive), and
-- under every other key what was there.
pub get-set :
    (t t' : ℕ) (k j c : Bytes) (ttl : ℤ) (m : Entries)
    → IsUnique m
    → t ≤ t'
    → get t' j (set t k c ttl m) ≡ (if bytes_eq k j then lasting t t' c ttl else get t' j m)
unfolding set
get-set t t' k j c ttl m u h =
    rw (get-store t t' k j c ttl (evict_expired t m), get-evict_expired t t' j m u h)

seen_of_live :
    (t : ℕ) (o : Option MemoryEntry) {d : MemoryEntry}
    → live t o ≡ some d
    → seen t o ≡ some d.contents
unfolding seen
seen_of_live t none e = cc
seen_of_live t (some e) h = ground arith

-- In a map with one entry for a key: `SetIfAbsent` answers true exactly if a reader finds nothing
-- under the key, and then acts as `Set`; otherwise no reader sees a change, then or later.
pub set_if_absent_lem :
    (t t' : ℕ) (k j c : Bytes) (ttl : ℤ) (m : Entries)
    → IsUnique m
    → t ≤ t'
    → (((set_if_absent t k c ttl m).1 ≡ true) ↔ (get t k m ≡ none))
      × ((set_if_absent t k c ttl m).1 ≡ true → (set_if_absent t k c ttl m).0 ≡ set t k c ttl m)
      × ((set_if_absent t k c ttl m).1 ≡ false
          → get t' j (set_if_absent t k c ttl m).0 ≡ get t' j m)
unfolding seen
set_if_absent_lem t t' k j c ttl m u h = elim (Option-cases (lookup k (evict_expired t m))) [
  | inl e ↦
      rw (set_if_absent_absent t k c ttl m e)
        ((λ _. absent e, λ _. refl), λ _. refl, λ b. absurd (false≢true (sym b)))
  | inr (d, e) ↦ rw (set_if_absent_taken t k c ttl m e) (
    (λ b. absurd (false≢true b), λ n. absurd (present e n)),
    λ b. absurd (false≢true b),
    λ _. get-evict_expired t t' j m u h,
  )
]
  where
    absent : lookup k (evict_expired t m) ≡ none → get t k m ≡ none
    absent e = sym (get-evict_expired t t k m u (omega arith)) ∙ get_lem t k _ ∙ ap (seen t) e

    present : {d : MemoryEntry} → lookup k (evict_expired t m) ≡ some d → get t k m ≢ none
    present {d} e n =
        let l : live t (lookup k m) ≡ some d = sym (lookup-evict_expired t k m u) ∙ e in
        cc (seen_of_live t (lookup k m) l, get_lem t k m)

lasting-none :
    (t t' : ℕ) (c : Bytes) (ttl : ℤ)
    → is_positive ttl ≡ true
    → lasting t t' c ttl ≡ none
    → t + pos_part ttl < t'
lasting-none t t' c ttl p e = ground arith

none-lasting :
    (t t' : ℕ) (c : Bytes) (ttl : ℤ)
    → is_positive ttl ≡ true
    → t + pos_part ttl < t'
    → lasting t t' c ttl ≡ none
none-lasting t t' c ttl p l = ground arith

-- In a map with one entry for a key: a key that `SetIfAbsent` took with a positive ttl is given out
-- by the next `SetIfAbsent` exactly if the ttl is over by then.
pub set_if_absent_exclusive :
    (t t' : ℕ) (k c d : Bytes) (ttl ttl' : ℤ) (m : Entries)
    → IsUnique m
    → t ≤ t'
    → is_positive ttl ≡ true
    → (set_if_absent t k c ttl m).1 ≡ true
    → ((set_if_absent t' k d ttl' (set_if_absent t k c ttl m).0).1 ≡ true) ↔ (t + pos_part ttl < t')
set_if_absent_exclusive t t' k c d ttl ttl' m u h p w =
    let u' : IsUnique (set_if_absent t k c ttl m).0 = (methods-IsUnique t k c ttl [] m u).1 in
    let again =
      (set_if_absent_lem t' t' k k d ttl' (set_if_absent t k c ttl m).0 u' (omega arith)).0 in
    let view : get t' k (set_if_absent t k c ttl m).0 ≡ lasting t t' c ttl =
      ap (get t' k) ((set_if_absent_lem t t k k c ttl m u (omega arith)).1 w)
      ∙ get-set t t' k k c ttl m u h
      ∙ rw (bytes_eq_refl k) in
    (
      λ b. lasting-none t t' c ttl p (sym view ∙ again.0 b),
      λ l. again.1 (view ∙ none-lasting t t' c ttl p l),
    )

get-erase :
    (t : ℕ) (j k : Bytes) (m : Entries)
    → get t j (erase k m) ≡ (if bytes_eq k j then none else get t j m)
unfolding seen
get-erase t j k m =
    get_lem t j (erase k m) ∙ ap (seen t) (lookup-erase k j m) ∙ ground (arith, get_lem t j m)

-- `Delete` takes away every key that it is given, and no other.
pub get-delete :
    (t : ℕ) (j : Bytes) (keys : List Bytes) (m : Entries)
    → get t j (delete keys m) ≡ (if has_key j keys then none else get t j m)
unfolding delete has_key
get-delete t j [] m = refl
get-delete t j (k ∷ keys) m = get-delete t j keys (erase k m) ∙ ground (arith, get-erase t j k m)
