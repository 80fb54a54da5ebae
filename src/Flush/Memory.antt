-- ===== src/Flush/Memory.antt =====
-- cache.go: the memory cache fills the interface that the driver is written against, at one time of
-- its clock, and keeps the laws that a flush relies on.
use gorabbit.Prelude.{
  ℕ, Bytes, Option, none, some, ◌∙◌, true, [], ◌∷◌, ◌≡◌, ◌≢◌, refl, IsUnique, sym, arith, ap,
  bytes_eq_refl, bytes_eq-false, Bool-cases, inl, inr,
}
use gorabbit.Prelude.Int.{ℤ, pos, is_positive}
use gorabbit.Errors.{ok}
use gorabbit.Cache.Interface.{Cache}
use gorabbit.Cache.Memory.{new_memory_cache, Entries, set, set_if_absent, get, get_all_keys, delete}
use gorabbit.Cache.Memory.Keys.{methods-IsUnique}
use gorabbit.Cache.Memory.View.{get-set, set_if_absent_lem, get-delete, get-evict_expired, has_key}
use gorabbit.Flush.Laws.{CacheLaws, WorkingLaws}

-- The map, which has one entry for a key.
abbrev pub Map : Type 0
Map = (m : Entries) × IsUnique m

module _ (now : ℕ) where
  unfoldable pub empty_cache : Map
  unfolding new_memory_cache
  empty_cache = (new_memory_cache, tt)

  abbrev pub memory_cache : Cache
  memory_cache = record {
    Store = Map;
    set = λ k c ttl s. ((set now k c ttl s.0, (methods-IsUnique now k c ttl [] s.0 s.1).0), none);
    set_if_absent = λ k c ttl s.
        let r = set_if_absent now k c ttl s.0 in
        ((r.0, (methods-IsUnique now k c ttl [] s.0 s.1).1), ok r.1);
    get = λ k s. ok (get now k s.0);
    get_all_keys = λ p s.
        let r = get_all_keys now p s.0 in
        ((r.0, (methods-IsUnique now p [] (pos 0) [] s.0 s.1).2), ok r.1);
    delete =
        λ keys s. ((delete keys s.0, (methods-IsUnique now [] [] (pos 0) keys s.0 s.1).3), none);
  }

  same_answer : {v w : Option Bytes} → ok v ≡ ok w → v ≡ w
  same_answer e = cc

  set-other :
      (k j c : Bytes) (ttl : ℤ) (m : Entries)
      → IsUnique m
      → k ≢ j
      → get now j (set now k c ttl m) ≡ get now j m
  set-other k j c ttl m u n =
      rw (get-set now now k j c ttl m u (omega arith), bytes_eq-false k j n) refl

  set_self :
      (k c : Bytes) (ttl : ℤ) (m : Entries)
      → IsUnique m
      → is_positive ttl ≡ true
      → get now k (set now k c ttl m) ≡ some c
  set_self k c ttl m u p =
      get-set now now k k c ttl m u (omega arith) ∙ rw (bytes_eq_refl k) (ground arith)

  set_if_absent-other :
      (k j c : Bytes) (ttl : ℤ) (m : Entries)
      → IsUnique m
      → k ≢ j
      → get now j (set_if_absent now k c ttl m).0 ≡ get now j m
  set_if_absent-other k j c ttl m u n =
      let facts = set_if_absent_lem now now k j c ttl m u (omega arith) in
      elim (Bool-cases (set_if_absent now k c ttl m).1) [
        | inl e ↦ rw (facts.1 e) (set-other k j c ttl m u n)
        | inr e ↦ facts.2 e
      ]

  delete-other : (k j : Bytes) (m : Entries) → k ≢ j → get now j (delete (k ∷ []) m) ≡ get now j m
  unfolding has_key
  delete-other k j m n = rw (get-delete now j (k ∷ []) m, bytes_eq-false k j n) refl

  get_all_keys-same :
      (p j : Bytes) (m : Entries) → IsUnique m → get now j (get_all_keys now p m).0 ≡ get now j m
  unfolding get_all_keys
  get_all_keys-same p j m u = get-evict_expired now now j m u (omega arith)

  pub memory_laws : CacheLaws memory_cache
  memory_laws = record {
    view = λ s k. get now k s.0;
    get_view = λ k s e. sym (same_answer e);
    set_other = λ k j c ttl s n. set-other k j c ttl s.0 s.1 n;
    set_if_absent_other = λ k j c ttl s n. set_if_absent-other k j c ttl s.0 s.1 n;
    delete_other = λ k j s n. delete-other k j s.0 n;
    list_all = λ p j s. get_all_keys-same p j s.0 s.1;
  }

  pub memory_view : (s : Map) (k : Bytes) → memory_laws.view s k ≡ get now k s.0
  unfolding memory_laws
  memory_view s k = refl

  pub memory_working : WorkingLaws memory_cache memory_laws
  unfolding has_key memory_laws
  memory_working = record {
    get_ok = λ k s. refl;
    set_view = λ k c ttl s p. (refl, set_self k c ttl s.0 s.1 p);
    set_if_absent_free =
        λ k c ttl s n. ap ok ((set_if_absent_lem now now k k c ttl s.0 s.1 (omega arith)).0.1 n);
    delete_self = λ k s. rw (get-delete now k (k ∷ []) s.0, bytes_eq_refl k) refl;
  }
