-- ===== src/Cache/Memory/Listing.antt =====
-- The keys that `GetAllKeys` of the memory cache returns.
use gorabbit.Prelude.{
  ℕ, ◌≤◌, Bytes, Bool, true, false, Option, none, some, [], ◌∷◌, lookup, ◌≡◌, ◌≢◌, ◌↔◌, refl, arith,
  bytes_eq_iff, ap, ap₂, sym, ◌∙◌, IsUnique, ◌&&◌, Lacks,
}
use gorabbit.Cache.Glob.{glob_match}
use gorabbit.Cache.Glob.Relation.{Matches}
use gorabbit.Cache.Glob.Correct.{glob_match_iff}
use gorabbit.Cache.Memory.Defs.{
  Entries, evict_expired, answered_true, matching_keys, get, get_all_keys,
}
use gorabbit.Cache.Memory.Keys.{lookup-evict_expired}
use gorabbit.Cache.Memory.View.{has_key, get-evict_expired}

abbrev is_some {ℓ} : {A : Type ℓ} → Option A → Bool
is_some none = false
is_some (some a) = true

matching_keys_lem :
    (pattern j : Bytes) (m : Entries)
    → has_key j (matching_keys pattern m)
      ≡ (answered_true (glob_match pattern j) && is_some (lookup j m))
unfolding matching_keys has_key lookup
matching_keys_lem pattern j [] = ground arith
matching_keys_lem pattern j ((k, e) ∷ m) =
    ground (arith, bytes_eq_iff k j, matching_keys_lem pattern j m)

is_some-live :
    (t : ℕ) (k : Bytes) (m : Entries)
    → IsUnique m
    → is_some (lookup k (evict_expired t m)) ≡ is_some (get t k m)
unfolding get
is_some-live t k m u = rw (lookup-evict_expired t k m u) (ground arith)

and_true : (a b : Bool) → (a && b) ≡ true → (a ≡ true) × (b ≡ true)
and_true a b h = ground arith

some_ne_none {ℓ} : {A : Type ℓ} (o : Option A) → (is_some o ≡ true) ↔ (o ≢ none)
some_ne_none none = (λ e. cc, λ n. absurd (n refl))
some_ne_none (some a) = (λ _ e. cc, λ _. refl)

answered_true_iff : (o : Option Bool) → (answered_true o ≡ true) ↔ (o ≡ some true)
answered_true_iff o = ground arith

-- In a map with one entry for a key: `GetAllKeys` returns a key without a star exactly if it
-- matches the pattern and a reader finds data under it, and no reader of such a key sees a change,
-- then or later.
pub get_all_keys_lem :
    (t t' : ℕ) (pattern j : Bytes) (m : Entries)
    → IsUnique m
    → t ≤ t'
    → Lacks b'*' j
    → ((has_key j (get_all_keys t pattern m).1 ≡ true) ↔ (Matches pattern j × (get t j m ≢ none)))
      × (get t' j (get_all_keys t pattern m).0 ≡ get t' j m)
unfolding get_all_keys
get_all_keys_lem t t' pattern j m u h s =
    let (sound, complete) = glob_match_iff pattern j s in
    let answer = answered_true (glob_match pattern j) in
    let listed : has_key j (get_all_keys t pattern m).1 ≡ (answer && is_some (get t j m)) =
      matching_keys_lem pattern j (evict_expired t m)
      ∙ ap (λ b. answer && b) (is_some-live t j m u) in
    (
      (
        λ b.
            let (yes_glob, found) = and_true _ _ (sym listed ∙ b) in
            (sound ((answered_true_iff _).0 yes_glob), (some_ne_none _).0 found),
        λ (mt, p). listed ∙ ap₂ ◌&&◌ ((answered_true_iff _).1 (complete mt)) ((some_ne_none _).1 p),
      ),
      get-evict_expired t t' j m u h,
    )
