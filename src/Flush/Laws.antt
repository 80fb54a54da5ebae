-- ===== src/Flush/Laws.antt =====
-- What a flush relies on of a store: each operation touches the key that it is given and no other.
use gorabbit.Prelude.{Bytes, Option, none, some, true, [], ◌∷◌, ◌≡◌, ◌≢◌}
use gorabbit.Prelude.Int.{ℤ, is_positive}
use gorabbit.Errors.{ok}
use gorabbit.Cache.Interface.{Cache}

-- `view` is what a reader finds under a key while no ttl runs out.
pub record CacheLaws (K : Cache) : Type 0 where
  pub view : K.Store → Bytes → Option Bytes
  pub get_view : (k : Bytes) (s : K.Store) {v : Option Bytes} → K.get k s ≡ ok v → v ≡ view s k
  pub set_other :
      (k j c : Bytes) (ttl : ℤ) (s : K.Store) → k ≢ j → view (K.set k c ttl s).0 j ≡ view s j
  pub set_if_absent_other :
      (k j c : Bytes) (ttl : ℤ) (s : K.Store)
      → k ≢ j
      → view (K.set_if_absent k c ttl s).0 j ≡ view s j
  pub delete_other : (k j : Bytes) (s : K.Store) → k ≢ j → view (K.delete (k ∷ []) s).0 j ≡ view s j
  pub list_all : (p j : Bytes) (s : K.Store) → view (K.get_all_keys p s).0 j ≡ view s j

-- A store that also answers: no call fails, and a reservation that nobody holds is given out.
pub record WorkingLaws (K : Cache) (L : CacheLaws K) : Type 0 where
  pub get_ok : (k : Bytes) (s : K.Store) → K.get k s ≡ ok (L.view s k)
  pub set_view :
      (k c : Bytes) (ttl : ℤ) (s : K.Store)
      → is_positive ttl ≡ true
      → ((K.set k c ttl s).1 ≡ none) × (L.view (K.set k c ttl s).0 k ≡ some c)
  pub set_if_absent_free :
      (k c : Bytes) (ttl : ℤ) (s : K.Store)
      → L.view s k ≡ none
      → (K.set_if_absent k c ttl s).1 ≡ ok true
  pub delete_self : (k : Bytes) (s : K.Store) → L.view (K.delete (k ∷ []) s).0 k ≡ none
