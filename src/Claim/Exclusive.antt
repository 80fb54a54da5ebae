-- ===== src/Claim/Exclusive.antt =====
-- At most one client of the process holds a cache key.
use gorabbit.Prelude.{
  Bytes, true, false, none, some, ◌≡◌, ◌≢◌, ◌↔◌, inl, inr, refl, lookup, insert, Option-cases,
  lookup-erase_self, lookup-insert_self,
}
use gorabbit.Errors.{Error, cache_key_taken}
use gorabbit.Client.{Client}
use gorabbit.Scope.{cache_scope}
use gorabbit.Claim.{Registry, client_description, claim_cache_key, release_cache_key}

never : {e : Error} → ¬ (some e ≡ none)
never n = cc

module _ (quoted : Bytes → Bytes) (keys : Registry) (c : Client) where
  pub claim_free :
      lookup (cache_scope c.setup) keys ≡ none
      → claim_cache_key quoted keys c ≡ (
        insert (cache_scope c.setup) (client_description quoted c.setup) keys,
        record c { claimed_key = true },
        none,
      )
  unfolding claim_cache_key
  claim_free e = rw (e, claim_cache_key)

  pub claim_taken :
      {holder : Bytes}
      → lookup (cache_scope c.setup) keys ≡ some holder
      → claim_cache_key quoted keys c
        ≡ (keys, c, some (cache_key_taken holder (cache_scope c.setup)))
  unfolding claim_cache_key
  claim_taken e = rw (e, claim_cache_key)

-- Two clients without a claim share a cache key. The claim of the first succeeds exactly while
-- nobody holds the key. Then the claim of the second fails and names the first as the holder, the
-- release by the second changes nothing, and the release by the first frees the key. A claim that
-- fails changes nothing.
pub claim_cache_key_lem :
    (quoted : Bytes → Bytes) (keys : Registry) (c d : Client)
    → c.claimed_key ≡ false
    → d.claimed_key ≡ false
    → cache_scope d.setup ≡ cache_scope c.setup
    → let (keys', c', e) = claim_cache_key quoted keys c in
      let (keys'', d', e') = claim_cache_key quoted keys' d in
      ((e ≡ none) ↔ (lookup (cache_scope c.setup) keys ≡ none))
      × (e ≢ none → (keys' ≡ keys) × (c' ≡ c))
      × (e ≡ none
          → (e' ≡ some (cache_key_taken (client_description quoted c.setup) (cache_scope c.setup)))
            × (release_cache_key keys'' d' ≡ (keys', d))
            × (lookup (cache_scope c.setup) (release_cache_key keys' c').0 ≡ none))
unfolding release_cache_key
claim_cache_key_lem quoted keys c d uc ud s =
    elim (Option-cases (lookup (cache_scope c.setup) keys)) [
      | inl e ↦
          let held : lookup (cache_scope d.setup)
                (insert (cache_scope c.setup) (client_description quoted c.setup) keys)
              ≡ some (client_description quoted c.setup) =
            rw s (lookup-insert_self (cache_scope c.setup) _ keys) in
          rw (claim_free quoted keys c e, claim_taken quoted _ d held, ud, s)
            (
              (λ _. e, λ _. refl),
              λ n. absurd (n refl),
              λ _. (refl, refl, lookup-erase_self (cache_scope c.setup) _),
            )
      | inr (holder, e) ↦
          rw (claim_taken quoted keys c e)
            ((λ n. cc, λ n. cc), λ _. (refl, refl), λ n. absurd (never n))
    ]
