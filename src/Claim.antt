-- ===== src/Claim.antt =====
-- rabbitmq/claim.go: the process's registry of the keys that its clients cache under.
use gorabbit.Prelude.{
  ℕ, Bytes, Bool, true, false, Option, none, some, List, [], ◌∷◌, ◌++◌, codes, if◌then◌else◌, not,
  Assoc, lookup, insert, erase, ◌≡◌,
}
use gorabbit.Errors.{Error, cache_key_taken}
use gorabbit.Setup.{Setup}
use gorabbit.Scope.{cache_scope}
use gorabbit.Client.{Client}
pub mod Exclusive

-- `claimedKeys`, from a key to the description of its holder.
abbrev pub Registry : Type 0
Registry = Assoc Bytes

module _ (quoted : Bytes → Bytes) where
  -- `clientDescription`; `quoted` is the verb %q of fmt.
  unfoldable pub client_description : Setup → Bytes
  client_description s =
      if s.is_consumer
      then codes "the client of app "
        ++ (quoted s.app_name
            ++ (codes " consuming "
                ++ (quoted s.queue_name ++ (codes " on exchange " ++ quoted s.exchange_name))))
      else codes "the client of app "
        ++ (quoted s.app_name ++ (codes " publishing to exchange " ++ quoted s.exchange_name))

  -- `claimCacheKey`
  unfoldable pub claim_cache_key : Registry → Client → Registry × Client × Option Error
  unfolding cache_scope client_description
  claim_cache_key keys c =
      let key = cache_scope c.setup in
      elim (lookup key keys) [
        | some holder ↦ (keys, c, some (cache_key_taken holder key))
        | none ↦
            (insert key (client_description c.setup) keys, record c { claimed_key = true }, none)
      ]

-- `releaseCacheKey`
unfoldable pub release_cache_key : Registry → Client → Registry × Client
unfolding cache_scope
release_cache_key keys c =
    if not c.claimed_key
    then (keys, c)
    else (erase (cache_scope c.setup) keys, record c { claimed_key = false })
