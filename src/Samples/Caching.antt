-- ===== src/Samples/Caching.antt =====
-- A run of calls of a memory cache, and the patterns of `GetAllKeys`.
use gorabbit.Prelude.{true, false, none, some, [], ◌∷◌, codes, arith, ◌≡◌, ◌≢◌, ◌↔◌, List, ℕ}
use gorabbit.Prelude.Int.{pos}
use gorabbit.Cache.Memory.{new_memory_cache}
use gorabbit.Cache.Memory.Refines.{
  Request, to_set_if_absent, to_get, to_list, empty, serve_all, Promises, new_memory_cache-Promises,
}
use gorabbit.Cache.Glob.{glob_match}
use gorabbit.Cache.Glob.Relation.{Matches}
use gorabbit.Cache.Glob.Correct.{glob_match_iff, glob_match_sound, glob_match_star_text}

-- A key that is taken, asked for before its end and after it, and then listed.
abbrev lease_run : List (ℕ × Request)
lease_run =
    (0, to_set_if_absent (codes "k") (codes "me") (pos 9))
    ∷ (5, to_set_if_absent (codes "k") (codes "you") (pos 9))
    ∷ (5, to_set_if_absent (codes "k") (codes "you") (pos 9))
    ∷ (1, to_get (codes "k"))
    ∷ (0, to_list (codes "*"))
    ∷ []

new_memory_cache-Promises_example :
    Promises 20 lease_run empty (serve_all 20 lease_run new_memory_cache)
new_memory_cache-Promises_example = new_memory_cache-Promises 20 lease_run

glob_match_iff_example :
    (glob_match (codes "a*c*") (codes "abcd") ≡ some true) ↔ Matches (codes "a*c*") (codes "abcd")
glob_match_iff_example = glob_match_iff (codes "a*c*") (codes "abcd") (ground arith)

glob_match_sound_example :
    (glob_match (codes "a*c") (codes "abcd") ≢ none)
    × (glob_match (codes "a*c") (codes "abcd") ≡ some true → Matches (codes "a*c") (codes "abcd"))
glob_match_sound_example = glob_match_sound (codes "a*c") (codes "abcd")

glob_match_star_text_example : glob_match (codes "*") (codes "*a") ≡ some false
glob_match_star_text_example = glob_match_star_text b'a' []
