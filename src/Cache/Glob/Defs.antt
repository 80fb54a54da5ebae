-- ===== src/Cache/Glob/Defs.antt =====
-- cache.go, `globMatch`: patterns with `*` and `?`. A position in the pattern or in the text is
-- the part from there on: `p` is pattern[p:], `s` is s[i:], and the saved star is absent while
-- starP is -1, then holds pattern[starP+1:] and s[starI:].
use gorabbit.Prelude.{
  ℕ, zero, suc, ◌+◌, ◌*◌, Bytes, Bool, true, false, ◌||◌, ◌&&◌, Option, none, some, [], ◌∷◌, ◌==◌,
  if◌then◌else◌, length,
}

abbrev pub Star : Type 0
Star = Option (Bytes × Bytes)

abbrev pub rest_of : Bytes → Bytes
rest_of [] = []
rest_of (_ ∷ s) = s

-- The last two cases of the switch: go back to the saved star, one byte further on, or fail.
unfoldable pub backtrack : Star → (Bytes → Bytes → Star → Option Bool) → Option Bool
backtrack none go = some false
backtrack (some (p, s)) go = go p (rest_of s) (some (p, rest_of s))

-- The loop after the main one, and the final test.
unfoldable pub only_stars : Bytes → Bool
only_stars [] = true
only_stars (x ∷ p) = x == b'*' && only_stars p

-- The main loop; `none` means that the model's fuel ran out.
unfoldable pub glob_loop : ℕ → Bytes → Bytes → Star → Option Bool
unfolding backtrack only_stars
glob_loop f p [] star = some (only_stars p)
glob_loop zero p (c ∷ s) star = none
glob_loop (suc f) [] (c ∷ s) star = backtrack star (glob_loop f)
glob_loop (suc f) (x ∷ p) (c ∷ s) star =
    let matched = glob_loop f p s star in
    let at_star = glob_loop f p (c ∷ s) (some (p, c ∷ s)) in
    if x == c || x == b'?'
    then matched
    else if x == b'*'
    then at_star
    else backtrack star (glob_loop f)

unfoldable pub glob_match : Bytes → Bytes → Option Bool
unfolding glob_loop
glob_match pattern s = glob_loop ((length s + 1) * (length pattern + 1)) pattern s none
