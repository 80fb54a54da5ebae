-- ===== src/Cache/Glob/Correct.antt =====
-- `globMatch` ends on every input, answers true only on a match, and answers true on every match
-- of a text that has no star in it.
use gorabbit.Prelude.{
  ℕ, suc, ◌+◌, ◌*◌, Bytes, Bool, true, false, Option, none, some, ◌∷◌, length, ◌≡◌, ◌≢◌, ◌↔◌, inl,
  inr, refl, arith, Lacks, codes,
}
use gorabbit.Cache.Glob.Defs.{glob_loop, glob_match}
use gorabbit.Cache.Glob.Relation.{Matches}
use gorabbit.Cache.Glob.Sound.{glob_loop_sound}
use gorabbit.Cache.Glob.Ends.{glob_loop_ends}
use gorabbit.Cache.Glob.Complete.{glob_loop_complete}

-- `globMatch` stops for every pattern and text (the model's fuel is enough), and answers true only
-- if the text matches.
pub glob_match_sound :
    (pattern s : Bytes)
    → (glob_match pattern s ≢ none) × (glob_match pattern s ≡ some true → Matches pattern s)
unfolding glob_match
glob_match_sound pattern s = (
  glob_loop_ends _ (length s) (length pattern + 1) pattern s none
      (record { text = omega arith; pattern_below = omega arith; saved = tt; fuel = omega arith }),
  λ h. elim (glob_loop_sound _ pattern s none h) [ inl m ↦ m | inr m ↦ absurd m ],
)

true_of : (o : Option Bool) → o ≢ none → o ≢ some false → o ≡ some true
true_of none n f = absurd (n refl)
true_of (some false) n f = absurd (f refl)
true_of (some true) n f = refl

-- On a text without a star `globMatch` answers true exactly if the text matches the pattern.
pub glob_match_iff :
    (pattern s : Bytes) → Lacks b'*' s → (glob_match pattern s ≡ some true) ↔ Matches pattern s
unfolding glob_match
glob_match_iff pattern s h = (
  (glob_match_sound pattern s).1,
  λ m. true_of (glob_match pattern s) (glob_match_sound pattern s).0 (not_false m),
)
  where
    not_false : Matches pattern s → glob_match pattern s ≢ some false
    not_false m e =
        glob_loop_complete _ pattern s none (record { later = λ g. absurd g; text = h; saved = tt })
          e (inl m)

star_text_fuel :
    (f c : ℕ) (s : Bytes) → glob_loop (suc (suc f)) (codes "*") (b'*' ∷ c ∷ s) none ≡ some false
unfolding glob_loop
star_text_fuel f c s = refl

-- A text that begins with a star and has more behind it fails the pattern of one star, which
-- matches every text: the switch compares the bytes before it looks for a wildcard.
pub glob_match_star_text : (c : ℕ) (s : Bytes) → glob_match (codes "*") (b'*' ∷ c ∷ s) ≡ some false
unfolding glob_match
glob_match_star_text c s =
    let enough : (length (b'*' ∷ c ∷ s) + 1) * (length (codes "*") + 1)
        ≡ suc (suc (2 * length s + 4)) =
      omega arith in
    rw enough (star_text_fuel (2 * length s + 4) c s)
