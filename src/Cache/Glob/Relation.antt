-- ===== src/Cache/Glob/Relation.antt =====
-- What a pattern of `*` and `?` means, with no search in it.
use gorabbit.Prelude.{ℕ, Bytes, [], ◌∷◌, ◌≡◌, ◌≢◌, ◌⊎◌, inl, inr, refl}

-- The pattern byte `x` is no star and takes the byte `c`.
abbrev pub Fits : ℕ → ℕ → Type 0
Fits x c = (x ≢ b'*') × ((x ≡ c) ⊎ (x ≡ b'?'))

pub data Matches : Bytes → Bytes → Type 0 where
  done : Matches [] []
  byte : {x c : ℕ} {p s : Bytes} → Fits x c → Matches p s → Matches (x ∷ p) (c ∷ s)
  skip : {x : ℕ} {p s : Bytes} → x ≡ b'*' → Matches p s → Matches (x ∷ p) s
  grow : {x c : ℕ} {p s : Bytes} → x ≡ b'*' → Matches (x ∷ p) s → Matches (x ∷ p) (c ∷ s)

-- The pattern after a star, at `s` or at any later place of the text.
abbrev pub Later : Bytes → Bytes → Type 0
Later p s = Matches (b'*' ∷ p) s

pub Later-now : {p s : Bytes} → Matches p s → Later p s
Later-now m = skip refl m

pub Later-on : {p s : Bytes} {c : ℕ} → Later p s → Later p (c ∷ s)
Later-on m = grow refl m

pub Later-cases : {p s : Bytes} {c : ℕ} → Later p (c ∷ s) → Matches p (c ∷ s) ⊎ Later p s
Later-cases (skip _ m) = inl m
Later-cases (grow _ m) = inr m
Later-cases (byte f m) = absurd (f.0 refl)
