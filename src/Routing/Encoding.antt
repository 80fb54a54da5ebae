-- ===== src/Routing/Encoding.antt =====
-- The encoder of routes (`encodeRoute`): nothing that the topic exchange reads as a separator or a
-- wildcard is left, and different routes stay different.
use gorabbit.Prelude.{
  ℕ, ◌+◌, ◌-◌, ◌*◌, ◌/◌, ◌%◌, ◌≤◌, ◌⊎◌, get_or, Bytes, true, false, [], ◌∷◌, ◌++◌, ◌==◌, ltb,
  if◌then◌else◌, length, arith, ◌≡◌, ◌≢◌, refl, sym, ap, ◌∙◌, All, All-append, Bool-cases, inl, inr,
  append_assoc, append-nil, length-append,
}
use gorabbit.Routing.Defs.{
  reserved_route_chars, upperhex, has_byte, contains_any, encode_char, encode_loop, encode_route,
}

-- The encoding of a route, byte by byte.
pub encoded : Bytes → Bytes
encoded [] = []
encoded (c ∷ s) = encode_char c ++ encoded s

encode_loop_lem : (s out : Bytes) → encode_loop s out ≡ out ++ encoded s
unfolding encode_loop encoded
encode_loop_lem [] out = sym (append-nil out)
encode_loop_lem (c ∷ s) out =
    encode_loop_lem s (out ++ encode_char c) ∙ append_assoc out (encode_char c) (encoded s)

encoded_plain : (s : Bytes) → contains_any s reserved_route_chars ≡ false → encoded s ≡ s
unfolding encoded contains_any encode_char
encoded_plain [] h = refl
encoded_plain (c ∷ s) h = ground (arith, encoded_plain s)

pub encode_route_lem : (s : Bytes) → encode_route s ≡ encoded s
unfolding encode_route
encode_route_lem s = elim (Bool-cases (contains_any s reserved_route_chars)) [
  | inl e ↦ rw e (encode_loop_lem s [])
  | inr e ↦ rw e (sym (encoded_plain s e))
]

-- A byte that the topic exchange reads as part of a word.
abbrev pub IsWordByte : ℕ → Type 0
IsWordByte c = (c ≢ b'.') × (c ≢ b'*') × (c ≢ b'#')

encode_char-IsWordByte : (c : ℕ) → All IsWordByte (encode_char c)
unfolding encode_char
encode_char-IsWordByte c = ground arith

encoded-IsWordByte : (s : Bytes) → All IsWordByte (encoded s)
unfolding encoded
encoded-IsWordByte [] = tt
encoded-IsWordByte (c ∷ s) =
    All-append IsWordByte (encode_char c) (encoded s) (encode_char-IsWordByte c)
      (encoded-IsWordByte s)

-- No byte of an encoded route is the word separator or a wildcard of the topic exchange.
pub encode_route-IsWordByte : (route : Bytes) → All IsWordByte (encode_route route)
encode_route-IsWordByte route = rw (encode_route_lem route) (encoded-IsWordByte route)

-- The value of an upper case hexadecimal digit.
abbrev digit_value : ℕ → ℕ
digit_value d = if ltb d b'A' then d - b'0' else d - 55

-- A reader of encoded routes: the inverse that the brokers' logs would be read with.
pub decode_route : Bytes → Bytes
decode_route [] = []
decode_route (c ∷ hi ∷ lo ∷ s) =
    let escaped = (16 * digit_value hi + digit_value lo) ∷ decode_route s in
    let plain = c ∷ decode_route (hi ∷ lo ∷ s) in if c == b'%' then escaped else plain
decode_route (c ∷ s) = c ∷ decode_route s

decode_plain : (c : ℕ) (s : Bytes) → c ≢ b'%' → decode_route (c ∷ s) ≡ c ∷ decode_route s
unfolding decode_route
decode_plain c [] h = refl
decode_plain c (a ∷ []) h = refl
decode_plain c (a ∷ b ∷ s) h = ground arith

abbrev IsReserved : ℕ → Type 0
IsReserved c = (c ≡ b'.') ⊎ (c ≡ b'*') ⊎ (c ≡ b'#') ⊎ (c ≡ b'%')

has_byte-IsReserved : (c : ℕ) → has_byte reserved_route_chars c ≡ true → IsReserved c
has_byte-IsReserved c h = ground arith

decode_escaped :
    (c : ℕ) (s : Bytes)
    → IsReserved c
    → decode_route (b'%' ∷ get_or upperhex (c / 16) 0 ∷ get_or upperhex (c % 16) 0 ∷ s)
      ≡ c ∷ decode_route s
unfolding decode_route
decode_escaped c s (inl e) = rw e
decode_escaped c s (inr (inl e)) = rw e
decode_escaped c s (inr (inr (inl e))) = rw e
decode_escaped c s (inr (inr (inr e))) = rw e

decode_encode_char : (c : ℕ) (s : Bytes) → decode_route (encode_char c ++ s) ≡ c ∷ decode_route s
unfolding encode_char
decode_encode_char c s = elim (Bool-cases (has_byte reserved_route_chars c)) [
  | inl e ↦ rw e (decode_escaped c s (has_byte-IsReserved c e))
  | inr e ↦ rw e (decode_plain c s (ground arith))
]

decode-encoded : (s : Bytes) → decode_route (encoded s) ≡ s
unfolding encoded
decode-encoded [] = unfold decode_route in refl
decode-encoded (c ∷ s) = decode_encode_char c (encoded s) ∙ ap (λ t. c ∷ t) (decode-encoded s)

-- Decoding an encoded route gives the route back, whatever its bytes.
pub decode-encode_route : (route : Bytes) → decode_route (encode_route route) ≡ route
decode-encode_route route = rw (encode_route_lem route) (decode-encoded route)

-- Two routes with one encoding are one route.
pub encode_route-injective : (r s : Bytes) → encode_route r ≡ encode_route s → r ≡ s
encode_route-injective r s e =
    sym (decode-encode_route r) ∙ ap decode_route e ∙ decode-encode_route s

length-encode_char : (c : ℕ) → (1 ≤ length (encode_char c)) × (length (encode_char c) ≤ 3)
unfolding encode_char
length-encode_char c = ground arith

length-encoded : (s : Bytes) → (length s ≤ length (encoded s)) × (length (encoded s) ≤ 3 * length s)
unfolding encoded
length-encoded [] = omega arith
length-encoded (c ∷ s) =
    omega (arith, length-append (encode_char c) (encoded s), length-encode_char c, length-encoded s)

-- An encoded route is at least as long as the route and at most three times as long.
pub length-encode_route :
    (s : Bytes) → (length s ≤ length (encode_route s)) × (length (encode_route s) ≤ 3 * length s)
length-encode_route s = rw (encode_route_lem s) (length-encoded s)
