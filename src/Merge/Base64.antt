-- ===== src/Merge/Base64.antt =====
-- The base64 encoder of merge.rs, against a decoder of the standard (RFC 4648, with padding).
use mathlib.Core.Path.{ap₂}
use tmx.Base.{
  ℕ, zero, suc, ◌+◌, ◌-◌, ◌*◌, ◌/◌, ◌%◌, ◌^◌, ◌<◌, ◌≡◌, refl, ◌∙◌, ap, Bool, true, false, Option,
  none, some, [], ◌∷◌, ◌++◌, arith, Text, bytes, length, All, ltb, leb, ◌==◌, ◌&&◌, not,
  if◌then◌else◌, Bool-cases, inl, inr,
}

abbrev alphabet : Text
alphabet = bytes "ABCDEFGHIJKLMNOPQRSTUVWXYZabcdefghijklmnopqrstuvwxyz0123456789+/"

abbrev pad : ℕ
pad = b'='

-- `BASE64_ALPHABET[six as usize]`; an index out of range would panic, and 0 stands for it.
char_at : Text → ℕ → ℕ
char_at [] i = 0
char_at (c ∷ cs) zero = c
char_at (c ∷ cs) (suc i) = char_at cs i

-- The four characters of one group of up to three bytes, of which `emit` are not padding. The shifted
-- bytes do not overlap, so `|` is `+`, and `(packed >> s) & 0x3f` is a division and a remainder.
abbrev pack : ℕ → ℕ → ℕ → ℕ
pack b0 b1 b2 = b0 * 2 ^ 16 + b1 * 2 ^ 8 + b2

abbrev sextet : ℕ → ℕ → ℕ
sextet packed s = (packed / 2 ^ s) % 64

pub encode_group : ℕ → ℕ → ℕ → ℕ → Text
unfolding char_at
encode_group b0 b1 b2 emit =
    let packed = pack b0 b1 b2 in
    let char = λ (i : ℕ) (six : ℕ). if ltb i emit then char_at alphabet six else pad in
    char 0 (sextet packed 18)
    ∷ char 1 (sextet packed 12)
    ∷ char 2 (sextet packed 6)
    ∷ char 3 (sextet packed 0)
    ∷ []

-- The loop over `bytes.chunks(3)`: a missing byte reads as zero, and `emit` is the group's length
-- plus one.
unfoldable pub base64_encode : Text → Text
unfolding encode_group
base64_encode [] = []
base64_encode (b0 ∷ []) = encode_group b0 0 0 2
base64_encode (b0 ∷ b1 ∷ []) = encode_group b0 b1 0 3
base64_encode (b0 ∷ b1 ∷ b2 ∷ rest) = encode_group b0 b1 b2 4 ++ base64_encode rest

-- The value of a character of the alphabet, by the ranges of RFC 4648.
pub decode_char : ℕ → Option ℕ
decode_char c =
    if leb b'A' c && leb c b'Z'
    then some (c - b'A')
    else if leb b'a' c && leb c b'z'
    then some (c - b'a' + 26)
    else if leb b'0' c && leb c b'9'
    then some (c - b'0' + 52)
    else if c == b'+'
    then some 62
    else if c == b'/'
    then some 63
    else none

abbrev first_byte : ℕ → ℕ → ℕ
first_byte v0 v1 = v0 * 4 + v1 / 16

abbrev second_byte : ℕ → ℕ → ℕ
second_byte v1 v2 = (v1 % 16) * 16 + v2 / 4

abbrev third_byte : ℕ → ℕ → ℕ
third_byte v2 v3 = (v2 % 4) * 64 + v3

infixl 5 ◌>>=◌
abbrev ◌>>=◌ : {A B : Type 0} → Option A → (A → Option B) → Option B
none >>= f = none
some a >>= f = f a

-- The reference decoder: four characters at a time, up to the first padded group; it ignores what
-- follows that.
pub decode : Text → Option Text
unfolding decode_char
decode [] = some []
decode (c0 ∷ c1 ∷ c2 ∷ c3 ∷ rest) =
    let tail = decode rest in
    if c3 == pad
    then (if c2 == pad
        then (do v0 ← decode_char c0; v1 ← decode_char c1; some (first_byte v0 v1 ∷ []))
        else (do
          v0 ← decode_char c0
          v1 ← decode_char c1
          v2 ← decode_char c2
          some (first_byte v0 v1 ∷ second_byte v1 v2 ∷ [])))
    else (do
      v0 ← decode_char c0
      v1 ← decode_char c1
      v2 ← decode_char c2
      v3 ← decode_char c3
      t ← tail
      some (first_byte v0 v1 ∷ second_byte v1 v2 ∷ third_byte v2 v3 ∷ t))
decode _ = none

-- The character at `x` is not the padding, and decodes to `x`.
round_trips : ℕ → Bool
unfolding char_at decode_char
round_trips x =
    let c = char_at alphabet x in
    let decoded : Bool = elim (decode_char c) [ none ↦ false | some y ↦ y == x ] in
    decoded && not (c == pad)

first_round_trip : ℕ → Bool
first_round_trip zero = true
first_round_trip (suc n) = round_trips n && first_round_trip n

in_table : (x n : ℕ) → x < n → first_round_trip n ≡ true → round_trips x ≡ true
unfolding first_round_trip
in_table x zero lt h = absurd (omega arith)
in_table x (suc n) lt h = elim (Bool-cases (x == n)) [
  | inl e ↦ let same : x ≡ n = ground (arith, e) in ground (arith, ap round_trips same)
  | inr e ↦ let less : x < n = ground (arith, e) in ground (arith, in_table x n less)
]

-- A character of the alphabet is not the padding, and decodes to its index.
decode_char-char_at :
    (x : ℕ)
    → x < 64
    → (decode_char (char_at alphabet x) ≡ some x) × ((char_at alphabet x == pad) ≡ false)
unfolding round_trips
decode_char-char_at x h =
    let there : round_trips x ≡ true =
      in_table x 64 h (unfold first_round_trip round_trips in refl) in
    ground (arith, there)

abbrev char : ℕ → ℕ
char = char_at alphabet

decode_two :
    (v0 v1 : ℕ)
    → v0 < 64
    → v1 < 64
    → decode (char v0 ∷ char v1 ∷ pad ∷ pad ∷ []) ≡ some (first_byte v0 v1 ∷ [])
unfolding decode
decode_two v0 v1 h0 h1 = simp ((decode_char-char_at v0 h0).0, (decode_char-char_at v1 h1).0)

decode_three :
    (v0 v1 v2 : ℕ)
    → v0 < 64
    → v1 < 64
    → v2 < 64
    → decode (char v0 ∷ char v1 ∷ char v2 ∷ pad ∷ [])
      ≡ some (first_byte v0 v1 ∷ second_byte v1 v2 ∷ [])
unfolding decode
decode_three v0 v1 v2 h0 h1 h2 = simp (
  (decode_char-char_at v0 h0).0,
  (decode_char-char_at v1 h1).0,
  (decode_char-char_at v2 h2).0,
  (decode_char-char_at v2 h2).1,
)

decode_four :
    (v0 v1 v2 v3 : ℕ) (rest out : Text)
    → v0 < 64
    → v1 < 64
    → v2 < 64
    → v3 < 64
    → decode rest ≡ some out
    → decode (char v0 ∷ char v1 ∷ char v2 ∷ char v3 ∷ rest)
      ≡ some (first_byte v0 v1 ∷ second_byte v1 v2 ∷ third_byte v2 v3 ∷ out)
unfolding decode
decode_four v0 v1 v2 v3 rest out h0 h1 h2 h3 e = simp (
  (decode_char-char_at v0 h0).0,
  (decode_char-char_at v1 h1).0,
  (decode_char-char_at v2 h2).0,
  (decode_char-char_at v3 h3).0,
  (decode_char-char_at v3 h3).1,
  e,
)

abbrev pub IsByte : ℕ → Type 0
IsByte b = b < 256

sextet_lt : (packed s : ℕ) → sextet packed s < 64
sextet_lt packed s = omega arith

bytes_one :
    (a : ℕ)
    → a < 256
    → let p = pack a 0 0 in ◌≡◌ {A = Text} (first_byte (sextet p 18) (sextet p 12) ∷ []) (a ∷ [])
bytes_one a h = ap (λ x. x ∷ []) (omega arith)

bytes_two :
    (a b : ℕ)
    → a < 256
    → b < 256
    → let p = pack a b 0 in
      ◌≡◌ {A = Text}
        (first_byte (sextet p 18) (sextet p 12) ∷ second_byte (sextet p 12) (sextet p 6) ∷ [])
        (a ∷ b ∷ [])
bytes_two a b h k = ap₂ (λ x y. x ∷ y ∷ []) (omega arith) (omega arith)

bytes_three :
    (a b c : ℕ) (rest : Text)
    → a < 256
    → b < 256
    → c < 256
    → let p = pack a b c in
      ◌≡◌ {A = Text}
        (first_byte (sextet p 18) (sextet p 12)
          ∷ second_byte (sextet p 12) (sextet p 6)
          ∷ third_byte (sextet p 6) (sextet p 0)
          ∷ rest)
        (a ∷ b ∷ c ∷ rest)
bytes_three a b c rest h k l =
    let p = pack a b c in
    let x : first_byte (sextet p 18) (sextet p 12) ≡ a = omega arith in
    let y : second_byte (sextet p 12) (sextet p 6) ≡ b = omega arith in
    let z : third_byte (sextet p 6) (sextet p 0) ≡ c = omega arith in cc (x, y, z)

-- Decoding what was encoded gives the bytes back.
pub decode-base64_encode : (bs : Text) → All IsByte bs → decode (base64_encode bs) ≡ some bs
unfolding base64_encode
decode-base64_encode [] h = unfold decode in refl
decode-base64_encode (a ∷ []) h =
    let p = pack a 0 0 in
    decode_two (sextet p 18) (sextet p 12) (sextet_lt p 18) (sextet_lt p 12)
    ∙ ap some (bytes_one a h.0)
decode-base64_encode (a ∷ b ∷ []) h =
    let p = pack a b 0 in
    decode_three (sextet p 18) (sextet p 12) (sextet p 6) (sextet_lt p 18) (sextet_lt p 12)
      (sextet_lt p 6)
    ∙ ap some (bytes_two a b h.0 h.1.0)
decode-base64_encode (a ∷ b ∷ c ∷ rest) h =
    let p = pack a b c in
    decode_four (sextet p 18) (sextet p 12) (sextet p 6) (sextet p 0) (base64_encode rest) rest
      (sextet_lt p 18) (sextet_lt p 12) (sextet_lt p 6) (sextet_lt p 0)
      (decode-base64_encode rest h.1.1.1)
    ∙ ap some (bytes_three a b c rest h.0 h.1.0 h.1.1.0)

-- The encoding has four characters for each group of up to three bytes.
pub length-base64_encode : (bs : Text) → length (base64_encode bs) ≡ 4 * ((length bs + 2) / 3)
unfolding base64_encode
length-base64_encode [] = omega arith
length-base64_encode (a ∷ []) = omega arith
length-base64_encode (a ∷ b ∷ []) = omega arith
length-base64_encode (a ∷ b ∷ c ∷ rest) = omega (arith, length-base64_encode rest)
