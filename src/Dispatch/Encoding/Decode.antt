-- ===== src/Dispatch/Encoding/Decode.antt =====
-- What a decoder of forms reads from `percent_encode`.
use tmx.Base.{
  ℕ, ◌+◌, ◌-◌, ◌*◌, ◌/◌, ◌%◌, ◌<◌, ◌≡◌, ◌∙◌, refl, ap, Bool, true, false, [], ◌∷◌, ◌++◌, arith,
  Text, all, ltb, ◌==◌, Bool-cases, inl, inr, if◌then◌else◌,
}
use tmx.Dispatch.Encoding.{is_unreserved, hex_digit, encode_byte, percent_encode}

-- A decoder of form encoding.
abbrev pub unhex : ℕ → ℕ
unhex c = if ltb c 58 then c - 48 else c - 55

abbrev pub read_plain : ℕ → ℕ
read_plain c = if c == 43 then 32 else c

abbrev pub url_decode : Text → Text
url_decode [] = []
url_decode (c ∷ []) = read_plain c ∷ []
url_decode (c ∷ d ∷ []) = read_plain c ∷ url_decode (d ∷ [])
url_decode (c ∷ d ∷ e ∷ s) =
    let escaped = (unhex d * 16 + unhex e) ∷ url_decode s in
    let plain = read_plain c ∷ url_decode (d ∷ e ∷ s) in if c == 37 then escaped else plain

abbrev pub is_byte : ℕ → Bool
is_byte b = ltb b 256

decode_plain :
    (c : ℕ) (s : Text) → (c == 37) ≡ false → url_decode (c ∷ s) ≡ read_plain c ∷ url_decode s
decode_plain c [] h = refl
decode_plain c (d ∷ []) h = refl
decode_plain c (d ∷ e ∷ s) h = ground arith

unhex-hex_digit : (n : ℕ) → n < 16 → unhex (hex_digit n) ≡ n
unhex-hex_digit n h = ground arith

join_digits : (b : ℕ) → b / 16 * 16 + b % 16 ≡ b
join_digits b = omega arith

high_digit : (b : ℕ) → is_byte b ≡ true → b / 16 < 16
high_digit b h = ground arith

low_digit : (b : ℕ) → b % 16 < 16
low_digit b = omega arith

join_decoded :
    (b : ℕ) → is_byte b ≡ true → unhex (hex_digit (b / 16)) * 16 + unhex (hex_digit (b % 16)) ≡ b
join_decoded b h =
    rw (unhex-hex_digit (b / 16) (high_digit b h))
      (rw (unhex-hex_digit (b % 16) (low_digit b)) (join_digits b))

decode_escaped :
    (b : ℕ) (s : Text)
    → is_byte b ≡ true
    → url_decode (37 ∷ hex_digit (b / 16) ∷ hex_digit (b % 16) ∷ s) ≡ b ∷ url_decode s
decode_escaped b s h = ap (λ c. c ∷ url_decode s) (join_decoded b h)

unreserved_plain : (b : ℕ) → is_unreserved b ≡ true → ((b == 37) ≡ false) × (read_plain b ≡ b)
unreserved_plain b h = ground arith

decode-unreserved :
    (b : ℕ) (s : Text) → is_unreserved b ≡ true → url_decode (b ∷ s) ≡ b ∷ url_decode s
decode-unreserved b s u =
    decode_plain b s (unreserved_plain b u).0 ∙ ap (λ c. c ∷ url_decode s) (unreserved_plain b u).1

equals_true : (m n : ℕ) → (m == n) ≡ true → n ≡ m
equals_true m n h = ground (arith, h)

decode_space : (b : ℕ) (s : Text) → (b == 32) ≡ true → url_decode (43 ∷ s) ≡ b ∷ url_decode s
decode_space b s e = decode_plain 43 s refl ∙ ap (λ c. c ∷ url_decode s) (equals_true b 32 e)

decode-encode_byte :
    (b : ℕ) (s : Text) → is_byte b ≡ true → url_decode (encode_byte b ++ s) ≡ b ∷ url_decode s
decode-encode_byte b s h = elim (Bool-cases (is_unreserved b)) [
  | inl u ↦ rw u (decode-unreserved b s u)
  | inr u ↦ elim (Bool-cases (b == 32)) [
    | inl e ↦ rw u (rw e (decode_space b s e))
    | inr e ↦ rw u (rw e (decode_escaped b s h))
  ]
]

head_is_byte :
    (b : ℕ) (s : Text) → all is_byte (b ∷ s) ≡ true → (is_byte b ≡ true) × (all is_byte s ≡ true)
head_is_byte b s h = ground (arith, h)

-- A form's decoder reads back the bytes that were percent-encoded.
pub url_decode-percent_encode :
    (s : Text) → all is_byte s ≡ true → url_decode (percent_encode s) ≡ s
unfolding percent_encode
url_decode-percent_encode [] h = refl
url_decode-percent_encode (b ∷ s) h =
    decode-encode_byte b (percent_encode s) (head_is_byte b s h).0
    ∙ ap (λ t. b ∷ t) (url_decode-percent_encode s (head_is_byte b s h).1)
