-- ===== src/Dispatch/Encoding.antt =====
-- Durations and form encoding: `duration_to_ms`, `parse_duration_spec`, `percent_encode`, `form_urlencode`.
pub mod Decode
use tmx.Base.{
  ℕ, ◌+◌, ◌-◌, ◌*◌, ◌/◌, ◌%◌, Bool, ◌&&◌, ◌||◌, Option, none, some, [], ◌∷◌, ◌++◌, Text, bytes, ltb,
  leb, ◌==◌, min, if◌then◌else◌,
}
use tmx.Limits.{u64_mod}
use tmx.Json.{Value, Fields, string, object, no_fields}
use tmx.Flow.{Duration, seconds, spec}
use tmx.Dispatch.Template.{Rendering, strip_suffix}

abbrev pub ms_per_second : ℕ
ms_per_second = 1000

abbrev pub ms_per_minute : ℕ
ms_per_minute = 60 * ms_per_second

abbrev pub ms_per_hour : ℕ
ms_per_hour = 60 * ms_per_minute

-- `u64::saturating_mul`
abbrev pub saturating_mul : ℕ → ℕ → ℕ
saturating_mul a b = min (a * b) (u64_mod - 1)

-- The number of a duration and its unit, from the first suffix that fits.
abbrev pub split_unit : Text → Text × ℕ
split_unit s = elim (strip_suffix (bytes "ms") s) [
  | some rest ↦ (rest, 1)
  | none ↦ elim (strip_suffix (bytes "s") s) [
    | some rest ↦ (rest, ms_per_second)
    | none ↦ elim (strip_suffix (bytes "m") s) [
      | some rest ↦ (rest, ms_per_minute)
      | none ↦ elim (strip_suffix (bytes "h") s) [
        | some rest ↦ (rest, ms_per_hour)
        | none ↦ (s, ms_per_second)
      ]
    ]
  ]
]

-- `parse_u64` is `str::parse::<u64>`.
module _ (trim : Text → Text) (parse_u64 : Text → Option ℕ) where
  unfoldable pub parse_duration_spec : Text → Option ℕ
  parse_duration_spec s =
      let (number, unit) = split_unit (trim s) in
      elim (parse_u64 (trim number)) [ none ↦ none | some n ↦ some (saturating_mul n unit) ]

  unfoldable pub duration_to_ms : Duration → Option ℕ
  duration_to_ms (seconds n) = some (saturating_mul n ms_per_second)
  duration_to_ms (spec s) = parse_duration_spec s

abbrev pub in_range : ℕ → ℕ → ℕ → Bool
in_range lo hi b = leb lo b && leb b hi

abbrev pub is_unreserved : ℕ → Bool
is_unreserved b =
    in_range 65 90 b
    || in_range 97 122 b
    || in_range 48 57 b
    || b == 45
    || b == 95
    || b == 46
    || b == 126

-- A digit of `{:02X}`
abbrev pub hex_digit : ℕ → ℕ
hex_digit n = if ltb n 10 then 48 + n else 55 + n

abbrev pub encode_byte : ℕ → Text
encode_byte b =
    if is_unreserved b
    then b ∷ []
    else if b == 32
    then 43 ∷ []
    else 37 ∷ hex_digit (b / 16) ∷ hex_digit (b % 16) ∷ []

unfoldable pub percent_encode : Text → Text
percent_encode [] = []
percent_encode (b ∷ s) = encode_byte b ++ percent_encode s

abbrev pub value_to_str_of : Rendering → Value → Text
value_to_str_of rendering (string s) = s
value_to_str_of rendering other = rendering.to_string other

abbrev pub encode_fields : Rendering → Fields → Text
encode_fields rendering no_fields = []
encode_fields rendering (Fields.field k v no_fields) =
    percent_encode k ++ 61 ∷ percent_encode (value_to_str_of rendering v)
encode_fields rendering (Fields.field k v fs) =
    percent_encode k
    ++ 61 ∷ percent_encode (value_to_str_of rendering v)
    ++ 38 ∷ encode_fields rendering fs

unfoldable pub form_urlencode : Rendering → Value → Text
form_urlencode rendering (object fs) = encode_fields rendering fs
form_urlencode rendering other = percent_encode (value_to_str_of rendering other)
