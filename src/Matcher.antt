-- ===== src/Matcher.antt =====
-- The matcher engine (crates/tmx-core/src/matcher.rs) and its vocabulary (crates/tmx-schema/src/matcher.rs).
--
-- What serde_json makes of a number and the arithmetic on floats are the parameter `Floats`; a number is
-- the text that it is written as. A path is read byte by byte, which its separators, all ASCII, allow.
pub mod Engine
pub mod Keys
pub mod Strength
mod Examples
use tmx.Base.{
  ℕ, suc, ◌+◌, Bool, true, false, not, ◌&&◌, ◌||◌, Option, none, some, List, [], ◌∷◌, ◌++◌, String,
  Text, bytes, text_eq, length, get_elem?, is_empty, any, ltb, leb, ◌==◌, if◌then◌else◌,
}
use tmx.Str.{contains}
use tmx.Json.{
  Value, Items, Fields, null, boolean, number, string, array, object, no_items, item, no_fields,
  field, get, to_list, as_str,
}

pub data MatcherName : Type 0 where
  to_be to_equal to_strict_equal to_be_truthy to_be_falsy to_be_null to_be_undefined : MatcherName
  to_be_defined to_be_nan to_be_type_of to_be_instance_of to_be_greater_than : MatcherName
  to_be_greater_than_or_equal to_be_less_than to_be_less_than_or_equal to_be_close_to : MatcherName
  to_contain to_contain_equal to_have_length to_have_property to_match to_match_object : MatcherName
  to_be_one_of to_throw to_satisfy : MatcherName

unfoldable pub matcher_text : MatcherName → String
matcher_text to_be = "toBe"
matcher_text to_equal = "toEqual"
matcher_text to_strict_equal = "toStrictEqual"
matcher_text to_be_truthy = "toBeTruthy"
matcher_text to_be_falsy = "toBeFalsy"
matcher_text to_be_null = "toBeNull"
matcher_text to_be_undefined = "toBeUndefined"
matcher_text to_be_defined = "toBeDefined"
matcher_text to_be_nan = "toBeNaN"
matcher_text to_be_type_of = "toBeTypeOf"
matcher_text to_be_instance_of = "toBeInstanceOf"
matcher_text to_be_greater_than = "toBeGreaterThan"
matcher_text to_be_greater_than_or_equal = "toBeGreaterThanOrEqual"
matcher_text to_be_less_than = "toBeLessThan"
matcher_text to_be_less_than_or_equal = "toBeLessThanOrEqual"
matcher_text to_be_close_to = "toBeCloseTo"
matcher_text to_contain = "toContain"
matcher_text to_contain_equal = "toContainEqual"
matcher_text to_have_length = "toHaveLength"
matcher_text to_have_property = "toHaveProperty"
matcher_text to_match = "toMatch"
matcher_text to_match_object = "toMatchObject"
matcher_text to_be_one_of = "toBeOneOf"
matcher_text to_throw = "toThrow"
matcher_text to_satisfy = "toSatisfy"

-- `Value::as_f64` and `as_i64` on a number, equality and printing of numbers, `usize as f64`,
-- `str::parse::<usize>`, and the operations on `f64`. `is_close x y digits` is
-- `(x - y).abs() < 10.0.powi(-(digits as i32)) / 2.0`, where no digits stand for the default of 2.
pub record Floats (F I : Type 0) : Type 0 where
  pub as_f64 : Text → Option F
  pub as_i64 : Text → Option I
  pub number_eq : Text → Text → Bool
  pub of_usize : ℕ → F
  pub parse_usize : Text → Option ℕ
  pub f64_eq : F → F → Bool
  pub f64_lt : F → F → Bool
  pub f64_le : F → F → Bool
  pub is_zero : F → Bool
  pub is_negative : F → Bool
  pub is_nan : F → Bool
  pub is_infinite : F → Bool
  pub is_close : F → F → Option I → Bool

-- `arg`
abbrev pub arg : Option (List Value) → ℕ → Option Value
arg none i = none
arg (some args) i = get_elem? args i

-- `is_some_and`
abbrev pub holds_for : {A : Type 0} → Option A → (A → Bool) → Bool
holds_for none p = false
holds_for (some a) p = p a

abbrev pub str_arg : Option Value → Option Text
str_arg none = none
str_arg (some v) = as_str v

abbrev pub js_typeof : Value → String
js_typeof null = "object"
js_typeof (boolean b) = "boolean"
js_typeof (number n) = "number"
js_typeof (string s) = "string"
js_typeof (array vs) = "object"
js_typeof (object fs) = "object"

-- The constructor name that a value is an instance of; null has none.
abbrev pub constructor_name : Value → Option String
constructor_name null = none
constructor_name (boolean b) = some "Boolean"
constructor_name (number n) = some "Number"
constructor_name (string s) = some "String"
constructor_name (array vs) = some "Array"
constructor_name (object fs) = some "Object"

abbrev pub is_instance : Value → Option Text → Bool
is_instance v none = false
is_instance v (some name) = holds_for (constructor_name v) (λ c. text_eq name (bytes c))

abbrev pub count_items : Items → ℕ
count_items no_items = 0
count_items (item v vs) = suc (count_items vs)

abbrev pub count_fields : Fields → ℕ
count_fields no_fields = 0
count_fields (field k v fs) = suc (count_fields fs)

-- The UTF-16 units of a UTF-8 byte: a lead byte of four bytes counts two, a byte that goes on none.
abbrev pub utf16_units : ℕ → ℕ
utf16_units b = if ltb b 128 then 1 else if ltb b 192 then 0 else if ltb b 240 then 1 else 2

abbrev pub utf16_length : Text → ℕ
utf16_length [] = 0
utf16_length (b ∷ s) = utf16_units b + utf16_length s

abbrev pub length_of : Value → Option ℕ
length_of (array vs) = some (count_items vs)
length_of (string s) = some (utf16_length s)
length_of _ = none

-- The segments of a path that end before it does, and what has been read of the current one.
abbrev pub push_segment : Text → List Text → List Text
push_segment [] segments = segments
push_segment (c ∷ s) segments = (c ∷ s) ∷ segments

-- Up to the next `]`, which is passed over.
abbrev pub until_bracket : Text → Text × Text
until_bracket [] = ([], [])
until_bracket (c ∷ s) =
    let rest = until_bracket s in if c == 93 then ([], s) else (c ∷ rest.0, rest.1)

abbrev pub is_quote : ℕ → Bool
is_quote c = c == 39 || c == 34

abbrev pub trim_left : Text → Text
trim_left [] = []
trim_left (c ∷ s) = let rest = trim_left s in if is_quote c then rest else c ∷ s

abbrev pub trim_right : Text → Text
trim_right [] = []
trim_right (c ∷ s) = let rest = trim_right s in if is_quote c && is_empty rest then [] else c ∷ rest

-- `trim_matches` on quotes
abbrev pub trim_quotes : Text → Text
trim_quotes s = trim_right (trim_left s)

-- The loop, which a bracket takes further than one byte; it has one unit of fuel for each byte.
unfoldable pub path_loop : ℕ → Text → Text → List Text
path_loop fuel current [] = push_segment current []
path_loop ℕ.zero current (c ∷ s) = []
path_loop (suc fuel) current (c ∷ s) =
    let after_dot = path_loop fuel [] s in
    let (inner, after_bracket) = until_bracket s in
    let bracketed = trim_quotes inner ∷ path_loop fuel [] after_bracket in
    let longer = path_loop fuel (current ++ c ∷ []) s in
    if c == 46
    then push_segment current after_dot
    else if c == 91
    then push_segment current bracketed
    else longer

unfoldable pub parse_string_path : Text → List Text
parse_string_path path = path_loop (length path) [] path

-- The segments of an array path; an element that is no string or number is no segment.
abbrev pub array_path : Items → Option (List Text)
array_path no_items = some []
array_path (item v vs) = elim v [
  | string s ↦ elim (array_path vs) [ none ↦ none | some rest ↦ some (s ∷ rest) ]
  | number n ↦ elim (array_path vs) [ none ↦ none | some rest ↦ some (n ∷ rest) ]
  | null ↦ none
  | boolean b ↦ none
  | array ws ↦ none
  | object fs ↦ none
]

abbrev pub segments_of : Value → Option (List Text)
segments_of (string s) = some (parse_string_path s)
segments_of (array parts) = array_path parts
segments_of _ = none
