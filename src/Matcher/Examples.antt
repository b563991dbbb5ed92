-- ===== src/Matcher/Examples.antt =====
-- The matchers at concrete values, over numbers that stand for their length.
use tmx.Base.{ℕ, ◌≡◌, refl, arith, true, false, none, some, [], ◌∷◌, bytes, length, ◌==◌, ltb, leb}
use tmx.Json.{Value, number, string, object, field, no_fields, array, item, no_items}
use tmx.Matcher.{
  to_be, to_equal, to_strict_equal, to_match_object, Floats, parse_string_path, path_loop,
}
use tmx.Matcher.Engine.{evaluate}
use tmx.Matcher.Strength.{well_keyed, evaluate-strength}

abbrev floats : Floats ℕ ℕ
floats = record {
  as_f64 = λ t. some (length t);
  as_i64 = λ t. none;
  number_eq = λ x y. false;
  of_usize = λ n. n;
  parse_usize = λ t. some 0;
  f64_eq = λ x y. x == y;
  f64_lt = ltb;
  f64_le = leb;
  is_zero = λ x. x == 0;
  is_negative = λ x. false;
  is_nan = λ x. false;
  is_infinite = λ x. false;
  is_close = λ x y digits. x == y;
}

segments_split :
    parse_string_path (bytes "a.b[0]['x'].c")
    ≡ bytes "a" ∷ bytes "b" ∷ bytes "0" ∷ bytes "x" ∷ bytes "c" ∷ []
unfolding parse_string_path path_loop
segments_split = refl

abbrev pair : Value
pair = object (
    field (bytes "k") (number (bytes "12"))
      (field (bytes "l") (array (item (string []) no_items)) no_fields))

zeros_equal : (x y : ℕ) → (x == 0) ≡ true → (y == 0) ≡ true → (x == y) ≡ true
zeros_equal x y h k = ground (arith, h, k)

evaluate-strength_example :
    (evaluate floats pair to_be (some (pair ∷ [])) false ≡ true
      → evaluate floats pair to_equal (some (pair ∷ [])) false ≡ true)
    × ((evaluate floats pair to_equal (some (pair ∷ [])) false
          ≡ evaluate floats pair to_strict_equal (some (pair ∷ [])) false)
        × (evaluate floats pair to_equal (some (pair ∷ [])) false ≡ true
            → evaluate floats pair to_match_object (some (pair ∷ [])) false ≡ true))
unfolding well_keyed
evaluate-strength_example = evaluate-strength floats zeros_equal pair pair refl refl
