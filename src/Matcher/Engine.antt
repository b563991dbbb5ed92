-- ===== src/Matcher/Engine.antt =====
-- The engine itself: the equalities, the paths, and `MatcherEngine::evaluate`.
use tmx.Base.{
  Bool, true, false, not, ◌&&◌, ◌||◌, Option, none, some, List, [], ◌∷◌, Text, bytes, text_eq,
  get_elem?, is_empty, any, ◌==◌, if◌then◌else◌,
}
use tmx.Str.{contains}
use tmx.Json.{
  Value, Items, Fields, null, boolean, number, string, array, object, item, no_fields, field, get,
  to_list,
}
use tmx.Matcher.{
  MatcherName, to_be, to_equal, to_strict_equal, to_be_truthy, to_be_falsy, to_be_null,
  to_be_undefined, to_be_defined, to_be_nan, to_be_type_of, to_be_instance_of, to_be_greater_than,
  to_be_greater_than_or_equal, to_be_less_than, to_be_less_than_or_equal, to_be_close_to,
  to_contain, to_contain_equal, to_have_length, to_have_property, to_match, to_match_object,
  to_be_one_of, to_throw, to_satisfy, Floats, arg, holds_for, str_arg, js_typeof, is_instance,
  count_items, count_fields, length_of, segments_of,
}

abbrev pub bool_eq : Bool → Bool → Bool
bool_eq x y = if x then y else not y

abbrev pub is_null : Value → Bool
is_null null = true
is_null _ = false

module _ {F I : Type 0} (floats : Floats F I) where
  abbrev pub float_of : Value → Option F
  float_of (number n) = floats.as_f64 n
  float_of _ = none

  abbrev pub truthy_float : Option F → Bool
  truthy_float none = true
  truthy_float (some f) = not (floats.is_zero f) && not (floats.is_nan f)

  unfoldable pub is_truthy : Value → Bool
  is_truthy null = false
  is_truthy (boolean b) = b
  is_truthy (number n) = truthy_float (floats.as_f64 n)
  is_truthy (string s) = not (is_empty s)
  is_truthy (array vs) = true
  is_truthy (object fs) = true

  -- `Object.is` on floats: the sign of zero counts.
  abbrev pub same_float : F → F → Bool
  same_float x y =
      if floats.is_zero x && floats.is_zero y
      then bool_eq (floats.is_negative x) (floats.is_negative y)
      else floats.f64_eq x y

  -- Two numbers, by their floats, or as they are where one has none.
  abbrev pub numbers_by : (F → F → Bool) → Text → Text → Bool
  numbers_by eq x y = elim (floats.as_f64 x) [
    | none ↦ floats.number_eq x y
    | some f ↦ elim (floats.as_f64 y) [ none ↦ floats.number_eq x y | some g ↦ eq f g ]
  ]

  unfoldable pub same_value : Value → Value → Bool
  same_value null null = true
  same_value (boolean x) (boolean y) = bool_eq x y
  same_value (string x) (string y) = text_eq x y
  same_value (number x) (number y) = numbers_by same_float x y
  same_value _ _ = false

  unfoldable pub strict_eq : Value → Value → Bool
  strict_eq null null = true
  strict_eq (boolean x) (boolean y) = bool_eq x y
  strict_eq (string x) (string y) = text_eq x y
  strict_eq (number x) (number y) = numbers_by floats.f64_eq x y
  strict_eq _ _ = false

  unfoldable mutual
    pub deep_equal : Value → Value → Bool
    deep_equal null null = true
    deep_equal (boolean x) (boolean y) = bool_eq x y
    deep_equal (string x) (string y) = text_eq x y
    deep_equal (number x) (number y) = numbers_by floats.f64_eq x y
    deep_equal (array x) (array y) = count_items x == count_items y && items_equal x y
    deep_equal (object x) (object y) = count_fields x == count_fields y && fields_equal x y
    deep_equal _ _ = false

    pub items_equal : Items → Items → Bool
    items_equal (item p ps) (item q qs) = deep_equal p q && items_equal ps qs
    items_equal _ _ = true

    pub fields_equal : Fields → Fields → Bool
    fields_equal no_fields y = true
    fields_equal (field k v fs) y =
        elim (get k y) [ none ↦ false | some w ↦ deep_equal v w ] && fields_equal fs y

  -- The second argument is the expected subset, on which the function recurs.
  unfoldable mutual
    pub matches_object : Value → Value → Bool
    matches_object (object have) (object want) = matches_fields have want
    matches_object (array have) (array want) =
        count_items want == count_items have && matches_items have want
    matches_object actual null = deep_equal actual null
    matches_object actual (boolean b) = deep_equal actual (boolean b)
    matches_object actual (string s) = deep_equal actual (string s)
    matches_object actual (number n) = deep_equal actual (number n)
    matches_object _ _ = false

    pub matches_items : Items → Items → Bool
    matches_items (item h hs) (item w ws) = matches_object h w && matches_items hs ws
    matches_items _ _ = true

    pub matches_fields : Fields → Fields → Bool
    matches_fields have no_fields = true
    matches_fields have (field k w ws) =
        elim (get k have) [ none ↦ false | some h ↦ matches_object h w ] && matches_fields have ws

  abbrev pub step_into : Value → Text → Option Value
  step_into (object fs) segment = get segment fs
  step_into (array vs) segment = elim (floats.parse_usize segment) [
    | none ↦ none
    | some i ↦ get_elem? (to_list vs) i
  ]
  step_into _ segment = none

  abbrev pub walk_path : List Text → Value → Option Value
  walk_path [] current = some current
  walk_path (segment ∷ segments) current = elim (step_into current segment) [
    | none ↦ none
    | some next ↦ walk_path segments next
  ]

  unfoldable pub resolve_path : Value → Value → Option Value
  resolve_path root path = elim (segments_of path) [
    | none ↦ none
    | some segments ↦ walk_path segments root
  ]

  abbrev pub has_wanted : Option Value → Option Value → Bool
  has_wanted none want = false
  has_wanted (some found) none = true
  has_wanted (some found) (some want) = deep_equal found want

  abbrev pub found_at : Value → Option Value → Option Value
  found_at actual none = none
  found_at actual (some path) = resolve_path actual path

  unfoldable pub has_property : Value → Option (List Value) → Bool
  has_property actual expected = has_wanted (found_at actual (arg expected 0)) (arg expected 1)

  abbrev pub arg_float : Option (List Value) → Option F
  arg_float expected = elim (arg expected 0) [ none ↦ none | some v ↦ float_of v ]

  abbrev pub both : Option F → Option F → (F → F → Bool) → Bool
  both (some a) (some b) op = op a b
  both _ _ op = false

  unfoldable pub num_cmp : Value → Option (List Value) → (F → F → Bool) → Bool
  num_cmp actual expected op = both (float_of actual) (arg_float expected) op

  abbrev pub digits_of : Option Value → Option I
  digits_of (some (number n)) = floats.as_i64 n
  digits_of _ = none

  unfoldable pub close_to : Value → Option (List Value) → Bool
  close_to actual expected = both (float_of actual) (arg_float expected) (λ a b.
      if floats.is_infinite a || floats.is_infinite b
      then floats.f64_eq a b
      else floats.is_close a b (digits_of (arg expected 1)))

  abbrev pub contained : Value → Option Value → Bool
  contained (string s) needle = holds_for (str_arg needle) (λ n. contains n s)
  contained (array vs) needle = holds_for needle (λ n. any (λ e. strict_eq e n) (to_list vs))
  contained _ needle = false

  abbrev pub contained_equal : Value → Option Value → Bool
  contained_equal (array vs) needle = holds_for needle (λ n. any (λ e. deep_equal e n) (to_list vs))
  contained_equal _ needle = false

  abbrev pub has_length : Value → Option (List Value) → Bool
  has_length actual expected =
      holds_for (length_of actual)
        (λ len. holds_for (arg_float expected) (λ want. floats.f64_eq (floats.of_usize len) want))

  abbrev pub matches_text : Value → Option Value → Bool
  matches_text (string s) (some (string pattern)) = contains pattern s
  matches_text _ _ = false

  abbrev pub one_of : Value → Option Value → Bool
  one_of actual (some (array candidates)) = any (λ c. deep_equal actual c) (to_list candidates)
  one_of actual _ = false

  unfoldable pub evaluate_base : Value → MatcherName → Option (List Value) → Bool
  evaluate_base actual to_be expected = holds_for (arg expected 0) (λ e. same_value actual e)
  evaluate_base actual to_equal expected = holds_for (arg expected 0) (λ e. deep_equal actual e)
  evaluate_base actual to_strict_equal expected =
      holds_for (arg expected 0) (λ e. deep_equal actual e)
  evaluate_base actual to_be_truthy expected = is_truthy actual
  evaluate_base actual to_be_falsy expected = not (is_truthy actual)
  evaluate_base actual to_be_null expected = is_null actual
  evaluate_base actual to_be_undefined expected = false
  evaluate_base actual to_be_defined expected = true
  evaluate_base actual to_be_nan expected = holds_for (float_of actual) floats.is_nan
  evaluate_base actual to_be_type_of expected =
      holds_for (str_arg (arg expected 0)) (λ t. text_eq (bytes (js_typeof actual)) t)
  evaluate_base actual to_be_instance_of expected = is_instance actual (str_arg (arg expected 0))
  evaluate_base actual to_be_greater_than expected =
      num_cmp actual expected (λ a b. floats.f64_lt b a)
  evaluate_base actual to_be_greater_than_or_equal expected =
      num_cmp actual expected (λ a b. floats.f64_le b a)
  evaluate_base actual to_be_less_than expected = num_cmp actual expected floats.f64_lt
  evaluate_base actual to_be_less_than_or_equal expected = num_cmp actual expected floats.f64_le
  evaluate_base actual to_be_close_to expected = close_to actual expected
  evaluate_base actual to_contain expected = contained actual (arg expected 0)
  evaluate_base actual to_contain_equal expected = contained_equal actual (arg expected 0)
  evaluate_base actual to_have_length expected = has_length actual expected
  evaluate_base actual to_have_property expected = has_property actual expected
  evaluate_base actual to_match expected = matches_text actual (arg expected 0)
  evaluate_base actual to_match_object expected =
      holds_for (arg expected 0) (λ e. matches_object actual e)
  evaluate_base actual to_be_one_of expected = one_of actual (arg expected 0)
  evaluate_base actual to_throw expected = holds_for (arg expected 0) is_truthy
  evaluate_base actual to_satisfy expected = holds_for (arg expected 0) is_truthy

  -- `MatcherEngine::evaluate`: the exclusive or with the negation.
  unfoldable pub evaluate : Value → MatcherName → Option (List Value) → Bool → Bool
  evaluate actual matcher expected negated =
      let held = evaluate_base actual matcher expected in if negated then not held else held
