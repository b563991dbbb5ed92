-- ===== src/Dispatch/Asserts.antt =====
-- The inline assertions of a task: `run_assert` and `split_args`.
use tmx.Base.{
  ℕ, ◌+◌, Bool, true, false, Option, none, some, List, [], ◌∷◌, String, Text, bytes, if◌then◌else◌,
}
use tmx.Json.{Value, array, to_list}
use tmx.Error.{
  Result, ok, err, RunError, Message, plain, format, num, text, run_failure_error, with_task, ◌>>=◌,
}
use tmx.Interpolate.{Numbers, Scope}
use tmx.Matcher.{MatcherName, to_have_property, to_be_close_to, matcher_text, Floats}
use tmx.Matcher.Engine.{evaluate}
use tmx.Dispatch.Template.{Rendering, interp_value}

pub record Assertion : Type 0 where
  pub actual : Value
  pub matcher : MatcherName
  pub negated : Option Bool
  pub expected : Option Value
  pub message : Option Text

-- An array is the list of the arguments, and anything else the one argument.
abbrev pub arguments : Value → List Value
arguments (array vs) = to_list vs
arguments single = single ∷ []

unfoldable pub split_args : MatcherName → Option Value → Option (List Value)
split_args matcher none = none
split_args to_have_property (some expected) = some (arguments expected)
split_args to_be_close_to (some expected) = some (arguments expected)
split_args matcher (some expected) = some (expected ∷ [])

abbrev pub or_false : Option Bool → Bool
or_false none = false
or_false (some b) = b

abbrev pub not_prefix : Bool → String
not_prefix true = "not "
not_prefix false = ""

abbrev pub failure_message : Assertion → ℕ → Message
failure_message a index = elim a.message [
  | some m ↦ plain m
  | none ↦ format "assertion #{index} ({}{}) did not hold" (
      num index
      ∷ text (bytes (not_prefix (or_false a.negated)))
      ∷ text (bytes (matcher_text a.matcher))
      ∷ [])
]

abbrev pub assertion_failed : Assertion → ℕ → Text → RunError
assertion_failed a index name =
    with_task (run_failure_error "assertion_failed" (failure_message a index)) name

module _ {F I : Type 0} (numbers : Numbers F) (floats : Floats F I) (rendering : Rendering) where
  -- `map(…).transpose()?`
  abbrev pub interp_optional : Option Value → Scope → Result (Option Value)
  interp_optional none scope = ok none
  interp_optional (some v) scope = interp_value numbers rendering v scope >>= λ w. ok (some w)

  unfoldable pub run_assert_from : ℕ → List Assertion → Scope → Text → Result (Unit {0})
  run_assert_from index [] scope name = ok tt
  run_assert_from index (a ∷ assertions) scope name =
      interp_value numbers rendering a.actual scope >>= λ actual.
      interp_optional a.expected scope >>= λ expected.
      let rest = run_assert_from (index + 1) assertions scope name in
      if evaluate floats actual a.matcher (split_args a.matcher expected) (or_false a.negated)
      then rest
      else err (assertion_failed a index name)

  unfoldable pub run_assert : List Assertion → Scope → Text → Result (Unit {0})
  run_assert assertions scope name = run_assert_from 0 assertions scope name
