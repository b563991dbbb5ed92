-- ===== src/Dispatch/Template.antt =====
-- The interpolation of templates: `interp_template`, `interp_value` and `value_to_str`.
--
-- `Rendering` holds what the standard library and serde_json do: `str::trim`, and `Value::to_string`.
pub mod Laws
use tmx.Base.{
  ℕ, zero, suc, ◌+◌, ◌-◌, Bool, true, false, not, ◌&&◌, Option, none, some, [], ◌∷◌, ◌++◌, Text,
  bytes, text_eq, length, is_empty, if◌then◌else◌,
}
use tmx.Str.{starts_with, contains}
use tmx.Json.{
  Value, Items, Fields, null, boolean, number, string, array, object, no_items, item, no_fields,
  field, insert,
}
use tmx.Error.{Result, ok, err, panic, RunError, resolution_error, format, text, ◌>>=◌}
use tmx.Interpolate.{Numbers, Scope}
use tmx.Interpolate.Eval.{evaluate}

pub record Rendering : Type 0 where
  pub trim : Text → Text
  pub to_string : Value → Text

abbrev pub interp_open : Text
interp_open = bytes "${{"

abbrev pub interp_close : Text
interp_close = bytes "}}"

abbrev pub drop : ℕ → Text → Text
drop zero s = s
drop (suc n) [] = []
drop (suc n) (c ∷ s) = drop n s

-- `strip_prefix`
unfoldable pub strip_prefix : Text → Text → Option Text
strip_prefix p s = if starts_with p s then some (drop (length p) s) else none

-- `find`, as what stands before the first occurrence and what stands after it.
unfoldable pub split_once : Text → Text → Option (Text × Text)
split_once p [] = if starts_with p [] then some ([], []) else none
split_once p (c ∷ s) =
    let rest = split_once p s in
    if starts_with p (c ∷ s)
    then some ([], drop (length p) (c ∷ s))
    else elim rest [ none ↦ none | some r ↦ some (c ∷ r.0, r.1) ]

-- `strip_suffix`
unfoldable pub strip_suffix : Text → Text → Option Text
strip_suffix p [] = if text_eq p [] then some [] else none
strip_suffix p (c ∷ s) =
    let rest = strip_suffix p s in
    if text_eq p (c ∷ s) then some [] else elim rest [ none ↦ none | some r ↦ some (c ∷ r) ]

abbrev pub and_strip_suffix : Text → Option Text → Option Text
and_strip_suffix p none = none
and_strip_suffix p (some s) = strip_suffix p s

-- The one expression of a template that is a whole `${{ … }}`.
abbrev pub without_open : Option Text → Option Text
without_open none = none
without_open (some inner) = if contains interp_open inner then none else some inner

unfoldable pub lone_expression : Text → Option Text
lone_expression trimmed =
    without_open (and_strip_suffix interp_close (strip_prefix interp_open trimmed))

abbrev pub unterminated : Text → RunError
unterminated s =
    resolution_error "expr_unterminated"
      (format "unterminated {INTERP_OPEN} in template {s:?}" (text interp_open ∷ text s ∷ []))

-- The truth of a number is that of the float it stands for; a number that has none counts as true.
abbrev pub float_truthy : {F : Type 0} → Numbers F → Option F → Bool
float_truthy numbers none = true
float_truthy numbers (some f) = not (numbers.is_zero f) && not (numbers.is_nan f)

-- The predicate of the `if` gate
unfoldable pub is_truthy : {F : Type 0} → Numbers F → Value → Bool
is_truthy numbers null = false
is_truthy numbers (boolean b) = b
is_truthy numbers (number n) = float_truthy numbers (numbers.as_f64 n)
is_truthy numbers (string s) = not (is_empty s)
is_truthy numbers (array vs) = true
is_truthy numbers (object fs) = true

module _ {F : Type 0} (numbers : Numbers F) (rendering : Rendering) where
  abbrev pub value_to_str : Value → Text
  value_to_str (string s) = s
  value_to_str other = rendering.to_string other

  -- The `while let` loop, on what is left of the template; without fuel it panics.
  unfoldable pub splice : ℕ → Text → Text → Text → Scope → Result Text
  splice zero template out rest scope = panic
  splice (suc fuel) template out rest scope = elim (split_once interp_open rest) [
    | none ↦ ok (out ++ rest)
    | some (before, after) ↦ elim (split_once interp_close after) [
      | none ↦ err (unterminated template)
      | some (inside, rest') ↦ do
        v ← evaluate numbers (rendering.trim inside) scope
        splice fuel template (out ++ before ++ value_to_str v) rest' scope
    ]
  ]

  abbrev pub spliced : Text → Scope → Result Value
  spliced s scope = splice (length s + 1) s [] s scope >>= λ out. ok (string out)

  abbrev pub lone_or_spliced : Option Text → Text → Scope → Result Value
  lone_or_spliced (some inner) s scope = evaluate numbers (rendering.trim inner) scope
  lone_or_spliced none s scope = spliced s scope

  unfoldable pub interp_template : Text → Scope → Result Value
  interp_template s scope =
      let interpolated = lone_or_spliced (lone_expression (rendering.trim s)) s scope in
      if not (contains interp_open s) then ok (string s) else interpolated

  unfoldable mutual
    pub interp_value : Value → Scope → Result Value
    interp_value (string s) scope = interp_template s scope
    interp_value (array vs) scope = interp_items vs scope >>= λ out. ok (array out)
    interp_value (object fs) scope = interp_fields fs scope no_fields >>= λ out. ok (object out)
    interp_value scalar scope = ok scalar

    pub interp_items : Items → Scope → Result Items
    interp_items no_items scope = ok no_items
    interp_items (item v vs) scope =
        interp_value v scope >>= λ w. interp_items vs scope >>= λ rest. ok (item w rest)

    pub interp_fields : Fields → Scope → Fields → Result Fields
    interp_fields no_fields scope out = ok out
    interp_fields (field k v fs) scope out =
        interp_value v scope >>= λ w. interp_fields fs scope (insert k w out)

  unfoldable pub interp_to_string : Text → Scope → Result Text
  interp_to_string s scope = interp_template s scope >>= λ v. ok (value_to_str v)
