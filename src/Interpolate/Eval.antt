-- ===== src/Interpolate/Eval.antt =====
-- The evaluator: `eval`, `resolve_path` and `evaluate`.
pub mod Laws
use tmx.Base.{
  ℕ, suc, Bool, true, false, not, ◌&&◌, ◌||◌, Option, none, some, [], ◌∷◌, String, Text, bytes,
  text_eq, length, get_elem?, is_empty, ◌==◌, if◌then◌else◌,
}
use tmx.Json.{
  Value, Items, Fields, null, boolean, number, string, array, object, no_items, item, no_fields,
  field, get, to_list, is_object,
}
use tmx.Error.{Result, ok, err, panic, RunError, resolution_error, format, text, num, ok_or, ◌>>=◌}
use tmx.Interpolate.{
  BinOp, strict_eq, strict_ne, and, or, Expr, literal, path, negation, binary, Steps, no_steps,
  index, Numbers, Scope,
}
use tmx.Interpolate.Parser.{parse}

abbrev pub type_name : Value → String
type_name null = "null"
type_name (boolean b) = "a boolean"
type_name (number n) = "a number"
type_name (string s) = "a string"
type_name (array vs) = "an array"
type_name (object fs) = "an object"

abbrev pub unknown_namespace : Text → RunError
unknown_namespace other =
    resolution_error "unknown_namespace"
      (format "`{other}` is not a known interpolation namespace" (text other ∷ []))

abbrev pub unbound : Text → RunError
unbound root =
    resolution_error "unknown_namespace"
      (format "`{root}` is not bound in this scope" (text root ∷ []))

abbrev pub missing_key : Text → Text → Bool → RunError
missing_key key root secret_first =
    if secret_first
    then resolution_error "unlisted_secret" (
        format "secret `{key}` is not available (the task did not list it in `secrets`)"
          (text key ∷ []))
    else resolution_error "unknown_namespace"
        (format "`{root}` has no key `{key}`" (text root ∷ text key ∷ []))

abbrev pub no_property : Text → Value → Text → RunError
no_property key other root = resolution_error "type_mismatch" (
    format "cannot read property `{key}` of {} (in `{root}`)"
      (text key ∷ text (bytes (type_name other)) ∷ text root ∷ []))

unfoldable pub access_key : Value → Text → Text → Bool → Result Value
access_key (object fs) key root secret_first =
    ok_or (get key fs) (missing_key key root secret_first)
access_key other key root secret_first = err (no_property key other root)

abbrev pub out_of_range : ℕ → Text → RunError
out_of_range i root =
    resolution_error "unknown_namespace"
      (format "index `{index}` is out of range in `{root}`" (num i ∷ text root ∷ []))

abbrev pub not_indexable : ℕ → Value → Text → RunError
not_indexable i other root = resolution_error "type_mismatch" (
    format "cannot index {} with `[{index}]` (in `{root}`)"
      (text (bytes (type_name other)) ∷ num i ∷ text root ∷ []))

-- A `usize` has 64 bits, so that every index fits.
unfoldable pub access_index : Value → ℕ → Text → Result Value
access_index (array vs) i root = ok_or (get_elem? (to_list vs) i) (out_of_range i root)
access_index other i root = err (not_indexable i other root)

abbrev pub not_natural : Text → RunError
not_natural n =
    resolution_error "type_mismatch"
      (format "index must be a non-negative integer, got `{n}`" (text n ∷ []))

abbrev pub no_index : Value → RunError
no_index other =
    resolution_error "type_mismatch"
      (format "an index must be a string or number, got {}" (text (bytes (type_name other)) ∷ []))

abbrev items_length : Items → ℕ
items_length no_items = 0
items_length (item v vs) = suc (items_length vs)

abbrev fields_length : Fields → ℕ
fields_length no_fields = 0
fields_length (field k v fs) = suc (fields_length fs)

module _ {F : Type 0} (numbers : Numbers F) where
  abbrev pub number_truthy : Option F → Bool
  number_truthy none = false
  number_truthy (some f) = not (numbers.is_zero f)

  unfoldable pub is_truthy : Value → Bool
  is_truthy null = false
  is_truthy (boolean b) = b
  is_truthy (number n) = number_truthy (numbers.as_f64 n)
  is_truthy (string s) = not (is_empty s)
  is_truthy (array vs) = true
  is_truthy (object fs) = true

  abbrev pub numbers_eq : Option F → Option F → Bool
  numbers_eq (some x) (some y) = numbers.f64_eq x y
  numbers_eq _ _ = false

  -- `strict_eq`, and the walks over the two arrays and over the entries of the first object.
  unfoldable mutual
    pub values_eq : Value → Value → Bool
    values_eq null null = true
    values_eq (boolean x) (boolean y) = if x then y else not y
    values_eq (number x) (number y) = numbers_eq (numbers.as_f64 x) (numbers.as_f64 y)
    values_eq (string x) (string y) = text_eq x y
    values_eq (array x) (array y) = items_length x == items_length y && items_eq x y
    values_eq (object x) (object y) = fields_length x == fields_length y && fields_eq x y
    values_eq _ _ = false

    pub items_eq : Items → Items → Bool
    items_eq (item l ls) (item r rs) = values_eq l r && items_eq ls rs
    items_eq _ _ = true

    pub fields_eq : Fields → Fields → Bool
    fields_eq no_fields y = true
    fields_eq (field k l fs) y =
        elim (get k y) [ none ↦ false | some r ↦ values_eq l r ] && fields_eq fs y

  -- What `&&`, `||` and the equalities make of their operands' results; the right one is not looked
  -- at where the left one decides.
  abbrev pub and_value : Result Value → Result Value → Result Value
  and_value lhs rhs = lhs >>= λ l. if is_truthy l then rhs else ok l

  abbrev pub or_value : Result Value → Result Value → Result Value
  or_value lhs rhs = lhs >>= λ l. if is_truthy l then ok l else rhs

  abbrev pub eq_value : (Bool → Bool) → Result Value → Result Value → Result Value
  eq_value sense lhs rhs = lhs >>= λ l. rhs >>= λ r. ok (boolean (sense (values_eq l r)))

  abbrev pub binary_value : BinOp → Result Value → Result Value → Result Value
  binary_value and lhs rhs = and_value lhs rhs
  binary_value or lhs rhs = or_value lhs rhs
  binary_value strict_eq lhs rhs = eq_value (λ b. b) lhs rhs
  binary_value strict_ne lhs rhs = eq_value not lhs rhs

  abbrev pub access : Value → Value → Text → Bool → Result Value
  access current (string s) root secret_first = access_key current s root secret_first
  access current (number n) root secret_first =
      ok_or (numbers.as_u64 n) (not_natural n) >>= λ i. access_index current i root
  access current other root secret_first = err (no_index other)

  abbrev pub alias_of : Option Text → Text
  alias_of none = bytes "item"
  alias_of (some alias) = alias

  abbrev pub is_index_field : Steps → Bool
  is_index_field (Steps.field name no_steps) = text_eq name (bytes "index")
  is_index_field _ = false

  -- The position of an item that is no object, where a lone `.index` asks for it.
  abbrev pub item_position : Value → Steps → Option ℕ → Option ℕ
  item_position v steps none = none
  item_position v steps (some i) =
      if not (is_object v) && is_index_field steps then some i else none

  unfoldable pub base_of : Text → Scope → Result Value
  base_of root scope =
      if text_eq root (bytes "inputs")
      then ok scope.inputs
      else if text_eq root (bytes "env")
      then ok scope.env
      else if text_eq root (bytes "secrets")
      then ok scope.secrets
      else if text_eq root (bytes "tasks")
      then ok scope.tasks
      else if text_eq root (bytes "matrix")
      then ok scope.matrix
      else if text_eq root (bytes "case")
      then ok_or scope.case_value (unbound root)
      else if text_eq root (bytes "output")
      then ok_or scope.output (unbound root)
      else if text_eq root (alias_of scope.item_alias)
      then ok_or scope.item (unbound root)
      else err (unknown_namespace root)

  -- The namespaces of a fixed name, which come before the alias of an item.
  abbrev is_fixed : Text → Bool
  is_fixed root =
      text_eq root (bytes "inputs")
      || text_eq root (bytes "env")
      || text_eq root (bytes "secrets")
      || text_eq root (bytes "tasks")
      || text_eq root (bytes "matrix")
      || text_eq root (bytes "case")
      || text_eq root (bytes "output")

  -- The number that stands for `.index`, where the root is the item.
  abbrev pub position_of : Text → Steps → Scope → Value → Option ℕ
  position_of root steps scope base =
      if is_fixed root then none else item_position base steps scope.item_index

  unfoldable mutual
    pub eval : Expr → Scope → Result Value
    eval (literal v) scope = ok v
    eval (negation e) scope = eval e scope >>= λ v. ok (boolean (not (is_truthy v)))
    eval (binary op l r) scope = binary_value op (eval l scope) (eval r scope)
    eval (path root steps) scope =
        let walk =
          λ (base : Value). apply_steps steps root (text_eq root (bytes "secrets")) scope base in
        base_of root scope >>= λ base. elim (position_of root steps scope base) [
          | some i ↦ ok (number (numbers.of_u64 i))
          | none ↦ walk base
        ]

    -- The loop over the steps, with `apply_step` for each; only the first step can be `secret_first`.
    pub apply_steps : Steps → Text → Bool → Scope → Value → Result Value
    apply_steps no_steps root secret_first scope current = ok current
    apply_steps (Steps.field name steps) root secret_first scope current =
        access_key current name root secret_first >>= λ next.
        apply_steps steps root false scope next
    apply_steps (index e steps) root secret_first scope current = eval e scope >>= λ key.
        access current key root secret_first >>= λ next. apply_steps steps root false scope next

  unfoldable pub evaluate : Text → Scope → Result Value
  evaluate expression scope = parse numbers expression >>= λ ast. eval ast scope
