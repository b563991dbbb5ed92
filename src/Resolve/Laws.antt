-- ===== src/Resolve/Laws.antt =====
-- What resolution makes of the inputs and of the task collection.
use tmx.Base.{
  ◌≡◌, refl, Bool, true, false, Option, none, some, [], ◌∷◌, arith, Text, text_eq, text_eq_iff,
  Option-cases, inl, inr, if◌then◌else◌,
}
use tmx.Json.{Value, Fields, no_fields, field, object, get, contains_key, get-insert}
use tmx.IndexMap.{IndexMap, find, unique, has_key-find}
use tmx.Flow.{InputSpec}
use tmx.Resolve.{add_default, add_defaults, merged_inputs}

abbrev pub or_else : Option Value → Option Value → Option Value
or_else none d = d
or_else (some v) d = some v

-- The default that is declared for an input.
abbrev pub default_of : Option InputSpec → Option Value
default_of none = none
default_of (some spec) = spec.default

-- The inputs that were handed over: those of anything but an object are none.
abbrev pub supplied_fields : Value → Fields
supplied_fields (object fs) = fs
supplied_fields _ = no_fields

abbrev is_some : {A : Type 0} → Option A → Bool
is_some none = false
is_some (some a) = true

contains_key-get : (k : Text) (fs : Fields) → contains_key k fs ≡ is_some (get k fs)
contains_key-get k no_fields = refl
contains_key-get k (field j v fs) = ground (arith, contains_key-get k fs)

get-add_default :
    (j n : Text) (d : Option Value) (fs : Fields)
    → get j (add_default n d fs) ≡ or_else (get j fs) (if text_eq n j then d else none)
get-add_default j n none fs = ground arith
get-add_default j n (some d) fs = elim (Option-cases (get n fs)) [
  | inl e ↦ ground (arith, e, contains_key-get n fs, get-insert j n d fs, text_eq_iff n j)
  | inr (v, e) ↦ ground (arith, e, contains_key-get n fs, text_eq_iff n j)
]

get-add_defaults :
    (j : Text) (specs : IndexMap InputSpec) (fs : Fields)
    → unique specs ≡ true
    → get j (add_defaults specs fs) ≡ or_else (get j fs) (default_of (find j specs))
unfolding add_defaults
get-add_defaults j [] fs u = ground arith
get-add_defaults j ((n, spec) ∷ specs) fs u = ground (
  arith,
  get-add_defaults j specs (add_default n spec.default fs),
  get-add_default j n spec.default fs,
  has_key-find n specs,
  text_eq_iff n j,
)

-- The inputs of a run are an object. Under each name it holds what was supplied, and else the
-- default that is declared for the name, if there is one. No name is declared twice.
pub get-merged_inputs :
    (supplied : Value) (specs : IndexMap InputSpec)
    → unique specs ≡ true
    → (merged : Fields) × (merged_inputs supplied specs ≡ object merged)
      × ((j : Text)
          → get j merged ≡ or_else (get j (supplied_fields supplied)) (default_of (find j specs)))
unfolding merged_inputs
get-merged_inputs (object fs) specs u =
    (add_defaults specs fs, refl, (λ j. get-add_defaults j specs fs u))
get-merged_inputs _ specs u =
    (add_defaults specs no_fields, refl, (λ j. get-add_defaults j specs no_fields u))
