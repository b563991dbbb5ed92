-- ===== src/Merge.antt =====
-- The state merge (crates/tmx-core/src/merge.rs): the `StateBuilder`, its running byte size and
-- the depth check. The `debug_assert!`s are not part of the model: it is the release build.
pub mod Depth
pub mod Size
pub mod Refinement
pub mod Effects
pub mod Base64
pub mod Output
mod Examples
use tmx.Base.{
  ℕ, zero, suc, ◌+◌, ◌-◌, ◌%◌, ◌<◌, min, Bool, true, false, not, Option, none, some, List, [], ◌∷◌,
  Text, bytes, length, is_empty, ltb, if◌then◌else◌,
}
use tmx.Limits.{state_size_max_bytes, json_depth_max, u64_mod}
use tmx.Json.{
  Value, Items, Fields, null, boolean, number, string, array, object, no_items, item, no_fields,
  field, get, insert, fields_empty, is_object,
}
use tmx.Json.Size.{nodes}
use tmx.Error.{
  Result, ok, err, panic, RunError, validation_error, run_failure_error, with_task, format, text,
  num, assert, ◌>>=◌, ◌>>◌,
}

-- `serde_json::to_string`, on a document and on a string that is a key.
pub record Serializer : Type 0 where
  pub to_string : Value → Option Text
  pub key_to_string : Text → Option Text

abbrev pub len_or_zero : Option Text → ℕ
len_or_zero none = 0
len_or_zero (some s) = length s

unfoldable pub canonical_len : Serializer → Value → ℕ
canonical_len json v = len_or_zero (json.to_string v)

unfoldable pub key_token_len : Serializer → Text → ℕ
key_token_len json key = len_or_zero (json.key_to_string key)

-- The explicit stack of `check_merge_depth`, its top first.
abbrev pub Stack : Type 0
Stack = List (Value × ℕ)

abbrev pub push_items : Items → ℕ → Stack → Stack
push_items no_items d stack = stack
push_items (item v vs) d stack = push_items vs d ((v, d) ∷ stack)

abbrev pub push_fields : Fields → ℕ → Stack → Stack
push_fields no_fields d stack = stack
push_fields (field k v fs) d stack = push_fields fs d ((v, d) ∷ stack)

abbrev pub push_children : Value → ℕ → Stack → Stack
push_children (array vs) d stack = push_items vs d stack
push_children (object fs) d stack = push_fields fs d stack
push_children _ d stack = stack

abbrev pub json_too_deep : Text → Text → RunError
json_too_deep key task =
    with_task
      (validation_error "json_too_deep" (
        format
          "merging task {task:?} under key {key:?} would nest the Pipeline state deeper than the {JSON_DEPTH_MAX}-level cap"
          (text task ∷ text key ∷ num json_depth_max ∷ [])))
      task

-- The `while let` loop of `check_merge_depth`; `none` means that the fuel ran out.
unfoldable pub scan_depth : ℕ → RunError → Stack → Option (Result (Unit {0}))
scan_depth zero e stack = none
scan_depth (suc fuel) e [] = some (ok tt)
scan_depth (suc fuel) e ((value, depth) ∷ stack) =
    let rest = scan_depth fuel e (push_children value (depth + 1) stack) in
    if ltb json_depth_max depth then some (err e) else rest

-- Each round takes one node of the document off the stack.
unfoldable pub check_merge_depth : Value → Text → Text → Result (Unit {0})
check_merge_depth output key task =
    elim (scan_depth (nodes output + 1) (json_too_deep key task) ((output, 2) ∷ [])) [
      | none ↦ panic
      | some r ↦ r
    ]

pub record StateBuilder : Type 0 where
  pub state : Value
  pub size_bytes : ℕ
  pub cap_bytes : ℕ

unfoldable pub from_state_with_cap : Serializer → Value → ℕ → StateBuilder
from_state_with_cap json state cap_bytes = record {
  state = state;
  size_bytes = canonical_len json state;
  cap_bytes = min cap_bytes state_size_max_bytes;
}

unfoldable pub from_state : Serializer → Value → StateBuilder
unfolding from_state_with_cap
from_state json state = from_state_with_cap json state state_size_max_bytes

unfoldable pub with_cap : Serializer → ℕ → StateBuilder
with_cap json cap_bytes = record {
  state = object no_fields;
  size_bytes = canonical_len json (object no_fields);
  cap_bytes = min cap_bytes state_size_max_bytes;
}

unfoldable pub new : Serializer → StateBuilder
unfolding with_cap
new json = with_cap json state_size_max_bytes

-- `+` and `-` on a `u64`, as the release build computes them.
unfoldable pub add_u64 : ℕ → ℕ → ℕ
add_u64 a b = (a + b) % u64_mod

unfoldable pub sub_u64 : ℕ → ℕ → ℕ
sub_u64 a b = (a + u64_mod - b) % u64_mod

abbrev pub separator_len : Fields → ℕ
separator_len fs = if fields_empty fs then 0 else 1

-- The size after the merge, from the size before it and the change to one key.
unfoldable pub merged_size : Serializer → StateBuilder → Fields → Text → Value → ℕ
unfolding add_u64 sub_u64
merged_size json b fs key output = elim (get key fs) [
  | some existing ↦
      add_u64 (sub_u64 b.size_bytes (canonical_len json existing)) (canonical_len json output)
  | none ↦
      let element = add_u64 (add_u64 (key_token_len json key) 1) (canonical_len json output) in
      add_u64 (add_u64 b.size_bytes element) (separator_len fs)
]

abbrev pub state_cap_exceeded : Text → ℕ → ℕ → RunError
state_cap_exceeded task new_size cap =
    with_task
      (run_failure_error "state_cap_exceeded" (
        format
          "merging task {task:?} would grow the Pipeline state to {new_size} bytes, over the {cap}-byte cap"
          (text task ∷ num new_size ∷ num cap ∷ [])))
      task

abbrev pub state_not_object : Text → RunError
state_not_object task =
    with_task
      (run_failure_error "state_not_object"
        (format "the Pipeline state must be a JSON object before a merge" []))
      task

-- `merge` after its checks: the state is borrowed as an object, sized, and written.
unfoldable pub commit :
    Serializer → StateBuilder → Text → Value → Text → Value → Result (Unit {0}) × StateBuilder
commit json b key output task (object fs) =
    let new_size = merged_size json b fs key output in
    if ltb b.cap_bytes new_size
    then (err (state_cap_exceeded task new_size b.cap_bytes), b)
    else (ok tt, record b { state = object (insert key output fs); size_bytes = new_size })
commit json b key output task _ = (err (state_not_object task), b)

-- The result of `merge`, and the builder that it leaves.
unfoldable pub merge :
    Serializer → StateBuilder → Text → Value → Text → Result (Unit {0}) × StateBuilder
merge json b key output task =
    let checked = do
      assert (not (is_empty key))
      assert (is_object b.state)
      check_merge_depth output key task
    in elim checked [
      | panic ↦ (panic, b)
      | err e ↦ (err e, b)
      | ok _ ↦ commit json b key output task b.state
    ]

-- `as_value`, `size_bytes` and `cap_bytes` are the fields. `into_state` gives the state back if it is
-- an object, and the empty one if it is not.
unfoldable pub into_state : StateBuilder → Value
into_state b = if is_object b.state then b.state else object no_fields
