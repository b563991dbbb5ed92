-- ===== src/Preflight/Classes.antt =====
-- The class of an artifact, the depth of its document, and the natural order of file names.
use tmx.Base.{
  ℕ, zero, suc, ◌+◌, Bool, true, false, ◌&&◌, Option, none, some, [], ◌∷◌, Text, bytes, text_eq,
  length, ltb, leb, ◌==◌, if◌then◌else◌,
}
use Prim.Native.Nat.{compare, Ordering, lt, eq, gt}
use tmx.Json.{Value, object, get, as_str}
use tmx.Json.Size.{nodes}
use tmx.Error.{Result, ok, err, RunError, resolution_error, with_path, format, text}
use tmx.Merge.{Stack, push_children}

pub data ArtifactClass : Type 0 where
  flow environment context task provider : ArtifactClass

-- The derived `PartialEq`
abbrev pub same_class : ArtifactClass → ArtifactClass → Bool
same_class flow flow = true
same_class environment environment = true
same_class context context = true
same_class task task = true
same_class provider provider = true
same_class _ _ = false

-- `Value::get` with a text, and `and_then(Value::as_str)`
abbrev pub member : Text → Value → Option Value
member k (object fs) = get k fs
member k _ = none

abbrev pub str_of : Option Value → Option Text
str_of none = none
str_of (some v) = as_str v

abbrev pub explicit_kind : Value → Option Text
explicit_kind v = str_of (member (bytes "kind") v)

abbrev pub unknown_artifact_kind : Text → Text → RunError
unknown_artifact_kind other path =
    with_path
      (resolution_error "unknown_artifact_kind"
        (format "unknown artifact kind `{other}` in `{path}`" (text other ∷ text path ∷ [])))
      path

abbrev pub class_of_kind : Text → Text → Result ArtifactClass
class_of_kind path kind =
    if text_eq kind (bytes "flow")
    then ok flow
    else if text_eq kind (bytes "environment")
    then ok environment
    else if text_eq kind (bytes "context")
    then ok context
    else if text_eq kind (bytes "task")
    then ok task
    else if text_eq kind (bytes "provider")
    then ok provider
    else err (unknown_artifact_kind kind path)

-- What stands before the first dot, or all.
abbrev pub before_dot : Text → Text
before_dot [] = []
before_dot (c ∷ s) = let rest = before_dot s in if c == 46 then [] else c ∷ rest

-- `file_name` is what `Path::file_name` and `to_str` give.
module _ (file_name : Text → Option Text) where
  abbrev pub basename : Text → Text
  basename path = elim (file_name path) [ none ↦ path | some name ↦ name ]

  unfoldable pub reserved_stem : Text → Option ArtifactClass
  reserved_stem path =
      let stem = before_dot (basename path) in
      if text_eq stem (bytes "environment")
      then some environment
      else if text_eq stem (bytes "context")
      then some context
      else if text_eq stem (bytes "flow")
      then some flow
      else none

  abbrev pub class_by_content : Option Value → ArtifactClass
  class_by_content none = task
  class_by_content (some tasks) = flow

  abbrev pub class_by_name : Option ArtifactClass → Value → ArtifactClass
  class_by_name (some reserved) v = reserved
  class_by_name none v = class_by_content (member (bytes "tasks") v)

  abbrev pub class_by : Option Text → Text → Value → Result ArtifactClass
  class_by (some kind) path v = class_of_kind path kind
  class_by none path v = ok (class_by_name (reserved_stem path) v)

  unfoldable pub classify_artifact : Text → Value → Result ArtifactClass
  classify_artifact path v = class_by (explicit_kind v) path v

-- The `while let` loop over the stack; `none` means that the fuel ran out.
unfoldable pub exceeds : ℕ → ℕ → Stack → Option Bool
exceeds zero max_depth stack = none
exceeds (suc fuel) max_depth [] = some false
exceeds (suc fuel) max_depth ((node, depth) ∷ stack) =
    let rest = exceeds fuel max_depth (push_children node (depth + 1) stack) in
    if ltb max_depth depth then some true else rest

abbrev pub true_or : Option Bool → Bool
true_or none = true
true_or (some b) = b

-- Each round takes one node of the document off the stack.
unfoldable pub json_depth_exceeds : Value → ℕ → Bool
json_depth_exceeds v max_depth = true_or (exceeds (nodes v + 1) max_depth ((v, 1) ∷ []))

abbrev pub is_digit : ℕ → Bool
is_digit c = leb 48 c && leb c 57

-- `take_digits`: the run, and what follows it.
abbrev pub take_digits : Text → Text × Text
take_digits [] = ([], [])
take_digits (c ∷ s) =
    let rest = take_digits s in if is_digit c then (c ∷ rest.0, rest.1) else ([], c ∷ s)

-- `trim_start_matches('0')`
abbrev pub trim_zeros : Text → Text
trim_zeros [] = []
trim_zeros (c ∷ s) = let rest = trim_zeros s in if c == 48 then rest else c ∷ s

-- `Ord` on strings
abbrev pub then_by : Ordering → Ordering → Ordering
then_by lt o = lt
then_by eq o = o
then_by gt o = gt

abbrev pub compare_texts : Text → Text → Ordering
compare_texts [] [] = eq
compare_texts [] (d ∷ t) = lt
compare_texts (c ∷ s) [] = gt
compare_texts (c ∷ s) (d ∷ t) = then_by (compare c d) (compare_texts s t)

-- The order of two digit runs.
unfoldable pub compare_runs : Text → Text → Ordering
compare_runs da db =
    let na = trim_zeros da in
    let nb = trim_zeros db in
    then_by (then_by (compare (length na) (length nb)) (compare_texts na nb))
      (compare (length da) (length db))

-- The loop takes a byte or a digit run off each name in a round.
unfoldable pub natural_loop : ℕ → Text → Text → Ordering
natural_loop zero a b = eq
natural_loop (suc fuel) [] [] = eq
natural_loop (suc fuel) [] (d ∷ b) = lt
natural_loop (suc fuel) (c ∷ a) [] = gt
natural_loop (suc fuel) (c ∷ a) (d ∷ b) =
    let runs_a = take_digits (c ∷ a) in
    let runs_b = take_digits (d ∷ b) in
    let after_runs = natural_loop fuel runs_a.1 runs_b.1 in
    let after_bytes = natural_loop fuel a b in
    if is_digit c && is_digit d
    then then_by (compare_runs runs_a.0 runs_b.0) after_runs
    else then_by (compare c d) after_bytes

unfoldable pub natural_cmp : Text → Text → Ordering
natural_cmp a b = natural_loop (length a + 1) a b
