-- ===== src/Resolve/Examples.antt =====
-- Resolution at concrete inputs.
use tmx.Base.{◌≡◌, refl, none, some, [], ◌∷◌, Text, bytes}
use tmx.Json.{Value, Fields, number, string, object, field, no_fields, get}
use tmx.IndexMap.{IndexMap, find}
use tmx.Error.{ok}
use tmx.Flow.{InputSpec, Tasks, shorthand}
use tmx.Resolve.{exec_task, desugar_tasks, add_defaults, merged_inputs}
use tmx.Resolve.Laws.{or_else, default_of, supplied_fields, get-merged_inputs}

abbrev region : InputSpec
region = record { input_type = none; required = none; default = some (string (bytes "eu")) }

abbrev count : InputSpec
count = record { input_type = none; required = none; default = none }

abbrev specs : IndexMap InputSpec
specs = (bytes "region", region) ∷ (bytes "count", count) ∷ []

abbrev supplied : Value
supplied = object (field (bytes "count") (number (bytes "3")) no_fields)

supplied_is_filled :
    merged_inputs supplied specs
    ≡ object (
        field
          (bytes "count")
          (number (bytes "3"))
          (field (bytes "region") (string (bytes "eu")) no_fields))
unfolding merged_inputs add_defaults
supplied_is_filled = refl

shorthand_is_exec :
    desugar_tasks (Tasks.map ((bytes "a", shorthand (bytes "ls")) ∷ []))
    ≡ ok (exec_task (bytes "a") (bytes "ls") ∷ [])
unfolding desugar_tasks
shorthand_is_exec = refl

get-merged_inputs_example :
    (merged : Fields) × (merged_inputs supplied specs ≡ object merged)
    × ((j : Text)
        → get j merged ≡ or_else (get j (supplied_fields supplied)) (default_of (find j specs)))
get-merged_inputs_example = get-merged_inputs supplied specs refl
