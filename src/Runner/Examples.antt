-- ===== src/Runner/Examples.antt =====
-- The runner at concrete flows.
use tmx.Base.{
  ◌≡◌, ◌≢◌, ◌↔◌, refl, true, false, none, some, List, [], ◌∷◌, Text, bytes, filter, map, is_empty,
  ltb, ◌-◌, min, if◌then◌else◌,
}
use tmx.Limits.{fanout_width_max, u64_mod}
use tmx.Json.{Value, number, string, object, field, no_fields}
use tmx.IndexMap.{IndexMap}
use tmx.Error.{ok, err, panic}
use tmx.Flow.{Task, ResolvedFlow}
use tmx.Resolve.{exec_task}
use tmx.Runner.Names.{validate_task_names, well_named, validate_task_names_lem, has_name}
use tmx.Runner.Slice.{
  TaskSlice, is_noop, selected, slice_tasks, is_kept, unknown_task, declared_names,
}
use tmx.Runner.Slice.Laws.{starting, ending, all_declared, slice_tasks_lem, slice_tasks-unknown}
use tmx.Runner.Matrix.{
  matrix_combinations, expand, product, cross, bindings, fanout_too_wide, matrix_combinations_lem,
}
use tmx.Runner.Context.{combine_section, union}

abbrev named : Text → Task
named n = exec_task n (bytes "true")

abbrev tasks : List Task
tasks =
    named (bytes "build") ∷ named (bytes "test") ∷ named (bytes "lint") ∷ named (bytes "ship") ∷ []

abbrev flow : ResolvedFlow
flow = record { name = none; environment = none; context = none; inputs = []; tasks = tasks }

abbrev middle : TaskSlice
middle = record {
  from = some (bytes "test");
  until = some (bytes "ship");
  only = [];
  skip = bytes "lint" ∷ [];
}

middle_runs :
    slice_tasks flow middle
    ≡ ok (record flow { tasks = named (bytes "test") ∷ named (bytes "ship") ∷ [] })
unfolding slice_tasks is_noop selected exec_task
middle_runs = refl

validate_task_names_lem_example :
    ((validate_task_names flow ≡ ok tt) ↔ (well_named flow.tasks ≡ true))
    × (validate_task_names flow ≢ panic)
validate_task_names_lem_example = validate_task_names_lem flow

slice_tasks_lem_example :
    slice_tasks flow middle
    ≡ ok (record flow {
      tasks = filter (is_kept middle) (starting middle.from (ending middle.until flow.tasks));
    })
unfolding all_declared exec_task
slice_tasks_lem_example = slice_tasks_lem flow middle refl

abbrev misspelt : TaskSlice
misspelt = record { from = none; until = none; only = bytes "tset" ∷ []; skip = [] }

slice_tasks-unknown_example :
    (name : Text) × (slice_tasks flow misspelt ≡ err (unknown_task name))
    × (has_name (declared_names flow.tasks) name ≡ false)
unfolding all_declared exec_task
slice_tasks-unknown_example = slice_tasks-unknown flow misspelt refl

abbrev axes : IndexMap (List Value)
axes =
    (bytes "os", string (bytes "a") ∷ string (bytes "b") ∷ [])
    ∷ (bytes "v", number (bytes "1") ∷ number (bytes "2") ∷ [])
    ∷ []

abbrev combination : Text → Text → Value
combination os v = object (field (bytes "os") (string os) (field (bytes "v") (number v) no_fields))

axes_run :
    matrix_combinations axes
    ≡ ok (
        combination (bytes "a") (bytes "1")
        ∷ combination (bytes "a") (bytes "2")
        ∷ combination (bytes "b") (bytes "1")
        ∷ combination (bytes "b") (bytes "2")
        ∷ [])
unfolding matrix_combinations expand
axes_run = refl

matrix_combinations_lem_example : matrix_combinations axes ≡ (
    if is_empty axes
    then ok []
    else if ltb fanout_width_max (product axes)
    then err (fanout_too_wide (min (product axes) (u64_mod - 1)))
    else ok (map object (map (bindings no_fields) (cross axes))))
matrix_combinations_lem_example = matrix_combinations_lem axes

abbrev inherited : IndexMap Text
inherited = (bytes "A", bytes "1") ∷ (bytes "B", bytes "2") ∷ []

abbrev local : IndexMap Text
local = (bytes "B", bytes "3") ∷ (bytes "C", bytes "4") ∷ []

local_wins :
    combine_section inherited local false false
    ≡ ((bytes "A", bytes "1") ∷ (bytes "B", bytes "3") ∷ (bytes "C", bytes "4") ∷ [])
unfolding combine_section union
local_wins = refl
