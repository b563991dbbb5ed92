-- ===== src/Preflight/Limits.antt =====
-- The structural checks and the limits of a resolved flow.
use tmx.Base.{
  ℕ, ◌+◌, Option, none, some, List, [], ◌∷◌, Text, bytes, length, is_empty, map, ltb, if◌then◌else◌,
}
use tmx.Limits.{tasks_per_flow_max, fanout_width_max, concurrency_max, hook_tasks_max}
use tmx.Json.{Value, array, to_list}
use tmx.Error.{
  Result, ok, err, RunError, validation_error, resolution_error, with_task, plain, format, num,
  text, reject_if, ◌>>=◌, ◌>>◌,
}
use tmx.Flow.{
  TaskWith, InnerTask, inner, Subject, no_subject, subject, Task, Hook, Hooks, Context,
  ResolvedFlow,
}
use tmx.Resolve.{desugar_tasks}
use tmx.Runner.Names.{name_of, has_name}

abbrev pub too_many_tasks : ℕ → RunError
too_many_tasks got = validation_error "too_many_tasks" (
    format "a Flow may hold at most {TASKS_PER_FLOW_MAX} tasks, got {}"
      (num tasks_per_flow_max ∷ num got ∷ []))

abbrev pub unnamed_task : RunError
unnamed_task =
    validation_error "missing_task_name"
      (plain (bytes "every task must carry a non-empty name before the run"))

abbrev pub duplicate_name : Text → RunError
duplicate_name name =
    resolution_error "duplicate_task_name" (format "duplicate task name {name:?}" (text name ∷ []))

-- The loop over the tasks' names; `seen` is the hash set.
unfoldable pub check_names : List Text → List Text → Result (Unit {0})
check_names [] seen = ok tt
check_names (n ∷ ns) seen =
    let rest = check_names ns (n ∷ seen) in
    if is_empty n
    then err unnamed_task
    else if has_name seen n
    then err (duplicate_name n)
    else rest

abbrev pub for_task : RunError → Option Text → RunError
for_task e none = e
for_task e (some name) = with_task e name

abbrev pub fanout_too_wide : ℕ → RunError
fanout_too_wide got = validation_error "fanout_too_wide" (
    format "a fan-out collection may hold at most {FANOUT_WIDTH_MAX} items, got {}"
      (num fanout_width_max ∷ num got ∷ []))

unfoldable pub check_fanout_width : Value → Option Text → Result (Unit {0})
check_fanout_width (array items) task =
    let width = length (to_list items) in
    reject_if (ltb fanout_width_max width) (for_task (fanout_too_wide width) task)
check_fanout_width _ task = ok tt

abbrev pub concurrency_too_high : ℕ → RunError
concurrency_too_high got = validation_error "concurrency_too_high" (
    format "task concurrency may be at most {CONCURRENCY_MAX}, got {value}"
      (num concurrency_max ∷ num got ∷ []))

unfoldable pub check_concurrency : Option ℕ → Option Text → Result (Unit {0})
check_concurrency none task = ok tt
check_concurrency (some n) task =
    reject_if (ltb concurrency_max n) (for_task (concurrency_too_high n) task)

abbrev pub check_dataset : Option Value → Option Text → Result (Unit {0})
check_dataset none task = ok tt
check_dataset (some dataset) task = check_fanout_width dataset task

-- `check_task_limits`, on a task's name and its payload.
unfoldable mutual
  pub check_task_limits : TaskWith → Option Text → Result (Unit {0})
  check_task_limits (TaskWith.map w t) name =
      check_fanout_width w.items name >> check_concurrency w.concurrency name >> check_inner t
  check_task_limits (TaskWith.eval w s) name =
      check_dataset w.dataset name >> check_concurrency w.concurrency name >> check_subject s
  check_task_limits _ name = ok tt

  pub check_inner : InnerTask → Result (Unit {0})
  check_inner (inner fields w) = check_task_limits w fields.name

  pub check_subject : Subject → Result (Unit {0})
  check_subject no_subject = ok tt
  check_subject (subject t) = check_inner t

abbrev pub check_tasks : List Task → Result (Unit {0})
check_tasks [] = ok tt
check_tasks (t ∷ ts) = check_task_limits t.with t.name >> check_tasks ts

unfoldable pub hook_task_count : Hook → Result ℕ
hook_task_count (Hook.tasks ts) = desugar_tasks ts >>= λ desugared. ok (length desugared)
hook_task_count _ = ok 0

-- One round of the loop over the hooks.
abbrev pub add_count : Option Hook → ℕ → Result ℕ
add_count none total = ok total
add_count (some h) total = hook_task_count h >>= λ count. ok (total + count)

abbrev pub too_many_hook_tasks : ℕ → RunError
too_many_hook_tasks total = validation_error "too_many_hook_tasks" (
    format "a context's hooks may hold at most {HOOK_TASKS_MAX} tasks, got {total}"
      (num hook_tasks_max ∷ num total ∷ []))

unfoldable pub check_hooks : Hooks → Result (Unit {0})
check_hooks hooks = do
  created ← add_count hooks.create 0
  changed ← add_count hooks.change created
  destroyed ← add_count hooks.destroy changed
  total ← add_count hooks.error destroyed
  reject_if (ltb hook_tasks_max total) (too_many_hook_tasks total)

abbrev pub check_hooks_of : Option Hooks → Result (Unit {0})
check_hooks_of none = ok tt
check_hooks_of (some hooks) = check_hooks hooks

abbrev pub check_hook_task_budget : Option Context → Result (Unit {0})
check_hook_task_budget none = ok tt
check_hook_task_budget (some context) = check_hooks_of context.hooks

unfoldable pub check_structure_and_limits : ResolvedFlow → Result (Unit {0})
check_structure_and_limits flow =
    reject_if (ltb tasks_per_flow_max (length flow.tasks)) (too_many_tasks (length flow.tasks))
    >> check_names (map name_of flow.tasks) []
    >> check_tasks flow.tasks
    >> check_hook_task_budget flow.context
