-- ===== src/Resolve.antt =====
-- The resolution of a loaded flow (crates/tmx-core/src/resolve.rs): references are refused, the task
-- collection becomes a list, and the defaults of declared inputs are filled in. `resolve_flow` parses
-- with serde and hands over to `resolve`.
pub mod Laws
mod Examples
use tmx.Base.{ℕ, Bool, Option, none, some, List, [], ◌∷◌, Text, bytes, if◌then◌else◌, map}
use tmx.Json.{Value, Fields, no_fields, object, contains_key, insert}
use tmx.IndexMap.{IndexMap}
use tmx.Error.{Result, ok, err, RunError, resolution_error, plain, ◌>>=◌}
use tmx.Flow.{
  ExecWith, Ref, inline, reference, Task, TaskWith, TaskEntry, task, shorthand, Tasks, Context,
  InputSpec, Flow, ResolvedFlow,
}

unfoldable pub exec_task : Text → Text → Task
exec_task name command = record {
  name = some name;
  if_condition = none;
  secrets = none;
  context = none;
  context_strategy = none;
  context_precedence = none;
  output = none;
  produces = none;
  continue_on_error = none;
  with = TaskWith.exec (record {
    command = command;
    args = none;
    shell = none;
    cwd = none;
    env = none;
    timeout = none;
  });
}

abbrev pub entry_task : Text × TaskEntry → Task
entry_task (name, task t) = record t { name = some name }
entry_task (name, shorthand command) = exec_task name command

unfoldable pub desugar_tasks : Tasks → Result (List Task)
desugar_tasks (Tasks.list ts) = ok ts
desugar_tasks (Tasks.map entries) = ok (map entry_task entries)

abbrev pub unsupported_reference : Text → RunError
unsupported_reference message = resolution_error "unsupported_reference" (plain message)

-- An inline value, or the refusal of a reference.
abbrev pub inlined : {A : Type 0} → Text → Option (Ref A) → Result (Option A)
inlined message none = ok none
inlined message (some (inline a)) = ok (some a)
inlined message (some (reference path)) = err (unsupported_reference message)

abbrev pub or_default {ℓ} : {A : Type ℓ} → A → Option A → A
or_default d none = d
or_default d (some a) = a

unfoldable pub resolve : Flow → Result ResolvedFlow
resolve flow = do
  environment ←
      inlined (bytes "a referenced environment is resolved by the loading unit, not the runner")
        flow.environment
  context ←
      inlined (bytes "a referenced context is resolved by the loading unit, not the runner")
        flow.context
  tasks ← desugar_tasks flow.tasks
  ok (record {
    name = flow.name;
    environment = environment;
    context = context;
    inputs = or_default [] flow.inputs;
    tasks = tasks;
  })

-- One round of the loop over the declared inputs.
abbrev pub add_default : Text → Option Value → Fields → Fields
add_default name none merged = merged
add_default name (some d) merged = if contains_key name merged then merged else insert name d merged

unfoldable pub add_defaults : IndexMap InputSpec → Fields → Fields
add_defaults [] merged = merged
add_defaults ((name, spec) ∷ specs) merged =
    add_defaults specs (add_default name spec.default merged)

unfoldable pub merged_inputs : Value → IndexMap InputSpec → Value
merged_inputs (object supplied) specs = object (add_defaults specs supplied)
merged_inputs _ specs = object (add_defaults specs no_fields)
