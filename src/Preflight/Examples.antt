-- ===== src/Preflight/Examples.antt =====
-- Preflight at concrete flows, over a source that holds one artifact.
use tmx.Base.{ℕ, ◌≡◌, ◌↔◌, refl, true, none, some, [], ◌∷◌, bytes, inr, not, leb, if◌then◌else◌}
use tmx.Limits.{json_depth_max}
use tmx.Json.{Value, null, string, object, no_fields}
use tmx.Json.Size.{depth}
use tmx.Error.{ok, err, RunError}
use tmx.Flow.{
  TaskFields, TaskWith, FetchWith, inner, Task, Tasks, Hook, Hooks, Context, Flow, ResolvedFlow,
  inline,
}
use tmx.Resolve.{exec_task, resolve, desugar_tasks}
use tmx.Runner.Names.{validate_task_names}
use tmx.Preflight.Capabilities.{
  http, process, has, compute_capabilities, check_capabilities, walk_with, walk_tasks, walk_context,
  walk_hook, walk_environment, require, missing_capability,
}
use tmx.Preflight.Coverage.{flow_covered, check_capabilities_lem}
use tmx.Preflight.Limits.{
  check_structure_and_limits, check_names, check_task_limits, check_hooks, hook_task_count,
}
use tmx.Preflight.Bounds.{is_bounded, check_structure_and_limits_lem}
use tmx.Preflight.Classes.{
  classify_artifact, natural_cmp, natural_loop, compare_runs, json_depth_exceeds, exceeds,
  reserved_stem,
}
use Prim.Native.Nat.{lt}
use tmx.Preflight.Order.{key, compare_keys, natural_cmp-key}
use tmx.Preflight.Depth.{json_depth_exceeds_lem}
use tmx.Preflight.Assembly.{
  Sources, Loading, json, ◌>>=◌, pure, lift, ask, load_reference, check_json_depth,
  validate_artifact, assemble_flow,
}
use tmx.Preflight.References.{
  resolve_references, inline_environment, inline_context, chase_bootstrap, chase_hooks,
  resolve_hooks, resolve_optional_hook, resolve_hook_body,
}
use tmx.Preflight.Orchestration.{
  PreflightTarget, Preflighted, preflight, load_artifacts, check_resolved,
}
use tmx.Preflight.Postcondition.{preflight_lem, is_inline}

abbrev get_request : FetchWith
get_request = record {
  url = bytes "u";
  method = none;
  headers = none;
  query = none;
  body = none;
  body_type = none;
  timeout = none;
  follow_redirects = none;
  retries = none;
}

abbrev build : Task
build = exec_task (bytes "build") (bytes "make")

abbrev unnamed : TaskFields
unnamed = record {
  name = none;
  if_condition = none;
  secrets = none;
  context = none;
  context_strategy = none;
  context_precedence = none;
  output = none;
  produces = none;
  continue_on_error = none;
}

-- A map over a fetch, as a named task
abbrev fan_out : Task
fan_out = record build {
  name = some (bytes "fan");
  with =
      TaskWith.map
        (record { items = null; as_binding = none; concurrency = some 4; continue_on_error = none })
        (inner unnamed (TaskWith.fetch get_request));
}

abbrev hooks : Hooks
hooks = record {
  create = some (Hook.tasks (Tasks.list (build ∷ [])));
  change = none;
  destroy = none;
  error = none;
}

abbrev context : Context
context = record { env = none; secrets = none; hooks = some hooks }

abbrev flow : ResolvedFlow
flow = record {
  name = none;
  environment = none;
  context = some context;
  inputs = [];
  tasks = build ∷ fan_out ∷ [];
}

abbrev loaded : Flow
loaded = record {
  tasks = Tasks.list (build ∷ fan_out ∷ []);
  name = none;
  environment = none;
  context = some (inline context);
  inputs = none;
}

abbrev sources : Sources ℕ
sources = record {
  resolve = λ target w. (ok (record { path = target; kind = json }), w);
  load = λ path kind w. (ok (object no_fields), w);
  validate = λ v kind. ok [];
  parse_flow = λ v. inr loaded;
  parse_environment = λ v. inr (record { provider = none; bootstrap = none; extra = no_fields });
  parse_context = λ v. inr context;
  parse_task = λ v. inr build;
  file_name = λ path. some path;
}

abbrev start : Loading ℕ
start = record { world = 0; warnings = [] }

abbrev target : PreflightTarget
target = PreflightTarget.file (bytes "flow.json")

inner_fetch :
    check_capabilities (compute_capabilities flow) (process ∷ [])
    ≡ err (missing_capability http (bytes "fetch"))
unfolding compute_capabilities walk_with walk_tasks walk_context walk_hook require
    check_capabilities exec_task desugar_tasks
inner_fetch = refl

check_capabilities_lem_example :
    (check_capabilities (compute_capabilities flow) (process ∷ http ∷ []) ≡ ok tt)
    ↔ (flow_covered (has (process ∷ http ∷ [])) flow ≡ true)
check_capabilities_lem_example = check_capabilities_lem flow (process ∷ http ∷ [])

check_structure_and_limits_lem_example :
    (e : RunError) × (check_structure_and_limits flow ≡ (if is_bounded flow then ok tt else err e))
check_structure_and_limits_lem_example = check_structure_and_limits_lem flow

json_depth_exceeds_lem_example :
    json_depth_exceeds (object no_fields) json_depth_max
    ≡ not (leb (depth (object no_fields)) json_depth_max)
json_depth_exceeds_lem_example = json_depth_exceeds_lem (object no_fields)

abbrev passed : Preflighted
passed = record {
  flow = flow;
  capabilities = (process, bytes "exec") ∷ (http, bytes "fetch") ∷ [];
  warnings = [];
}

preflight_lem_example :
    (is_bounded flow ≡ true)
    × (flow_covered (has (process ∷ http ∷ [])) flow ≡ true)
    × (is_inline flow ≡ true)
    × (validate_task_names flow ≡ ok tt)
unfolding preflight ◌>>=◌ load_artifacts load_reference ask lift classify_artifact pure
    check_json_depth json_depth_exceeds exceeds tmx.Json.Size.nodes validate_artifact assemble_flow
    reserved_stem resolve_references inline_environment inline_context
    tmx.Preflight.Assembly.sort_artifacts tmx.Preflight.Assembly.sort_parts check_capabilities
    compute_capabilities require walk_context walk_environment walk_hook walk_tasks walk_with
    compare_runs natural_cmp natural_loop tmx.Preflight.Limits.check_concurrency
    tmx.Preflight.Limits.check_fanout_width check_hooks check_names check_structure_and_limits
    check_task_limits hook_task_count check_resolved chase_bootstrap chase_hooks resolve_hook_body
    resolve_hooks resolve_optional_hook desugar_tasks exec_task resolve
preflight_lem_example = preflight_lem sources target (process ∷ http ∷ []) start start passed refl

two_before_ten : natural_cmp (bytes "task-2.json") (bytes "task-10.json") ≡ lt
unfolding natural_cmp natural_loop compare_runs
two_before_ten = refl

natural_cmp-key_example :
    natural_cmp (bytes "task-2.json") (bytes "task-010.json")
    ≡ compare_keys (key (bytes "task-2.json")) (key (bytes "task-010.json"))
natural_cmp-key_example = natural_cmp-key (bytes "task-2.json") (bytes "task-010.json")
