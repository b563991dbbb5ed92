-- ===== src/Runner/Runs.antt =====
-- Runs of concrete flows, over a clock that counts and a sink that takes every event.
use tmx.Base.{ℕ, ◌+◌, ◌≡◌, refl, arith, false, none, some, [], ◌∷◌, Text, bytes, length, ◌==◌, All}
use tmx.Json.{Fields, null, string, object, no_fields, array, item, no_items}
use tmx.IndexMap.{IndexMap}
use tmx.Error.{ok}
use tmx.Mask.{assert_ready, all_registered}
use tmx.Flow.{
  SecretValue, literal, Task, TaskWith, inner, Tasks, Hook, Hooks, Context, Flow, ResolvedFlow,
}
use tmx.Interpolate.{Numbers}
use tmx.Resolve.{exec_task, desugar_tasks, resolve}
use tmx.Fanout.Serial.{run_indexed, run_indexed-Keeps}
use tmx.Runner.Session.{Ports, Session, pure}
use tmx.Runner.Hoare.{Holds, pure-Keeps}
use tmx.Runner.Loop.{RunConfig, ProducesCheck, run_tasks}
use tmx.Runner.Loop.Safety.{IsGuarded}
use tmx.Runner.Loop.Results.{Finished, Ended, run_tasks_lem}
use tmx.Runner.Secrets.{resolve_secrets}
use tmx.Runner.Secrets.Provision.{Ensures, Shown, resolve_secrets_lem}
use tmx.Runner.Lifecycle.{HookKind, HookRunner, Stepper, body_for, body_flow, run}
use tmx.Runner.Lifecycle.Firing.{AreKeyed}
use tmx.Runner.Recursion.{Engine}
use tmx.Runner.Recursion.Parts.{IsReliable}
use tmx.Runner.Recursion.Laws.{step_at_lem}
use tmx.Runner.Recursion.Whole.{steps, steps-IsDriven, run_whole_lem}

abbrev ports : Ports ℕ
ports = record {
  now = λ w. ([], w);
  now_ms = λ w. (w, w + 1);
  requested_reason = λ w. (none, w);
  emit = λ e w. (ok tt, w);
  resolve_secret = λ s w. (ok (bytes "from-vault"), w);
  next_masker_id = λ w. (w + 1, w + 1);
  render = λ m. bytes "message";
  json = record { to_string = λ v. some []; key_to_string = λ k. some k };
  to_value = λ e. null;
  value_eq = λ v w. false;
}

abbrev numbers : Numbers ℕ
numbers = record {
  from_str = λ t. some t;
  as_f64 = λ t. some (length t);
  as_u64 = λ t. none;
  of_u64 = λ i. [];
  f64_eq = λ x y. x == y;
  is_zero = λ x. x == 0;
  is_nan = λ x. false;
}

abbrev build : Task
build = exec_task (bytes "build") (bytes "make")

-- What every reference loads.
abbrev sub_flow : Flow
sub_flow = record {
  tasks = Tasks.list (build ∷ []);
  name = none;
  environment = none;
  context = none;
  inputs = none;
}

-- A number counts as its length, and an adapter gives its task's name.
abbrev engine : Engine ℕ Text ℕ
engine = record {
  numbers = numbers;
  rendering = record { trim = λ t. t; to_string = λ v. [] };
  call_adapter = λ t n s env w. (ok n, w);
  normalize_output = λ n. string n;
  load_flow = λ path w. (ok sub_flow, w);
  scheduler = run_indexed;
  guard = λ m. m;
  run_eval = λ ew s n scope cap depth run. run 0 null depth;
  validate_produces = λ v w. ok [];
}

abbrev config : RunConfig
config = record {
  continue_on_error = false;
  check_produces = ProducesCheck.off;
  max_state_size_bytes = none;
  concurrency_cap = none;
}

abbrev stepper : Stepper ℕ
stepper = steps engine config ports (bytes "r1") (object no_fields) (object no_fields) 0

abbrev session : Session ℕ
session = record {
  world = 0;
  masker = record { substring = []; exact = []; id = 1 };
  resolved_secrets = [];
  emitted = [];
}

is_guarded : IsGuarded session
unfolding assert_ready all_registered
is_guarded = record { own = refl; ready = refl; full = tt; sealed = tt }

is_reliable : IsReliable engine ports
unfolding Holds resolve desugar_tasks exec_task
is_reliable = record {
  emit = λ e w p. absurd cc;
  resolve_secret = λ s w. tt;
  next_masker_id = λ w. ground arith;
  call_adapter = λ t n s env w. tt;
  load_flow = λ path w. (tt, tt);
  validate_produces = λ v w e. absurd cc;
  scheduler =
      λ n budget run narrow low high jobs. run_indexed-Keeps IsGuarded n budget run low high jobs;
  guard = λ m h. h;
  run_eval = λ ew s n scope cap depth run shallow h. h 0 null depth;
}

abbrev gated_task : Task
gated_task = record build { name = some (bytes "ship"); if_condition = some (bytes "false") }

-- A map over a flow
abbrev fan : Task
fan = record build {
  name = some (bytes "fan");
  with =
      TaskWith.map
        (record {
          items = array (item (string (bytes "a")) (item (string (bytes "b")) no_items));
          as_binding = none;
          concurrency = some 2;
          continue_on_error = none;
        })
        (inner
          (record {
            name = none;
            if_condition = none;
            secrets = none;
            context = none;
            context_strategy = none;
            context_precedence = none;
            output = none;
            produces = none;
            continue_on_error = none;
          })
          (TaskWith.flow (record { use_ref = bytes "sub.json"; inputs = none })));
}

abbrev with_secret : Task
with_secret = record build { secrets = some (bytes "TOKEN" ∷ []) }

abbrev secrets : IndexMap SecretValue
secrets = (bytes "TOKEN", literal (bytes "hunter2")) ∷ []

abbrev hooks : Hooks
hooks = record {
  create = some (Hook.tasks (Tasks.list (build ∷ [])));
  change = none;
  destroy = some (Hook.tasks (Tasks.list (gated_task ∷ [])));
  error = none;
}

abbrev context : Context
context = record { env = none; secrets = some secrets; hooks = some hooks }

abbrev flow : ResolvedFlow
flow = record {
  name = none;
  environment = none;
  context = some context;
  inputs = [];
  tasks = build ∷ gated_task ∷ fan ∷ [];
}

abbrev hook_runner : HookRunner
hook_runner = record { context = some context; config = config; in_hook = false }

are_keyed : AreKeyed hook_runner
unfolding AreKeyed Holds body_for body_flow desugar_tasks exec_task
are_keyed HookKind.create = ((refl, refl), tt)
are_keyed HookKind.change = tt
are_keyed HookKind.destroy = ((refl, refl), tt)
are_keyed HookKind.error = tt

resolve_secrets_lem_example :
    Ensures
      (λ v t. (fs : Fields) × (v ≡ object fs) × All (Shown fs t) (bytes "TOKEN" ∷ []))
      (resolve_secrets ports with_secret secrets session)
    × IsGuarded (resolve_secrets ports with_secret secrets session).1
    × Holds (λ _. Unit {0}) (resolve_secrets ports with_secret secrets session).0
resolve_secrets_lem_example =
    resolve_secrets_lem ports with_secret secrets session is_reliable.resolve_secret is_guarded

step_at_lem_example :
    IsGuarded (stepper flow fan (bytes "fan") (object no_fields) session).1
    × Holds (λ _. Unit {0}) (stepper flow fan (bytes "fan") (object no_fields) session).0
step_at_lem_example =
    step_at_lem engine config ports (bytes "r1") is_reliable (object no_fields) 9 (object no_fields)
      0 flow fan (bytes "fan") (object no_fields) session (omega arith) (omega arith) is_guarded

run_tasks_lem_example :
    IsGuarded (run_tasks ports config (pure tt) (stepper flow) (bytes "r1") flow none session).1
    × Holds
        (Ended flow.tasks)
        (run_tasks ports config (pure tt) (stepper flow) (bytes "r1") flow none session).0
unfolding exec_task
run_tasks_lem_example =
    run_tasks_lem ports is_reliable.emit config (pure tt) (pure-Keeps IsGuarded _ tt tt)
      (stepper flow)
      ((steps-IsDriven engine config ports (bytes "r1") (object no_fields) (object no_fields) 0
          is_reliable (omega arith)).steps
        flow)
      (bytes "r1") flow none session refl ((refl, refl), ((refl, refl), ((refl, refl), tt))) tt
      is_guarded

run_whole_lem_example :
    IsGuarded (run (bytes "r1") ports stepper ports stepper config false flow none session).1
    × Holds
        (λ out. Finished flow.tasks out.pipeline)
        (run (bytes "r1") ports stepper ports stepper config false flow none session).0
unfolding exec_task
run_whole_lem_example =
    run_whole_lem engine engine config ports ports (bytes "r1") (object no_fields)
      (object no_fields) 0 flow none session is_reliable is_reliable (omega arith) are_keyed
      (tt, (tt, (tt, tt))) tt is_guarded
