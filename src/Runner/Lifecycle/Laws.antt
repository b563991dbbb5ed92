-- ===== src/Runner/Lifecycle/Laws.antt =====
-- What a run keeps and what it ends with, hooks included.
use tmx.Base.{
  ℕ, ◌≡◌, refl, subst, ◌≢◌, true, false, not, Option, none, some, List, [], ◌∷◌, arith, Text,
  length, is_empty, leb, All, map, all,
}
use tmx.Limits.{tasks_per_flow_max}
use tmx.Json.{Value}
use tmx.Error.{Result, ok, err, panic}
use tmx.Model.{is_terminal}
use tmx.Flow.{Task, ResolvedFlow}
use tmx.Runner.Names.{name_of, well_named, validate_task_names, validate_task_names_lem}
use tmx.Runner.Session.{Ports, Session}
use tmx.Runner.Hoare.{Holds, Post, Keeps, bind-Keeps, pure-Keeps, lift-Keeps, assert-Keeps}
use tmx.Runner.Loop.{RunConfig, Outcome, or_name, status_of}
use tmx.Runner.Loop.Safety.{IsGuarded}
use tmx.Runner.Loop.Results.{IsKeyed, IsSeed, Finished, Ended, run_tasks-Keeps}
use tmx.Runner.Lifecycle.{create, change, destroy, HookRunner, Stepper, finished_outcome, run}
use tmx.Runner.Lifecycle.Firing.{AreKeyed, IsDriven, asks, emits, fire-Keeps, fire_error-Keeps}

implied_lem : {P : Type 0} (r : Result (Unit {0})) → r ≢ panic → (r ≡ ok tt → P) → Holds (λ _. P) r
unfolding Holds
implied_lem (ok tt) h k = k refl
implied_lem (err e) h k = tt
implied_lem panic h k = h refl

-- A task's output key, if it is given one, is not empty.
abbrev pub IsOutputKey : Option Text → Type 0
IsOutputKey none = Unit
IsOutputKey (some key) = is_empty key ≡ false

key_lem :
    (name : Text) (output : Option Text)
    → is_empty name ≡ false
    → IsOutputKey output
    → is_empty (or_name name output) ≡ false
key_lem name none n h = n
key_lem name (some key) n h = h

pub keyed :
    (ts : List Task)
    → all (λ n. not (is_empty n)) (map name_of ts) ≡ true
    → All (λ t. IsOutputKey t.output) ts
    → All IsKeyed ts
keyed [] n h = tt
keyed (t ∷ ts) n h =
    let here : is_empty (name_of t) ≡ false = ground (arith, n) in
    ((here, key_lem (name_of t) t.output here h.0), keyed ts (ground (arith, n)) h.1)

status_terminal :
    (tasks : List Task) (out : Outcome)
    → Ended tasks out
    → is_terminal (status_of out.cancelled out.failure) ≡ true
unfolding Ended Finished
status_terminal tasks out (f, is) = cc (f.1, is)

finished :
    (tasks : List Task) (out : Outcome)
    → Ended tasks out
    → Finished tasks (finished_outcome out).pipeline
unfolding Ended
finished tasks out (f, is) =
    subst (λ st. Finished tasks (record (out.pipeline) { status = st })) is f

pub named_flow :
    (flow : ResolvedFlow) → Holds (λ _. well_named flow.tasks ≡ true) (validate_task_names flow)
named_flow flow =
    let (iff, safe) = validate_task_names_lem flow in
    implied_lem (validate_task_names flow) safe iff.0

pub within_cap :
    (flow : ResolvedFlow)
    → well_named flow.tasks ≡ true
    → leb (length flow.tasks) tasks_per_flow_max ≡ true
unfolding well_named
within_cap flow h = ground (arith, h)

pub all_named :
    (flow : ResolvedFlow)
    → well_named flow.tasks ≡ true
    → all (λ n. not (is_empty n)) (map name_of flow.tasks) ≡ true
unfolding well_named
all_named flow h = ground (arith, h)

module _ {W : Type 0} (run_id : Text) where
  abbrev Guarded : Session W → Type 0
  Guarded = IsGuarded

  run-Keeps :
      (ports teardown : Ports W) (step teardown_step : Stepper W) (config : RunConfig)
      (flow : ResolvedFlow) (seed : Option Value)
      → IsDriven ports step
      → IsDriven teardown teardown_step
      → AreKeyed (record { context = flow.context; config = config; in_hook = false })
      → All (λ t. IsOutputKey t.output) flow.tasks
      → IsSeed seed
      → Keeps IsGuarded
          (λ out. Finished flow.tasks out.pipeline)
          (run run_id ports step teardown teardown_step config false flow seed)
  unfolding run
  run-Keeps ports teardown step teardown_step config flow seed driven later bodies outputs
        object_seed =
      let hooks : HookRunner = record {
        context = flow.context;
        config = config;
        in_hook = false;
      } in
      let sends = emits run_id ports step driven hooks bodies refl in
      let fires = fire-Keeps run_id ports step driven hooks bodies refl in
      let ends = fire-Keeps run_id teardown teardown_step later hooks bodies refl in
      let times = asks run_id ports step driven hooks bodies refl {A = ℕ} ports.now_ms in
      bind-Keeps Guarded (λ _. well_named flow.tasks ≡ true) _ _ _
        (lift-Keeps Guarded _ _ (named_flow flow))
        (λ _ named.
          bind-Keeps Guarded (λ _. Unit) _ _ _ times
            (λ start_ms _.
              bind-Keeps Guarded (λ _. Unit) _ _ _ (sends _)
                (λ _ _.
                  bind-Keeps Guarded (λ _. Unit) _ _ _ (fires create)
                    (λ _ _.
                      bind-Keeps Guarded (Ended flow.tasks) _ _ _
                        (run_tasks-Keeps ports driven.emit config _
                          (bind-Keeps Guarded (λ _. Unit) _ _ _ (fires change)
                            (λ _ _. pure-Keeps Guarded _ tt tt))
                          (step flow) (driven.steps flow) run_id flow seed (within_cap flow named)
                          (keyed flow.tasks (all_named flow named) outputs) object_seed)
                        (λ outcome ended.
                          bind-Keeps Guarded (λ _. Unit) _ _ _
                            (fire_error-Keeps run_id teardown teardown_step later hooks bodies refl
                              outcome.cancelled outcome.failure)
                            (λ _ _.
                              bind-Keeps Guarded (λ _. Unit) _ _ _ (ends destroy)
                                (λ _ _.
                                  bind-Keeps Guarded (λ _. Unit) _ _ _ times
                                    (λ end_ms _.
                                      bind-Keeps Guarded (λ _. Unit) _ _ _ (sends _)
                                        (λ _ _.
                                          bind-Keeps Guarded (λ _. Unit) _ _ _
                                            (assert-Keeps Guarded _
                                              (status_terminal flow.tasks outcome ended))
                                            (λ _ _.
                                              pure-Keeps Guarded
                                                (λ out. Finished flow.tasks out.pipeline)
                                                (finished_outcome outcome)
                                                (finished flow.tasks outcome ended)))))))))))

  -- A run outside a hook, its own hooks included, keeps a guarded session guarded and does not panic, over
  -- any steps that do so; and its outcome is that of a finished flow.
  pub run_lem :
      (ports teardown : Ports W) (step teardown_step : Stepper W) (config : RunConfig)
      (flow : ResolvedFlow) (seed : Option Value) (s : Session W)
      → IsDriven ports step
      → IsDriven teardown teardown_step
      → AreKeyed (record { context = flow.context; config = config; in_hook = false })
      → All (λ t. IsOutputKey t.output) flow.tasks
      → IsSeed seed
      → IsGuarded s
      → IsGuarded (run run_id ports step teardown teardown_step config false flow seed s).1
        × Holds
            (λ out. Finished flow.tasks out.pipeline)
            (run run_id ports step teardown teardown_step config false flow seed s).0
  unfolding Keeps Post
  run_lem ports teardown step teardown_step config flow seed s driven later bodies outputs h i =
      run-Keeps ports teardown step teardown_step config flow seed driven later bodies outputs h s i
