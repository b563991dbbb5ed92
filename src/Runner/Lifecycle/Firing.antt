-- ===== src/Runner/Lifecycle/Firing.antt =====
-- A lifecycle hook that fires keeps the session guarded, whatever its body does.
use tmx.Base.{◌≡◌, ◌≢◌, true, false, Option, none, some, List, arith, Text, length, ltb, leb, All}
use tmx.Limits.{hook_tasks_max, tasks_per_flow_max}
use tmx.Json.{Value}
use tmx.Error.{panic, RunError}
use tmx.Mask.{Masked}
use tmx.Model.{Event, is_terminal}
use tmx.Cancel.{CancelReason}
use tmx.Flow.{Task, Hook, ResolvedFlow}
use tmx.Runner.Session.{Ports, Session, pure, ask, emit_event}
use tmx.Runner.Hoare.{
  Holds, reject_if_lem, Keeps, bind-Keeps, pure-Keeps, lift-Keeps, assert-Keeps, ask-Keeps,
}
use tmx.Runner.Loop.{Outcome}
use tmx.Runner.Loop.Safety.{IsGuarded, emit_event-Keeps}
use tmx.Runner.Loop.Results.{IsKeyed, Finished, Ended, run_tasks-Keeps}
use tmx.Runner.Lifecycle.{
  HookKind, error, HookRunner, body_for, body_flow, too_many_hook_tasks, Stepper, fire_body,
  fire_hook, fire_declared, fire, fire_error,
}

-- Every task of a declared hook's body has a name and a key. Nothing in the engine checks it.
abbrev KeyedHook : HookRunner → HookKind → Option Hook → Type 0
KeyedHook runner kind none = Unit
KeyedHook runner kind (some hook) =
    Holds (λ body. All IsKeyed body.tasks) (body_flow runner kind hook)

unfoldable pub AreKeyed : HookRunner → Type 0
AreKeyed runner = (kind : HookKind) → KeyedHook runner kind (body_for runner kind)

is_terminal-Ended :
    (tasks : List Task) (out : Outcome) → Ended tasks out → is_terminal out.pipeline.status ≡ true
unfolding Ended Finished
is_terminal-Ended tasks out (f, is) = f.1

-- What is relied on of the ports and of the guarded step.
pub record IsDriven {W : Type 0} (ports : Ports W) (step : Stepper W) : Type 0 where
  pub emit : (e : Masked Event) (w : W) → (ports.emit e w).0 ≢ panic
  pub steps :
      (f : ResolvedFlow) (t : Task) (name : Text) (state : Value)
      → Keeps IsGuarded (λ _. Unit) (step f t name state)

module _ {W : Type 0} (run_id : Text) where
  abbrev Guarded : Session W → Type 0
  Guarded = IsGuarded

  module _ (ports : Ports W) (step : Stepper W) (driven : IsDriven ports step) (runner : HookRunner)
      (bodies : AreKeyed runner) (outside : runner.in_hook ≡ false) where
    pub asks : {A : Type 0} (port : W → A × W) → Keeps Guarded (λ _. Unit) (ask port)
    asks port =
        ask-Keeps Guarded port
          (λ s w i. record { own = i.own; ready = i.ready; full = i.full; sealed = i.sealed })

    pub emits : (event : Event) → Keeps Guarded (λ _. Unit) (emit_event ports event)
    emits event = emit_event-Keeps ports driven.emit event

    fire_body-Keeps :
        (kind : HookKind) (body : ResolvedFlow)
        → leb (length body.tasks) tasks_per_flow_max ≡ true
        → All IsKeyed body.tasks
        → Keeps Guarded (λ _. Unit) (fire_body run_id ports step runner kind body)
    unfolding fire_body
    fire_body-Keeps kind body few named =
        bind-Keeps Guarded (λ _. Unit) _ _ _ (asks ports.now_ms)
          (λ start_ms _.
            bind-Keeps Guarded (λ _. Unit) _ _ _ (emits _)
              (λ _ _.
                bind-Keeps Guarded (Ended body.tasks) _ _ _
                  (run_tasks-Keeps ports driven.emit runner.config (pure tt)
                    (pure-Keeps Guarded _ tt tt) (step body) (driven.steps body) run_id body none
                    few named tt)
                  (λ outcome ended.
                    bind-Keeps Guarded (λ _. Unit) _ _ _
                      (assert-Keeps Guarded _ (is_terminal-Ended body.tasks outcome ended))
                      (λ _ _.
                        bind-Keeps Guarded (λ _. Unit) _ _ _ (asks ports.now_ms)
                          (λ end_ms _.
                            bind-Keeps Guarded (λ _. Unit) _ _ _ (emits _)
                              (λ _ _. pure-Keeps Guarded _ true tt))))))

    fire_hook-Keeps :
        (kind : HookKind) (hook : Hook)
        → KeyedHook runner kind (some hook)
        → Keeps Guarded (λ _. Unit) (fire_hook run_id ports step runner kind hook)
    unfolding fire_hook
    fire_hook-Keeps kind hook named =
        bind-Keeps Guarded (λ _. Unit) _ _ _ (assert-Keeps Guarded _ (ground (arith, outside)))
          (λ _ _.
            bind-Keeps Guarded (λ body. All IsKeyed body.tasks) _ _ _
              (lift-Keeps Guarded _ (body_flow runner kind hook) named)
              (λ body bodies_named.
                bind-Keeps Guarded (λ _. ltb hook_tasks_max (length body.tasks) ≡ false) _ _ _
                  (lift-Keeps Guarded _ _ (
                    reject_if_lem (ltb hook_tasks_max (length body.tasks))
                      (too_many_hook_tasks kind)))
                  (λ _ few. fire_body-Keeps kind body (ground (arith, few)) bodies_named)))

    declared-Keeps :
        (kind : HookKind) (o : Option Hook)
        → KeyedHook runner kind o
        → Keeps Guarded (λ _. Unit) (fire_declared run_id ports step runner kind o)
    declared-Keeps kind none e = pure-Keeps Guarded _ false tt
    declared-Keeps kind (some hook) e = fire_hook-Keeps kind hook e

    -- A hook that is fired keeps the invariant and does not panic, whatever its body does.
    pub fire-Keeps :
        (kind : HookKind) → Keeps IsGuarded (λ _. Unit) (fire run_id ports step runner kind)
    unfolding fire AreKeyed
    fire-Keeps kind = declared-Keeps kind (body_for runner kind) (bodies kind)

    pub fire_error-Keeps :
        (c : Option CancelReason) (f : Option RunError)
        → Keeps Guarded (λ _. Unit) (fire_error run_id ports step runner c f)
    unfolding fire_error
    fire_error-Keeps none (some e) = fire-Keeps error
    fire_error-Keeps none none = pure-Keeps Guarded _ false tt
    fire_error-Keeps (some reason) f = pure-Keeps Guarded _ false tt
