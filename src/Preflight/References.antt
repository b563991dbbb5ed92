-- ===== src/Preflight/References.antt =====
-- The references in a flow are replaced by what they name, and the whole of `preflight`.
use tmx.Base.{
  Bool, true, false, ◌&&◌, Option, none, some, [], ◌∷◌, String, Text, bytes, if◌then◌else◌,
}
use tmx.Json.{Value}
use tmx.Error.{
  Result, ok, err, panic, RunError, validation_error, resolution_error, with_path, plain, format,
  text, reject_if,
}
use tmx.Flow.{
  Ref, inline, reference, Flow, Environment, Context, Hooks, Hook, Tasks, Task, ResolvedFlow,
}
use tmx.Resolve.{resolve}
use tmx.Preflight.Classes.{ArtifactClass, same_class, explicit_kind, reserved_stem}
use tmx.Preflight.Assembly.{
  Sources, Load, ◌>>=◌, pure, lift, LoadedArtifact, check_json_depth, parsed, parse_flow,
  validate_artifact, load_reference,
}

abbrev pub class_name : ArtifactClass → String
class_name ArtifactClass.flow = "Flow"
class_name ArtifactClass.environment = "Environment"
class_name ArtifactClass.context = "Context"
class_name ArtifactClass.task = "Task"
class_name ArtifactClass.provider = "Provider"

abbrev pub reference_kind_mismatch : Text → ArtifactClass → LoadedArtifact → RunError
reference_kind_mismatch target expected a =
    with_path
      (resolution_error "reference_kind_mismatch" (
        format "`{reference}` is referenced as {expected:?} but `{}` dispatches to {:?}" (
          text target
          ∷ text (bytes (class_name expected))
          ∷ text a.path
          ∷ text (bytes (class_name a.class))
          ∷ [])))
      a.path

abbrev pub no_hook_body : LoadedArtifact → RunError
no_hook_body a =
    with_path
      (resolution_error "reference_kind_mismatch" (
        format "a hook reference must resolve to a flow or task, but `{}` is a {other:?}"
          (text a.path ∷ text (bytes (class_name a.class)) ∷ [])))
      a.path

abbrev pub parse_error : String → Text → Text → RunError
parse_error code path e =
    with_path
      (validation_error code (format "could not parse `{path}`: {e}" (text path ∷ text e ∷ [])))
      path

abbrev pub is_absent : {A : Type 0} → Option A → Bool
is_absent none = true
is_absent (some a) = false

unfoldable pub ensure_reference_class :
    (Text → Option Text) → LoadedArtifact → ArtifactClass → Text → Result (Unit {0})
ensure_reference_class file_name a expected target =
    if same_class a.class expected
    then ok tt
    else if same_class a.class ArtifactClass.task
        && is_absent (explicit_kind a.value)
        && is_absent (reserved_stem file_name a.path)
    then ok tt
    else err (reference_kind_mismatch target expected a)

module _ {W : Type 0} (sources : Sources W) where
  unfoldable pub load_referenced_artifact : Text → Load W LoadedArtifact
  load_referenced_artifact target = do
    a ← load_reference sources target
    _ ← lift (check_json_depth a)
    _ ← validate_artifact sources a
    pure a

  unfoldable pub load_referenced_environment : Text → Load W Environment
  load_referenced_environment target = do
    a ← load_referenced_artifact target
    _ ← lift (ensure_reference_class sources.file_name a ArtifactClass.environment target)
    lift (parsed (parse_error "environment_parse_error" a.path) (sources.parse_environment a.value))

  unfoldable pub load_referenced_context : Text → Load W Context
  load_referenced_context target = do
    a ← load_referenced_artifact target
    _ ← lift (ensure_reference_class sources.file_name a ArtifactClass.context target)
    lift (parsed (parse_error "context_parse_error" a.path) (sources.parse_context a.value))

  abbrev pub flow_tasks : Result Flow → Result Tasks
  flow_tasks r = tmx.Error.◌>>=◌ r (λ f. ok f.tasks)

  abbrev pub one_task : Result Task → Result Tasks
  one_task r = tmx.Error.◌>>=◌ r (λ t. ok (Tasks.list (t ∷ [])))

  abbrev pub hook_tasks : LoadedArtifact → Result Tasks
  hook_tasks a = elim a.class [
    | ArtifactClass.flow ↦ flow_tasks (parse_flow sources a.value a.path)
    | ArtifactClass.task ↦
        one_task (parsed (parse_error "task_parse_error" a.path) (sources.parse_task a.value))
    | ArtifactClass.environment ↦ err (no_hook_body a)
    | ArtifactClass.context ↦ err (no_hook_body a)
    | ArtifactClass.provider ↦ err (no_hook_body a)
  ]

  unfoldable pub load_referenced_hook_tasks : Text → Load W Tasks
  load_referenced_hook_tasks target = load_referenced_artifact target >>= λ a. lift (hook_tasks a)

  unfoldable pub resolve_hook_body : Hook → Load W Hook
  resolve_hook_body (Hook.tasks ts) = pure (Hook.tasks ts)
  resolve_hook_body (Hook.reference target) =
      load_referenced_hook_tasks target >>= λ ts. pure (Hook.tasks ts)
  resolve_hook_body (Hook.use_ref target inputs) =
      load_referenced_hook_tasks target >>= λ ts. pure (Hook.tasks ts)

  unfoldable pub resolve_optional_hook : Option Hook → Load W (Option Hook)
  resolve_optional_hook none = pure none
  resolve_optional_hook (some h) = resolve_hook_body h >>= λ body. pure (some body)

  unfoldable pub inline_environment : Option (Ref Environment) → Load W (Option (Ref Environment))
  inline_environment (some (reference target)) =
      load_referenced_environment target >>= λ e. pure (some (inline e))
  inline_environment r = pure r

  unfoldable pub inline_context : Option (Ref Context) → Load W (Option (Ref Context))
  inline_context (some (reference target)) =
      load_referenced_context target >>= λ c. pure (some (inline c))
  inline_context r = pure r

  unfoldable pub chase_bootstrap : Option (Ref Environment) → Load W (Option (Ref Environment))
  chase_bootstrap (some (inline e)) =
      resolve_optional_hook e.bootstrap >>= λ b. pure (some (inline (record e { bootstrap = b })))
  chase_bootstrap r = pure r

  unfoldable pub resolve_hooks : Option Hooks → Load W (Option Hooks)
  resolve_hooks none = pure none
  resolve_hooks (some h) = do
    create ← resolve_optional_hook h.create
    change ← resolve_optional_hook h.change
    destroy ← resolve_optional_hook h.destroy
    error ← resolve_optional_hook h.error
    pure (some (record { create = create; change = change; destroy = destroy; error = error }))

  unfoldable pub chase_hooks : Option (Ref Context) → Load W (Option (Ref Context))
  chase_hooks (some (inline c)) =
      resolve_hooks c.hooks >>= λ h. pure (some (inline (record c { hooks = h })))
  chase_hooks r = pure r

  unfoldable pub resolve_references : Flow → Load W Flow
  resolve_references flow = do
    environment ← inline_environment flow.environment
    context ← inline_context flow.context
    environment' ← chase_bootstrap environment
    context' ← chase_hooks context
    pure (record flow { environment = environment'; context = context' })

  abbrev pub flow_unparsed : Text → RunError
  flow_unparsed e =
      validation_error "flow_parse_error" (format "could not parse the flow: {e}" (text e ∷ []))

  unfoldable pub resolve_referenced_flow : Value → Load W ResolvedFlow
  resolve_referenced_flow source = do
    flow ← lift (parsed flow_unparsed (sources.parse_flow source))
    flow' ← resolve_references flow
    lift (resolve flow')
