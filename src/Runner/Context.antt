-- ===== src/Runner/Context.antt =====
-- The context of a task (runner.rs): `combine_section`, `resolve_context`, `env_to_value`.
use tmx.Base.{
  String, Bool, false, ◌&&◌, Option, none, some, [], ◌∷◌, Text, bytes, text_eq, is_empty,
  if◌then◌else◌,
}
use tmx.Json.{Value, Fields, no_fields, string, object, insert}
use tmx.IndexMap.{IndexMap, has_key, put}
use tmx.Error.{Result, ok, err, RunError, resolution_error, with_task, plain}
use tmx.Flow.{EnvMap, SecretValue, inline, reference, LocalContext, Context, Task}
use tmx.Runner.Names.{name_of}

abbrev pub or_default {ℓ} : {A : Type ℓ} → A → Option A → A
or_default d none = d
or_default d (some a) = a

module _ {V : Type 0} where
  -- The loop over the local entries, with `out` the map that is built.
  unfoldable pub union : Bool → IndexMap V → IndexMap V → IndexMap V
  union inherited_wins out [] = out
  union inherited_wins out ((key, value) ∷ local) =
      union inherited_wins (if inherited_wins && has_key key out then out else put key value out)
        local

  unfoldable pub combine_section : IndexMap V → IndexMap V → Bool → Bool → IndexMap V
  combine_section inherited local replace inherited_wins =
      if replace
      then (if is_empty local then inherited else local)
      else union inherited_wins inherited local

abbrev pub is_text : String → Option Text → Bool
is_text s none = false
is_text s (some t) = text_eq t (bytes s)

abbrev pub flow_env : Option Context → EnvMap
flow_env none = []
flow_env (some c) = or_default [] c.env

abbrev pub flow_secrets : Option Context → IndexMap SecretValue
flow_secrets none = []
flow_secrets (some c) = or_default [] c.secrets

abbrev pub unsupported_context : Task → RunError
unsupported_context task =
    with_task
      (resolution_error "unsupported_reference"
        (plain (bytes "a referenced task context is resolved by the loading unit, not the runner")))
      (name_of task)

-- The two sections, each combined by itself.
unfoldable pub local_context :
    EnvMap → IndexMap SecretValue → Task → LocalContext → EnvMap × IndexMap SecretValue
local_context env secrets task c =
    let replace = is_text "replace" task.context_strategy in
    let inherited_wins = is_text "inherited" task.context_precedence in
    (
      combine_section env (or_default [] c.env) replace inherited_wins,
      combine_section secrets (or_default [] c.secrets) replace inherited_wins,
    )

unfoldable pub resolve_context : Option Context → Task → Result (EnvMap × IndexMap SecretValue)
resolve_context flow_ctx task = elim task.context [
  | none ↦ ok (flow_env flow_ctx, flow_secrets flow_ctx)
  | some (reference path) ↦ err (unsupported_context task)
  | some (inline c) ↦ ok (local_context (flow_env flow_ctx) (flow_secrets flow_ctx) task c)
]

abbrev pub env_fields : EnvMap → Fields → Fields
env_fields [] fs = fs
env_fields ((key, value) ∷ env) fs = env_fields env (insert key (string value) fs)

unfoldable pub env_to_value : EnvMap → Value
env_to_value env = object (env_fields env no_fields)

module _ {V : Type 0} where
  abbrev pub or_else : Option V → Option V → Option V
  or_else none d = d
  or_else (some v) d = some v
