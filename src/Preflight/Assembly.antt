-- ===== src/Preflight/Assembly.antt =====
-- The artifacts of a target: their loading, their validation, and their assembly into a flow.
--
-- `Sources` holds what is not read here: the three ports, the parses by serde, and `Path::file_name`.
-- A call carries the world behind the ports and the warnings that were collected so far.
use tmx.Base.{
  Bool, true, false, Option, none, some, List, [], ◌∷◌, ◌++◌, ◌⊎◌, inl, inr, String, Text, bytes,
  map, if◌then◌else◌,
}
use Prim.Native.Nat.{Ordering, gt}
use tmx.Json.{Value, Fields, no_fields, object, array, item, no_items, items_of, insert}
use tmx.Model.{Severity, Diagnostic}
use tmx.Error.{
  Result, ok, err, panic, RunError, Message, validation_error, resolution_error, with_path, plain,
  format, text, num, reject_if, ◌>>◌,
}
use tmx.Limits.{json_depth_max}
use tmx.Flow.{Flow, Environment, Context, Task}
use tmx.Preflight.Classes.{
  ArtifactClass, same_class, classify_artifact, basename, natural_cmp, json_depth_exceeds,
}

pub data SourceKind : Type 0 where
  yaml json jsonc toml : SourceKind

pub record ResolvedSource : Type 0 where
  pub path : Text
  pub kind : SourceKind

pub data ArtifactKind : Type 0 where
  flow context environment provider : ArtifactKind

-- What a parse gives: the message of serde's error, or a value.
abbrev pub Parsed : Type 0 → Type 0
Parsed A = Text ⊎ A

pub record Sources (W : Type 0) : Type 0 where
  pub resolve : Text → W → Result ResolvedSource × W
  pub load : Text → SourceKind → W → Result Value × W
  pub validate : Value → ArtifactKind → Result (List Diagnostic)
  pub parse_flow : Value → Parsed Flow
  pub parse_environment : Value → Parsed Environment
  pub parse_context : Value → Parsed Context
  pub parse_task : Value → Parsed Task
  pub file_name : Text → Option Text

pub record Loading (W : Type 0) : Type 0 where
  pub world : W
  pub warnings : List Diagnostic

abbrev pub Load : Type 0 → Type 0 → Type 0
Load W A = Loading W → Result A × Loading W

module _ {W : Type 0} where
  abbrev pub go_on : {A B : Type 0} → (A → Load W B) → Result A × Loading W → Result B × Loading W
  go_on f (ok a, s) = f a s
  go_on f (err e, s) = (err e, s)
  go_on f (panic, s) = (panic, s)

  infixl 5 ◌>>=◌
  unfoldable pub ◌>>=◌ : {A B : Type 0} → Load W A → (A → Load W B) → Load W B
  m >>= f = λ s. go_on f (m s)

  unfoldable pub pure : {A : Type 0} → A → Load W A
  pure a = λ s. (ok a, s)

  unfoldable pub lift : {A : Type 0} → Result A → Load W A
  lift r = λ s. (r, s)

  -- A call of a port.
  unfoldable pub ask : {A : Type 0} → (W → Result A × W) → Load W A
  ask port = λ s. let (r, w) = port s.world in (r, record s { world = w })

  unfoldable pub warn : Diagnostic → Load W (Unit {0})
  warn d = λ s. (ok tt, record s { warnings = s.warnings ++ d ∷ [] })

pub record LoadedArtifact : Type 0 where
  pub path : Text
  pub class : ArtifactClass
  pub value : Value

abbrev pub json_too_deep : Text → RunError
json_too_deep path =
    with_path
      (validation_error "json_too_deep" (
        format "artifact `{}` nests deeper than the {JSON_DEPTH_MAX}-level JSON depth bound"
          (text path ∷ num json_depth_max ∷ [])))
      path

unfoldable pub check_json_depth : LoadedArtifact → Result (Unit {0})
check_json_depth a = reject_if (json_depth_exceeds a.value json_depth_max) (json_too_deep a.path)

-- `wrap_task_as_flow`
abbrev pub wrap_task_as_flow : Value → Value
wrap_task_as_flow t = object (Fields.field (bytes "tasks") (array (item t no_items)) no_fields)

abbrev pub instance_of : LoadedArtifact → Value × ArtifactKind
instance_of a = elim a.class [
  | ArtifactClass.flow ↦ (a.value, ArtifactKind.flow)
  | ArtifactClass.environment ↦ (a.value, ArtifactKind.environment)
  | ArtifactClass.context ↦ (a.value, ArtifactKind.context)
  | ArtifactClass.provider ↦ (a.value, ArtifactKind.provider)
  | ArtifactClass.task ↦ (wrap_task_as_flow a.value, ArtifactKind.flow)
]

abbrev pub or_path : Option Text → Text → Text
or_path none path = path
or_path (some p) path = p

abbrev pub schema_invalid : Text → Diagnostic → RunError
schema_invalid path d =
    with_path
      (validation_error "schema_invalid"
        (format "artifact `{}` failed schema validation: {}" (text path ∷ text d.message ∷ [])))
      (or_path d.path path)

abbrev pub is_error : Severity → Bool
is_error Severity.error = true
is_error _ = false

abbrev pub duplicate_shared : String → Text → RunError
duplicate_shared what path =
    with_path
      (resolution_error "duplicate_shared_artifact" (
        format "a directory may hold at most one shared {what}; `{path}` is a second"
          (text (bytes what) ∷ text path ∷ [])))
      path

-- The shared environment and context, and the other artifacts in their order.
pub record Parts : Type 0 where
  pub environment : Option Value
  pub context : Option Value
  pub tasks : List LoadedArtifact

abbrev pub set_environment : Parts → LoadedArtifact → Result Parts
set_environment parts a = elim parts.environment [
  | none ↦ ok (record parts { environment = some a.value })
  | some v ↦ err (duplicate_shared "environment" a.path)
]

abbrev pub set_context : Parts → LoadedArtifact → Result Parts
set_context parts a = elim parts.context [
  | none ↦ ok (record parts { context = some a.value })
  | some v ↦ err (duplicate_shared "context" a.path)
]

abbrev pub add_part : Parts → LoadedArtifact → Result Parts
add_part parts a = elim a.class [
  | ArtifactClass.environment ↦ set_environment parts a
  | ArtifactClass.context ↦ set_context parts a
  | ArtifactClass.task ↦ ok (record parts { tasks = parts.tasks ++ a ∷ [] })
  | ArtifactClass.flow ↦ ok (record parts { tasks = parts.tasks ++ a ∷ [] })
  | ArtifactClass.provider ↦ ok (record parts { tasks = parts.tasks ++ a ∷ [] })
]

unfoldable pub sort_parts : List LoadedArtifact → Parts → Result Parts
sort_parts [] parts = ok parts
sort_parts (a ∷ as_) parts = tmx.Error.◌>>=◌ (add_part parts a) (λ more. sort_parts as_ more)

abbrev pub insert_some : String → Option Value → Fields → Fields
insert_some k none fs = fs
insert_some k (some v) fs = insert (bytes k) v fs

-- Whether the second name comes before the first.
abbrev pub is_after : Ordering → Bool
is_after gt = true
is_after _ = false

-- The stable sort of the standard library, as an insertion.
module _ (file_name : Text → Option Text) where
  abbrev pub insert_artifact : LoadedArtifact → List LoadedArtifact → List LoadedArtifact
  insert_artifact a [] = a ∷ []
  insert_artifact a (b ∷ sorted) =
      let rest = insert_artifact a sorted in
      if is_after (natural_cmp (basename file_name a.path) (basename file_name b.path))
      then b ∷ rest
      else a ∷ b ∷ sorted

  unfoldable pub sort_artifacts : List LoadedArtifact → List LoadedArtifact
  sort_artifacts [] = []
  sort_artifacts (a ∷ artifacts) = insert_artifact a (sort_artifacts artifacts)

  abbrev pub assembled : Parts → Value
  assembled parts = object (
      insert (bytes "tasks")
        (array (items_of (map (λ (a : LoadedArtifact). a.value) (sort_artifacts parts.tasks))))
        (insert_some "context" parts.context
          (insert_some "environment" parts.environment no_fields)))

abbrev pub flow_parse_error : Text → Text → RunError
flow_parse_error path e =
    with_path
      (validation_error "flow_parse_error"
        (format "could not assemble `{path}`: {e}" (text path ∷ text e ∷ [])))
      path

abbrev pub parsed {ℓ} : {A : Type ℓ} → (Text → RunError) → Text ⊎ A → Result A
parsed fail (inl e) = err (fail e)
parsed fail (inr a) = ok a

abbrev pub no_parts : Parts
no_parts = record { environment = none; context = none; tasks = [] }

module _ {W : Type 0} (sources : Sources W) where
  abbrev pub parse_flow : Value → Text → Result Flow
  parse_flow v path = parsed (flow_parse_error path) (sources.parse_flow v)

  abbrev pub assemble_parts : List LoadedArtifact → Result Flow
  assemble_parts artifacts =
      tmx.Error.◌>>=◌ (sort_parts artifacts no_parts)
        (λ parts. parse_flow (assembled sources.file_name parts) (bytes "<assembled directory>"))

  unfoldable pub assemble_flow : List LoadedArtifact → Result Flow
  assemble_flow (a ∷ []) =
      let parts = assemble_parts (a ∷ []) in
      if same_class a.class ArtifactClass.flow then parse_flow a.value a.path else parts
  assemble_flow artifacts = assemble_parts artifacts

  -- The loop over what the validator says.
  abbrev pub collect : Text → List Diagnostic → Load W (Unit {0})
  collect path [] = pure tt
  collect path (d ∷ ds) =
      let rest = collect path ds in
      if is_error d.severity then lift (err (schema_invalid path d)) else (warn d >>= λ _. rest)

  unfoldable pub validate_artifact : LoadedArtifact → Load W (Unit {0})
  validate_artifact a =
      let (instance, kind) = instance_of a in
      lift (sources.validate instance kind) >>= λ diagnostics. collect a.path diagnostics

  -- Resolve a reference, load what it names, and classify it.
  unfoldable pub load_reference : Text → Load W LoadedArtifact
  load_reference reference = do
    resolved ← ask (sources.resolve reference)
    v ← ask (sources.load resolved.path resolved.kind)
    class ← lift (classify_artifact sources.file_name resolved.path v)
    pure (record { path = resolved.path; class = class; value = v })
