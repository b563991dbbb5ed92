-- ===== src/Preflight/Orchestration.antt =====
-- `preflight`: from a target to the flow that the runner is handed.
use tmx.Base.{List, [], ◌∷◌, Text, bytes, is_empty}
use tmx.Model.{Diagnostic}
use tmx.Error.{ok, RunError, validation_error, plain, reject_if}
use tmx.Flow.{ResolvedFlow}
use tmx.Resolve.{resolve}
use tmx.Preflight.Capabilities.{
  CapabilitySet, AvailableCapabilities, compute_capabilities, check_capabilities,
}
use tmx.Preflight.Limits.{check_structure_and_limits}
use tmx.Preflight.Assembly.{
  Sources, Load, ◌>>=◌, pure, lift, LoadedArtifact, check_json_depth, assemble_flow,
  validate_artifact, load_reference,
}
use tmx.Preflight.References.{resolve_references}

pub data PreflightTarget : Type 0 where
  file : Text → PreflightTarget
  directory : List Text → PreflightTarget

abbrev pub references_of : PreflightTarget → List Text
references_of (file target) = target ∷ []
references_of (directory entries) = entries

pub record Preflighted : Type 0 where
  pub flow : ResolvedFlow
  pub capabilities : CapabilitySet
  pub warnings : List Diagnostic

abbrev pub empty_target : RunError
empty_target =
    validation_error "empty_target"
      (plain (bytes "a preflight target must contain at least one artifact"))

module _ {W : Type 0} (sources : Sources W) where
  abbrev pub load_all : List Text → Load W (List LoadedArtifact)
  load_all [] = pure []
  load_all (target ∷ targets) =
      load_reference sources target >>= λ a. load_all targets >>= λ rest. pure (a ∷ rest)

  unfoldable pub load_artifacts : PreflightTarget → Load W (List LoadedArtifact)
  load_artifacts target = load_all (references_of target)

  abbrev pub check_depths : List LoadedArtifact → Load W (Unit {0})
  check_depths [] = pure tt
  check_depths (a ∷ artifacts) = lift (check_json_depth a) >>= λ _. check_depths artifacts

  abbrev pub validate_all : List LoadedArtifact → Load W (Unit {0})
  validate_all [] = pure tt
  validate_all (a ∷ artifacts) = validate_artifact sources a >>= λ _. validate_all artifacts

  -- The checks on the resolved flow, and the result; the warnings are those of the call.
  unfoldable pub check_resolved : ResolvedFlow → AvailableCapabilities → Load W Preflighted
  check_resolved resolved available = do
    _ ← lift (check_structure_and_limits resolved)
    _ ← lift (check_capabilities (compute_capabilities resolved) available)
    λ s. (
      ok (record {
        flow = resolved;
        capabilities = compute_capabilities resolved;
        warnings = s.warnings;
      }),
      s,
    )

  unfoldable pub preflight : PreflightTarget → AvailableCapabilities → Load W Preflighted
  preflight target available = do
    artifacts ← load_artifacts target
    _ ← lift (reject_if (is_empty artifacts) empty_target)
    _ ← check_depths artifacts
    _ ← validate_all artifacts
    flow ← lift (assemble_flow sources artifacts)
    inlined ← resolve_references sources flow
    resolved ← lift (resolve inlined)
    check_resolved resolved available
