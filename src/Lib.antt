-- ===== src/Lib.antt =====
-- tmx: the engine of a task runner for declarative flows, modelled function by function.
--
-- A flow is a list of tasks. The runner walks it, dispatches each task to an adapter, merges the
-- outputs into one JSON state, and emits events; the masker scrubs what leaves the engine, and the
-- cancel token stops a run on a timeout or an interrupt. The engine is crates/tmx-core, its named
-- bounds are in crates/tmx-schema.
--
-- Base        the shared names, Boolean tests, lists, and text as the list of its bytes
-- Json        serde_json::Value: objects keep the order of insertion, as the features of
--             crates/tmx-adapters/Cargo.toml ask; numbers are kept as the text they are written as
-- Str         the operations of str that the engine uses
-- Error       crates/tmx-core/src/error.rs, and results with the abort of a failed assert
-- Limits      crates/tmx-schema/src/limits.rs
-- Model       crates/tmx-core/src/model.rs: statuses, events, results
-- Merge       crates/tmx-core/src/merge.rs: StateBuilder (merge, with_cap, from_state, ...),
--             check_merge_depth, base64_encode, normalize_output; serde_json's to_string is the parameter Serializer,
--             and IsCompact says what is relied on
-- Mask        crates/tmx-core/src/mask.rs: Masker (register, scrub_value, redact_event, ...)
-- Cancel      crates/tmx-core/src/cancel.rs: CancelToken as a shared state, Guard::poll
-- IndexMap    indexmap::IndexMap with text keys
-- Flow        the flow as the engine reads it: crates/tmx-schema/src/{task,flow,context,
--             environment}.rs, ResolvedFlow
-- Interpolate crates/tmx-core/src/interpolate.rs: Lexer (tokenize), Parser (parse, parse_bp) and Eval
--             (evaluate, eval, apply_step); Printer writes a tree as tokens
-- Preflight   crates/tmx-core/src/preflight.rs: Classes (classify_artifact, natural_cmp,
--             json_depth_exceeds), Assembly (assemble_flow, validate_artifact), References
--             (resolve_references), Limits (check_structure_and_limits), Capabilities
--             (compute_capabilities, check_capabilities) and Orchestration (preflight); Sources holds
--             the ports and what serde parses
-- Resolve     crates/tmx-core/src/resolve.rs: resolve, desugar_tasks, merged_inputs
-- Dispatch    crates/tmx-core/src/dispatch.rs: Template (interp_template, interp_value, is_truthy),
--             Asserts (run_assert, split_args), Encoding (percent_encode, duration_to_ms), Requests
--             (build_exec_spec, build_run_spec, build_fetch_request, build_file_op, build_store_op) and
--             Outputs (process_output, file_output, store_output)
-- Matcher     crates/tmx-core/src/matcher.rs, crates/tmx-schema/src/matcher.rs: the paths, and Engine
--             (MatcherEngine::evaluate, deep_equal, matches_object); Floats holds the arithmetic
-- Fanout      crates/tmx-core/src/fanout.rs: Map (run_map, bind_item), and Serial, the SerialScheduler
--             of crates/tmx-adapters/src/scheduler.rs
-- Runner      crates/tmx-core/src/runner.rs and hooks.rs: Names (validate_task_names), Slice
--             (slice_tasks), Matrix (matrix_combinations), Context (resolve_context), Session (what a
--             run threads through its calls, emit_event), Hoare (invariants of calls), Secrets
--             (resolve_secrets), Loop (run_tasks, fail_task), Step (run_step, check_produces),
--             Recursion (run_subflow, run_map_task, run_inner_task and the step tied to them) and
--             Lifecycle (HookRunner, run)
--
-- A function that changes a value through &mut returns the new value. An assert that fails is the
-- result panic; debug_asserts are not modelled. The loop of the depth check has one unit of fuel
-- for each node of the document and one more. The task loop is recursion on the list of tasks; a
-- call of the runner maps a session to a result and a session, the guard of the cancel token is
-- part of the step that the loop is given. The calls of the adapters, that guard and run_eval are
-- parameters of the step that is tied to its recursions, which has one unit of fuel for each level
-- of sub-flows that is left below the depth bound and one more; the templates and conditions are
-- evaluated by Dispatch and Interpolate. The splicing of a template has one unit of fuel for each
-- byte and one more, and a path one for each byte. The tokenizer has one unit of fuel for each
-- byte and one more, the parser two for each token and two more, and the natural order one for
-- each byte of the first name and one more; none of them runs out. Not modelled: the eval of
-- fanout.rs, the calls of the ports in dispatch.rs, and lint.rs of the engine, and the adapters
-- and the command line, which are I/O over the ports.
pub mod Base
pub mod Json
pub mod IndexMap
pub mod Error
pub mod Limits
pub mod Model
pub mod Str
pub mod Merge
pub mod Mask
pub mod Cancel
pub mod Flow
pub mod Resolve
pub mod Runner
pub mod Interpolate
pub mod Preflight
pub mod Dispatch
pub mod Matcher
pub mod Fanout
