-- ===== src/Runner.antt =====
-- The sequential runner (crates/tmx-core/src/runner.rs): its checks of a flow, the transforms of the
-- command line's flags, the context of a task, and the task loop.
pub mod Names
pub mod Slice
pub mod Matrix
pub mod Context
pub mod Session
pub mod Hoare
pub mod Loop
pub mod Secrets
pub mod Step
pub mod Recursion
pub mod Lifecycle
mod Examples
mod Runs
