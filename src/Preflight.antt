-- ===== src/Preflight.antt =====
-- What precedes the first side effect (crates/tmx-core/src/preflight.rs): the loading and the assembly
-- of the artifacts, the checks on the resolved flow, and the capabilities that it needs.
pub mod Capabilities
pub mod Coverage
pub mod Runs
pub mod Order
mod Examples
pub mod Depth
pub mod Postcondition
pub mod References
pub mod Orchestration
pub mod Assembly
pub mod Classes
pub mod Limits
pub mod Bounds
