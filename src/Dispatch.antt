-- ===== src/Dispatch.antt =====
-- What the dispatch of a task does before it calls a port (crates/tmx-core/src/dispatch.rs).
pub mod Template
pub mod Asserts
pub mod Encoding
pub mod Requests
pub mod Outputs
mod Examples
