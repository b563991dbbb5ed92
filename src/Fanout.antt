-- ===== src/Fanout.antt =====
-- The bounded fan-out of a task over a collection (crates/tmx-core/src/fanout.rs).
pub mod Map
pub mod Safety
pub mod Serial
mod Examples
