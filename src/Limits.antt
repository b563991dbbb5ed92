-- ===== src/Limits.antt =====
-- The named bounds of the engine (crates/tmx-schema/src/limits.rs).
use tmx.Base.{ℕ, ◌*◌, ◌^◌}

abbrev pub bytes_per_mib : ℕ
bytes_per_mib = 1024 * 1024

abbrev pub state_size_max_bytes : ℕ
state_size_max_bytes = 512 * bytes_per_mib

abbrev pub flow_depth_max : ℕ
flow_depth_max = 8

abbrev pub tasks_per_flow_max : ℕ
tasks_per_flow_max = 1024

abbrev pub fanout_width_max : ℕ
fanout_width_max = 100_000

abbrev pub concurrency_max : ℕ
concurrency_max = 256

abbrev pub expr_len_max_bytes : ℕ
expr_len_max_bytes = 4096

abbrev pub expr_depth_max : ℕ
expr_depth_max = 32

abbrev pub json_depth_max : ℕ
json_depth_max = 128

abbrev pub hook_tasks_max : ℕ
hook_tasks_max = 256

abbrev pub mask_scan_len_min_bytes : ℕ
mask_scan_len_min_bytes = 6

-- The values of a `u64`.
abbrev pub u64_mod : ℕ
u64_mod = 2 ^ 64
