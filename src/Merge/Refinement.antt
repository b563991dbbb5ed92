-- ===== src/Merge/Refinement.antt =====
-- The merge with its running size against a reference merge, which writes the new state first and
-- serialises all of it.
use tmx.Base.{◌+◌, ◌≤◌, ◌<◌, ◌≡◌, true, false, Text, arith, is_empty, leb, if◌then◌else◌}
use tmx.Limits.{state_size_max_bytes, json_depth_max, u64_mod}
use tmx.Json.{Value, Fields, object, insert, is_object}
use tmx.Json.Size.{depth}
use tmx.Error.{Result, ok, err}
use tmx.Merge.{
  Serializer, StateBuilder, canonical_len, key_token_len, merge, commit, json_too_deep,
  state_cap_exceeded,
}
use tmx.Merge.Depth.{check_merge_depth_lem}
use tmx.Merge.Size.{IsCompact, merged_size_lem}

-- Write, serialise the whole state, and keep the result if it is within the cap.
unfoldable pub wholesale_merge :
    Serializer → StateBuilder → Fields → Text → Value → Text → Result (Unit {0}) × StateBuilder
wholesale_merge json b fs key output task =
    let state = object (insert key output fs) in
    let size = canonical_len json state in
    if leb (1 + depth output) json_depth_max
    then (if leb size b.cap_bytes
        then (ok tt, record b { state = state; size_bytes = size })
        else (err (state_cap_exceeded task size b.cap_bytes), b))
    else (err (json_too_deep key task), b)

-- The state is an object, its size is tracked exactly, and the cap is within the hard ceiling.
pub record IsTracked (json : Serializer) (b : StateBuilder) : Type 0 where
  pub object : is_object b.state ≡ true
  pub size : b.size_bytes ≡ canonical_len json b.state
  pub cap : b.cap_bytes ≤ state_size_max_bytes

-- The lengths that a merge adds up stay below the range of a `u64`.
abbrev pub HasRoom : Serializer → StateBuilder → Text → Value → Type 0
HasRoom json b key output =
    b.size_bytes + key_token_len json key + canonical_len json output + 2 < u64_mod

-- Where the state is an object whose size is tracked, and the lengths add up below the range of a
-- `u64`, a merge under a non-empty key does what the reference merge does: it has the same result,
-- error or not, and leaves the same builder.
pub merge-eq-wholesale_merge :
    (json : Serializer) (b : StateBuilder) (fs : Fields) (key : Text) (output : Value) (task : Text)
    → IsCompact json
    → b.state ≡ object fs
    → b.size_bytes ≡ canonical_len json (object fs)
    → HasRoom json b key output
    → is_empty key ≡ false
    → merge json b key output task ≡ wholesale_merge json b fs key output task
unfolding merge commit wholesale_merge
merge-eq-wholesale_merge json b fs key output task c is tracked room named =
    ground
      (arith, check_merge_depth_lem output key task, merged_size_lem c b fs key output tracked room)
