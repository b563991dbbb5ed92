-- ===== src/Merge/Effects.antt =====
-- What a merge leaves behind, on every branch.
use tmx.Base.{
  ℕ, ◌+◌, ◌≤◌, ◌<◌, max, ◌≡◌, ap, ◌∙◌, ◌≢◌, some, arith, Text, text_eq, ◌&&◌, leb, Bool-cases, inl,
  inr, if◌then◌else◌,
}
use tmx.Limits.{json_depth_max}
use tmx.Json.{
  Value, Fields, object, no_fields, field, get, insert, get-insert, object_of, is_object,
}
use tmx.Json.Size.{depth, depth_fields}
use tmx.Error.{ok}
use tmx.Merge.{
  Serializer, StateBuilder, canonical_len, merge, commit, with_cap, from_state_with_cap,
}
use tmx.Merge.Depth.{check_merge_depth_lem}
use tmx.Merge.Size.{IsCompact, merged_size_lem, canonical_len-object}
use tmx.Merge.Refinement.{HasRoom, IsTracked}

-- A tracked builder stays tracked by any merge, whether it writes, fails or panics: the state stays
-- an object, the running size stays its exact serialised length, and the cap stays within the hard
-- ceiling. The lengths are taken to add up below the range of a `u64`.
pub merge-IsTracked :
    (json : Serializer) (b : StateBuilder) (key : Text) (output : Value) (task : Text)
    → IsCompact json
    → IsTracked json b
    → HasRoom json b key output
    → IsTracked json (merge json b key output task).1
unfolding merge commit
merge-IsTracked json b key output task c t room =
    let (fs, is) = object_of b.state t.object in
    let size : b.size_bytes ≡ canonical_len json (object fs) =
      t.size ∙ ap (canonical_len json) is in
    let merged = merged_size_lem c b fs key output size room in
    let depth_check = check_merge_depth_lem output key task in
    record {
      object = ground (arith, is, merged, depth_check, t.object);
      size = ground (arith, is, merged, depth_check, t.size);
      cap = ground (arith, is, merged, depth_check, t.cap);
    }

-- A merge that does not return `ok` leaves the builder as it was, state, size and cap.
pub merge_atomic :
    (json : Serializer) (b : StateBuilder) (key : Text) (output : Value) (task : Text)
    → (merge json b key output task).0 ≢ ok tt
    → (merge json b key output task).1 ≡ b
unfolding merge commit
merge_atomic json b key output task failed = ground arith

-- A merge that returns `ok` leaves a state within the cap.
pub merge-size-le-cap :
    (json : Serializer) (b : StateBuilder) (key : Text) (output : Value) (task : Text)
    → (merge json b key output task).0 ≡ ok tt
    → (merge json b key output task).1.size_bytes ≤ (merge json b key output task).1.cap_bytes
unfolding merge commit
merge-size-le-cap json b key output task done = ground arith

-- Where the state is an object and the merge returns `ok`, the state holds the output under the key,
-- and holds under every other key what it held.
pub get-merge :
    (json : Serializer) (b : StateBuilder) (fs : Fields) (key : Text) (output : Value) (task : Text)
    → b.state ≡ object fs
    → (merge json b key output task).0 ≡ ok tt
    → (after : Fields) × ((merge json b key output task).1.state ≡ object after)
      × ((j : Text) → get j after ≡ (if text_eq key j then some output else get j fs))
unfolding merge commit
get-merge json b fs key output task is done =
    (insert key output fs, ground (arith, is), (λ j. get-insert j key output fs))

depth_fields-insert :
    (k : Text) (v : Value) (fs : Fields)
    → depth_fields (insert k v fs) ≤ max (depth v) (depth_fields fs)
unfolding depth
depth_fields-insert k v no_fields = omega arith
depth_fields-insert k v (field j w fs) = ground (arith, depth_fields-insert k v fs)

depth-commit :
    (json : Serializer) (b : StateBuilder) (fs : Fields) (key : Text) (output : Value) (task : Text)
    → depth output < json_depth_max
    → depth b.state ≤ json_depth_max
    → b.state ≡ object fs
    → depth (commit json b key output task (object fs)).1.state ≤ json_depth_max
unfolding commit depth
depth-commit json b fs key output task shallow h is =
    ground (arith, depth_fields-insert key output fs, ap depth is)

-- A state within the depth cap stays within it by any merge.
pub depth-merge :
    (json : Serializer) (b : StateBuilder) (key : Text) (output : Value) (task : Text)
    → depth b.state ≤ json_depth_max
    → depth (merge json b key output task).1.state ≤ json_depth_max
unfolding merge
depth-merge json b key output task h =
    elim (Bool-cases (is_object b.state && leb (1 + depth output) json_depth_max)) [
      | inl passed ↦
          let (fs, is) = object_of b.state (ground arith) in
          ground (
            arith,
            is,
            check_merge_depth_lem output key task,
            depth-commit json b fs key output task (ground arith) h is,
          )
      | inr stopped ↦ ground (arith, check_merge_depth_lem output key task)
    ]

-- A builder over any object is tracked from the start, with any configured cap.
pub from_state_with_cap-IsTracked :
    (json : Serializer) (fs : Fields) (cap : ℕ)
    → IsTracked json (from_state_with_cap json (object fs) cap)
unfolding from_state_with_cap
from_state_with_cap-IsTracked json fs cap = ground arith

-- An empty builder is tracked, and its state counts two bytes.
pub with_cap-IsTracked :
    (json : Serializer) (cap : ℕ)
    → IsCompact json
    → IsTracked json (with_cap json cap) × ((with_cap json cap).size_bytes ≡ 2)
unfolding with_cap
with_cap-IsTracked json cap c = (ground arith, ground (arith, canonical_len-object c no_fields))
