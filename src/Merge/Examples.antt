-- ===== src/Merge/Examples.antt =====
-- The merge at concrete inputs, with a compact serialiser.
use tmx.Base.{
  ◌+◌, ◌≤◌, ◌≡◌, ◌≢◌, refl, true, false, some, [], ◌++◌, arith, Text, bytes, text_eq, leb,
  if◌then◌else◌, ap,
}
use tmx.Limits.{json_depth_max}
use tmx.Json.{
  Value, Items, Fields, null, boolean, number, string, array, object, no_items, item, no_fields,
  field, get, insert,
}
use tmx.Json.Size.{depth, nodes}
use tmx.Error.{ok, err}
use tmx.Merge.{
  Serializer, StateBuilder, canonical_len, key_token_len, merge, commit, scan_depth,
  check_merge_depth, json_too_deep, merged_size, add_u64, sub_u64,
}
use tmx.Merge.Size.{IsCompact, compact_fields}
use tmx.Merge.Refinement.{wholesale_merge, IsTracked, merge-eq-wholesale_merge}
use tmx.Merge.Effects.{merge-IsTracked, merge_atomic, get-merge, depth-merge}
use tmx.Merge.Depth.{check_merge_depth_lem}
use tmx.Merge.Base64.{base64_encode, decode, decode-base64_encode}

-- Strings without escapes.
abbrev quoted : Text → Text
quoted t = bytes "\"" ++ (t ++ bytes "\"")

mutual
  plain : Value → Text
  plain null = bytes "null"
  plain (boolean true) = bytes "true"
  plain (boolean false) = bytes "false"
  plain (number n) = n
  plain (string t) = quoted t
  plain (array vs) = bytes "[" ++ (plain_items vs ++ bytes "]")
  plain (object fs) = bytes "{" ++ (plain_fields fs ++ bytes "}")

  plain_items : Items → Text
  plain_items no_items = []
  plain_items (item v no_items) = plain v
  plain_items (item v (item w vs)) = plain v ++ (bytes "," ++ plain_items (item w vs))

  plain_fields : Fields → Text
  plain_fields no_fields = []
  plain_fields (field k v no_fields) = quoted k ++ (bytes ":" ++ plain v)
  plain_fields (field k v (field j w fs)) =
      quoted k ++ (bytes ":" ++ (plain v ++ (bytes "," ++ plain_fields (field j w fs))))

abbrev plain_json : Serializer
plain_json = record { to_string = λ v. some (plain v); key_to_string = λ k. some (quoted k) }

plain_fields_lem : (fs : Fields) → plain_fields fs ≡ compact_fields plain quoted fs
unfolding plain
plain_fields_lem no_fields = refl
plain_fields_lem (field k v no_fields) = refl
plain_fields_lem (field k v (field j w fs)) =
    ap (λ t. quoted k ++ (bytes ":" ++ (plain v ++ (bytes "," ++ t))))
      (plain_fields_lem (field j w fs))

plain-object :
    (fs : Fields) → plain (object fs) ≡ bytes "{" ++ (compact_fields plain quoted fs ++ bytes "}")
unfolding plain
plain-object fs = ap (λ t. bytes "{" ++ (t ++ bytes "}")) (plain_fields_lem fs)

abbrev plain_json-IsCompact : IsCompact plain_json
plain_json-IsCompact = record {
  compact = plain;
  key_text = quoted;
  to_string_lem = λ v. refl;
  key_to_string_lem = λ k. refl;
  compact-object = plain-object;
}

-- {"a":1} under a cap of 16 bytes.
abbrev one : Fields
one = field (bytes "a") (number (bytes "1")) no_fields

abbrev small : StateBuilder
small = record { state = object one; size_bytes = 7; cap_bytes = 16 }

small-IsTracked : IsTracked plain_json small
unfolding canonical_len plain
small-IsTracked = record { object = refl; size = refl; cap = omega arith }

-- {"a":1,"b":true}
abbrev two : Fields
two = insert (bytes "b") (boolean true) one

merge_runs :
    merge plain_json small (bytes "b") (boolean true) (bytes "t")
    ≡ (ok tt, record { state = object two; size_bytes = 16; cap_bytes = 16 })
unfolding merge commit check_merge_depth scan_depth merged_size add_u64 sub_u64 canonical_len
    key_token_len plain nodes
merge_runs = refl

merge_full : (merge plain_json small (bytes "b") (boolean false) (bytes "t")).0 ≢ ok tt
unfolding merge commit check_merge_depth scan_depth merged_size add_u64 sub_u64 canonical_len
    key_token_len plain nodes
merge_full = cc

merge-eq-wholesale_merge_example :
    merge plain_json small (bytes "b") (boolean true) (bytes "t")
    ≡ wholesale_merge plain_json small one (bytes "b") (boolean true) (bytes "t")
unfolding canonical_len key_token_len plain
merge-eq-wholesale_merge_example =
    merge-eq-wholesale_merge plain_json small one (bytes "b") (boolean true) (bytes "t")
      plain_json-IsCompact refl refl (omega arith) refl

merge-IsTracked_example :
    IsTracked plain_json (merge plain_json small (bytes "b") (boolean true) (bytes "t")).1
unfolding canonical_len key_token_len plain
merge-IsTracked_example =
    merge-IsTracked plain_json small (bytes "b") (boolean true) (bytes "t") plain_json-IsCompact
      small-IsTracked (omega arith)

merge_atomic_example : (merge plain_json small (bytes "b") (boolean false) (bytes "t")).1 ≡ small
merge_atomic_example =
    merge_atomic plain_json small (bytes "b") (boolean false) (bytes "t") merge_full

get-merge_example :
    (after : Fields) × ((merge plain_json small (bytes "b") (boolean true) (bytes "t")).1.state
      ≡ object after)
    × ((j : Text)
        → get j after ≡ (if text_eq (bytes "b") j then some (boolean true) else get j one))
get-merge_example =
    get-merge plain_json small one (bytes "b") (boolean true) (bytes "t") refl
      (ap (λ r. r.0) merge_runs)

depth-merge_example :
    depth (merge plain_json small (bytes "b") (boolean true) (bytes "t")).1.state ≤ json_depth_max
unfolding depth
depth-merge_example =
    depth-merge plain_json small (bytes "b") (boolean true) (bytes "t") (omega arith)

check_merge_depth_lem_example : check_merge_depth (array no_items) (bytes "k") (bytes "t") ≡ (
    if leb (1 + depth (array no_items)) json_depth_max
    then ok tt
    else err (json_too_deep (bytes "k") (bytes "t")))
check_merge_depth_lem_example = check_merge_depth_lem (array no_items) (bytes "k") (bytes "t")

-- RFC 4648: "fooba"
base64_runs : base64_encode (bytes "fooba") ≡ bytes "Zm9vYmE="
unfolding base64_encode
base64_runs = refl

decode-base64_encode_example : decode (base64_encode (bytes "fooba")) ≡ some (bytes "fooba")
decode-base64_encode_example = decode-base64_encode (bytes "fooba") (omega arith)
