-- ===== src/Merge/Output.antt =====
-- The output of an adapter and its normal form: `AdapterOutput` and `normalize_output`.
--
-- A text is a list of bytes here, so `String::from_utf8` is the test `is_utf8`.
use tmx.Base.{Bool, Text, bytes, if◌then◌else◌}
use tmx.Json.{Value, string, object, field, no_fields}
use tmx.Merge.Base64.{base64_encode}

pub data AdapterOutput : Type 0 where
  json : Value → AdapterOutput
  message : Text → AdapterOutput
  raw : Text → AdapterOutput

unfoldable pub wrap_message : Text → Value
wrap_message s = object (field (bytes "message") (string s) no_fields)

unfoldable pub wrap_blob : Text → Value
wrap_blob b = object (field (bytes "blob") (string (base64_encode b)) no_fields)

unfoldable pub normalize_output : (Text → Bool) → AdapterOutput → Value
normalize_output is_utf8 (json v) = v
normalize_output is_utf8 (message s) = wrap_message s
normalize_output is_utf8 (raw b) = if is_utf8 b then wrap_message b else wrap_blob b
