-- ===== src/Dispatch/Outputs.antt =====
-- What the ports give back, as the output of the task: `process_output`, `bytes_output`,
-- `file_output` and `store_output`.
--
-- `JsonCodec` holds what serde_json and the standard library do: `from_slice`, and the decimal text
-- of a `u64` and of an `i32`.
use tmx.Base.{
  ℕ, Bool, true, false, Option, none, some, List, [], ◌∷◌, Text, bytes, ◌==◌, if◌then◌else◌,
}
use tmx.Json.{Value, null, boolean, number, string, array, object, field, no_fields, items_of}
use tmx.Error.{Result, ok, err, RunError, format, text, run_failure_error, with_task}
use tmx.Merge.Output.{AdapterOutput}

pub data ℤ : Type 0 where
  pos negsuc : ℕ → ℤ

pub record ProcessOutput : Type 0 where
  pub exit_code : Option ℤ
  pub stdout : Text
  pub stderr : Text
  pub ms : ℕ

pub data FileResult : Type 0 where
  file_read : Text → FileResult
  file_exists : Bool → FileResult
  file_done : FileResult

pub data StoreResult : Type 0 where
  store_get : Text → StoreResult
  store_list : List Text → StoreResult
  store_head : Bool → Option ℕ → StoreResult
  store_done : StoreResult

pub record JsonCodec : Type 0 where
  pub from_slice : Text → Option Value
  pub u64_text : ℕ → Text
  pub i32_text : ℤ → Text

abbrev pub done_output : AdapterOutput
done_output = AdapterOutput.json (object (field (bytes "ok") (boolean true) no_fields))

abbrev pub is_success : Option ℤ → Bool
is_success (some (pos n)) = n == 0
is_success other = false

abbrev pub strings : List Text → List Value
strings [] = []
strings (s ∷ ss) = string s ∷ strings ss

module _ (codec : JsonCodec) where
  abbrev pub exit_text : Option ℤ → Text
  exit_text none = bytes "signal"
  exit_text (some c) = codec.i32_text c

  abbrev pub nonzero_exit : Text → Option ℤ → RunError
  nonzero_exit name code =
      with_task
        (run_failure_error "exec_nonzero_exit" (
          format "task {name:?} exited with status {code}"
            (text name ∷ text (exit_text code) ∷ [])))
        name

  unfoldable pub bytes_output : Text → AdapterOutput
  bytes_output b = elim (codec.from_slice b) [
    | none ↦ AdapterOutput.raw b
    | some v ↦ AdapterOutput.json v
  ]

  unfoldable pub process_output : ProcessOutput → Text → Result AdapterOutput
  process_output out name =
      if is_success out.exit_code
      then ok (bytes_output out.stdout)
      else err (nonzero_exit name out.exit_code)

  unfoldable pub file_output : FileResult → AdapterOutput
  file_output (file_read contents) = bytes_output contents
  file_output (file_exists b) = AdapterOutput.json (boolean b)
  file_output file_done = done_output

  abbrev pub size_value : Option ℕ → Value
  size_value none = null
  size_value (some n) = number (codec.u64_text n)

  unfoldable pub store_output : StoreResult → AdapterOutput
  store_output (store_get body) = bytes_output body
  store_output (store_list keys) = AdapterOutput.json (array (items_of (strings keys)))
  store_output (store_head b size) = AdapterOutput.json (
      object (
        field (bytes "exists") (boolean b) (field (bytes "sizeBytes") (size_value size) no_fields)))
  store_output store_done = done_output
