-- ===== src/Mask.antt =====
-- The `Masker` (crates/tmx-core/src/mask.rs): the registry of sensitive values, the scrubbing of
-- text, documents and events, and the two boundary assertions. The `debug_assert!`s are not part
-- of the model: it is the release build.
pub mod Registry
pub mod Strings
pub mod Document
pub mod Routing
mod Examples
use tmx.Base.{
  ℕ, zero, suc, ◌+◌, ◌%◌, Bool, true, false, not, ◌&&◌, ◌||◌, Option, none, some, List, [], ◌∷◌,
  ◌++◌, bytes, Text, text_eq, length, is_empty, any, all, ltb, leb, ◌==◌, if◌then◌else◌,
}
use tmx.Limits.{mask_scan_len_min_bytes, u64_mod}
use tmx.Str.{contains, replace}
use tmx.Json.{
  Value, Items, Fields, null, boolean, number, string, array, object, no_items, item, no_fields,
  field,
}
use tmx.Model.{Event, TaskStatus, task_finish, task_error}
use tmx.Error.{Result, ok, err, panic, RunError, Message, plain, assert, ◌>>=◌, ◌>>◌}

-- `REDACTED_PLACEHOLDER`
abbrev pub placeholder : Text
placeholder = bytes "[REDACTED]"

pub record Masked {ℓ} (A : Type ℓ) : Type ℓ where
  pub value : A
  pub origin : ℕ

-- `Cow`: what was borrowed is unchanged.
pub data Cow (A : Type 0) : Type 0 where
  borrowed : Cow A
  owned : A → Cow A

abbrev pub into_owned : {A : Type 0} → A → Cow A → A
into_owned a borrowed = a
into_owned a (owned b) = b

pub record Masker : Type 0 where
  pub substring : List Text
  pub exact : List Text
  pub id : ℕ

unfoldable pub has : List Text → Text → Bool
has secrets value = any (λ s. text_eq s value) secrets

-- `Masker::contains`
unfoldable pub is_registered : Masker → Text → Bool
unfolding has
is_registered m value = has m.substring value || has m.exact value

unfoldable pub no_secrets : Masker → Bool
no_secrets m = is_empty m.substring && is_empty m.exact

-- `Masker::new`, with the counter `NEXT_MASKER_ID` before and after; `fetch_add` wraps.
unfoldable pub new : ℕ → Result Masker × ℕ
new counter =
    let m : Masker = record { substring = []; exact = []; id = counter } in
    ((do assert (not (counter == 0)); assert (no_secrets m); ok m), (counter + 1) % u64_mod)

-- `sort_unstable_by_key` by falling length. Values of one length may come in any order; here they
-- keep theirs.
unfoldable pub insert_longest_first : Text → List Text → List Text
insert_longest_first s [] = s ∷ []
insert_longest_first s (t ∷ ts) =
    if leb (length t) (length s) then s ∷ t ∷ ts else t ∷ insert_longest_first s ts

unfoldable pub sort_longest_first : List Text → List Text
sort_longest_first [] = []
sort_longest_first (s ∷ ss) = insert_longest_first s (sort_longest_first ss)

-- Push onto a bucket, unless the value is there.
unfoldable pub push_new : List Text → Text → List Text
push_new bucket secret =
    if all (λ existing. not (text_eq existing secret)) bucket then bucket ++ secret ∷ [] else bucket

-- The bucket of a value, by the scan floor; both are written back.
unfoldable pub add_secret : Text → Masker → Masker
add_secret secret m =
    if leb mask_scan_len_min_bytes (length secret)
    then record m { substring = sort_longest_first (push_new m.substring secret) }
    else record m { exact = push_new m.exact secret; substring = sort_longest_first m.substring }

unfoldable pub register : Text → Masker → Result Masker
register secret m = if is_empty secret then ok m else (do
  assert (leb 1 mask_scan_len_min_bytes)
  let m' = add_secret secret m
  assert (is_registered m' secret)
  assert (not (no_secrets m'))
  ok m')

-- The second loop of `scrub_str`: each substring secret in turn.
unfoldable pub scrub_substrings : List Text → Text → Cow Text → Cow Text
scrub_substrings [] input current = current
scrub_substrings (secret ∷ secrets) input current =
    let text = into_owned input current in
    scrub_substrings secrets input
      (if contains secret text then owned (replace secret placeholder text) else current)

unfoldable pub scrub_str : Masker → Text → Cow Text
scrub_str m input =
    if has m.exact input then owned placeholder else scrub_substrings m.substring input borrowed

abbrev pub string_cow : Cow Text → Cow Value
string_cow borrowed = borrowed
string_cow (owned t) = owned (string t)

abbrev pub is_borrowed : {A : Type 0} → Cow A → Bool
is_borrowed borrowed = true
is_borrowed (owned a) = false

abbrev pub array_cow : Items × Bool → Cow Value
array_cow (vs, all_borrowed) = if all_borrowed then borrowed else owned (array vs)

abbrev pub object_cow : Fields × Bool → Cow Value
object_cow (fs, all_borrowed) = if all_borrowed then borrowed else owned (object fs)

abbrev pub item_cow : Value → Cow Value → Items × Bool → Items × Bool
item_cow v c (vs, rest) = (item (into_owned v c) vs, is_borrowed c && rest)

abbrev pub field_cow : Text → Value → Cow Value → Fields × Bool → Fields × Bool
field_cow k v c (fs, rest) = (field k (into_owned v c) fs, is_borrowed c && rest)

-- The children of a container come back in their owned form, and whether all were borrowed.
unfoldable mutual
  pub scrub_value : Masker → Value → Cow Value
  scrub_value m (string t) = string_cow (scrub_str m t)
  scrub_value m (number rendered) = string_cow (scrub_str m rendered)
  scrub_value m (array vs) = array_cow (scrub_items m vs)
  scrub_value m (object fs) = object_cow (scrub_fields m fs)
  scrub_value m null = borrowed
  scrub_value m (boolean b) = borrowed

  pub scrub_items : Masker → Items → Items × Bool
  scrub_items m no_items = (no_items, true)
  scrub_items m (item v vs) = item_cow v (scrub_value m v) (scrub_items m vs)

  pub scrub_fields : Masker → Fields → Fields × Bool
  scrub_fields m no_fields = (no_fields, true)
  scrub_fields m (field k v fs) = field_cow k v (scrub_value m v) (scrub_fields m fs)

-- The payloads that an output port may emit; `redact_state` is `redact_value` in its owned form.
unfoldable pub redact_value : Masker → Value → Result (Masked Value)
redact_value m value = do
  assert (not (m.id == 0))
  ok (record { value = into_owned value (scrub_value m value); origin = m.id })

unfoldable pub redact_line : Masker → Text → Result (Masked Text)
redact_line m line = do
  assert (not (m.id == 0))
  ok (record { value = into_owned line (scrub_str m line); origin = m.id })

-- `render` is what `format!` and `to_string` make of a message.
unfoldable pub redact_error : (Message → Text) → Masker → RunError → Result RunError
redact_error render m e = do
  line ← redact_line m (render e.message)
  ok (record e { message = plain line.value })

unfoldable pub redact_output : Masker → Option Value → Result (Option Value)
redact_output m none = ok none
redact_output m (some v) = do masked ← redact_value m v; ok (some masked.value)

unfoldable pub redact_fields : (Message → Text) → Masker → Event → Result Event
redact_fields render m (task_finish name status ms output) = do
  out ← redact_output m output
  ok (task_finish name status ms out)
redact_fields render m (task_error name e) = do
  e' ← redact_error render m e
  ok (task_error name e')
redact_fields render m other = ok other

unfoldable pub redact_event : (Message → Text) → Masker → Event → Result (Masked Event)
redact_event render m event = do
  redacted ← redact_fields render m event
  assert (not (m.id == 0))
  ok (record { value = redacted; origin = m.id })

unfoldable pub all_registered : Masker → List Text → Result (Unit {0})
all_registered m [] = ok tt
all_registered m (s ∷ ss) = let rest = all_registered m ss in assert (is_registered m s) >> rest

unfoldable pub assert_ready : Masker → List Text → Result (Unit {0})
assert_ready m resolved = do
  assert (not (any (λ s. not (is_empty s)) resolved) || not (no_secrets m))
  all_registered m resolved

unfoldable pub assert_routed {ℓ} : {A : Type ℓ} → Masker → Masked A → Result (Unit {0})
assert_routed m payload = do assert (not (m.id == 0)); assert (payload.origin == m.id)
