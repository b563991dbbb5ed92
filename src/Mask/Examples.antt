-- ===== src/Mask/Examples.antt =====
-- The masker at concrete inputs.
use tmx.Base.{
  ◌≡◌, refl, true, false, not, ◌&&◌, ◌||◌, some, [], ◌∷◌, arith, Text, bytes, text_eq, is_empty,
}
use tmx.Json.{Value, number, string, array, object, no_items, item, no_fields, field}
use tmx.Error.{ok, Message, plain, format}
use tmx.Model.{Event, task_finish, TaskStatus}
use tmx.Str.{contains, replace}
use tmx.Mask.{
  placeholder, Masked, borrowed, into_owned, Masker, has, is_registered, no_secrets,
  insert_longest_first, sort_longest_first, push_new, add_secret, register, scrub_substrings,
  scrub_str, scrub_value, redact_event, assert_ready, assert_routed,
}
use tmx.Mask.Registry.{register_lem, register-IsBucketed, IsBucketed}
use tmx.Mask.Strings.{IsApart, scrub_str-no_leak, scrub_str-clean, scrub_str-placeholder_secret}
use tmx.Mask.Document.{redact, leaves_lack, scrub_value-eq-redact, scrub_value-no_leak}
use tmx.Mask.Routing.{event_lacks, redact_event-routed, register_all, register_all-ready}

abbrev token : Text
token = bytes "s3cret-token"

abbrev pin : Text
pin = bytes "1234"

abbrev fresh : Masker
fresh = record { substring = []; exact = []; id = 1 }

abbrev loaded : Masker
loaded = record { substring = token ∷ []; exact = pin ∷ []; id = 1 }

register_runs : register token (record { substring = []; exact = pin ∷ []; id = 1 }) ≡ ok loaded
unfolding register add_secret push_new insert_longest_first sort_longest_first is_registered has
    no_secrets
register_runs = refl

scrub_runs :
    into_owned (bytes "a s3cret-token b") (scrub_str loaded (bytes "a s3cret-token b"))
    ≡ bytes "a [REDACTED] b"
unfolding scrub_str scrub_substrings has contains replace
scrub_runs = refl

token-IsApart : IsApart token
unfolding contains
token-IsApart = record { present = refl; left = refl; right = refl; word = refl }

token-scanned : has loaded.substring token ≡ true
unfolding has
token-scanned = refl

register_lem_example :
    (m' : Masker) × (register token fresh ≡ ok m')
    × ((t : Text)
        → is_registered m' t ≡ ((not (is_empty token) && text_eq token t) || is_registered fresh t))
register_lem_example = register_lem token fresh

register-IsBucketed_example : IsBucketed loaded
register-IsBucketed_example =
    register-IsBucketed token (record { substring = []; exact = pin ∷ []; id = 1 }) loaded
      (record { scanned = tt; ordered = tt; compared = omega arith }) register_runs

scrub_str-no_leak_example :
    contains token
      (into_owned (bytes "a s3cret-token b") (scrub_str loaded (bytes "a s3cret-token b")))
    ≡ false
scrub_str-no_leak_example =
    scrub_str-no_leak loaded token (bytes "a s3cret-token b") token-IsApart token-scanned

scrub_str-clean_example : scrub_str loaded (bytes "a 1234 b") ≡ borrowed
unfolding has contains
scrub_str-clean_example = scrub_str-clean loaded (bytes "a 1234 b") refl refl

-- {"s3cret-token":["s3cret-token",1]}: the key is kept.
abbrev payload : Value
payload =
    object
      (field token (array (item (string token) (item (number (bytes "1")) no_items))) no_fields)

scrub_value_runs :
    into_owned payload (scrub_value loaded payload)
    ≡ object (
        field token
          (array (item (string placeholder) (item (number (bytes "1")) no_items)))
          no_fields)
unfolding scrub_value scrub_str scrub_substrings has contains replace
scrub_value_runs = refl

scrub_value-eq-redact_example :
    into_owned payload (scrub_value loaded payload) ≡ redact loaded payload
scrub_value-eq-redact_example = scrub_value-eq-redact loaded payload

scrub_value-no_leak_example :
    leaves_lack token (into_owned payload (scrub_value loaded payload)) ≡ true
scrub_value-no_leak_example = scrub_value-no_leak loaded token payload token-IsApart token-scanned

-- The secret "REDACT" is a part of the placeholder.
abbrev part : Masker
part = record { substring = bytes "REDACT" ∷ []; exact = []; id = 1 }

scrub_str-placeholder_secret_example :
    contains
      (bytes "REDACT")
      (into_owned (bytes "x REDACT y") (scrub_str part (bytes "x REDACT y")))
    ≡ true
unfolding has contains
scrub_str-placeholder_secret_example =
    scrub_str-placeholder_secret part (bytes "REDACT") (bytes "x REDACT y") refl refl refl refl refl

abbrev rendered : Message → Text
rendered (plain t) = t
rendered (format template arguments) = bytes template

redact_event-routed_example :
    (sealed : Masked Event) × (redact_event rendered loaded
        (task_finish (bytes "t") TaskStatus.ok 3 (some payload))
      ≡ ok sealed)
    × (assert_routed loaded sealed ≡ ok tt)
    × (event_lacks rendered token sealed.value ≡ true)
redact_event-routed_example =
    redact_event-routed rendered loaded token
      (task_finish (bytes "t") TaskStatus.ok 3 (some payload)) (λ t. refl) refl token-IsApart
      token-scanned

register_all-ready_example :
    (m' : Masker) × (register_all (token ∷ pin ∷ []) fresh ≡ ok m')
    × ((t : Text) → is_registered fresh t ≡ true → is_registered m' t ≡ true)
    × (assert_ready m' (token ∷ pin ∷ []) ≡ ok tt)
register_all-ready_example = register_all-ready (token ∷ pin ∷ []) fresh (refl, (refl, tt))
