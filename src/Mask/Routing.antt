-- ===== src/Mask/Routing.antt =====
-- The two boundary assertions, and the events that pass them.
use tmx.Base.{
  ◌≡◌, refl, Bool, true, false, not, none, some, List, [], ◌∷◌, arith, Text, is_empty, text_eq_refl,
  all, All, ◌==◌, if◌then◌else◌,
}
use tmx.Error.{Result, ok, panic, Message, plain, ◌>>=◌}
use tmx.Model.{Event, task_finish, task_error}
use tmx.Str.{contains}
use tmx.Mask.{
  Masked, Masker, into_owned, has, is_registered, register, scrub_str, scrub_value, redact_value,
  redact_line, redact_error, redact_output, redact_fields, redact_event, all_registered,
  assert_ready, assert_routed,
}
use tmx.Mask.Registry.{register_lem, any_registered}
use tmx.Mask.Strings.{IsApart, scrub_str-no_leak}
use tmx.Mask.Document.{leaves_lack, scrub_value-no_leak}

-- No string and no number in the output of a finished task holds the secret, and neither does the
-- message of an error, as it is rendered. The keys of the output's objects are not looked at.
unfoldable pub event_lacks : (Message → Text) → Text → Event → Bool
event_lacks render s (task_finish name status ms (some output)) = leaves_lack s output
event_lacks render s (task_error name e) = not (contains s (render e.message))
event_lacks render s _ = true

-- A masker with an identity seals every event, the sink's assertion passes on what it sealed, and a
-- scanned secret that shares nothing with the placeholder is in no string and no number of the output,
-- and not in the message; a key of the output may still hold it. A text that is already rendered is taken
-- to render as itself.
pub redact_event-routed :
    (render : Message → Text) (m : Masker) (s : Text) (event : Event)
    → ((t : Text) → render (plain t) ≡ t)
    → (m.id == 0) ≡ false
    → IsApart s
    → has m.substring s ≡ true
    → (sealed : Masked Event) × (redact_event render m event ≡ ok sealed)
      × (assert_routed m sealed ≡ ok tt)
      × (event_lacks render s sealed.value ≡ true)
unfolding redact_event redact_fields redact_output redact_error redact_value redact_line
    assert_routed event_lacks
redact_event-routed render m s (task_finish name status ms none) rp idle apart scanned = (
  record { value = task_finish name status ms none; origin = m.id },
  ground arith,
  ground arith,
  refl,
)
redact_event-routed render m s (task_finish name status ms (some v)) rp idle apart scanned = (
  record {
    value = task_finish name status ms (some (into_owned v (scrub_value m v)));
    origin = m.id;
  },
  ground arith,
  ground arith,
  scrub_value-no_leak m s v apart scanned,
)
redact_event-routed render m s (task_error name e) rp idle apart scanned =
    let line = into_owned (render e.message) (scrub_str m (render e.message)) in
    (
      record { value = task_error name (record e { message = plain line }); origin = m.id },
      ground arith,
      ground arith,
      ground (arith, rp line, scrub_str-no_leak m s (render e.message) apart scanned),
    )
redact_event-routed render m s other rp idle apart scanned =
    (record { value = other; origin = m.id }, ground arith, ground arith, refl)

all_registered_lem :
    (m : Masker) (ss : List Text)
    → all_registered m ss ≡ (if all (λ s. is_registered m s) ss then ok tt else panic)
unfolding all_registered
all_registered_lem m [] = refl
all_registered_lem m (s ∷ ss) = ground (arith, all_registered_lem m ss)

-- `assert_ready` passes exactly if every resolved secret is registered.
pub assert_ready_lem :
    (m : Masker) (ss : List Text)
    → assert_ready m ss ≡ (if all (λ s. is_registered m s) ss then ok tt else panic)
unfolding assert_ready
assert_ready_lem m [] = all_registered_lem m []
assert_ready_lem m (s ∷ ss) = ground (arith, all_registered_lem m (s ∷ ss), any_registered s m)

-- The registration of the secrets that a run resolves, in their order.
unfoldable pub register_all : List Text → Masker → Result Masker
register_all [] m = ok m
register_all (s ∷ ss) m = do m' ← register s m; register_all ss m'

pub all-keeps :
    (m m' : Masker) (ss : List Text)
    → ((t : Text) → is_registered m t ≡ true → is_registered m' t ≡ true)
    → all (λ s. is_registered m s) ss ≡ true
    → all (λ s. is_registered m' s) ss ≡ true
all-keeps m m' [] f h = refl
all-keeps m m' (s ∷ ss) f h = ground (arith, f s, all-keeps m m' ss f)

register_all-registers :
    (ss : List Text) (m : Masker)
    → All (λ s. is_empty s ≡ false) ss
    → (m' : Masker) × (register_all ss m ≡ ok m')
      × ((t : Text) → is_registered m t ≡ true → is_registered m' t ≡ true)
      × (all (λ s. is_registered m' s) ss ≡ true)
unfolding register_all
register_all-registers [] m h = (m, refl, (λ t k. k), refl)
register_all-registers (s ∷ ss) m h =
    let (m₁, e₁, r₁) = register_lem s m in
    let (m₂, e₂, r₂, all₂) = register_all-registers ss m₁ h.1 in
    (
      m₂,
      ground (arith, e₁, e₂),
      (λ t k. r₂ t (ground (arith, r₁ t))),
      ground (arith, all₂, r₂ s, r₁ s, h.0, text_eq_refl s),
    )

-- Registering the resolved secrets, none of them empty, never panics, keeps what was registered, and
-- leaves a masker that is ready for them.
pub register_all-ready :
    (ss : List Text) (m : Masker)
    → All (λ s. is_empty s ≡ false) ss
    → (m' : Masker) × (register_all ss m ≡ ok m')
      × ((t : Text) → is_registered m t ≡ true → is_registered m' t ≡ true)
      × (assert_ready m' ss ≡ ok tt)
register_all-ready ss m h =
    let (m', done, kept, there) = register_all-registers ss m h in
    (m', done, kept, ground (arith, assert_ready_lem m' ss, there))
