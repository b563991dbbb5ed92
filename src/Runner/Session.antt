-- ===== src/Runner/Session.antt =====
-- What a run carries through its calls: the masker, the resolved secrets and the world behind the
-- ports. A call gives a result and the session that it leaves, and `emit_event` of runner.rs is the one
-- way to the sink.
--
-- `emitted` records what the sink was handed. The clock, the sink, the token and the resolvers of
-- secrets are parameters, and so is what serde_json does.
use tmx.Base.{ℕ, Bool, Option, List, [], ◌∷◌, ◌++◌, Text}
use tmx.Json.{Value}
use tmx.Model.{Event}
use tmx.Error.{Result, ok, err, panic, RunError, Message, ◌>>◌}
use tmx.Mask.{Masked, Masker, assert_ready, redact_event}
use tmx.Merge.{Serializer}
use tmx.Cancel.{CancelReason}
use tmx.Flow.{SecretSource}

pub record Ports (W : Type 0) : Type 0 where
  pub now : W → Text × W
  pub now_ms : W → ℕ × W
  pub requested_reason : W → Option CancelReason × W
  pub emit : Masked Event → W → Result (Unit {0}) × W
  pub resolve_secret : SecretSource → W → Result Text × W
  pub next_masker_id : W → ℕ × W
  pub render : Message → Text
  pub json : Serializer
  pub to_value : RunError → Value
  pub value_eq : Value → Value → Bool

-- What the sink was handed, and the secrets that the call which did so had resolved by then.
pub record Emission : Type 0 where
  pub known : List Text
  pub event : Masked Event

pub record Session (W : Type 0) : Type 0 where
  pub world : W
  pub masker : Masker
  pub resolved_secrets : List Text
  pub emitted : List Emission

abbrev pub Run : Type 0 → Type 0 → Type 0
Run W A = Session W → Result A × Session W

module _ {W : Type 0} where
  abbrev pub continue : {A B : Type 0} → (A → Run W B) → Result A × Session W → Result B × Session W
  continue f (ok a, s) = f a s
  continue f (err e, s) = (err e, s)
  continue f (panic, s) = (panic, s)

  infixl 5 ◌>>=◌
  unfoldable pub ◌>>=◌ : {A B : Type 0} → Run W A → (A → Run W B) → Run W B
  m >>= f = λ s. continue f (m s)

  unfoldable pub pure : {A : Type 0} → A → Run W A
  pure a = λ s. (ok a, s)

  unfoldable pub lift : {A : Type 0} → Result A → Run W A
  lift r = λ s. (r, s)

  abbrev pub caught : {A : Type 0} → Result A × Session W → Result (Result A) × Session W
  caught (panic, s) = (panic, s)
  caught (ok a, s) = (ok (ok a), s)
  caught (err e, s) = (ok (err e), s)

  -- The result of a call as a value, for a `match` on it.
  unfoldable pub attempt : {A : Type 0} → Run W A → Run W (Result A)
  attempt m = λ s. caught (m s)

  -- A call of a port.
  unfoldable pub ask : {A : Type 0} → (W → A × W) → Run W A
  ask port = λ s. let (a, w) = port s.world in (ok a, record s { world = w })

  unfoldable pub hand_over : Ports W → Masked Event → Run W (Unit {0})
  hand_over ports sealed = λ s.
      let (r, w) = ports.emit sealed s.world in
      let emission : Emission = record { known = s.resolved_secrets; event = sealed } in
      (r, record s { world = w; emitted = s.emitted ++ emission ∷ [] })

  unfoldable pub sealed_event : Ports W → Event → Run W (Masked Event)
  sealed_event ports event =
      λ s. (assert_ready s.masker s.resolved_secrets >> redact_event ports.render s.masker event, s)

  unfoldable pub emit_event : Ports W → Event → Run W (Unit {0})
  emit_event ports event = sealed_event ports event >>= hand_over ports
