-- ===== src/Runner/Hoare.antt =====
-- Reasoning about calls: an invariant of the session that a call keeps, whatever its result, together
-- with what its value satisfies, without a panic.
use tmx.Base.{refl, ◌≢◌, ◌≡◌, Bool, true, false}
use tmx.Error.{RunError, reject_if, Result, ok, err, panic, assert}
use tmx.Runner.Session.{Session, Run, pure, lift, attempt, ask, caught, continue, ◌>>=◌}

-- A value satisfies the predicate, an error may be any, and there is no panic.
unfoldable pub Holds : {A : Type 0} → (A → Type 0) → Result A → Type 0
Holds P (ok a) = P a
Holds P (err e) = Unit
Holds P panic = ⊥

pub no_panic_lem : {A : Type 0} (r : Result A) → r ≢ panic → Holds (λ _. Unit) r
unfolding Holds
no_panic_lem (ok a) h = tt
no_panic_lem (err e) h = tt
no_panic_lem panic h = h refl

pub reject_if_lem : (b : Bool) (e : RunError) → Holds (λ _. b ≡ false) (reject_if b e)
unfolding Holds
reject_if_lem true e = tt
reject_if_lem false e = refl

unfoldable pub Post :
    {W A : Type 0} → (Session W → Type 0) → (A → Type 0) → Result A × Session W → Type 0
Post I P (r, s) = I s × Holds P r

unfoldable pub Keeps : {W A : Type 0} → (Session W → Type 0) → (A → Type 0) → Run W A → Type 0
Keeps I P m = (s : Session _) → I s → Post I P (m s)

module _ {W : Type 0} (I : Session W → Type 0) where
  pub continue-Post :
      {A B : Type 0} (P : A → Type 0) (Q : B → Type 0) (f : A → Run W B) (x : Result A × Session W)
      → Post I P x
      → ((a : A) → P a → Keeps I Q (f a))
      → Post I Q (continue f x)
  unfolding Post Holds Keeps
  continue-Post P Q f (ok a, s) (i, p) k = k a p s i
  continue-Post P Q f (err e, s) (i, p) k = (i, tt)
  continue-Post P Q f (panic, s) (i, p) k = absurd p

  pub bind-Keeps :
      {A B : Type 0} (P : A → Type 0) (Q : B → Type 0) (m : Run W A) (f : A → Run W B)
      → Keeps I P m
      → ((a : A) → P a → Keeps I Q (f a))
      → Keeps I Q (m >>= f)
  unfolding Keeps ◌>>=◌
  bind-Keeps P Q m f h k = λ s i. continue-Post P Q f (m s) (h s i) k

  pub pure-Keeps : {A : Type 0} (P : A → Type 0) (a : A) → P a → Keeps I P (pure a)
  unfolding Keeps Post Holds pure
  pure-Keeps P a p = λ s i. (i, p)

  pub assert-Keeps : (b : Bool) → b ≡ true → Keeps I (λ _. Unit) (lift (assert b))
  unfolding Keeps Post Holds lift
  assert-Keeps true h = λ s i. (i, tt)
  assert-Keeps false h = absurd cc

  pub caught-Post :
      {A : Type 0} (P : A → Type 0) (x : Result A × Session W)
      → Post I P x
      → Post I (Holds P) (caught x)
  unfolding Post Holds
  caught-Post P (ok a, s) h = h
  caught-Post P (err e, s) h = h
  caught-Post P (panic, s) (i, p) = absurd p

  pub attempt-Keeps :
      {A : Type 0} (P : A → Type 0) (m : Run W A) → Keeps I P m → Keeps I (Holds P) (attempt m)
  unfolding Keeps attempt
  attempt-Keeps P m h = λ s i. caught-Post P (m s) (h s i)

  pub ask-Keeps :
      {A : Type 0} (port : W → A × W)
      → ((s : Session W) (w : W) → I s → I (record s { world = w }))
      → Keeps I (λ _. Unit) (ask port)
  unfolding Keeps Post Holds ask
  ask-Keeps port h = λ s i. (h s (port s.world).1 i, tt)

  weaken-Post :
      {A : Type 0} (P Q : A → Type 0) (x : Result A × Session W)
      → ((a : A) → P a → Q a)
      → Post I P x
      → Post I Q x
  unfolding Post Holds
  weaken-Post P Q (ok a, s) k (i, h) = (i, k a h)
  weaken-Post P Q (err e, s) k h = h
  weaken-Post P Q (panic, s) k h = h

  pub weaken-Keeps :
      {A : Type 0} (P Q : A → Type 0) (m : Run W A)
      → ((a : A) → P a → Q a)
      → Keeps I P m
      → Keeps I Q m
  unfolding Keeps
  weaken-Keeps P Q m k h = λ s i. weaken-Post P Q (m s) k (h s i)

  pub lift-Keeps : {A : Type 0} (P : A → Type 0) (r : Result A) → Holds P r → Keeps I P (lift r)
  unfolding Keeps Post lift
  lift-Keeps P r h = λ s i. (i, h)
