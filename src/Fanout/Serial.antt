-- ===== src/Fanout/Serial.antt =====
-- The serial scheduler (crates/tmx-adapters/src/scheduler.rs): `SerialScheduler::run_indexed`.
use tmx.Base.{
  ℕ, zero, suc, ◌+◌, ◌≤◌, ◌<◌, ◌≡◌, ◌≢◌, refl, true, List, [], ◌∷◌, arith, All, length, leb, ◌==◌,
  ==_iff,
}
use tmx.Limits.{concurrency_max}
use tmx.Json.{Value}
use tmx.Error.{Result, ok, err, panic, assert}
use tmx.Runner.Session.{Session, Run, pure, lift, attempt, ◌>>=◌}
use tmx.Runner.Hoare.{Holds, Keeps, bind-Keeps, pure-Keeps, assert-Keeps, attempt-Keeps}

Holds-no_panic : (r : Result Value) → Holds (λ _. Unit) r → r ≢ panic
unfolding Holds
Holds-no_panic (ok v) h e = absurd cc
Holds-no_panic (err x) h e = absurd cc
Holds-no_panic panic h e = h

leb-intro : (a b : ℕ) → a ≤ b → leb a b ≡ true
leb-intro a b h = ground (arith, h)

abbrev Filled : ℕ → List (Result Value) → Type 0
Filled n rs = (length rs ≡ n) × All (λ r. r ≢ panic) rs

module _ {W : Type 0} where
  -- The jobs from an index on, so many of them, one after the other.
  unfoldable pub run_from : ℕ → ℕ → ℕ → (ℕ → Run W Value) → Run W (List (Result Value))
  run_from index zero concurrency make = pure []
  run_from index (suc count) concurrency make = do
    _ ← lift (assert (leb 1 concurrency))
    r ← attempt (make index)
    rs ← run_from (index + 1) count concurrency make
    pure (r ∷ rs)

  unfoldable pub run_indexed : ℕ → ℕ → (ℕ → Run W Value) → Run W (List (Result Value))
  run_indexed count concurrency make = do
    _ ← lift (assert (leb 1 concurrency))
    _ ← lift (assert (leb concurrency concurrency_max))
    out ← run_from 0 count concurrency make
    _ ← lift (assert (length out == count))
    pure out

  module _ (I : Session W → Type 0) where
    run_from-Keeps :
        (index count concurrency : ℕ) (make : ℕ → Run W Value)
        → 1 ≤ concurrency
        → ((i : ℕ) → i < index + count → Keeps I (λ _. Unit) (make i))
        → Keeps I (Filled count) (run_from index count concurrency make)
    unfolding run_from
    run_from-Keeps index zero concurrency make low jobs = pure-Keeps I _ [] (refl, tt)
    run_from-Keeps index (suc count) concurrency make low jobs =
        bind-Keeps I (λ _. Unit) _ _ _ (assert-Keeps I _ (leb-intro 1 concurrency low))
          (λ _ _. bind-Keeps I _ _ _ _ (attempt-Keeps I _ _ (jobs index (omega arith))) (λ r h.
            bind-Keeps I _ _ _ _
              (run_from-Keeps (index + 1) count concurrency make low
                (λ i b. jobs i (omega (arith, b))))
              (λ rs filled.
                pure-Keeps I _ _ (omega (arith, filled.0), (Holds-no_panic r h, filled.1)))))

    -- The contract of a scheduler
    pub run_indexed-Keeps :
        (count concurrency : ℕ) (make : ℕ → Run W Value)
        → 1 ≤ concurrency
        → concurrency ≤ concurrency_max
        → ((i : ℕ) → i < count → Keeps I (λ _. Unit) (make i))
        → Keeps I (Filled count) (run_indexed count concurrency make)
    unfolding run_indexed
    run_indexed-Keeps count concurrency make low high jobs =
        bind-Keeps I (λ _. Unit) _ _ _ (assert-Keeps I _ (leb-intro 1 concurrency low))
          (λ _ _.
            bind-Keeps I (λ _. Unit) _ _ _
              (assert-Keeps I _ (leb-intro concurrency concurrency_max high))
              (λ _ _.
                bind-Keeps I _ _ _ _
                  (run_from-Keeps 0 count concurrency make low (λ i b. jobs i (omega (arith, b))))
                  (λ out filled.
                    bind-Keeps I (λ _. Unit) _ _ _ (assert-Keeps I _ ((==_iff _ _).1 filled.0))
                      (λ _ _. pure-Keeps I _ out filled))))
