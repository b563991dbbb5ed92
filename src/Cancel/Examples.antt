-- ===== src/Cancel/Examples.antt =====
-- The token at concrete sequences of operations.
use tmx.Base.{ℕ, ◌≡◌, ◌↔◌, refl, true, none, some, List, [], ◌∷◌}
use tmx.Model.{is_terminal}
use tmx.Error.{run_failure_error, format, ok, err}
use tmx.Cancel.{
  timeout, interrupt, to_error, to_status, cancel_reason_of, Shared, new, request, hard_cancel,
  register, Op, requests, hard_cancels, registers, apply, apply_all, ready, pending, recheck,
  poll_guard,
}
use tmx.Cancel.Laws.{
  Follows, IsSound, apply_all-Follows, apply_all-IsSound, cancel_reason_of-to_error,
}
use tmx.Cancel.Wakeups.{parked, poll_guard-parked, hard_cancel-wakes}

abbrev script : List Op
script = registers 1 ∷ requests interrupt ∷ registers 2 ∷ hard_cancels timeout ∷ registers 3 ∷ []

script_runs :
    apply_all script new
    ≡ (record { requested = some interrupt; hard = some timeout; wakers = [] }, 1 ∷ 2 ∷ 3 ∷ [])
unfolding apply_all apply request hard_cancel register
script_runs = refl

apply_all-Follows_example : Follows new (apply_all script new).0
apply_all-Follows_example = apply_all-Follows script new

apply_all-IsSound_example : IsSound (apply_all script new).0
apply_all-IsSound_example =
    apply_all-IsSound script new (record { escalated = λ h. refl; drained = λ r h. refl })

poll_guard-parked_example :
    ((poll_guard {A = ℕ} 7 pending (requests timeout ∷ []) (registers 8 ∷ []) new).1.hard ≡ none)
    × (parked 7
          (poll_guard {A = ℕ} 7 pending (requests timeout ∷ []) (registers 8 ∷ []) new).1.wakers
        ≡ true)
unfolding poll_guard apply_all apply request register recheck
poll_guard-parked_example =
    poll_guard-parked {A = ℕ} 7 pending (requests timeout ∷ []) (registers 8 ∷ []) new refl

abbrev waiting : Shared
waiting = record { requested = none; hard = none; wakers = 7 ∷ 8 ∷ [] }

hard_cancel-wakes_example :
    (parked 7 (hard_cancel interrupt waiting).1 ≡ true)
    × ((poll_guard {A = ℕ} 7
          (ready (ok 5))
          []
          []
          (apply_all script (hard_cancel interrupt waiting).0).0).0
        ≡ ready (err (to_error interrupt)))
hard_cancel-wakes_example =
    hard_cancel-wakes {A = ℕ} 7 (ready (ok 5)) [] [] script waiting interrupt refl refl

cancel_reason_of-to_error_example :
    (cancel_reason_of (to_error timeout) ≡ some timeout)
    × (is_terminal (to_status timeout) ≡ true)
    × ((cancel_reason_of (run_failure_error "x" (format "y" [])) ≡ some timeout)
        ↔ ((run_failure_error "x" (format "y" [])).category ≡ (to_error timeout).category))
cancel_reason_of-to_error_example =
    cancel_reason_of-to_error (run_failure_error "x" (format "y" [])) timeout
