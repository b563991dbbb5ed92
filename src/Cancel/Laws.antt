-- ===== src/Cancel/Laws.antt =====
-- The token's two phases: the first reason wins, and hard implies requested.
use tmx.Base.{◌≡◌, ◌↔◌, refl, true, none, some, List, [], ◌∷◌, arith}
use tmx.Model.{is_terminal}
use tmx.Error.{RunError}
use tmx.Cancel.{
  CancelReason, timeout, interrupt, to_status, to_error, reason_of_category, cancel_reason_of,
  Shared, Op, requests, hard_cancels, registers, apply, apply_all,
}

-- What was requested stays, and what was hard-cancelled stays: the first reason wins for each.
pub record Follows (s t : Shared) : Type 0 where
  pub requested : (r : CancelReason) → s.requested ≡ some r → t.requested ≡ some r
  pub hard : (r : CancelReason) → s.hard ≡ some r → t.hard ≡ some r

Follows-refl : (s : Shared) → Follows s s
Follows-refl s = record { requested = λ r h. h; hard = λ r h. h }

Follows-trans : {s t u : Shared} → Follows s t → Follows t u → Follows s u
Follows-trans f g = record {
  requested = λ r h. g.requested r (f.requested r h);
  hard = λ r h. g.hard r (f.hard r h);
}

Follows-apply : (op : Op) (s : Shared) → Follows s (apply op s).0
unfolding apply
Follows-apply (requests x) s = record { requested = λ r h. ground arith; hard = λ r h. h }
Follows-apply (hard_cancels x) s = record {
  requested = λ r h. ground arith;
  hard = λ r h. ground arith;
}
Follows-apply (registers w) s = record {
  requested = λ r h. ground arith;
  hard = λ r h. ground arith;
}

-- Over any sequence of operations of any holders, the reason that was first requested stays the
-- requested one, and the reason of the first hard cancellation stays the hard one.
pub apply_all-Follows : (ops : List Op) (s : Shared) → Follows s (apply_all ops s).0
unfolding apply_all
apply_all-Follows [] s = Follows-refl s
apply_all-Follows (op ∷ ops) s =
    Follows-trans (Follows-apply op s) (apply_all-Follows ops (apply op s).0)

-- A hard-cancelled token is requested too, and no waker is parked on it.
pub record IsSound (s : Shared) : Type 0 where
  pub escalated : s.requested ≡ none → s.hard ≡ none
  pub drained : (r : CancelReason) → s.hard ≡ some r → s.wakers ≡ []

IsSound-apply : (op : Op) (s : Shared) → IsSound s → IsSound (apply op s).0
unfolding apply
IsSound-apply (requests x) s v = record {
  escalated = λ h. ground arith;
  drained = λ r h. v.drained r h;
}
IsSound-apply (hard_cancels x) s v = record { escalated = λ h. ground arith; drained = λ r h. refl }
IsSound-apply (registers w) s v = record {
  escalated = λ h. ground (arith, v.escalated);
  drained = λ r h. ground (arith, v.drained r);
}

-- From a fresh token, whatever its holders do: no hard cancellation without a request, and no waker
-- stays parked once hard cancellation has fired.
pub apply_all-IsSound : (ops : List Op) (s : Shared) → IsSound s → IsSound (apply_all ops s).0
unfolding apply_all
apply_all-IsSound [] s v = v
apply_all-IsSound (op ∷ ops) s v = apply_all-IsSound ops (apply op s).0 (IsSound-apply op s v)

-- The error of a cancellation is read back as its reason, its status is terminal, and no error of
-- another category is taken for a cancellation.
pub cancel_reason_of-to_error :
    (e : RunError) (r : CancelReason)
    → (cancel_reason_of (to_error r) ≡ some r)
      × (is_terminal (to_status r) ≡ true)
      × ((cancel_reason_of e ≡ some r) ↔ (e.category ≡ (to_error r).category))
unfolding cancel_reason_of to_error to_status is_terminal reason_of_category
cancel_reason_of-to_error e timeout = (refl, refl, ground arith)
cancel_reason_of-to_error e interrupt = (refl, refl, ground arith)
