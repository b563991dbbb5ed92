-- ===== src/Runner/Slice.antt =====
-- The slicing of a flow (runner.rs): `TaskSlice`, `slice_tasks` and `flow_has_map`.
pub mod Laws
use tmx.Base.{
  ℕ, zero, suc, ◌+◌, ◌-◌, Bool, true, false, not, ◌&&◌, ◌||◌, Option, none, some, List, [], ◌∷◌,
  ◌++◌, Text, text_eq, length, is_empty, any, filter, leb, if◌then◌else◌,
}
use tmx.Error.{Result, ok, err, RunError, validation_error, format, text}
use tmx.Flow.{Task, TaskWith, ResolvedFlow}
use tmx.Runner.Names.{name_of, has_name}

pub record TaskSlice : Type 0 where
  pub from : Option Text
  pub until : Option Text
  pub only : List Text
  pub skip : List Text

abbrev pub is_none : {A : Type 0} → Option A → Bool
is_none none = true
is_none (some a) = false

unfoldable pub is_noop : TaskSlice → Bool
is_noop s = is_none s.from && is_none s.until && is_empty s.only && is_empty s.skip

abbrev pub cons_some {ℓ} : {A : Type ℓ} → Option A → List A → List A
cons_some none xs = xs
cons_some (some x) xs = x ∷ xs

-- The names that the tasks declare, as the hash set's members.
abbrev pub declared_names : List Task → List Text
declared_names [] = []
declared_names (t ∷ ts) = cons_some t.name (declared_names ts)

abbrev pub referenced : TaskSlice → List Text
referenced s = cons_some s.from (cons_some s.until (s.only ++ s.skip))

abbrev pub unknown_task : Text → RunError
unknown_task name =
    validation_error "unknown_task"
      (format "--only/--skip/--from/--until names unknown task {referenced:?}" (text name ∷ []))

-- The first of the names that no task declares.
abbrev pub first_unknown : List Text → List Text → Option Text
first_unknown names [] = none
first_unknown names (r ∷ rs) =
    let rest = first_unknown names rs in if has_name names r then rest else some r

-- `t.name.as_deref() == Some(name)`
abbrev pub is_named : Text → Task → Bool
is_named n t = any (λ m. text_eq m n) (cons_some t.name [])

abbrev pub next_index : Option ℕ → Option ℕ
next_index none = none
next_index (some i) = some (suc i)

-- `iter().position`
abbrev pub position : Text → List Task → Option ℕ
position n [] = none
position n (t ∷ ts) = let rest = next_index (position n ts) in if is_named n t then some 0 else rest

abbrev pub from_index : Option Text → List Task → Option ℕ
from_index none ts = some 0
from_index (some n) ts = position n ts

abbrev pub until_index : Option Text → List Task → Option ℕ
until_index none ts = some (length ts - 1)
until_index (some n) ts = position n ts

-- The first and the last index; a name without one gives the empty range.
abbrev pub index_range : Option ℕ → Option ℕ → ℕ × ℕ
index_range (some lo) (some hi) = (lo, hi)
index_range _ _ = (1, 0)

-- The tasks with an index in the range, the first of them at `index`.
abbrev pub in_range : ℕ → ℕ → ℕ → List Task → List Task
in_range lo hi index [] = []
in_range lo hi index (t ∷ ts) =
    let rest = in_range lo hi (suc index) ts in
    if leb lo index && leb index hi then t ∷ rest else rest

abbrev pub is_kept : TaskSlice → Task → Bool
is_kept s t = (is_empty s.only || has_name s.only (name_of t)) && not (has_name s.skip (name_of t))

unfoldable pub selected : List Task → TaskSlice → List Task
selected ts s =
    let (lo, hi) = index_range (from_index s.from ts) (until_index s.until ts) in
    filter (is_kept s) (in_range lo hi 0 ts)

unfoldable pub slice_tasks : ResolvedFlow → TaskSlice → Result ResolvedFlow
unfolding is_noop
slice_tasks flow s =
    if is_noop s then ok flow else elim (first_unknown (declared_names flow.tasks) (referenced s)) [
      | some name ↦ err (unknown_task name)
      | none ↦ ok (record flow { tasks = selected flow.tasks s })
    ]

abbrev pub is_map : TaskWith → Bool
is_map (TaskWith.map w t) = true
is_map _ = false

unfoldable pub flow_has_map : ResolvedFlow → Bool
flow_has_map flow = any (λ t. is_map t.with) flow.tasks
