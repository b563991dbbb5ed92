-- ===== src/Runner/Slice/Laws.antt =====
-- Slicing by indices, against the slicing of a list at the tasks themselves.
use tmx.Base.{
  ℕ, suc, ◌+◌, ◌-◌, ◌≤◌, ◌<◌, ◌≡◌, refl, ap, ◌∙◌, Bool, true, false, ◌&&◌, Option, none, some, List,
  [], ◌∷◌, ◌++◌, arith, Text, length, is_empty, all, filter, leb, if◌then◌else◌, Bool-cases,
  Option-cases, inl, inr,
}
use tmx.Error.{ok, err}
use tmx.Flow.{Task, ResolvedFlow}
use tmx.Runner.Names.{has_name}
use tmx.Runner.Slice.{
  TaskSlice, is_none, is_noop, cons_some, declared_names, referenced, unknown_task, first_unknown,
  is_named, position, from_index, until_index, index_range, in_range, is_kept, selected,
  slice_tasks,
}

-- The tasks from the first of that name on, and those up to the first of that name, with it.
abbrev pub starting_at : Text → List Task → List Task
starting_at n [] = []
starting_at n (t ∷ ts) = let rest = starting_at n ts in if is_named n t then t ∷ ts else rest

abbrev pub ending_at : Text → List Task → List Task
ending_at n [] = []
ending_at n (t ∷ ts) = let rest = ending_at n ts in if is_named n t then t ∷ [] else t ∷ rest

abbrev pub starting : Option Text → List Task → List Task
starting none ts = ts
starting (some n) ts = starting_at n ts

abbrev pub ending : Option Text → List Task → List Task
ending none ts = ts
ending (some n) ts = ending_at n ts

abbrev from_on : ℕ → ℕ → List Task → List Task
from_on lo i [] = []
from_on lo i (t ∷ ts) = let rest = from_on lo (suc i) ts in if leb lo i then t ∷ rest else rest

in_range-past : (lo hi i : ℕ) (ts : List Task) → hi < i → in_range lo hi i ts ≡ []
in_range-past lo hi i [] h = refl
in_range-past lo hi i (t ∷ ts) h = ground (arith, in_range-past lo hi (suc i) ts)

in_range-whole :
    (lo hi i : ℕ) (ts : List Task) → length ts + i ≤ hi + 1 → in_range lo hi i ts ≡ from_on lo i ts
in_range-whole lo hi i [] h = refl
in_range-whole lo hi i (t ∷ ts) h = ground (arith, in_range-whole lo hi (suc i) ts)

position_later :
    (n : Text) (t : Task) (ts : List Task) (k : ℕ)
    → is_named n t ≡ false
    → position n (t ∷ ts) ≡ some k
    → (j : ℕ) × (position n ts ≡ some j) × (k ≡ suc j)
position_later n t ts k there h = elim (Option-cases (position n ts)) [
  | inl gone ↦ absurd (ground (arith, there, gone))
  | inr (j, at) ↦ (j, at, ground (arith, there, at))
]

in_range-ending_at :
    (n : Text) (lo hi i k : ℕ) (ts : List Task)
    → position n ts ≡ some k
    → hi ≡ k + i
    → in_range lo hi i ts ≡ from_on lo i (ending_at n ts)
in_range-ending_at n lo hi i k [] h e = absurd cc
in_range-ending_at n lo hi i k (t ∷ ts) h e = elim (Bool-cases (is_named n t)) [
  | inl here ↦ ground (arith, here, in_range-past lo hi (suc i) ts)
  | inr there ↦
      let (j, at, later) = position_later n t ts k there h in
      ground (arith, there, in_range-ending_at n lo hi (suc i) j ts at (omega arith))
]

from_on-all : (lo i : ℕ) (ts : List Task) → lo ≤ i → from_on lo i ts ≡ ts
from_on-all lo i [] h = refl
from_on-all lo i (t ∷ ts) h = ground (arith, from_on-all lo (suc i) ts)

from_on-starting_at :
    (n : Text) (lo i k : ℕ) (ts : List Task)
    → position n ts ≡ some k
    → lo ≡ k + i
    → from_on lo i ts ≡ starting_at n ts
from_on-starting_at n lo i k [] h e = absurd cc
from_on-starting_at n lo i k (t ∷ ts) h e = elim (Bool-cases (is_named n t)) [
  | inl here ↦ ground (arith, here, from_on-all lo (suc i) ts)
  | inr there ↦
      let (j, at, later) = position_later n t ts k there h in
      ground (arith, there, from_on-starting_at n lo (suc i) j ts at (omega arith))
]

from_on-ending_at :
    (n m : Text) (lo i k : ℕ) (ts : List Task)
    → position n ts ≡ some k
    → lo ≡ k + i
    → from_on lo i (ending_at m ts) ≡ starting_at n (ending_at m ts)
from_on-ending_at n m lo i k [] h e = absurd cc
from_on-ending_at n m lo i k (t ∷ ts) h e = elim (Bool-cases (is_named n t)) [
  | inl here ↦ ground (arith, here, from_on-all lo (suc i) (ending_at m ts))
  | inr there ↦
      let (j, at, later) = position_later n t ts k there h in
      ground (arith, there, from_on-ending_at n m lo (suc i) j ts at (omega arith))
]

has_name-position :
    (n : Text) (ts : List Task)
    → has_name (declared_names ts) n ≡ true
    → (k : ℕ) × (position n ts ≡ some k)
has_name-position n [] h = absurd cc
has_name-position n (t ∷ ts) h = elim (Bool-cases (is_named n t)) [
  | inl here ↦ (0, ground (arith, here))
  | inr there ↦ elim (Option-cases t.name) [
    | inl e ↦
        let (k, is) = has_name-position n ts (ground (arith, e)) in (suc k, ground (arith, is))
    | inr (m, e) ↦
        let (k, is) = has_name-position n ts (ground (arith, e)) in (suc k, ground (arith, is))
  ]
]

-- Every name that the slice mentions is one that a task declares.
unfoldable pub all_declared : ResolvedFlow → TaskSlice → Bool
all_declared flow s = all (has_name (declared_names flow.tasks)) (referenced s)

first_unknown-none :
    (names refs : List Text) → all (has_name names) refs ≡ true → first_unknown names refs ≡ none
first_unknown-none names [] h = refl
first_unknown-none names (r ∷ rs) h = ground (arith, first_unknown-none names rs)

first_unknown-some :
    (names refs : List Text)
    → all (has_name names) refs ≡ false
    → (r : Text) × (first_unknown names refs ≡ some r) × (has_name names r ≡ false)
first_unknown-some names [] h = absurd cc
first_unknown-some names (r ∷ rs) h = elim (Bool-cases (has_name names r)) [
  | inl e ↦
      let (x, is, gone) = first_unknown-some names rs (ground (arith, e)) in
      (x, ground (arith, is, e), gone)
  | inr e ↦ (r, ground (arith, e), e)
]

abbrev window : Option Text → Option Text → List Task → List Task
window f u ts =
    let (lo, hi) = index_range (from_index f ts) (until_index u ts) in in_range lo hi 0 ts

IsDeclared : Option Text → List Task → Type 0
IsDeclared none ts = Unit
IsDeclared (some n) ts = (k : ℕ) × (position n ts ≡ some k)

window_lem :
    (f u : Option Text) (ts : List Task)
    → IsDeclared f ts
    → IsDeclared u ts
    → window f u ts ≡ starting f (ending u ts)
unfolding IsDeclared
window_lem none none ts d e =
    in_range-whole 0 (length ts - 1) 0 ts (omega arith) ∙ from_on-all 0 0 ts (omega arith)
window_lem none (some m) ts d (h, at) =
    ground (arith, at, in_range-ending_at m 0 h 0 h ts at, from_on-all 0 0 (ending_at m ts))
window_lem (some n) none ts (l, at) e = ground (
  arith,
  at,
  in_range-whole l (length ts - 1) 0 ts (omega arith),
  from_on-starting_at n l 0 l ts at,
)
window_lem (some n) (some m) ts (l, at) (h, till) =
    ground
      (arith, at, till, in_range-ending_at m l h 0 h ts till, from_on-ending_at n m l 0 l ts at)

cons_some-IsDeclared :
    (o : Option Text) (ts : List Task)
    → all (has_name (declared_names ts)) (cons_some o []) ≡ true
    → IsDeclared o ts
unfolding IsDeclared
cons_some-IsDeclared none ts h = tt
cons_some-IsDeclared (some n) ts h = has_name-position n ts (ground arith)

filter_all : (p : Task → Bool) (ts : List Task) → ((t : Task) → p t ≡ true) → filter p ts ≡ ts
filter_all p [] h = refl
filter_all p (t ∷ ts) h = ground (arith, filter_all p ts h, h t)

refs_declared :
    (p : Text → Bool) (f u : Option Text) (rest : List Text)
    → all p (cons_some f (cons_some u rest)) ≡ true
    → (all p (cons_some f []) ≡ true) × (all p (cons_some u []) ≡ true)
refs_declared p none none rest h = (refl, refl)
refs_declared p none (some m) rest h = (refl, ground arith)
refs_declared p (some n) none rest h = (ground arith, refl)
refs_declared p (some n) (some m) rest h = (ground arith, ground arith)

noop_fields :
    (f u : Option Text) (only skip : List Text) (ts : List Task)
    → (is_none f && is_none u && is_empty only && is_empty skip) ≡ true
    → let s : TaskSlice = record { from = f; until = u; only = only; skip = skip } in
      filter (is_kept s) (starting f (ending u ts)) ≡ ts
noop_fields none none [] [] ts h = filter_all _ ts (λ t. refl)
noop_fields (some n) u only skip ts h = absurd cc
noop_fields none (some m) only skip ts h = absurd cc
noop_fields none none (x ∷ only) skip ts h = absurd cc
noop_fields none none [] (x ∷ skip) ts h = absurd cc

noop_lem :
    (s : TaskSlice) (ts : List Task)
    → is_noop s ≡ true
    → filter (is_kept s) (starting s.from (ending s.until ts)) ≡ ts
unfolding is_noop
noop_lem s ts h = noop_fields s.from s.until s.only s.skip ts h

selected_lem :
    (flow : ResolvedFlow) (s : TaskSlice)
    → all_declared flow s ≡ true
    → selected flow.tasks s ≡ filter (is_kept s) (starting s.from (ending s.until flow.tasks))
unfolding selected all_declared
selected_lem flow s h =
    let there = refs_declared (has_name (declared_names flow.tasks)) s.from s.until in
    let (f, u) = there (s.only ++ s.skip) h in
    ap (filter (is_kept s)) (
      window_lem s.from s.until flow.tasks (cons_some-IsDeclared s.from flow.tasks f)
        (cons_some-IsDeclared s.until flow.tasks u))

-- Where every name that a slice mentions is declared, slicing gives the flow with, in their order, the
-- tasks from the `from` task on and up to the `until` task that `only` and `skip` keep, and
-- changes nothing else.
pub slice_tasks_lem :
    (flow : ResolvedFlow) (s : TaskSlice)
    → all_declared flow s ≡ true
    → slice_tasks flow s
      ≡ ok
          (record flow { tasks = filter (is_kept s) (starting s.from (ending s.until flow.tasks)) })
unfolding slice_tasks all_declared
slice_tasks_lem flow s h = elim (Bool-cases (is_noop s)) [
  | inl e ↦ let same = noop_lem s flow.tasks e in ground (arith, e, same)
  | inr e ↦
      let known = first_unknown-none (declared_names flow.tasks) (referenced s) h in
      ground (arith, e, known, selected_lem flow s h)
]

-- Where a slice mentions a name that no task declares, slicing fails with unknown_task on such a name.
pub slice_tasks-unknown :
    (flow : ResolvedFlow) (s : TaskSlice)
    → all_declared flow s ≡ false
    → (name : Text) × (slice_tasks flow s ≡ err (unknown_task name))
      × (has_name (declared_names flow.tasks) name ≡ false)
unfolding slice_tasks all_declared is_noop
slice_tasks-unknown flow s h =
    let (name, is, gone) = first_unknown-some (declared_names flow.tasks) (referenced s) h in
    (name, ground (arith, is), gone)
