-- ===== src/Runner/Names.antt =====
-- `validate_task_names` of runner.rs, and what it lets through.
use tmx.Base.{
  ◌+◌, ◌≡◌, refl, ◌≢◌, ◌↔◌, Bool, true, false, not, ◌&&◌, Option, none, some, List, [], ◌∷◌, arith,
  Text, bytes, text_eq, text_eq_iff, length, is_empty, any, all, map, ltb, leb, ◌==◌, if◌then◌else◌,
  length-map, Bool-cases, inl, inr,
}
use tmx.Limits.{tasks_per_flow_max}
use tmx.Error.{
  Result, ok, err, panic, RunError, validation_error, plain, format, num, text, assert, ◌>>=◌,
}
use tmx.Flow.{Task, ResolvedFlow}

-- `task.name.as_deref().unwrap_or("")`
abbrev pub name_or_empty : Option Text → Text
name_or_empty none = []
name_or_empty (some n) = n

abbrev pub name_of : Task → Text
name_of t = name_or_empty t.name

abbrev pub has_name : List Text → Text → Bool
has_name names n = any (λ m. text_eq m n) names

abbrev pub too_many_tasks : RunError
too_many_tasks =
    validation_error "too_many_tasks"
      (format "a flow may hold at most {TASKS_PER_FLOW_MAX} tasks" (num tasks_per_flow_max ∷ []))

abbrev pub missing_task_name : RunError
missing_task_name =
    validation_error "missing_task_name"
      (plain (bytes "every task must have a non-empty name before the run"))

abbrev pub duplicate_task_name : Text → RunError
duplicate_task_name n =
    validation_error "duplicate_task_name" (format "duplicate task name {name:?}" (text n ∷ []))

-- The loop over the names; `seen` is the hash set, which it gives back.
unfoldable pub check_names : List Text → List Text → Result (List Text)
check_names [] seen = ok seen
check_names (n ∷ ns) seen =
    let rest = check_names ns (n ∷ seen) in
    if is_empty n
    then err missing_task_name
    else if has_name seen n
    then err (duplicate_task_name n)
    else rest

unfoldable pub validate_task_names : ResolvedFlow → Result (Unit {0})
validate_task_names flow =
    if ltb tasks_per_flow_max (length flow.tasks) then err too_many_tasks else (do
      seen ← check_names (map name_of flow.tasks) []
      assert (length seen == length flow.tasks))

abbrev pub distinct : List Text → Bool
distinct [] = true
distinct (n ∷ ns) = not (has_name ns n) && distinct ns

-- What the runner relies on: at most as many tasks as the cap, all named, no name twice.
unfoldable pub well_named : List Task → Bool
well_named ts =
    leb (length ts) tasks_per_flow_max
    && all (λ n. not (is_empty n)) (map name_of ts)
    && distinct (map name_of ts)

-- None of the names is among the seen ones.
abbrev pub fresh : List Text → List Text → Bool
fresh seen ns = all (λ m. not (has_name seen m)) ns

pub fresh-cons :
    (n : Text) (seen ns : List Text) → fresh (n ∷ seen) ns ≡ (not (has_name ns n) && fresh seen ns)
fresh-cons n seen [] = refl
fresh-cons n seen (m ∷ ns) = ground (arith, fresh-cons n seen ns, text_eq_iff n m, text_eq_iff m n)

pub fresh-nil : (ns : List Text) → fresh [] ns ≡ true
fresh-nil [] = refl
fresh-nil (n ∷ ns) = fresh-nil ns

abbrev pub acceptable : List Text → List Text → Bool
acceptable seen ns = all (λ n. not (is_empty n)) ns && distinct ns && fresh seen ns

check_names-accepts :
    (ns seen : List Text)
    → acceptable seen ns ≡ true
    → (out : List Text) × (check_names ns seen ≡ ok out) × (length out ≡ length ns + length seen)
unfolding check_names
check_names-accepts [] seen h = (seen, refl, omega arith)
check_names-accepts (n ∷ ns) seen h =
    let (out, is, len) = check_names-accepts ns (n ∷ seen) (ground (arith, fresh-cons n seen ns)) in
    (out, ground (arith, is), omega (arith, len))

check_names-rejects :
    (ns seen : List Text)
    → acceptable seen ns ≡ false
    → (e : RunError) × (check_names ns seen ≡ err e)
unfolding check_names
check_names-rejects [] seen h = absurd cc
check_names-rejects (n ∷ ns) seen h = elim (Bool-cases (is_empty n)) [
  | inl e ↦ (missing_task_name, ground (arith, e))
  | inr e ↦ elim (Bool-cases (has_name seen n)) [
    | inl f ↦ (duplicate_task_name n, ground (arith, e, f))
    | inr f ↦
        let (x, is) =
          check_names-rejects ns (n ∷ seen) (ground (arith, e, f, fresh-cons n seen ns)) in
        (x, ground (arith, e, f, is))
  ]
]

-- A flow passes exactly if it is well named, and else the validation ends with an error; its backstop
-- never fails.
pub validate_task_names_lem :
    (flow : ResolvedFlow)
    → ((validate_task_names flow ≡ ok tt) ↔ (well_named flow.tasks ≡ true))
      × (validate_task_names flow ≢ panic)
unfolding validate_task_names well_named
validate_task_names_lem flow =
    let names = map name_of flow.tasks in
    elim (Bool-cases (acceptable [] names)) [
      | inl e ↦
          let (out, is, len) = check_names-accepts names [] e in
          ground (arith, e, is, len, length-map flow.tasks name_of)
      | inr e ↦
          let (x, is) = check_names-rejects names [] e in ground (arith, e, is, fresh-nil names)
    ]
