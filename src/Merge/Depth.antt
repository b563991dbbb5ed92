-- ===== src/Merge/Depth.antt =====
-- The depth check of a merge: the loop over an explicit stack against the recursive depth.
use tmx.Base.{
  ℕ, zero, suc, ◌+◌, ◌≤◌, ◌<◌, max, ◌≡◌, refl, Bool, true, ◌&&◌, some, [], ◌∷◌, arith, Text, leb,
  ltb, Bool-cases, inl, inr, if◌then◌else◌,
}
use tmx.Limits.{json_depth_max}
use tmx.Json.{Value, Items, Fields, null, array, object, no_items, item, no_fields, field}
use tmx.Json.Size.{depth, depth_items, depth_fields, nodes, nodes_items, nodes_fields}
use tmx.Error.{ok, err, RunError}
use tmx.Merge.{
  Stack, push_items, push_fields, push_children, scan_depth, check_merge_depth, json_too_deep,
}

-- A document whose root stands at level `d` stays within the cap.
abbrev pub fits : ℕ → ℕ → Bool
fits d h = leb (d + h) (json_depth_max + 1)

abbrev pub all_fit : Stack → Bool
all_fit [] = true
all_fit ((v, d) ∷ stack) = fits d (depth v) && all_fit stack

abbrev pub stack_nodes : Stack → ℕ
stack_nodes [] = 0
stack_nodes ((v, d) ∷ stack) = nodes v + stack_nodes stack

depth_pos : (v : Value) → 0 < depth v
unfolding depth
depth_pos null = omega arith
depth_pos _ = omega arith

nodes_pos : (v : Value) → 0 < nodes v
unfolding nodes
nodes_pos null = omega arith
nodes_pos _ = omega arith

fits-max : (d a b : ℕ) → fits d (max a b) ≡ (fits d a && fits d b)
fits-max d a b = ground arith

items_fit :
    (vs : Items) (d : ℕ) (stack : Stack)
    → d ≤ json_depth_max + 1
    → all_fit (push_items vs d stack) ≡ (fits d (depth_items vs) && all_fit stack)
unfolding depth
items_fit no_items d stack h = ground arith
items_fit (item v vs) d stack h =
    ground (arith, items_fit vs d ((v, d) ∷ stack) h, fits-max d (depth v) (depth_items vs))

fields_fit :
    (fs : Fields) (d : ℕ) (stack : Stack)
    → d ≤ json_depth_max + 1
    → all_fit (push_fields fs d stack) ≡ (fits d (depth_fields fs) && all_fit stack)
unfolding depth
fields_fit no_fields d stack h = ground arith
fields_fit (field k v fs) d stack h =
    ground (arith, fields_fit fs d ((v, d) ∷ stack) h, fits-max d (depth v) (depth_fields fs))

children_fit :
    (v : Value) (d : ℕ) (stack : Stack)
    → d ≤ json_depth_max
    → all_fit (push_children v (d + 1) stack) ≡ (fits d (depth v) && all_fit stack)
unfolding depth
children_fit (array vs) d stack h = ground (arith, items_fit vs (d + 1) stack (omega arith))
children_fit (object fs) d stack h = ground (arith, fields_fit fs (d + 1) stack (omega arith))
children_fit _ d stack h = ground arith

nodes-push_items :
    (vs : Items) (d : ℕ) (stack : Stack)
    → stack_nodes (push_items vs d stack) ≡ nodes_items vs + stack_nodes stack
unfolding nodes
nodes-push_items no_items d stack = omega arith
nodes-push_items (item v vs) d stack = omega (arith, nodes-push_items vs d ((v, d) ∷ stack))

nodes-push_fields :
    (fs : Fields) (d : ℕ) (stack : Stack)
    → stack_nodes (push_fields fs d stack) ≡ nodes_fields fs + stack_nodes stack
unfolding nodes
nodes-push_fields no_fields d stack = omega arith
nodes-push_fields (field k v fs) d stack = omega (arith, nodes-push_fields fs d ((v, d) ∷ stack))

nodes-push_children :
    (v : Value) (d : ℕ) (stack : Stack)
    → suc (stack_nodes (push_children v d stack)) ≡ nodes v + stack_nodes stack
unfolding nodes
nodes-push_children (array vs) d stack = omega (arith, nodes-push_items vs d stack)
nodes-push_children (object fs) d stack = omega (arith, nodes-push_fields fs d stack)
nodes-push_children _ d stack = omega arith

-- With a unit of fuel for each node on the stack and one more, the loop ends, and accepts exactly
-- the stacks on which every document fits.
pub scan_depth_lem :
    (fuel : ℕ) (e : RunError) (stack : Stack)
    → stack_nodes stack < fuel
    → scan_depth fuel e stack ≡ some (if all_fit stack then ok tt else err e)
unfolding scan_depth
scan_depth_lem zero e stack h = absurd (omega arith)
scan_depth_lem (suc fuel) e [] h = refl
scan_depth_lem (suc fuel) e ((v, d) ∷ stack) h = elim (Bool-cases (ltb json_depth_max d)) [
  | inl deep ↦ rw deep (ground (arith, depth_pos v))
  | inr shallow ↦ rw shallow (
      ground (
        arith,
        children_fit v d stack (ground arith),
        nodes-push_children v (d + 1) stack,
        scan_depth_lem fuel e (push_children v (d + 1) stack),
      ))
]

-- The depth check of a merge always ends without a panic: it returns without an error exactly if the
-- output, one level below the state object, nests no deeper than the cap of 128 levels in all, and
-- else with the error `json_too_deep` that names the task.
pub check_merge_depth_lem :
    (output : Value) (key task : Text)
    → check_merge_depth output key task
      ≡ (if leb (1 + depth output) json_depth_max then ok tt else err (json_too_deep key task))
unfolding check_merge_depth
check_merge_depth_lem output key task = ground (
  arith,
  scan_depth_lem (nodes output + 1) (json_too_deep key task) ((output, 2) ∷ []) (omega arith),
)
