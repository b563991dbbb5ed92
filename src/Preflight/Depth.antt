-- ===== src/Preflight/Depth.antt =====
-- The depth check of an artifact against the recursive depth: its loop is that of a merge's check.
use tmx.Base.{
  ℕ, zero, suc, ◌+◌, ◌≡◌, refl, Bool, true, false, not, Option, none, some, [], ◌∷◌, arith, leb,
}
use tmx.Limits.{json_depth_max}
use tmx.Json.{Value}
use tmx.Json.Size.{depth, nodes}
use tmx.Error.{Result, ok, err, RunError}
use tmx.Merge.{Stack, scan_depth, push_children}
use tmx.Merge.Depth.{scan_depth_lem}
use tmx.Preflight.Limits.{unnamed_task}
use tmx.Preflight.Classes.{exceeds, json_depth_exceeds}

abbrev verdict : RunError → Option Bool → Option (Result (Unit {0}))
verdict e none = none
verdict e (some true) = some (err e)
verdict e (some false) = some (ok tt)

exceeds-scan_depth :
    (fuel : ℕ) (e : RunError) (stack : Stack)
    → verdict e (exceeds fuel json_depth_max stack) ≡ scan_depth fuel e stack
unfolding exceeds scan_depth
exceeds-scan_depth zero e stack = refl
exceeds-scan_depth (suc fuel) e [] = refl
exceeds-scan_depth (suc fuel) e ((v, d) ∷ stack) =
    ground (arith, exceeds-scan_depth fuel e (push_children v (d + 1) stack))

-- An artifact is found too deep exactly if its document nests deeper than the bound of 128 levels.
pub json_depth_exceeds_lem :
    (v : Value) → json_depth_exceeds v json_depth_max ≡ not (leb (depth v) json_depth_max)
unfolding json_depth_exceeds
json_depth_exceeds_lem v =
    let e = unnamed_task in
    ground (
      arith,
      exceeds-scan_depth (nodes v + 1) e ((v, 1) ∷ []),
      scan_depth_lem (nodes v + 1) e ((v, 1) ∷ []) (omega arith),
    )
