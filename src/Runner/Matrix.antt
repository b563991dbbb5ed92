-- ===== src/Runner/Matrix.antt =====
-- `matrix_combinations` of runner.rs, and what it gives: the rows of the cross product.
use native.Mathlib.Nat.{mul-suc, mul_assoc}
use tmx.Base.{
  ℕ, zero, suc, ◌-◌, ◌*◌, ◌≤◌, min, ◌≡◌, refl, sym, ap, ◌∙◌, List, [], ◌∷◌, ◌++◌, arith, Text,
  length, is_empty, ltb, leb, ◌==◌, map, if◌then◌else◌, length-append, append_assoc, length-map,
  append-nil, Bool-cases, inl, inr,
}
use tmx.Limits.{fanout_width_max, u64_mod}
use tmx.Json.{Value, Fields, no_fields, object, insert}
use tmx.IndexMap.{IndexMap}
use tmx.Error.{Result, ok, err, RunError, run_failure_error, format, num, assert, ◌>>◌}

-- `u64::saturating_mul`
abbrev pub saturating_mul : ℕ → ℕ → ℕ
saturating_mul a b = min (a * b) (u64_mod - 1)

abbrev pub width_from : ℕ → IndexMap (List Value) → ℕ
width_from w [] = w
width_from w ((key, values) ∷ axes) = width_from (saturating_mul w (length values)) axes

abbrev pub fanout_too_wide : ℕ → RunError
fanout_too_wide width = run_failure_error "fanout_too_wide" (
    format
      "--matrix cross-product is {width} combinations, exceeding the {FANOUT_WIDTH_MAX} fan-out width limit"
      (num width ∷ num fanout_width_max ∷ []))

-- The two inner loops: each partial combination is extended by each value of the axis.
abbrev pub extend_all : Text → List Value → List Fields → List Fields
extend_all key values [] = []
extend_all key values (base ∷ bases) =
    map (λ v. insert key v base) values ++ extend_all key values bases

unfoldable pub expand : IndexMap (List Value) → List Fields → List Fields
expand [] combos = combos
expand ((key, values) ∷ axes) combos = expand axes (extend_all key values combos)

unfoldable pub matrix_combinations : IndexMap (List Value) → Result (List Value)
matrix_combinations axes =
    if is_empty axes
    then ok []
    else (let width = width_from 1 axes in
        if ltb fanout_width_max width
        then err (fanout_too_wide width)
        else if width == 0
        then ok []
        else (let combos = expand axes (no_fields ∷ []) in
            do
              assert (length combos == width)
              assert (leb (length combos) fanout_width_max)
              ok (map object combos)))

abbrev pub Row : Type 0
Row = List (Text × Value)

abbrev pub cross_with : Text → List Value → List Row → List Row
cross_with key [] rows = []
cross_with key (v ∷ vs) rows = map (λ row. (key, v) ∷ row) rows ++ cross_with key vs rows

-- The rows of the cross product: the values of the first axis vary slowest.
unfoldable pub cross : IndexMap (List Value) → List Row
cross [] = [] ∷ []
cross ((key, values) ∷ axes) = cross_with key values (cross axes)

-- The object that binds a row, over one that is there.
abbrev pub bindings : Fields → Row → Fields
bindings base [] = base
bindings base ((k, v) ∷ row) = bindings (insert k v base) row

unfoldable pub product : IndexMap (List Value) → ℕ
product [] = 1
product ((key, values) ∷ axes) = length values * product axes

spread : IndexMap (List Value) → List Fields → List Fields
spread axes [] = []
spread axes (base ∷ bases) = map (bindings base) (cross axes) ++ spread axes bases

spread-append :
    (axes : IndexMap (List Value)) (xs ys : List Fields)
    → spread axes (xs ++ ys) ≡ spread axes xs ++ spread axes ys
unfolding spread
spread-append axes [] ys = refl
spread-append axes (x ∷ xs) ys =
    ap (λ zs. map (bindings x) (cross axes) ++ zs) (spread-append axes xs ys)
    ∙ sym (append_assoc (map (bindings x) (cross axes)) (spread axes xs) (spread axes ys))

bindings-cons :
    (k : Text) (v : Value) (base : Fields) (rows : List Row)
    → map (bindings base) (map (λ row. (k, v) ∷ row) rows) ≡ map (bindings (insert k v base)) rows
bindings-cons k v base [] = refl
bindings-cons k v base (row ∷ rows) =
    ap (λ zs. bindings (insert k v base) row ∷ zs) (bindings-cons k v base rows)

map-append : (f : Row → Fields) (xs ys : List Row) → map f (xs ++ ys) ≡ map f xs ++ map f ys
map-append f [] ys = refl
map-append f (x ∷ xs) ys = ap (λ zs. f x ∷ zs) (map-append f xs ys)

spread-values :
    (axes : IndexMap (List Value)) (k : Text) (base : Fields) (vs : List Value)
    → spread axes (map (λ v. insert k v base) vs)
      ≡ map (bindings base) (cross_with k vs (cross axes))
unfolding spread
spread-values axes k base [] = refl
spread-values axes k base (v ∷ vs) = cc (
  spread-values axes k base vs,
  bindings-cons k v base (cross axes),
  map-append (bindings base) (map (λ row. (k, v) ∷ row) (cross axes))
      (cross_with k vs (cross axes)),
)

spread-extend_all :
    (axes : IndexMap (List Value)) (k : Text) (vs : List Value) (bases : List Fields)
    → spread axes (extend_all k vs bases) ≡ spread ((k, vs) ∷ axes) bases
unfolding spread cross
spread-extend_all axes k vs [] = refl
spread-extend_all axes k vs (base ∷ bases) = cc (
  spread-append axes (map (λ v. insert k v base) vs) (extend_all k vs bases),
  spread-extend_all axes k vs bases,
  spread-values axes k base vs,
)

spread-nil : (cs : List Fields) → spread [] cs ≡ cs
unfolding spread cross
spread-nil [] = refl
spread-nil (c ∷ cs) = ap (λ zs. c ∷ zs) (spread-nil cs)

expand-spread :
    (axes : IndexMap (List Value)) (combos : List Fields) → expand axes combos ≡ spread axes combos
unfolding expand
expand-spread [] combos = sym (spread-nil combos)
expand-spread ((k, vs) ∷ axes) combos =
    expand-spread axes (extend_all k vs combos) ∙ spread-extend_all axes k vs combos

length-cross_with :
    (k : Text) (vs : List Value) (rows : List Row)
    → length (cross_with k vs rows) ≡ length vs * length rows
length-cross_with k [] rows = omega arith
length-cross_with k (v ∷ vs) rows =
    let front = map (λ (row : Row). (k, v) ∷ row) rows in
    let here : length front ≡ length rows = length-map rows (λ row. (k, v) ∷ row) in
    omega (arith, length-append front (cross_with k vs rows), length-cross_with k vs rows, here)

-- There are as many rows as the product of the numbers of values.
pub length-cross : (axes : IndexMap (List Value)) → length (cross axes) ≡ product axes
unfolding cross product
length-cross [] = refl
length-cross ((k, vs) ∷ axes) =
    length-cross_with k vs (cross axes) ∙ ap (λ n. length vs * n) (length-cross axes)

abbrev saturated : ℕ → ℕ
saturated n = min n (u64_mod - 1)

saturated_mul : (a p : ℕ) → saturated (saturated a * p) ≡ saturated (a * p)
saturated_mul a zero = omega arith
saturated_mul a (suc p) = elim (Bool-cases (leb a (u64_mod - 1))) [
  | inl e ↦ ap (λ n. saturated (n * suc p)) (ground (arith, e))
  | inr e ↦
      let high : saturated a ≡ u64_mod - 1 = ground (arith, e) in
      let big : u64_mod ≤ a * suc p = ground (arith, e, mul-suc a p) in
      ap (λ n. saturated (n * suc p)) high ∙ omega (arith, big)
]

width_from_lem :
    (w : ℕ) (axes : IndexMap (List Value))
    → width_from (saturated w) axes ≡ saturated (w * product axes)
unfolding product
width_from_lem w [] = omega arith
width_from_lem w ((k, vs) ∷ axes) =
    let n = length vs in
    ap (λ u. width_from u axes) (saturated_mul w n)
    ∙ width_from_lem (w * n) axes
    ∙ ap saturated (mul_assoc w n (product axes))

length-zero : (xs : List Fields) → length xs ≡ 0 → xs ≡ []
length-zero [] h = refl
length-zero (x ∷ xs) h = absurd (omega arith)

-- The combinations are the rows of the cross product, as objects: none where there is no axis, and
-- the error fanout_too_wide where there would be more of them than the fan-out width.
pub matrix_combinations_lem :
    (axes : IndexMap (List Value))
    → matrix_combinations axes ≡ (
        if is_empty axes
        then ok []
        else if ltb fanout_width_max (product axes)
        then err (fanout_too_wide (min (product axes) (u64_mod - 1)))
        else ok (map object (map (bindings no_fields) (cross axes))))
unfolding matrix_combinations spread
matrix_combinations_lem axes =
    let width : width_from 1 axes ≡ saturated (product axes) =
      width_from_lem 1 axes ∙ ap saturated (omega arith) in
    let built : expand axes (no_fields ∷ []) ≡ map (bindings no_fields) (cross axes) =
      expand-spread axes (no_fields ∷ []) ∙ append-nil (map (bindings no_fields) (cross axes)) in
    let many : length (map (bindings no_fields) (cross axes)) ≡ product axes =
      length-map (cross axes) (bindings no_fields) ∙ length-cross axes in
    let none : product axes ≡ 0 → map (bindings no_fields) (cross axes) ≡ [] =
      λ e. length-zero (map (bindings no_fields) (cross axes)) (many ∙ e) in
    ground (arith, width, built, many, none)
