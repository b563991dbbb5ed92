-- ===== src/Matcher/Strength.antt =====
-- How the equality matchers imply one another.
use tmx.Base.{
  ◌≡◌, refl, sym, ap, ◌∙◌, subst, &&_true, ◌⊎◌, Bool, true, false, not, ◌&&◌, Option, none, some,
  [], ◌∷◌, arith, Text, text_eq, text_eq_iff, ==_iff, ◌==◌, Bool-cases, inl, inr, if◌then◌else◌,
}
use tmx.Json.{
  Value, Items, Fields, null, boolean, number, string, array, object, no_items, item, no_fields,
  field, get, contains_key,
}
use tmx.Matcher.{
  to_be, to_equal, to_strict_equal, to_match_object, Floats, count_items, count_fields,
}
use tmx.Matcher.Engine.{
  numbers_by, same_float, same_value, deep_equal, items_equal, fields_equal, matches_object,
  matches_items, matches_fields, evaluate_base, evaluate,
}
use tmx.Matcher.Keys.{unique_keys, all_in, contains_key-all_in, get_contains}

-- No object in the document has a key twice.
unfoldable mutual
  pub well_keyed : Value → Bool
  well_keyed (array vs) = items_keyed vs
  well_keyed (object fs) = unique_keys fs && fields_keyed fs
  well_keyed _ = true

  pub items_keyed : Items → Bool
  items_keyed no_items = true
  items_keyed (item v vs) = well_keyed v && items_keyed vs

  pub fields_keyed : Fields → Bool
  fields_keyed no_fields = true
  fields_keyed (field k v fs) = well_keyed v && fields_keyed fs

abbrev or_else : Value → Option Value → Value
or_else d none = d
or_else d (some v) = v

-- The first entry is the one that is found, or another one is.
entry-cases :
    (b : Bool) (w v : Value) (o : Option Value)
    → (if b then some w else o) ≡ some v
    → ((b ≡ true) × (w ≡ v)) ⊎ ((b ≡ false) × (o ≡ some v))
entry-cases true w v o e = inl (refl, ap (or_else w) e)
entry-cases false w v o e = inr (refl, e)

get-keyed :
    (k : Text) (fs : Fields) (v : Value)
    → fields_keyed fs ≡ true
    → get k fs ≡ some v
    → well_keyed v ≡ true
unfolding well_keyed
get-keyed k no_fields v h e = absurd cc
get-keyed k (field j w fs) v h e = elim (entry-cases (text_eq j k) w v (get k fs) e) [
  | inl (f, same) ↦
      subst (λ x. well_keyed x ≡ true) same (((&&_true (well_keyed w) (fields_keyed fs)).0 h).0)
  | inr (f, later) ↦ get-keyed k fs v (((&&_true (well_keyed w) (fields_keyed fs)).0 h).1) later
]

get-contains_key :
    (k : Text) (fs : Fields) (v : Value) → get k fs ≡ some v → contains_key k fs ≡ true
get-contains_key k no_fields v e = absurd cc
get-contains_key k (field j w fs) v e = elim (Bool-cases (text_eq j k)) [
  | inl f ↦ ground (arith, f)
  | inr f ↦ ground (arith, f, get-contains_key k fs v (ground (arith, e, f)))
]

else_of : (b c d : Bool) → b ≡ false → (if b then c else d) ≡ true → d ≡ true
else_of true c d e h = absurd cc
else_of false c d e h = h

not-true : (b : Bool) → not b ≡ true → b ≡ false
not-true b h = ground (arith, h)

module _ {F I : Type 0} (floats : Floats F I) where
  matched_of :
      (o : Option Value) (h : Value)
      → elim o as (λ _. Bool) [ none ↦ false | some w ↦ deep_equal floats h w ] ≡ true
      → (w : Value) × (o ≡ some w) × (deep_equal floats h w ≡ true)
  matched_of none h e = absurd cc
  matched_of (some w) h e = (w, refl, e)

  fields_equal-get :
      (k : Text) (x y : Fields) (h : Value)
      → fields_equal floats x y ≡ true
      → get k x ≡ some h
      → (w : Value) × (get k y ≡ some w) × (deep_equal floats h w ≡ true)
  unfolding deep_equal
  fields_equal-get k no_fields y h e is = absurd cc
  fields_equal-get k (field j v x) y h e is =
      let both = (&&_true _ (fields_equal floats x y)).0 e in
      elim (entry-cases (text_eq j k) v h (get k x) is) [
        | inl (f, same) ↦
            let (w, found, equal) = matched_of (get j y) v both.0 in
            (
              w,
              subst (λ i. get i y ≡ some w) ((text_eq_iff j k).0 f) found,
              subst (λ u. deep_equal floats u w ≡ true) same equal,
            )
        | inr (f, later) ↦ fields_equal-get k x y h both.1 later
      ]

  fields_equal-all_in : (x y : Fields) → fields_equal floats x y ≡ true → all_in x y ≡ true
  unfolding deep_equal
  fields_equal-all_in no_fields y e = refl
  fields_equal-all_in (field j v x) y e =
      let both = (&&_true _ (fields_equal floats x y)).0 e in
      let (w, found, equal) = matched_of (get j y) v both.0 in
      (&&_true _ _).1 (get-contains_key j y w found, fields_equal-all_in x y both.1)

  -- Each entry of the second object has an equal one in the first.
  unfoldable Covers : Fields → Fields → Type 0
  Covers x y =
      (k : Text) (w : Value)
      → get k y ≡ some w
      → (h : Value) × (get k x ≡ some h) × (deep_equal floats h w ≡ true)

  equal-Covers :
      (x y : Fields)
      → unique_keys x ≡ true
      → count_fields x ≡ count_fields y
      → fields_equal floats x y ≡ true
      → Covers x y
  unfolding Covers
  equal-Covers x y u c e k w is =
      let there =
        contains_key-all_in k x y u (fields_equal-all_in x y e) c (get-contains_key k y w is) in
      let (h, found) = get_contains k x there in
      let (w', found', equal) = fields_equal-get k x y h e found in
      (h, found, subst (λ v. deep_equal floats h v ≡ true) (ap (or_else w) (sym found' ∙ is)) equal)

  tail-Covers :
      (x ws : Fields) (k : Text) (w : Value)
      → contains_key k ws ≡ false
      → Covers x (field k w ws)
      → Covers x ws
  unfolding Covers
  tail-Covers x ws k w new covers i v is =
      covers i v (ground (arith, is, text_eq_iff k i, get-contains_key i ws v is, new))

  mutual
    unfolding deep_equal matches_object well_keyed Covers

    equal-matches :
        (a b : Value)
        → well_keyed a ≡ true
        → well_keyed b ≡ true
        → deep_equal floats a b ≡ true
        → matches_object floats a b ≡ true
    equal-matches null null ka kb e = e
    equal-matches (boolean x) (boolean y) ka kb e = e
    equal-matches (number x) (number y) ka kb e = e
    equal-matches (string x) (string y) ka kb e = e
    equal-matches (array x) (array y) ka kb e =
        let both = (&&_true (count_items x == count_items y) (items_equal floats x y)).0 e in
        (&&_true (count_items y == count_items x) (matches_items floats x y)).1 (
          (==_iff (count_items y) (count_items x)).1
              (sym ((==_iff (count_items x) (count_items y)).0 both.0)),
          items-matches x y ka kb both.1,
        )
    equal-matches (object x) (object y) ka kb e =
        let both = (&&_true (count_fields x == count_fields y) (fields_equal floats x y)).0 e in
        let keys_x = (&&_true (unique_keys x) (fields_keyed x)).0 ka in
        let keys_y = (&&_true (unique_keys y) (fields_keyed y)).0 kb in
        fields-matches x y keys_x.1 keys_y.1 keys_y.0
          (equal-Covers x y keys_x.0 ((==_iff _ _).0 both.0) both.1)
    equal-matches _ _ ka kb e = absurd cc

    items-matches :
        (x y : Items)
        → items_keyed x ≡ true
        → items_keyed y ≡ true
        → items_equal floats x y ≡ true
        → matches_items floats x y ≡ true
    items-matches (item p ps) (item q qs) ka kb e =
        let both = (&&_true (deep_equal floats p q) (items_equal floats ps qs)).0 e in
        let keys_x = (&&_true (well_keyed p) (items_keyed ps)).0 ka in
        let keys_y = (&&_true (well_keyed q) (items_keyed qs)).0 kb in
        (&&_true (matches_object floats p q) (matches_items floats ps qs)).1
          (equal-matches p q keys_x.0 keys_y.0 both.0, items-matches ps qs keys_x.1 keys_y.1 both.1)
    items-matches no_items y ka kb e = refl
    items-matches (item p ps) no_items ka kb e = refl

    fields-matches :
        (x ws : Fields)
        → fields_keyed x ≡ true
        → fields_keyed ws ≡ true
        → unique_keys ws ≡ true
        → Covers x ws
        → matches_fields floats x ws ≡ true
    fields-matches x no_fields kx kw u covers = refl
    fields-matches x (field k w ws) kx kw u covers =
        let (h, found, equal) = covers k w (rw ((text_eq_iff k k).1 refl) refl) in
        let keys = (&&_true (well_keyed w) (fields_keyed ws)).0 kw in
        let fresh = (&&_true (not (contains_key k ws)) (unique_keys ws)).0 u in
        (&&_true
            (elim (get k x) as (λ _. Bool) [ none ↦ false | some v ↦ matches_object floats v w ])
            (matches_fields floats x ws)).1
          (
            rw found (equal-matches h w (get-keyed k x h kx found) keys.0 equal),
            fields-matches x ws kx keys.1 fresh.1
                (tail-Covers x ws k w (not-true (contains_key k ws) fresh.0) covers),
          )

  same_float-lem :
      ((x y : F) → floats.is_zero x ≡ true → floats.is_zero y ≡ true → floats.f64_eq x y ≡ true)
      → (x y : F) → same_float floats x y ≡ true
      → floats.f64_eq x y ≡ true
  same_float-lem zeros x y h = elim (Bool-cases (floats.is_zero x && floats.is_zero y)) [
    | inl both ↦
        let zero = (&&_true (floats.is_zero x) (floats.is_zero y)).0 both in zeros x y zero.0 zero.1
    | inr one ↦ else_of (floats.is_zero x && floats.is_zero y) _ _ one h
  ]

  by_mono :
      (p q : F → F → Bool)
      → ((x y : F) → p x y ≡ true → q x y ≡ true)
      → (n : Bool) (o o' : Option F)
      → elim o as (λ _. Bool) [
        | none ↦ n
        | some f ↦ elim o' as (λ _. Bool) [ none ↦ n | some g ↦ p f g ]
      ]
        ≡ true
      → elim o as (λ _. Bool) [
        | none ↦ n
        | some f ↦ elim o' as (λ _. Bool) [ none ↦ n | some g ↦ q f g ]
      ]
        ≡ true
  by_mono p q mono n none o' h = h
  by_mono p q mono n (some f) none h = h
  by_mono p q mono n (some f) (some g) h = mono f g h

  numbers_by_mono :
      (p q : F → F → Bool)
      → ((x y : F) → p x y ≡ true → q x y ≡ true)
      → (x y : Text) → numbers_by floats p x y ≡ true
      → numbers_by floats q x y ≡ true
  numbers_by_mono p q mono x y h =
      by_mono p q mono (floats.number_eq x y) (floats.as_f64 x) (floats.as_f64 y) h

  same-equal :
      ((x y : F) → floats.is_zero x ≡ true → floats.is_zero y ≡ true → floats.f64_eq x y ≡ true)
      → (a b : Value) → same_value floats a b ≡ true
      → deep_equal floats a b ≡ true
  unfolding same_value deep_equal
  same-equal zeros null null h = h
  same-equal zeros (boolean x) (boolean y) h = h
  same-equal zeros (string x) (string y) h = h
  same-equal zeros (number x) (number y) h =
      numbers_by_mono (same_float floats) floats.f64_eq (same_float-lem zeros) x y h
  same-equal zeros _ _ h = absurd cc

  -- What is the same value is equal, and what is equal matches as an object: where the matcher toBe holds,
  -- toEqual and toStrictEqual do, and where they do, toMatchObject does. No object has a key
  -- twice, and any two zeros are equal floats.
  pub evaluate-strength :
      ((x y : F) → floats.is_zero x ≡ true → floats.is_zero y ≡ true → floats.f64_eq x y ≡ true)
      → (actual expected : Value) → well_keyed actual ≡ true
      → well_keyed expected ≡ true
      → (evaluate floats actual to_be (some (expected ∷ [])) false ≡ true
          → evaluate floats actual to_equal (some (expected ∷ [])) false ≡ true)
        × ((evaluate floats actual to_equal (some (expected ∷ [])) false
              ≡ evaluate floats actual to_strict_equal (some (expected ∷ [])) false)
            × (evaluate floats actual to_equal (some (expected ∷ [])) false ≡ true
                → evaluate floats actual to_match_object (some (expected ∷ [])) false ≡ true))
  unfolding evaluate evaluate_base
  evaluate-strength zeros a b ka kb =
      (λ h. same-equal zeros a b h, (refl, λ h. equal-matches a b ka kb h))
