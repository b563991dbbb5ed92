-- ===== src/Matcher/Keys.antt =====
-- Keys of objects: two objects of one size, each key of one in the other, have the same keys.
use tmx.Base.{
  suc, ◌≡◌, refl, Bool, true, false, not, ◌&&◌, some, arith, Text, text_eq, text_eq_iff, Bool-cases,
  inl, inr, if◌then◌else◌,
}
use tmx.Json.{Value, Fields, no_fields, field, get, contains_key}
use tmx.Matcher.{count_fields}

-- No key stands twice.
abbrev pub unique_keys : Fields → Bool
unique_keys no_fields = true
unique_keys (field k v fs) = not (contains_key k fs) && unique_keys fs

-- Each key of the first is one of the second.
abbrev pub all_in : Fields → Fields → Bool
all_in no_fields y = true
all_in (field k v fs) y = contains_key k y && all_in fs y

abbrev remove : Text → Fields → Fields
remove k no_fields = no_fields
remove k (field j v fs) = let rest = remove k fs in if text_eq j k then fs else field j v rest

count-remove :
    (k : Text) (y : Fields)
    → contains_key k y ≡ true
    → suc (count_fields (remove k y)) ≡ count_fields y
count-remove k no_fields h = absurd cc
count-remove k (field j v fs) h = elim (Bool-cases (text_eq j k)) [
  | inl e ↦ rw e refl
  | inr e ↦ rw e (omega (arith, count-remove k fs (ground (arith, h, e))))
]

contains_key-remove :
    (i k : Text) (y : Fields) → text_eq i k ≡ false → contains_key i (remove k y) ≡ contains_key i y
contains_key-remove i k no_fields h = refl
contains_key-remove i k (field j v fs) h =
    ground (arith, contains_key-remove i k fs h, text_eq_iff j k, text_eq_iff j i, text_eq_iff i k)

all_in-remove :
    (k : Text) (x y : Fields)
    → contains_key k x ≡ false
    → all_in x y ≡ true
    → all_in x (remove k y) ≡ true
all_in-remove k no_fields y h s = refl
all_in-remove k (field j v fs) y h s =
    ground (
      arith,
      h,
      s,
      contains_key-remove j k y,
      all_in-remove k fs y,
      text_eq_iff j k,
      text_eq_iff k j,
    )

pub contains_key-all_in :
    (k : Text) (x y : Fields)
    → unique_keys x ≡ true
    → all_in x y ≡ true
    → count_fields x ≡ count_fields y
    → contains_key k y ≡ true
    → contains_key k x ≡ true
contains_key-all_in k no_fields no_fields u s c h = h
contains_key-all_in k no_fields (field j w y) u s c h = absurd (omega (arith, c))
contains_key-all_in k (field j v x) y u s c h = elim (Bool-cases (text_eq k j)) [
  | inl e ↦ ground (arith, e, text_eq_iff k j, text_eq_iff j k)
  | inr e ↦
      let rest =
        contains_key-all_in k x (remove j y) (ground (arith, u))
          (all_in-remove j x y (ground (arith, u)) (ground (arith, s)))
          (omega (arith, c, count-remove j y (ground (arith, s))))
          (ground (arith, contains_key-remove k j y e, h)) in
      ground (arith, rest)
]

pub get_contains :
    (k : Text) (x : Fields) → contains_key k x ≡ true → (v : Value) × (get k x ≡ some v)
get_contains k no_fields h = absurd cc
get_contains k (field j v fs) h = elim (Bool-cases (text_eq j k)) [
  | inl e ↦ (v, rw e refl)
  | inr e ↦ let (w, is) = get_contains k fs (ground (arith, h, e)) in (w, rw e is)
]
