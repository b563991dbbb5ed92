-- ===== src/Mask/Document.antt =====
-- Scrubbed documents: no secret in a leaf, the shape and the keys as they were.
use tmx.Base.{◌≡◌, refl, Bool, true, not, ◌&&◌, arith, Text}
use tmx.Str.{contains}
use tmx.Json.{
  Value, Items, Fields, null, boolean, number, string, array, object, no_items, item, no_fields,
  field,
}
use tmx.Mask.{
  Cow, borrowed, owned, into_owned, Masker, has, scrub_str, scrub_value, scrub_items, scrub_fields,
}
use tmx.Mask.Strings.{IsApart, scrub_str-no_leak}

-- The reference scrubbing: each text leaf by itself. A number whose text changes becomes a string.
abbrev scrub_number : Text → Cow Text → Value
scrub_number rendered borrowed = number rendered
scrub_number rendered (owned t) = string t

unfoldable mutual
  pub redact : Masker → Value → Value
  redact m (string t) = string (into_owned t (scrub_str m t))
  redact m (number rendered) = scrub_number rendered (scrub_str m rendered)
  redact m (array vs) = array (redact_items m vs)
  redact m (object fs) = object (redact_fields m fs)
  redact m null = null
  redact m (boolean b) = boolean b

  pub redact_items : Masker → Items → Items
  redact_items m no_items = no_items
  redact_items m (item v vs) = item (redact m v) (redact_items m vs)

  pub redact_fields : Masker → Fields → Fields
  redact_fields m no_fields = no_fields
  redact_fields m (field k v fs) = field k (redact m v) (redact_fields m fs)

mutual
  unfolding scrub_value

  borrowed_items :
      (m : Masker) (vs : Items) → (scrub_items m vs).1 ≡ true → (scrub_items m vs).0 ≡ vs
  borrowed_items m no_items h = refl
  borrowed_items m (item v vs) h = ground (arith, borrowed_items m vs)

mutual
  unfolding scrub_value

  borrowed_fields :
      (m : Masker) (fs : Fields) → (scrub_fields m fs).1 ≡ true → (scrub_fields m fs).0 ≡ fs
  borrowed_fields m no_fields h = refl
  borrowed_fields m (field k v fs) h = ground (arith, borrowed_fields m fs)

mutual
  unfolding scrub_value redact

  scrub_lem : (m : Masker) (v : Value) → into_owned v (scrub_value m v) ≡ redact m v
  scrub_lem m (string t) = ground arith
  scrub_lem m (number rendered) = ground arith
  scrub_lem m (array vs) = ground (arith, scrub_items_lem m vs, borrowed_items m vs)
  scrub_lem m (object fs) = ground (arith, scrub_fields_lem m fs, borrowed_fields m fs)
  scrub_lem m null = refl
  scrub_lem m (boolean b) = refl

  scrub_items_lem : (m : Masker) (vs : Items) → (scrub_items m vs).0 ≡ redact_items m vs
  scrub_items_lem m no_items = refl
  scrub_items_lem m (item v vs) = ground (arith, scrub_lem m v, scrub_items_lem m vs)

  scrub_fields_lem : (m : Masker) (fs : Fields) → (scrub_fields m fs).0 ≡ redact_fields m fs
  scrub_fields_lem m no_fields = refl
  scrub_fields_lem m (field k v fs) = ground (arith, scrub_lem m v, scrub_fields_lem m fs)

-- The scrubbing with its borrowed subtrees gives the document in which each text leaf is scrubbed by
-- itself: shape, keys, their order, booleans and nulls are as they were.
pub scrub_value-eq-redact : (m : Masker) (v : Value) → into_owned v (scrub_value m v) ≡ redact m v
scrub_value-eq-redact m v = scrub_lem m v

-- No string and no number of the document holds the secret.
unfoldable mutual
  pub leaves_lack : Text → Value → Bool
  leaves_lack s (string t) = not (contains s t)
  leaves_lack s (number rendered) = not (contains s rendered)
  leaves_lack s (array vs) = items_lack s vs
  leaves_lack s (object fs) = fields_lack s fs
  leaves_lack s null = true
  leaves_lack s (boolean b) = true

  pub items_lack : Text → Items → Bool
  items_lack s no_items = true
  items_lack s (item v vs) = leaves_lack s v && items_lack s vs

  pub fields_lack : Text → Fields → Bool
  fields_lack s no_fields = true
  fields_lack s (field k v fs) = leaves_lack s v && fields_lack s fs

module _ (m : Masker) (s : Text) (apart : IsApart s) (scanned : has m.substring s ≡ true) where
  mutual
    unfolding redact leaves_lack

    redact_lacks : (v : Value) → leaves_lack s (redact m v) ≡ true
    redact_lacks (string t) = ground (arith, scrub_str-no_leak m s t apart scanned)
    redact_lacks (number rendered) = ground (arith, scrub_str-no_leak m s rendered apart scanned)
    redact_lacks (array vs) = redact_items_lack vs
    redact_lacks (object fs) = redact_fields_lack fs
    redact_lacks null = refl
    redact_lacks (boolean b) = refl

    redact_items_lack : (vs : Items) → items_lack s (redact_items m vs) ≡ true
    redact_items_lack no_items = refl
    redact_items_lack (item v vs) = ground (arith, redact_lacks v, redact_items_lack vs)

    redact_fields_lack : (fs : Fields) → fields_lack s (redact_fields m fs) ≡ true
    redact_fields_lack no_fields = refl
    redact_fields_lack (field k v fs) = ground (arith, redact_lacks v, redact_fields_lack fs)

-- A secret of the scanned bucket that shares nothing with the placeholder occurs in no string and in
-- no number of a scrubbed document, at any depth.
pub scrub_value-no_leak :
    (m : Masker) (s : Text) (v : Value)
    → IsApart s
    → has m.substring s ≡ true
    → leaves_lack s (into_owned v (scrub_value m v)) ≡ true
scrub_value-no_leak m s v apart scanned =
    ground (arith, scrub_value-eq-redact m v, redact_lacks m s apart scanned v)
