-- ===== src/Mask/Strings.antt =====
-- What is left of a secret in a scrubbed text.
use tmx.Base.{
  ◌≡◌, refl, true, false, List, [], ◌∷◌, ◌++◌, arith, Text, bytes, text_eq, text_eq_iff, is_empty,
  any, Bool-cases, inl, inr, if◌then◌else◌,
}
use tmx.Str.{contains, replace}
use tmx.Str.Laws.{
  lacks, contains-across, contains-replace_other, contains-replace_self, contains-replace_within,
}
use tmx.Mask.{
  placeholder, Cow, borrowed, owned, into_owned, Masker, has, scrub_substrings, scrub_str,
}

abbrev pub marker_word : Text
marker_word = bytes "REDACTED"

-- The secret shares nothing with the placeholder that takes its place: it has no bracket, and is not
-- a part of the word between the brackets.
pub record IsApart (s : Text) : Type 0 where
  pub present : is_empty s ≡ false
  pub left : lacks b'[' s ≡ true
  pub right : lacks b']' s ≡ true
  pub word : contains s marker_word ≡ false

contains-placeholder : (s : Text) → IsApart s → contains s placeholder ≡ false
unfolding contains
contains-placeholder s a =
    contains-across b'[' s [] (marker_word ++ b']' ∷ []) a.left (none_in_nil s a.present)
      (contains-across b']' s marker_word [] a.right a.word (none_in_nil s a.present))
  where
    none_in_nil : (s : Text) → is_empty s ≡ false → contains s [] ≡ false
    none_in_nil s h = h

-- One round of the scan.
abbrev round : Text → Text → Cow Text → Cow Text
round secret input current =
    if contains secret (into_owned input current)
    then owned (replace secret placeholder (into_owned input current))
    else current

round_other :
    (secret t input : Text) (current : Cow Text)
    → IsApart t
    → contains t (into_owned input current) ≡ false
    → contains t (into_owned input (round secret input current)) ≡ false
unfolding replace
round_other secret t input current a h =
    elim (Bool-cases (contains secret (into_owned input current))) [
      | inl found ↦ rw found (
          contains-replace_other secret t marker_word b'[' b']' a.left a.right a.word a.present 0
            (into_owned input current) h)
      | inr absent ↦ rw absent h
    ]

round_self :
    (secret input : Text) (current : Cow Text)
    → IsApart secret
    → contains secret (into_owned input (round secret input current)) ≡ false
unfolding replace
round_self secret input current a = elim (Bool-cases (contains secret (into_owned input current))) [
  | inl found ↦ rw found (
      contains-replace_self secret marker_word b'[' b']' a.left a.right a.word a.present 0
        (into_owned input current))
  | inr absent ↦ rw absent absent
]

scan_other :
    (secrets : List Text) (t input : Text) (current : Cow Text)
    → IsApart t
    → contains t (into_owned input current) ≡ false
    → contains t (into_owned input (scrub_substrings secrets input current)) ≡ false
unfolding scrub_substrings
scan_other [] t input current a h = h
scan_other (s ∷ secrets) t input current a h =
    scan_other secrets t input (round s input current) a (round_other s t input current a h)

scan_self :
    (secrets : List Text) (t input : Text) (current : Cow Text)
    → IsApart t
    → has secrets t ≡ true
    → contains t (into_owned input (scrub_substrings secrets input current)) ≡ false
unfolding scrub_substrings has
scan_self [] t input current a h = ground arith
scan_self (s ∷ secrets) t input current a h = elim (Bool-cases (text_eq s t)) [
  | inl same ↦
      scan_other secrets t input (round s input current) a
        (rw ((text_eq_iff s t).0 same) (round_self t input current a))
  | inr other ↦ scan_self secrets t input (round s input current) a (ground arith)
]

-- A secret of the scanned bucket that shares nothing with the placeholder does not occur in any
-- scrubbed text, whatever the other secrets are and in whatever order they are scanned.
pub scrub_str-no_leak :
    (m : Masker) (t input : Text)
    → IsApart t
    → has m.substring t ≡ true
    → contains t (into_owned input (scrub_str m input)) ≡ false
unfolding scrub_str
scrub_str-no_leak m t input a h =
    ground (arith, contains-placeholder t a, scan_self m.substring t input borrowed a h)

-- A secret of the compared bucket is replaced where it is the whole text.
pub scrub_str-exact :
    (m : Masker) (t : Text) → has m.exact t ≡ true → scrub_str m t ≡ owned placeholder
unfolding scrub_str
scrub_str-exact m t h = ground arith

scan_none :
    (secrets : List Text) (input : Text)
    → any (λ s. contains s input) secrets ≡ false
    → scrub_substrings secrets input borrowed ≡ borrowed
unfolding scrub_substrings
scan_none [] input h = refl
scan_none (s ∷ secrets) input h = ground (arith, scan_none secrets input)

-- A text that is no compared secret and in which no scanned secret occurs is borrowed unchanged.
pub scrub_str-clean :
    (m : Masker) (input : Text)
    → has m.exact input ≡ false
    → any (λ s. contains s input) m.substring ≡ false
    → scrub_str m input ≡ borrowed
unfolding scrub_str
scrub_str-clean m input h k = ground (arith, scan_none m.substring input k)

-- Where a scanned secret is the only one of its bucket, is not a compared one, and occurs in the
-- placeholder, then a text in which it occurs still holds it once it is scrubbed.
pub scrub_str-placeholder_secret :
    (m : Masker) (s input : Text)
    → m.substring ≡ s ∷ []
    → has m.exact input ≡ false
    → is_empty s ≡ false
    → contains s placeholder ≡ true
    → contains s input ≡ true
    → contains s (into_owned input (scrub_str m input)) ≡ true
unfolding scrub_str scrub_substrings
scrub_str-placeholder_secret m s input only other ne inside occurs =
    ground (arith, contains-replace_within s placeholder input inside occurs ne)
