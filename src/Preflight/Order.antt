-- ===== src/Preflight/Order.antt =====
-- The natural order of file names is the lexicographic order of their keys.
use tmx.Base.{
  ℕ, zero, suc, ◌+◌, ◌-◌, ◌*◌, ◌≤◌, ◌<◌, ◌≡◌, refl, ap, ◌∙◌, Bool, true, false, List, [], ◌∷◌,
  arith, Text, length, Bool-cases, inl, inr, if◌then◌else◌,
}
use Prim.Native.Nat.{compare, Ordering, lt, eq, gt}
use mathlib.Core.Path.{ap₂}
use tmx.Preflight.Classes.{is_digit, take_digits, then_by, natural_loop, natural_cmp}
use tmx.Preflight.Runs.{place, value, digits, compare_runs-value}

-- A piece of a name: a byte that is no digit, or a maximal run of digits, as its value and its length.
pub data Piece : Type 0 where
  byte : ℕ → Piece
  run : ℕ → ℕ → Piece

-- A digit goes before a run that follows it, and else is a run of its own.
abbrev pub add_digit : ℕ → ℕ → List Piece → List Piece
add_digit c p (run v l ∷ pieces) = run ((c - 48) * p + v) (suc l) ∷ pieces
add_digit c p pieces = run (c - 48) 1 ∷ pieces

-- The pieces of a name, from its end.
unfoldable pub key : Text → List Piece
key [] = []
key (c ∷ s) =
    let rest = key s in
    if is_digit c then add_digit c (place (take_digits s).0) rest else byte c ∷ rest

-- A run stands where its digits stand among the bytes, and two runs compare as numbers.
abbrev pub compare_pieces : Piece → Piece → Ordering
compare_pieces (byte c) (byte d) = compare c d
compare_pieces (byte c) (run v l) = compare c 48
compare_pieces (run v l) (byte d) = compare 48 d
compare_pieces (run v l) (run w m) = then_by (compare v w) (compare l m)

unfoldable pub compare_keys : List Piece → List Piece → Ordering
compare_keys [] [] = eq
compare_keys [] (y ∷ ys) = lt
compare_keys (x ∷ xs) [] = gt
compare_keys (x ∷ xs) (y ∷ ys) = then_by (compare_pieces x y) (compare_keys xs ys)

-- The pieces of a run of digits, before others.
abbrev led : Text → List Piece → List Piece
led [] pieces = pieces
led (c ∷ s) pieces = run (value (c ∷ s)) (suc (length s)) ∷ pieces

-- What follows a maximal run does not start with one.
abbrev no_run : List Piece → Bool
no_run (run v l ∷ pieces) = false
no_run _ = true

after-no_run : (s : Text) → no_run (key (take_digits s).1) ≡ true
unfolding key
after-no_run [] = refl
after-no_run (c ∷ s) = elim (Bool-cases (is_digit c)) [
  | inl e ↦ rw e (after-no_run s)
  | inr e ↦ rw e (rw e refl)
]

add_digit-led :
    (c : ℕ) (r : Text) (pieces : List Piece)
    → no_run pieces ≡ true
    → add_digit c (place r) (led r pieces) ≡ led (c ∷ r) pieces
add_digit-led c [] [] h = ap (λ v. run v 1 ∷ []) (omega arith)
add_digit-led c [] (byte d ∷ pieces) h = ap (λ v. run v 1 ∷ byte d ∷ pieces) (omega arith)
add_digit-led c [] (run v l ∷ pieces) h = absurd cc
add_digit-led c (d ∷ r) pieces h = refl

key-take_digits : (s : Text) → key s ≡ led (take_digits s).0 (key (take_digits s).1)
unfolding key
key-take_digits [] = refl
key-take_digits (c ∷ s) = elim (Bool-cases (is_digit c)) [
  | inl e ↦ rw e (
      ap (add_digit c (place (take_digits s).0)) (key-take_digits s)
      ∙ add_digit-led c (take_digits s).0 (key (take_digits s).1) (after-no_run s))
  | inr e ↦ rw e (rw e refl)
]

-- A name that starts with a digit starts with the piece of its first run.
digit-key :
    (c : ℕ) (s : Text)
    → is_digit c ≡ true
    → key (c ∷ s)
      ≡ run (value (c ∷ (take_digits s).0)) (suc (length (take_digits s).0)) ∷ key (take_digits s).1
unfolding key
digit-key c s e = rw e (
    ap (add_digit c (place (take_digits s).0)) (key-take_digits s)
    ∙ add_digit-led c (take_digits s).0 (key (take_digits s).1) (after-no_run s))

byte-key : (c : ℕ) (s : Text) → is_digit c ≡ false → key (c ∷ s) ≡ byte c ∷ key s
unfolding key
byte-key c s e = rw e refl

take_digits-digits : (s : Text) → digits (take_digits s).0 ≡ true
take_digits-digits [] = refl
take_digits-digits (c ∷ s) = ground (arith, take_digits-digits s)

take_digits-length : (s : Text) → length (take_digits s).1 ≤ length s
take_digits-length [] = omega arith
take_digits-length (c ∷ s) = ground (arith, take_digits-length s)

-- A digit and a byte that is none are told apart by their codes.
then_by-digit :
    (c d : ℕ) (x y : Ordering)
    → is_digit c ≡ true
    → is_digit d ≡ false
    → then_by (compare c d) x ≡ then_by (compare 48 d) y
then_by-digit c d x y hc hd = ground (arith, hc, hd)

then_by-byte :
    (c d : ℕ) (x y : Ordering)
    → is_digit c ≡ false
    → is_digit d ≡ true
    → then_by (compare c d) x ≡ then_by (compare c 48) y
then_by-byte c d x y hc hd = ground (arith, hc, hd)

natural_loop-key :
    (fuel : ℕ) (a b : Text) → length a < fuel → natural_loop fuel a b ≡ compare_keys (key a) (key b)
unfolding natural_loop compare_keys
natural_loop-key zero a b h = absurd (omega arith)
natural_loop-key (suc fuel) [] [] h = unfold key in refl
natural_loop-key (suc fuel) [] (d ∷ b) h = elim (Bool-cases (is_digit d)) [
  | inl e ↦ rw (digit-key d b e) (unfold key in refl)
  | inr e ↦ rw (byte-key d b e) (unfold key in refl)
]
natural_loop-key (suc fuel) (c ∷ a) [] h = elim (Bool-cases (is_digit c)) [
  | inl e ↦ rw (digit-key c a e) (unfold key in refl)
  | inr e ↦ rw (byte-key c a e) (unfold key in refl)
]
natural_loop-key (suc fuel) (c ∷ a) (d ∷ b) h = elim (Bool-cases (is_digit c)) [
  | inl hc ↦ elim (Bool-cases (is_digit d)) [
    | inl hd ↦
        rw (digit-key c a hc, digit-key d b hd, hc, hd)
          (ap₂ then_by
            (compare_runs-value (c ∷ (take_digits a).0) (d ∷ (take_digits b).0)
              (ground (arith, hc, take_digits-digits a)) (ground (arith, hd, take_digits-digits b)))
            (natural_loop-key fuel (take_digits a).1 (take_digits b).1
              (omega (arith, h, take_digits-length a))))
    | inr hd ↦ rw (digit-key c a hc, byte-key d b hd, hc, hd) (then_by-digit c d _ _ hc hd)
  ]
  | inr hc ↦ elim (Bool-cases (is_digit d)) [
    | inl hd ↦ rw (byte-key c a hc, digit-key d b hd, hc) (then_by-byte c d _ _ hc hd)
    | inr hd ↦
        rw (byte-key c a hc, byte-key d b hd, hc)
          (ap (then_by (compare c d)) (natural_loop-key fuel a b (omega arith)))
  ]
]

-- Two file names compare as their keys do, piece by piece: a byte that is no digit stands for itself, and
-- a maximal run of digits for its number and then its length.
pub natural_cmp-key : (a b : Text) → natural_cmp a b ≡ compare_keys (key a) (key b)
unfolding natural_cmp
natural_cmp-key a b = natural_loop-key (length a + 1) a b (omega arith)
