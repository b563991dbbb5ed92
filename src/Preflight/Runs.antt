-- ===== src/Preflight/Runs.antt =====
-- Digit runs compare as the numbers that they are.
use tmx.Base.{
  ℕ, ◌+◌, ◌-◌, ◌*◌, ◌≤◌, ◌<◌, ◌≡◌, refl, ap, sym, subst, ==_iff, ◌∙◌, ◌⊎◌, Bool, true, false, not,
  [], ◌∷◌, arith, Text, all, length, ◌==◌, Bool-cases, inl, inr,
}
use Prim.Native.Nat.{compare, lt, eq, gt}
use native.Mathlib.Nat.{mul-le-mul_right}
use tmx.Preflight.Classes.{is_digit, trim_zeros, then_by, compare_texts, compare_runs}

-- The place value that stands before a run of digits, and the number that the run is.
abbrev pub place : Text → ℕ
place [] = 1
place (c ∷ s) = 10 * place s

abbrev pub value : Text → ℕ
value [] = 0
value (c ∷ s) = (c - 48) * place s + value s

abbrev pub digits : Text → Bool
digits s = all is_digit s

scaled : (a b p : ℕ) → a ≤ b → a * p ≤ b * p
scaled a b p h = mul-le-mul_right p h

value-place : (s : Text) → digits s ≡ true → value s < place s
value-place [] h = omega arith
value-place (c ∷ s) h =
    omega
      (arith, value-place s (ground (arith, h)), scaled (c - 48) 9 (place s) (ground (arith, h)))

place-pos : (s : Text) → 1 ≤ place s
place-pos [] = omega arith
place-pos (c ∷ s) = omega (arith, place-pos s)

place-le : (s t : Text) → length s ≤ length t → place s ≤ place t
place-le [] t h = place-pos t
place-le (c ∷ s) [] h = absurd (omega (arith, h))
place-le (c ∷ s) (d ∷ t) h = omega (arith, place-le s t (omega (arith, h)))

compare-lt : (a b : ℕ) → a < b → compare a b ≡ lt
compare-lt a b h = ground (arith, h)

compare-gt : (a b : ℕ) → b < a → compare a b ≡ gt
compare-gt a b h = ground (arith, h)

-- A longer run without a leading zero is the larger number.
value-shorter :
    (s t : Text) (d : ℕ)
    → digits s ≡ true
    → is_digit d ≡ true
    → (d == 48) ≡ false
    → length s ≤ length t
    → value s < value (d ∷ t)
value-shorter s t d hs hd nonzero h = omega (
  arith,
  value-place s hs,
  place-le s t h,
  scaled 1 (d - 48) (place t) (ground (arith, hd, nonzero)),
)

compare-eq : (a b : ℕ) → a ≡ b → compare a b ≡ eq
compare-eq a b h = ground (arith, h)

trichotomy : (a b : ℕ) → (a < b) ⊎ ((a ≡ b) ⊎ (b < a))
trichotomy a b = ground arith

place-same : (s t : Text) → length s ≡ length t → place s ≡ place t
place-same [] [] h = refl
place-same [] (d ∷ t) h = absurd (omega (arith, h))
place-same (c ∷ s) [] h = absurd (omega (arith, h))
place-same (c ∷ s) (d ∷ t) h = omega (arith, place-same s t (omega (arith, h)))

compare-add : (k l a b : ℕ) → k ≡ l → compare a b ≡ compare (k + a) (l + b)
compare-add k l a b h = ground (arith, h)

-- A smaller first digit decides.
value-first :
    (c d : ℕ) (s t : Text)
    → is_digit c ≡ true
    → digits s ≡ true
    → place s ≡ place t
    → c < d
    → value (c ∷ s) < value (d ∷ t)
value-first c d s t hc hs same less =
    let step = scaled (c - 48 + 1) (d - 48) (place t) (ground (arith, hc, less)) in
    omega (arith, value-place s hs, step, ap (λ p. (c - 48) * p) same, same)

-- Runs of one length compare as their numbers do.
compare_texts-value :
    (s t : Text)
    → digits s ≡ true
    → digits t ≡ true
    → length s ≡ length t
    → compare_texts s t ≡ compare (value s) (value t)
compare_texts-value [] [] hs ht h = refl
compare_texts-value [] (d ∷ t) hs ht h = absurd (omega (arith, h))
compare_texts-value (c ∷ s) [] hs ht h = absurd (omega (arith, h))
compare_texts-value (c ∷ s) (d ∷ t) hs ht h =
    let same = place-same s t (omega (arith, h)) in
    let rest =
      compare_texts-value s t (ground (arith, hs)) (ground (arith, ht)) (omega (arith, h)) in
    elim (trichotomy c d) [
      | inl less ↦ rw (compare-lt c d less) (
          sym (
            compare-lt _ _
              (value-first c d s t (ground (arith, hs)) (ground (arith, hs)) same less)))
      | inr (inl equal) ↦ rw (compare-eq c d equal) (
          rest
          ∙ compare-add _ _ _ _ (ap (λ x. (x - 48) * place s) equal ∙ ap (λ p. (d - 48) * p) same))
      | inr (inr more) ↦ rw (compare-gt c d more) (
          sym (
            compare-gt _ _
              (value-first d c t s (ground (arith, ht)) (ground (arith, ht)) (sym same) more)))
    ]

digits-trim_zeros : (s : Text) → digits s ≡ true → digits (trim_zeros s) ≡ true
digits-trim_zeros [] h = refl
digits-trim_zeros (c ∷ s) h = ground (arith, h, digits-trim_zeros s)

value-trim_zeros : (s : Text) → value (trim_zeros s) ≡ value s
value-trim_zeros [] = refl
value-trim_zeros (c ∷ s) = elim (Bool-cases (c == 48)) [
  | inl e ↦ rw e (
      value-trim_zeros s
      ∙ subst (λ x. value s ≡ (x - 48) * place s + value s) (sym ((==_iff c 48).0 e)) (omega arith))
  | inr e ↦ rw e refl
]

-- A run without leading zeros.
abbrev bare : Text → Bool
bare [] = true
bare (c ∷ s) = not (c == 48)

bare-trim_zeros : (s : Text) → bare (trim_zeros s) ≡ true
bare-trim_zeros [] = refl
bare-trim_zeros (c ∷ s) = ground (arith, bare-trim_zeros s)

shorter-value :
    (s t : Text)
    → digits s ≡ true
    → digits t ≡ true
    → bare t ≡ true
    → length s < length t
    → value s < value t
shorter-value s [] hs ht b h = absurd (omega (arith, h))
shorter-value s (d ∷ t) hs ht b h =
    value-shorter s t d hs (ground (arith, ht)) (ground (arith, b)) (omega (arith, h))

by_length :
    (s t : Text)
    → digits s ≡ true
    → digits t ≡ true
    → bare s ≡ true
    → bare t ≡ true
    → then_by (compare (length s) (length t)) (compare_texts s t) ≡ compare (value s) (value t)
by_length s t hs ht bs bt = elim (trichotomy (length s) (length t)) [
  | inl less ↦ rw (compare-lt _ _ less) (sym (compare-lt _ _ (shorter-value s t hs ht bt less)))
  | inr (inl equal) ↦ rw (compare-eq _ _ equal) (compare_texts-value s t hs ht equal)
  | inr (inr more) ↦
      rw (compare-gt _ _ more) (sym (compare-gt _ _ (shorter-value t s ht hs bs more)))
]

-- Digit runs compare as the numbers that they are, and then by their lengths.
pub compare_runs-value :
    (s t : Text)
    → digits s ≡ true
    → digits t ≡ true
    → compare_runs s t ≡ then_by (compare (value s) (value t)) (compare (length s) (length t))
unfolding compare_runs
compare_runs-value s t hs ht =
    ap (λ o. then_by o (compare (length s) (length t)))
      (by_length (trim_zeros s) (trim_zeros t) (digits-trim_zeros s hs) (digits-trim_zeros t ht)
          (bare-trim_zeros s) (bare-trim_zeros t)
        ∙ ap (λ v. compare v (value (trim_zeros t))) (value-trim_zeros s)
        ∙ ap (λ v. compare (value s) v) (value-trim_zeros t))
