-- ===== src/Str/Laws.antt =====
-- What a replacement leaves of the texts that it does and does not look for.
use tmx.Base.{
  ℕ, zero, suc, ◌-◌, ◌≡◌, refl, Bool, true, false, [], ◌∷◌, ◌++◌, arith, append_assoc, Text, length,
  is_empty, ◌==◌, Bool-cases, inl, inr, all, not,
}
use tmx.Str.{starts_with, contains, replace_from, replace}

-- The byte `b` does not occur in the text.
abbrev pub lacks : ℕ → Text → Bool
lacks b t = all (λ c. not (c == b)) t

-- An occurrence of a text that lacks `b` does not reach across `b`.
starts_with-across :
    (b : ℕ) (t u v : Text)
    → lacks b t ≡ true
    → starts_with t u ≡ false
    → starts_with t (u ++ b ∷ v) ≡ false
unfolding starts_with
starts_with-across b [] u v l h = h
starts_with-across b (x ∷ t) [] v l h = ground arith
starts_with-across b (x ∷ t) (c ∷ u) v l h = ground (arith, starts_with-across b t u v)

pub contains-across :
    (b : ℕ) (t u v : Text)
    → lacks b t ≡ true
    → contains t u ≡ false
    → contains t v ≡ false
    → contains t (u ++ b ∷ v) ≡ false
unfolding contains
contains-across b [] [] v l h k = h
contains-across b (x ∷ t) [] v l h k = ground arith
contains-across b t (c ∷ u) v l h k =
    ground (arith, starts_with-across b t (c ∷ u) v l, contains-across b t u v l)

-- A text that lacks the first byte of the replacement and starts the result starts the original.
starts_with-replace_from :
    (s : Text) (b : ℕ) (r t h : Text)
    → lacks b t ≡ true
    → starts_with t h ≡ false
    → starts_with t (replace_from 0 s (b ∷ r) h) ≡ false
unfolding starts_with replace_from
starts_with-replace_from s b r [] h l n = n
starts_with-replace_from s b r (x ∷ t) [] l n = refl
starts_with-replace_from s b r (x ∷ t) (c ∷ h) l n = elim (Bool-cases (starts_with s (c ∷ h))) [
  | inl match ↦ rw (match, replace_from) (ground arith)
  | inr other ↦ rw (other, replace_from) (ground (arith, starts_with-replace_from s b r t h))
]

-- The replacement is `b`, `w` and `b'`, and neither byte occurs in `t`: where `t` does not occur in
-- `w`, the replacement of `s` makes no new occurrence of `t`, and leaves none of `s` itself.
starts-cons :
    (s : Text) (b : ℕ) (r t : Text) (c : ℕ) (h : Text)
    → lacks b t ≡ true
    → starts_with t (c ∷ h) ≡ false
    → starts_with t (c ∷ replace_from 0 s (b ∷ r) h) ≡ false
unfolding starts_with
starts-cons s b r [] c h l n = n
starts-cons s b r (x ∷ t) c h l n = ground (arith, starts_with-replace_from s b r t h)

contains-tail : (t : Text) (c : ℕ) (h : Text) → contains t (c ∷ h) ≡ false → contains t h ≡ false
unfolding contains
contains-tail t c h n = ground arith

starts-none :
    (t : Text) (c : ℕ) (h : Text) → contains t (c ∷ h) ≡ false → starts_with t (c ∷ h) ≡ false
unfolding contains
starts-none t c h n = ground arith

module _ (s t w : Text) (b b' : ℕ) (la : lacks b t ≡ true) (lb : lacks b' t ≡ true)
    (lw : contains t w ≡ false) (ne : is_empty t ≡ false) where
  abbrev pub marker : Text
  marker = b ∷ (w ++ b' ∷ [])

  contains-nil : contains t [] ≡ false
  unfolding contains
  contains-nil = ne

  contains-marker : (v : Text) → contains t v ≡ false → contains t (marker ++ v) ≡ false
  contains-marker v h =
      rw (append_assoc w (b' ∷ []) v)
        (contains-across b t [] (w ++ b' ∷ v) la (contains-nil) (contains-across b' t w v lb lw h))

  step :
      (h : Text) (c : ℕ)
      → starts_with t (c ∷ h) ≡ false
      → contains t (replace_from 0 s marker h) ≡ false
      → contains t (c ∷ replace_from 0 s marker h) ≡ false
  unfolding contains
  step h c n k = ground (arith, starts-cons s b (w ++ b' ∷ []) t c h la n)

  -- A text that does not occur in `h` does not occur in `h` with `s` replaced.
  pub contains-replace_other :
      (skip : ℕ) (h : Text)
      → contains t h ≡ false
      → contains t (replace_from skip s marker h) ≡ false
  unfolding replace_from
  contains-replace_other skip [] n = n
  contains-replace_other (suc skip) (c ∷ h) n =
      contains-replace_other skip h (contains-tail t c h n)
  contains-replace_other zero (c ∷ h) n = elim (Bool-cases (starts_with s (c ∷ h))) [
    | inl match ↦
        rw (match, replace_from)
          (contains-marker _ (contains-replace_other (length s - 1) h (contains-tail t c h n)))
    | inr other ↦
        rw (other, replace_from)
          (step h c (starts-none t c h n) (contains-replace_other zero h (contains-tail t c h n)))
  ]

-- The replacement of a text that does not occur in the replacement leaves no occurrence of it.
pub contains-replace_self :
    (s w : Text) (b b' : ℕ)
    → lacks b s ≡ true
    → lacks b' s ≡ true
    → contains s w ≡ false
    → is_empty s ≡ false
    → (skip : ℕ) (h : Text) → contains s (replace_from skip s (b ∷ (w ++ b' ∷ [])) h) ≡ false
unfolding replace_from
contains-replace_self s w b b' la lb lw ne skip [] = contains-nil s s w b b' la lb lw ne
contains-replace_self s w b b' la lb lw ne (suc skip) (c ∷ h) =
    contains-replace_self s w b b' la lb lw ne skip h
contains-replace_self s w b b' la lb lw ne zero (c ∷ h) =
    elim (Bool-cases (starts_with s (c ∷ h))) [
      | inl match ↦
          rw (match, replace_from)
            (contains-marker s s w b b' la lb lw ne _
              (contains-replace_self s w b b' la lb lw ne (length s - 1) h))
      | inr other ↦
          rw (other, replace_from)
            (step s s w b b' la lb lw ne h c other
              (contains-replace_self s w b b' la lb lw ne zero h))
    ]

replace_from-id : (s r h : Text) → contains s h ≡ false → replace_from 0 s r h ≡ h
unfolding contains replace_from
replace_from-id s r [] n = refl
replace_from-id s r (c ∷ h) n =
    rw (starts-none s c h n, replace_from) (ground (arith, replace_from-id s r h))

-- A text in which `s` does not occur is left as it is.
pub replace-id : (s r h : Text) → contains s h ≡ false → replace s r h ≡ h
unfolding replace
replace-id = replace_from-id

starts_with-append : (s u v : Text) → starts_with s u ≡ true → starts_with s (u ++ v) ≡ true
unfolding starts_with
starts_with-append [] u v h = refl
starts_with-append (x ∷ s) [] v h = ground arith
starts_with-append (x ∷ s) (c ∷ u) v h = ground (arith, starts_with-append s u v)

contains-of_empty : (s v : Text) → is_empty s ≡ true → contains s v ≡ true
unfolding contains starts_with
contains-of_empty [] [] h = refl
contains-of_empty [] (c ∷ v) h = refl
contains-of_empty (x ∷ s) v h = cc

pub contains-append : (s u v : Text) → contains s u ≡ true → contains s (u ++ v) ≡ true
unfolding contains
contains-append s [] v h = contains-of_empty s v h
contains-append s (c ∷ u) v h =
    ground (arith, starts_with-append s (c ∷ u) v, contains-append s u v)

occurs-replace_from :
    (s r h : Text)
    → contains s r ≡ true
    → contains s h ≡ true
    → is_empty s ≡ false
    → contains s (replace_from 0 s r h) ≡ true
unfolding contains replace_from
occurs-replace_from s r [] inside k ne = k
occurs-replace_from s r (c ∷ h) inside k ne = elim (Bool-cases (starts_with s (c ∷ h))) [
  | inl match ↦
      rw (match, replace_from) (contains-append s r (replace_from (length s - 1) s r h) inside)
  | inr other ↦
      rw (other, replace_from) (ground (arith, occurs-replace_from s r h inside (ground arith) ne))
]

-- A text that occurs in the replacement still occurs once its occurrences are replaced.
pub contains-replace_within :
    (s r h : Text)
    → contains s r ≡ true
    → contains s h ≡ true
    → is_empty s ≡ false
    → contains s (replace s r h) ≡ true
unfolding replace
contains-replace_within = occurs-replace_from
