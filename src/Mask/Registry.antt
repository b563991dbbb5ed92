-- ===== src/Mask/Registry.antt =====
-- The registry of secrets: what `register` keeps, and that its assertions hold.
use tmx.Base.{
  ◌≤◌, ◌<◌, ◌≡◌, refl, subst, true, false, not, ◌&&◌, ◌||◌, List, [], ◌∷◌, ◌++◌, arith, Text,
  text_eq, text_eq_iff, text_eq_refl, length, is_empty, all, All, All-append, All-mono, leb,
  Bool-cases, inl, inr,
}
use tmx.Limits.{mask_scan_len_min_bytes}
use tmx.Error.{ok}
use tmx.Mask.{
  Masker, has, is_registered, no_secrets, insert_longest_first, sort_longest_first, push_new,
  add_secret, register,
}

has-insert :
    (t s : Text) (ts : List Text) → has (insert_longest_first s ts) t ≡ (text_eq s t || has ts t)
unfolding has insert_longest_first
has-insert t s [] = refl
has-insert t s (u ∷ ts) = ground (arith, has-insert t s ts)

has-sort : (t : Text) (ts : List Text) → has (sort_longest_first ts) t ≡ has ts t
unfolding has sort_longest_first
has-sort t [] = refl
has-sort t (s ∷ ts) = ground (arith, has-insert t s (sort_longest_first ts), has-sort t ts)

has-append : (t : Text) (xs ys : List Text) → has (xs ++ ys) t ≡ (has xs t || has ys t)
unfolding has
has-append t [] ys = refl
has-append t (x ∷ xs) ys = ground (arith, has-append t xs ys)

not_new : (s : Text) (ts : List Text) → all (λ e. not (text_eq e s)) ts ≡ not (has ts s)
unfolding has
not_new s [] = refl
not_new s (t ∷ ts) = ground (arith, not_new s ts)

has-one : (t s : Text) → has (s ∷ []) t ≡ text_eq s t
unfolding has
has-one t s = ground arith

has-push_new : (t s : Text) (ts : List Text) → has (push_new ts s) t ≡ (text_eq s t || has ts t)
unfolding push_new
has-push_new t s ts =
    ground (arith, not_new s ts, has-append t ts (s ∷ []), text_eq_iff s t, has-one t s)

-- The registry after `register` holds the new secret, if it is not empty, and what it held.
is_registered-add_secret :
    (t s : Text) (m : Masker)
    → is_registered (add_secret s m) t ≡ (text_eq s t || is_registered m t)
unfolding is_registered add_secret
is_registered-add_secret t s m = ground (
  arith,
  has-sort t m.substring,
  has-sort t (push_new m.substring s),
  has-push_new t s m.substring,
  has-push_new t s m.exact,
)

pub any_registered : (s : Text) (m : Masker) → is_registered m s ≡ true → no_secrets m ≡ false
unfolding is_registered no_secrets has
any_registered s m h = ground arith

-- No assertion of `register` fails. An empty value changes nothing; after any other, exactly it and
-- what was registered before are registered.
pub register_lem :
    (s : Text) (m : Masker)
    → (m' : Masker) × (register s m ≡ ok m')
      × ((t : Text) → is_registered m' t ≡ ((not (is_empty s) && text_eq s t) || is_registered m t))
unfolding register
register_lem [] m = (m, refl, λ t. refl)
register_lem (c ∷ s) m =
    let now = is_registered-add_secret (c ∷ s) (c ∷ s) m in
    let same = text_eq_refl (c ∷ s) in
    let there : is_registered (add_secret (c ∷ s) m) (c ∷ s) ≡ true = ground (arith, now, same) in
    (
      add_secret (c ∷ s) m,
      ground (arith, there, any_registered (c ∷ s) (add_secret (c ∷ s) m) there),
      (λ t. is_registered-add_secret t (c ∷ s) m),
    )

-- The buckets: what is scanned for is at least as long as the floor and stands longest first, what
-- is only compared is shorter than the floor and not empty.
abbrev pub LongestFirst : List Text → Type 0
LongestFirst [] = Unit
LongestFirst (s ∷ ss) = All (λ t. length t ≤ length s) ss × LongestFirst ss

pub record IsBucketed (m : Masker) : Type 0 where
  pub scanned : All (λ s. mask_scan_len_min_bytes ≤ length s) m.substring
  pub ordered : LongestFirst m.substring
  pub compared : All (λ s. (0 < length s) × (length s < mask_scan_len_min_bytes)) m.exact

All-insert :
    (P : Text → Type 0) (s : Text) (ts : List Text)
    → P s
    → All P ts
    → All P (insert_longest_first s ts)
unfolding insert_longest_first
All-insert P s [] h hs = (h, tt)
All-insert P s (t ∷ ts) h hs = elim (Bool-cases (leb (length t) (length s))) [
  | inl longer ↦ rw (longer, insert_longest_first) (h, hs)
  | inr shorter ↦ rw (shorter, insert_longest_first) (hs.0, All-insert P s ts h hs.1)
]

All-sort : (P : Text → Type 0) (ts : List Text) → All P ts → All P (sort_longest_first ts)
unfolding sort_longest_first
All-sort P [] hs = tt
All-sort P (t ∷ ts) hs = All-insert P t (sort_longest_first ts) hs.0 (All-sort P ts hs.1)

LongestFirst-insert :
    (s : Text) (ts : List Text) → LongestFirst ts → LongestFirst (insert_longest_first s ts)
unfolding insert_longest_first
LongestFirst-insert s [] hs = (tt, tt)
LongestFirst-insert s (t ∷ ts) hs = elim (Bool-cases (leb (length t) (length s))) [
  | inl longer ↦
      rw (longer, insert_longest_first)
        ((ground arith, All-mono (λ u. length u ≤ length t) _ ts (λ u h. ground arith) hs.0), hs)
  | inr shorter ↦
      rw (shorter, insert_longest_first)
        (
          All-insert (λ u. length u ≤ length t) s ts (ground arith) hs.0,
          LongestFirst-insert s ts hs.1,
        )
]

LongestFirst-sort : (ts : List Text) → LongestFirst (sort_longest_first ts)
unfolding sort_longest_first
LongestFirst-sort [] = tt
LongestFirst-sort (t ∷ ts) = LongestFirst-insert t (sort_longest_first ts) (LongestFirst-sort ts)

All-push_new :
    (P : Text → Type 0) (s : Text) (ts : List Text) → P s → All P ts → All P (push_new ts s)
unfolding push_new
All-push_new P s ts h hs = elim (Bool-cases (all (λ e. not (text_eq e s)) ts)) [
  | inl fresh ↦ rw (fresh, push_new) (All-append P ts (s ∷ []) hs (h, tt))
  | inr old ↦ rw (old, push_new) hs
]

-- Registering a value keeps each bucket's bounds and order.
pub add_secret-IsBucketed :
    (s : Text) (m : Masker) → 0 < length s → IsBucketed m → IsBucketed (add_secret s m)
unfolding add_secret
add_secret-IsBucketed s m pos v = elim (Bool-cases (leb mask_scan_len_min_bytes (length s))) [
  | inl long ↦
      rw (long, add_secret)
        (record {
          scanned = All-sort _ _ (All-push_new _ s m.substring (ground arith) v.scanned);
          ordered = LongestFirst-sort _;
          compared = v.compared;
        })
  | inr short ↦
      rw (short, add_secret)
        (record {
          scanned = All-sort _ _ v.scanned;
          ordered = LongestFirst-sort _;
          compared = All-push_new _ s m.exact (pos, ground arith) v.compared;
        })
]

-- `register` keeps each bucket's bounds and order: what is scanned for is at least as long as the
-- floor, longest first, and what is only compared is shorter than the floor and not empty.
pub register-IsBucketed :
    (s : Text) (m m' : Masker) → IsBucketed m → register s m ≡ ok m' → IsBucketed m'
unfolding register
register-IsBucketed [] m m' v e = subst IsBucketed (cc) v
register-IsBucketed (c ∷ s) m m' v e =
    let kept = add_secret-IsBucketed (c ∷ s) m (omega arith) v in
    subst IsBucketed (ground arith) kept
