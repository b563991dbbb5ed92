-- ===== src/IndexMap.antt =====
-- `indexmap::IndexMap` with text keys: its entries in the order of their insertion, no key twice. An
-- insertion overwrites the value of a key that is there, in its place, and appends a new key.
use tmx.Base.{
  ◌≡◌, refl, Bool, true, false, not, ◌&&◌, ◌||◌, Option, none, some, List, [], ◌∷◌, arith, Text,
  text_eq, text_eq_iff, if◌then◌else◌,
}

abbrev pub IndexMap {ℓ} : Type ℓ → Type ℓ
IndexMap V = List (Text × V)

module _ {ℓ} {V : Type ℓ} where
  abbrev pub find : Text → IndexMap V → Option V
  find k [] = none
  find k ((j, v) ∷ m) = if text_eq j k then some v else find k m

  abbrev pub has_key : Text → IndexMap V → Bool
  has_key k [] = false
  has_key k ((j, v) ∷ m) = text_eq j k || has_key k m

  abbrev pub put : Text → V → IndexMap V → IndexMap V
  put k v [] = (k, v) ∷ []
  put k v ((j, w) ∷ m) = if text_eq j k then (j, v) ∷ m else (j, w) ∷ put k v m

  -- No key stands twice.
  abbrev pub unique : IndexMap V → Bool
  unique [] = true
  unique ((k, v) ∷ m) = not (has_key k m) && unique m

  pub has_key-find : (k : Text) (m : IndexMap V) → (has_key k m ≡ false) → find k m ≡ none
  has_key-find k [] h = refl
  has_key-find k ((j, v) ∷ m) h = ground (arith, has_key-find k m)

  pub find-has_key : (k : Text) (m : IndexMap V) → find k m ≡ none → has_key k m ≡ false
  find-has_key k [] h = refl
  find-has_key k ((j, v) ∷ m) h = ground (arith, find-has_key k m)

  pub find-put :
      (j k : Text) (v : V) (m : IndexMap V)
      → find j (put k v m) ≡ (if text_eq k j then some v else find j m)
  find-put j k v [] = refl
  find-put j k v ((i, w) ∷ m) =
      ground (arith, text_eq_iff k j, text_eq_iff i k, text_eq_iff i j, find-put j k v m)
