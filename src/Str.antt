-- ===== src/Str.antt =====
-- The operations of `str` that the engine uses, over the bytes of a text: `starts_with`, `contains`,
-- and `replace`, which takes the leftmost occurrences that do not overlap. The pattern of a
-- `replace` is not empty.
pub mod Laws
use tmx.Base.{
  ℕ, zero, suc, ◌-◌, Bool, true, false, ◌&&◌, ◌||◌, [], ◌∷◌, ◌++◌, Text, length, is_empty, ◌==◌,
}

unfoldable pub starts_with : Text → Text → Bool
starts_with [] h = true
starts_with (x ∷ t) [] = false
starts_with (x ∷ t) (c ∷ h) = x == c && starts_with t h

unfoldable pub contains : Text → Text → Bool
unfolding starts_with
contains t [] = is_empty t
contains t (c ∷ h) = starts_with t (c ∷ h) || contains t h

-- `skip` counts the bytes of a match that are still to be passed over.
unfoldable pub replace_from : ℕ → Text → Text → Text → Text
unfolding starts_with
replace_from skip t with_text [] = []
replace_from (suc skip) t with_text (c ∷ h) = replace_from skip t with_text h
replace_from zero t with_text (c ∷ h) = elim (starts_with t (c ∷ h)) [
  | true ↦ with_text ++ replace_from (length t - 1) t with_text h
  | false ↦ c ∷ replace_from zero t with_text h
]

-- `h.replace(t, with_text)`
unfoldable pub replace : Text → Text → Text → Text
unfolding replace_from
replace t with_text h = replace_from 0 t with_text h
