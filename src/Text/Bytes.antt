-- ===== src/Text/Bytes.antt =====
-- Slices of a text, which is the list of its bytes in UTF-8: `&text[from..to]`. A slice panics out of range, with
-- its start past its end, and where an end of it is within a character: `none`.
use astli.Prelude.{
  ℕ, zero, suc, ◌-◌, ◌≡◌, ◌≤◌, Bool, true, false, Option, none, some, List, [], ◌∷◌, ◌&&◌, ◌||◌,
  ltb, leb, if◌then◌else◌, length, take, drop, refl, arith,
}

-- `is_char_boundary`: the start, the end, and every byte that does not continue a character, which those
-- from 128 to 191 do.
abbrev pub is_boundary : List ℕ → ℕ → Bool
is_boundary bytes zero = true
is_boundary [] (suc i) = false
is_boundary (b ∷ []) (suc zero) = true
is_boundary (b ∷ c ∷ bytes) (suc zero) = ltb c 128 || leb 192 c
is_boundary (b ∷ bytes) (suc (suc i)) = is_boundary bytes (suc i)

unfoldable pub str_slice : List ℕ → ℕ → ℕ → Option (List ℕ)
str_slice source from to =
    if leb from to && leb to (length source) && is_boundary source from && is_boundary source to
    then some (take (to - from) (drop from source))
    else none

pub is_boundary-length : (bytes : List ℕ) → is_boundary bytes (length bytes) ≡ true
is_boundary-length [] = refl
is_boundary-length (b ∷ []) = refl
is_boundary-length (b ∷ c ∷ bytes) = is_boundary-length (c ∷ bytes)

pub str_slice_lem :
    (source : List ℕ) (from to : ℕ)
    → from ≤ to
    → to ≤ length source
    → is_boundary source from ≡ true
    → is_boundary source to ≡ true
    → str_slice source from to ≡ some (take (to - from) (drop from source))
unfolding str_slice
str_slice_lem source from to h k p q = ground arith
