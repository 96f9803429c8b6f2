-- ===== src/Sema/Bits/Copy/Shifts.antt =====
-- The shifts by a value: `shl` and `shr`, with the number that their amount stands for.
use astli.Prelude.{
  ℕ, zero, suc, ◌+◌, ◌-◌, ◌*◌, ◌^◌, ◌<◌, ◌≡◌, refl, sym, ◌∙◌, min, Bool, true, false, ◌&&◌, Option,
  none, some, List, [], ◌∷◌, inl, inr, arith, any, Bool-cases, ltb, leb, if◌then◌else◌, ◌>>=◌,
}
use astli.Sema.Bits.{Bits, Bit, bit, top, has_unknown, not_zero}
use astli.Sema.Bits.Fits.{Fits, IsValid}
use astli.Sema.Bits.Number.{number}
use astli.Sema.Bits.Put.{all_x}
use astli.Sema.Bits.Put.Fill.{filled-bit}
use astli.Sema.Bits.Copy.{amount, shift_left, shift_right, shl_bits, shr_bits}
use astli.Sema.Bits.Copy.Moves.{
  Gives, if_true, if_false, Gives-ext, shift_left-Gives, shift_right-Gives,
}

number_of_any : (ls : List ℕ) → any not_zero ls ≡ true → 0 < number ls
unfolding number
number_of_any [] h = cc
number_of_any (zero ∷ ls) h = omega (arith, number_of_any ls (ground arith))
number_of_any (suc l ∷ ls) h = omega arith

number_of_none : (ls : List ℕ) → any not_zero ls ≡ false → number ls ≡ 0
unfolding number
number_of_none [] h = refl
number_of_none (zero ∷ ls) h = omega (arith, number_of_none ls (ground arith))
number_of_none (suc l ∷ ls) h = ground arith

-- The amount is the number, or the width where that is less.
amount_value :
    (w : ℕ) (ls : List ℕ) (width : ℕ)
    → Fits w ls
    → 0 < w
    → width < 2 ^ 32
    → elim ls [ [] ↦ none | l ∷ ls ↦ some (some (if any not_zero ls then width else min l width)) ]
      ≡ some (some (min (number ls) width))
unfolding number
amount_value w [] width h p k = absurd (omega arith)
amount_value w (l ∷ ls) width h p k = elim (Bool-cases (any not_zero ls)) [
  | inl large ↦
      let e : min (l + 2 ^ 64 * number ls) width ≡ width = omega (arith, number_of_any ls large) in
      rw (large, e) refl
  | inr small ↦
      let e : l + 2 ^ 64 * number ls ≡ l = omega (arith, number_of_none ls small) in
      rw (small, e) refl
]

amount_known :
    (b : Bits) (width : ℕ)
    → IsValid b
    → width < 2 ^ 32
    → has_unknown b ≡ false
    → amount b width ≡ some (some (min (number b.value) width))
unfolding amount
amount_known b width h k known =
    rw known (amount_value b.width b.value width h.value_fits h.positive k)

amount_unknown : (b : Bits) (width : ℕ) → has_unknown b ≡ true → amount b width ≡ some none
unfolding amount
amount_unknown b width unknown = rw unknown refl

all_x-Gives : (w : ℕ) (signed : Bool) → 0 < w → Gives (all_x w signed) w signed (λ i. some Bit.x)
unfolding all_x
all_x-Gives w signed pos = filled-bit w signed Bit.x pos

-- A shift past the width is as good as one by the width.
clamp_left :
    (f : ℕ → Option Bit) (m w i : ℕ)
    → i < w
    → (if leb (min m w) i then f (i - min m w) else some Bit.zero)
      ≡ (if leb m i then f (i - m) else some Bit.zero)
clamp_left f m w i k = elim (Bool-cases (leb m i)) [
  | inl within ↦ let e : min m w ≡ m = ground arith in rw e refl
  | inr beyond ↦ if_false (leb (min m w) i) _ _ (ground arith) ∙ sym (if_false (leb m i) _ _ beyond)
]

clamp_right :
    (f : ℕ → Option Bit) (z : Option Bit) (m w i : ℕ)
    → i < w
    → (if ltb i (w - min m w) then f (min m w + i) else z)
      ≡ (if ltb (m + i) w then f (m + i) else z)
clamp_right f z m w i k = elim (Bool-cases (ltb (m + i) w)) [
  | inl within ↦
      let e : min m w ≡ m = ground arith in
      rw e (if_true (ltb i (w - m)) _ _ (ground arith)) ∙ sym (if_true (ltb (m + i) w) _ _ within)
  | inr beyond ↦
      if_false (ltb i (w - min m w)) _ _ (ground arith) ∙ sym (if_false (ltb (m + i) w) _ _ beyond)
]

-- `<<` by a value: all `x` where that has an unknown bit, and otherwise a shift by the number it
-- stands for, however large.
pub shl_bits-Gives :
    (b by : Bits)
    → IsValid b
    → IsValid by
    → b.width < 2 ^ 32
    → Gives (shl_bits b by) b.width b.signed (λ i.
      if has_unknown by
      then some Bit.x
      else (if leb (number by.value) i then bit b (i - number by.value) else some Bit.zero))
shl_bits-Gives b by h hb k = elim (Bool-cases (has_unknown by)) [
  | inl unknown ↦
      Gives-ext _ (all_x b.width b.signed) b.width b.signed (λ i. some Bit.x) _
        (shl_unknown b by unknown) (λ i l. sym (if_true (has_unknown by) _ _ unknown))
        (all_x-Gives b.width b.signed h.positive)
  | inr known ↦
      let n = min (number by.value) b.width in
      Gives-ext _ (shift_left b n) b.width b.signed _ _
        (shl_known b by n (amount_known by b.width hb k known))
        (λ i l.
          clamp_left (bit b) (number by.value) b.width i l
          ∙ sym (if_false (has_unknown by) _ _ known))
        (shift_left-Gives b n h (omega arith))
]
  where
    shl_unknown : (b by : Bits) → has_unknown by ≡ true → shl_bits b by ≡ all_x b.width b.signed
    shl_unknown b by q = unfold shl_bits in rw (amount_unknown by b.width q, ◌>>=◌) refl

    shl_known :
        (b by : Bits) (n : ℕ) → amount by b.width ≡ some (some n) → shl_bits b by ≡ shift_left b n
    shl_known b by n q = unfold shl_bits in rw (q, ◌>>=◌) refl

-- `>>` and `>>>` by a value: all `x` where that has an unknown bit, and otherwise a shift by the number
-- it stands for, however large, that fills with 0 or, for `>>>` of a signed value, with its sign bit.
pub shr_bits-Gives :
    (b by : Bits) (arithmetic : Bool)
    → IsValid b
    → IsValid by
    → b.width < 2 ^ 32
    → Gives (shr_bits b by arithmetic) b.width b.signed (λ i.
      if has_unknown by
      then some Bit.x
      else (if ltb (number by.value + i) b.width
          then bit b (number by.value + i)
          else (if arithmetic && b.signed then top b else some Bit.zero)))
shr_bits-Gives b by arithmetic h hb k = elim (Bool-cases (has_unknown by)) [
  | inl unknown ↦
      Gives-ext _ (all_x b.width b.signed) b.width b.signed (λ i. some Bit.x) _
        (shr_unknown b by unknown) (λ i l. sym (if_true (has_unknown by) _ _ unknown))
        (all_x-Gives b.width b.signed h.positive)
  | inr known ↦
      let n = min (number by.value) b.width in
      Gives-ext _ (shift_right b n arithmetic) b.width b.signed _ _
        (shr_known b by n (amount_known by b.width hb k known))
        (λ i l.
          clamp_right (bit b) (if arithmetic && b.signed then top b else some Bit.zero)
            (number by.value) b.width i l
          ∙ sym (if_false (has_unknown by) _ _ known))
        (shift_right-Gives b n arithmetic h (omega arith))
]
  where
    shr_unknown :
        (b by : Bits) → has_unknown by ≡ true → shr_bits b by arithmetic ≡ all_x b.width b.signed
    shr_unknown b by q = unfold shr_bits in rw (amount_unknown by b.width q, ◌>>=◌) refl

    shr_known :
        (b by : Bits) (n : ℕ)
        → amount by b.width ≡ some (some n)
        → shr_bits b by arithmetic ≡ shift_right b n arithmetic
    shr_known b by n q = unfold shr_bits in rw (q, ◌>>=◌) refl
