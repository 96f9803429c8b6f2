-- ===== src/Sema/Bits/Copy/Moves.antt =====
-- `resize`, `<<`, `>>` and `>>>`, bit by bit.
use astli.Prelude.{
  ℕ, ◌+◌, ◌-◌, ◌≤◌, ◌<◌, ◌≡◌, refl, ap, ap₂, sym, ◌∙◌, min, Bool, true, false, ◌&&◌, Option, some,
  inl, inr, arith, Bool-cases, ltb, leb, if◌then◌else◌, ◌>>=◌,
}
use astli.Sema.Bits.{Bits, Bit, from_pair, blank, bit, top}
use astli.Sema.Bits.Fits.{IsValid, test_at, bit-test}
use astli.Sema.Bits.Put.{fill}
use astli.Sema.Bits.Put.Laws.{in_range}
use astli.Sema.Bits.Put.Fill.{pair-from_pair}
use astli.Sema.Bits.Copy.{copy_both, resize, shift_left, shift_right}
use astli.Sema.Bits.Copy.Blank.{part_of, copy_both-blank, fill-over, bit-Holds}

-- A result that is valid, of a width and signing, and whose bits are given.
abbrev pub Gives : Option Bits → ℕ → Bool → (ℕ → Option Bit) → Type 0
Gives o width signed f =
    (r : Bits) × (o ≡ some r)
    × IsValid r
    × (r.width ≡ width)
    × (r.signed ≡ signed)
    × ((i : ℕ) → i < width → bit r i ≡ f i)

pub if_true {ℓ} : {A : Type ℓ} (c : Bool) (x y : A) → c ≡ true → (if c then x else y) ≡ x
if_true c x y h = rw h refl

pub if_false {ℓ} : {A : Type ℓ} (c : Bool) (x y : A) → c ≡ false → (if c then x else y) ≡ y
if_false c x y h = rw h refl

pub Gives-ext :
    (o o' : Option Bits) (w : ℕ) (s : Bool) (f g : ℕ → Option Bit)
    → o ≡ o'
    → ((i : ℕ) → i < w → f i ≡ g i)
    → Gives o' w s f
    → Gives o w s g
Gives-ext o o' w s f g e h (r, run, valid, width, signed, at) =
    (r, e ∙ run, valid, width, signed, λ i k. at i k ∙ h i k)

top-test :
    (b : Bits)
    → IsValid b
    → top b ≡ some (from_pair (test_at b.value (b.width - 1)) (test_at b.unknown (b.width - 1)))
unfolding top
top-test b h = bit-test b (b.width - 1) h (omega (arith, h.positive))

-- A bit of a copy, within its range and without.
part_bit :
    (b : Bits) (to lo count i : ℕ)
    → IsValid b
    → in_range to count i ≡ true
    → lo + (i - to) < b.width
    → some (from_pair (part_of b.value to lo count i) (part_of b.unknown to lo count i))
      ≡ bit b (lo + (i - to))
part_bit b to lo count i h here k = rw here (sym (bit-test b (lo + (i - to)) h k))

inside_bit :
    (b : Bits) (lo count i : ℕ)
    → IsValid b
    → ltb i count ≡ true
    → lo + count ≤ b.width
    → some (from_pair (part_of b.value 0 lo count i) (part_of b.unknown 0 lo count i))
      ≡ bit b (lo + i)
inside_bit b lo count i h inside l =
    let e : lo + (i - 0) ≡ lo + i = omega arith in
    part_bit b 0 lo count i h (ground arith) (ground arith) ∙ ap (bit b) e

part_none :
    (b : Bits) (to lo count i : ℕ)
    → in_range to count i ≡ false
    → some (from_pair (part_of b.value to lo count i) (part_of b.unknown to lo count i))
      ≡ some Bit.zero
part_none b to lo count i away = rw away refl

-- A shift to the left takes bit `i` from `n` below it, and 0 for the lowest `n`.
pub shift_left-Gives :
    (b : Bits) (n : ℕ)
    → IsValid b
    → n ≤ b.width
    → Gives
        (shift_left b n)
        b.width
        b.signed
        (λ i. if leb n i then bit b (i - n) else some Bit.zero)
unfolding shift_left
shift_left-Gives b n h k =
    let (r, run, valid, w, s, at_v, at_u) =
      copy_both-blank b.width b.signed n b 0 (b.width - n) h.positive h (omega arith) in
    (
      r,
      run,
      valid,
      w,
      s,
      λ i l. bit-Holds r _ _ i valid at_v at_u (omega (arith, w)) ∙ elim (Bool-cases (leb n i)) [
        | inl inside ↦
            let e : 0 + (i - n) ≡ i - n = omega arith in
            part_bit b n 0 (b.width - n) i h (ground arith) (omega (arith, l))
            ∙ ap (bit b) e
            ∙ sym (if_true (leb n i) _ _ inside)
        | inr below ↦
            part_none b n 0 (b.width - n) i (ground arith) ∙ sym (if_false (leb n i) _ _ below)
      ],
    )

-- A copy of the bits from `lo` on, that fill the width with a bit above them, or with 0.
extended :
    (b : Bits) (width lo count : ℕ) (extend : Bool)
    → IsValid b
    → 0 < width
    → count ≤ width
    → lo + count ≤ b.width
    → Gives
        (do
          bits ← copy_both (blank width b.signed) 0 b lo count
          if extend then (do t ← top b; fill bits count width t) else some bits)
        width
        b.signed
        (λ i. if ltb i count then bit b (lo + i) else (if extend then top b else some Bit.zero))
extended b width lo count false h pos k l =
    let (r, run, valid, w, s, at_v, at_u) =
      copy_both-blank width b.signed 0 b lo count pos h (omega (arith, k)) in
    (
      r,
      rw (run, ◌>>=◌) refl,
      valid,
      w,
      s,
      λ i m.
          bit-Holds r _ _ i valid at_v at_u (omega (arith, w, m))
          ∙ elim (Bool-cases (ltb i count)) [
            | inl inside ↦
                inside_bit b lo count i h inside (omega arith)
                ∙ sym (if_true (ltb i count) _ _ inside)
            | inr above ↦
                part_none b 0 lo count i (ground arith) ∙ sym (if_false (ltb i count) _ _ above)
          ],
    )
extended b width lo count true h pos k l =
    let (r, run, valid, w, s, at_v, at_u) =
      copy_both-blank width b.signed 0 b lo count pos h (omega (arith, k)) in
    let sign : Bit = from_pair (test_at b.value (b.width - 1)) (test_at b.unknown (b.width - 1)) in
    let (t, run', valid', w', s', at_v', at_u') = fill-over r count width sign (sym w) valid in
    (
      t,
      rw (run, ◌>>=◌, top-test b h, ◌>>=◌) run',
      valid',
      w' ∙ w,
      s' ∙ s,
      λ i m.
          bit-Holds t _ _ i valid' at_v' at_u' (omega (arith, w', w, m))
          ∙ elim (Bool-cases (ltb i count)) [
            | inl inside ↦
                let not_over : (leb count i && ltb i width) ≡ false = ground arith in
                ap some (
                  ap₂ from_pair (if_false _ _ _ not_over ∙ at_v i)
                    (if_false _ _ _ not_over ∙ at_u i))
                ∙ inside_bit b lo count i h inside (omega arith)
                ∙ sym (if_true (ltb i count) _ _ inside)
            | inr above ↦
                let is_over : (leb count i && ltb i width) ≡ true = ground arith in
                ap some (
                  ap₂ from_pair (if_true _ _ _ is_over) (if_true _ _ _ is_over)
                  ∙ pair-from_pair sign)
                ∙ sym (top-test b h)
                ∙ sym (if_false (ltb i count) _ _ above)
          ],
    )

-- A shift to the right takes bit `i` from `n` above it; the highest `n` bits are the sign bit of a
-- signed value that is shifted arithmetically, and 0 otherwise.
pub shift_right-Gives :
    (b : Bits) (n : ℕ) (arithmetic : Bool)
    → IsValid b
    → n ≤ b.width
    → Gives (shift_right b n arithmetic) b.width b.signed (λ i.
      if ltb i (b.width - n)
      then bit b (n + i)
      else (if arithmetic && b.signed then top b else some Bit.zero))
unfolding shift_right
shift_right-Gives b n arithmetic h k =
    extended b b.width n (b.width - n) (arithmetic && b.signed) h h.positive (omega arith)
      (omega arith)

start_at : (i : ℕ) → 0 + i ≡ i
start_at i = omega arith

resize_run :
    (b : Bits) (width count : ℕ) (extend : Bool)
    → min width b.width ≡ count
    → (ltb b.width width && b.signed) ≡ extend
    → resize b width ≡ (do
      bits ← copy_both (blank width b.signed) 0 b 0 count
      if extend then (do t ← top b; fill bits b.width width t) else some bits)
resize_run b width count extend e f = unfold resize in rw (e, f) refl

-- `resize` keeps the bits that both widths have, and extends a signed value by its sign bit and an
-- unsigned one by 0.
pub resize-Gives :
    (b : Bits) (width : ℕ)
    → IsValid b
    → 0 < width
    → Gives
        (resize b width)
        width
        b.signed
        (λ i. if ltb i b.width then bit b i else (if b.signed then top b else some Bit.zero))
unfolding resize
resize-Gives b width h pos = elim (Bool-cases (ltb b.width width)) [
  | inl wider ↦
      Gives-ext _ _ width b.signed _ _
        (resize_run b width b.width b.signed (ground arith) (ground arith))
        (λ i k.
          ap (λ j. if ltb i b.width then bit b j else (if b.signed then top b else some Bit.zero))
            (start_at i))
        (extended b width 0 b.width b.signed h pos (ground arith) (omega arith))
  | inr narrower ↦
      Gives-ext _ _ width b.signed _ _
        (resize_run b width width false (ground arith) (ground arith))
        (λ i k.
          if_true (ltb i width) _ _ (ground arith)
          ∙ ap (bit b) (start_at i)
          ∙ sym (if_true (ltb i b.width) _ _ (ground arith)))
        (extended b width 0 width false h pos (omega arith) (ground arith))
]
