-- ===== src/Sema/Bits/Arithmetic/Result.antt =====
-- What an operator gives: all `x`, or the number that its limbs stand for at the width.
use native.Mathlib.Nat.{mul_assoc, add-mul-mod_self_left, div-add-mod}
use astli.Prelude.{
  ℕ, zero, suc, ◌+◌, ◌-◌, ◌*◌, ◌/◌, ◌%◌, ◌^◌, ◌≡◌, refl, ap, sym, ◌∙◌, Bool, true, false, Option,
  some, List, [], ◌∷◌, arith, All, length, replicate, any, if◌then◌else◌,
}
use astli.Sema.Bits.{Bits, Bit, has_unknown, not_zero}
use astli.Sema.Bits.Fits.{Loose, IsValid}
use astli.Sema.Bits.Masked.{zeros-Fits}
use astli.Sema.Bits.Number.{number, room, IsLimb, Loose-room, length-Loose}
use astli.Sema.Bits.Number.Mask.{masked-number}
use astli.Sema.Bits.Put.{all_x}
use astli.Sema.Bits.Put.Fill.{filled-bit}
use astli.Sema.Bits.Copy.Moves.{Gives}
use astli.Sema.Bits.Arithmetic.{with_limbs}

-- A result that is valid, of a width and signing, without an unknown bit, and stands for a number.
abbrev pub IsNumber : Option Bits → ℕ → Bool → ℕ → Type 0
IsNumber o width signed n =
    (r : Bits) × (o ≡ some r)
    × IsValid r
    × (r.width ≡ width)
    × (r.signed ≡ signed)
    × (has_unknown r ≡ false)
    × (number r.value ≡ n)

pub zeros_known : (n : ℕ) → any not_zero (replicate n 0) ≡ false
zeros_known zero = refl
zeros_known (suc n) = zeros_known n

-- The remainder by what the limbs have room for does not matter to that by the width.
mod_room : (w : ℕ) (ls : List ℕ) (x : ℕ) → Loose w ls → x % room (length ls) % 2 ^ w ≡ x % 2 ^ w
mod_room w ls x h =
    let (k, e) = Loose-room w ls h in
    let r = room (length ls) in
    let q = x / r in
    let whole : r * q ≡ 2 ^ w * (k * q) = ap (λ y. y * q) e ∙ mul_assoc (2 ^ w) k q in
    let split : x ≡ x % r + 2 ^ w * (k * q) = omega (arith, div-add-mod x r) in
    sym (ap (λ y. y % 2 ^ w) split ∙ add-mul-mod_self_left (x % r) (2 ^ w) (k * q))

pub with_limbs-IsNumber :
    (a : Bits) (ls : List ℕ) (x : ℕ)
    → IsValid a
    → Loose a.width ls
    → number ls ≡ x % room (length ls)
    → IsNumber (with_limbs a ls) a.width a.signed (x % 2 ^ a.width)
unfolding with_limbs has_unknown
with_limbs-IsNumber a ls x h loose e =
    let n = length ls in
    let (vs, run, fits, num) =
      masked-number (record a { value = ls; unknown = replicate n 0 }) n h.positive loose refl
        (length-Loose a.width ls loose) in
    (
      record a { value = vs; unknown = replicate n 0 },
      run,
      record {
        positive = h.positive;
        value_fits = fits;
        unknown_fits = zeros-Fits n a.width (length-Loose a.width ls loose);
      },
      refl,
      refl,
      zeros_known n,
      num ∙ ap (λ y. y % 2 ^ a.width) e ∙ mod_room a.width ls x loose,
    )

-- The limbs of a result are as many as those of an operand.
pub Loose-of :
    (w : ℕ) (ls rs : List ℕ) → length rs ≡ length ls → All IsLimb rs → Loose w ls → Loose w rs
Loose-of w [] [] e k h = h
Loose-of w [] (r ∷ rs) e k h = absurd (omega arith)
Loose-of w (l ∷ ls) [] e k h = absurd (omega arith)
Loose-of w (l ∷ ls) (r ∷ rs) e k h = (h.0, k.0, Loose-of (w - 64) ls rs (omega arith) k.1 h.2)

-- All `x` where a bit of an operand is unknown, and a number where none is.
abbrev pub Computes : Bool → Option Bits → ℕ → Bool → ℕ → Type 0
Computes true o width signed n = Gives o width signed (λ i. some Bit.x)
Computes false o width signed n = IsNumber o width signed n

pub either :
    (c : Bool) (a : Bits) (o : Option Bits) (n : ℕ)
    → IsValid a
    → IsNumber o a.width a.signed n
    → Computes c (if c then all_x a.width a.signed else o) a.width a.signed n
either true a o n h known = unfold all_x in filled-bit a.width a.signed Bit.x h.positive
either false a o n h known = known
