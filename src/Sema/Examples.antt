-- ===== src/Sema/Examples.antt =====
-- Runs and instances of the theorems about crates/astli-sema, at inputs of its own tests.
use Prim.Native.Nat.Ordering.{lt}
use astli.Prelude.{
  true, ◌^◌, ◌-◌, ◌+◌, ◌*◌, ◌%◌, ltb, leb, if◌then◌else◌, ◌≡◌, refl, some, [], ◌∷◌, arith, false,
}
use astli.Sema.Bits.{Bits, Bit, bit, has_unknown, with_signed}
use astli.Sema.Bits.Number.{number}
use astli.Sema.Bits.Put.{filled}
use astli.Sema.Bits.Put.Fill.{filled-bit}
use astli.Sema.Bits.Copy.{resize, shl_bits, shr_bits}
use astli.Sema.Bits.Copy.Moves.{Gives, resize-Gives}
use astli.Sema.Bits.Copy.Shifts.{shl_bits-Gives, shr_bits-Gives}
use astli.Sema.Bits.Arithmetic.{add, sub, mul, neg, compare_bits}
use astli.Sema.Bits.Arithmetic.Result.{Computes}
use astli.Sema.Bits.Arithmetic.Laws.{add-Computes, sub-Computes, neg-Computes, mul-Computes}
use astli.Sema.Bits.Arithmetic.Compare.{compare_bits-rank}
use astli.Sema.Bits.Fits.{IsValid}
use astli.Sema.Bits.Bitwise
use astli.Sema.Bits.Bitwise.Closures.{not4, and4, or4, xor4, merge4}
use astli.Sema.Bits.Bitwise.Laws.{
  IsBitwise, and-IsBitwise, or-IsBitwise, xor-IsBitwise, merge-IsBitwise, xnor-IsBitwise,
}

-- 4'b10xz and 4'b1100.
abbrev a : Bits
a = record { width = 4; signed = false; value = 10 ∷ []; unknown = 3 ∷ [] }

abbrev b : Bits
b = record { width = 4; signed = false; value = 12 ∷ []; unknown = 0 ∷ [] }

abbrev three : Bits
three = record { width = 2; signed = false; value = 3 ∷ []; unknown = 0 ∷ [] }

three-IsValid : IsValid three
three-IsValid = omega arith

a-IsValid : IsValid a
a-IsValid = omega arith

b-IsValid : IsValid b
b-IsValid = omega arith

and_runs : Bitwise.and a b ≡ some (record a { value = 8 ∷ []; unknown = 0 ∷ [] })
unfolding Bitwise.and
and_runs = refl

or_runs : Bitwise.or a b ≡ some (record a { value = 15 ∷ []; unknown = 3 ∷ [] })
unfolding Bitwise.or
or_runs = refl

and-IsBitwise_example : IsBitwise and4 a b (Bitwise.and a b)
and-IsBitwise_example = and-IsBitwise a b a-IsValid b-IsValid refl

or-IsBitwise_example : IsBitwise or4 a b (Bitwise.or a b)
or-IsBitwise_example = or-IsBitwise a b a-IsValid b-IsValid refl

xor-IsBitwise_example : IsBitwise xor4 a b (Bitwise.xor a b)
xor-IsBitwise_example = xor-IsBitwise a b a-IsValid b-IsValid refl

merge-IsBitwise_example : IsBitwise merge4 a b (Bitwise.merge a b)
merge-IsBitwise_example = merge-IsBitwise a b a-IsValid b-IsValid refl

xnor-IsBitwise_example : IsBitwise (λ p q. not4 (xor4 p q)) a b (Bitwise.xnor a b)
xnor-IsBitwise_example = xnor-IsBitwise a b a-IsValid b-IsValid refl

filled_runs :
    filled 70 true Bit.z
    ≡ some
        (record { width = 70; signed = true; value = 0 ∷ 0 ∷ []; unknown = (2 ^ 64 - 1) ∷ 63 ∷ [] })
unfolding filled
filled_runs = refl

resize_runs :
    resize (with_signed b true) 6
    ≡ some (record { width = 6; signed = true; value = 60 ∷ []; unknown = 0 ∷ [] })
unfolding resize
resize_runs = refl

shl_runs : shl_bits a three ≡ some (record a { value = 0 ∷ []; unknown = 8 ∷ [] })
unfolding shl_bits
shl_runs = refl

shr_runs :
    shr_bits (with_signed b true) three true ≡ some (record b { signed = true; value = 15 ∷ [] })
unfolding shr_bits
shr_runs = refl

filled-bit_example : Gives (filled 70 true Bit.z) 70 true (λ i. some Bit.z)
filled-bit_example = filled-bit 70 true Bit.z (omega arith)

resize-Gives_example :
    Gives (resize a 70) 70 false (λ i. if ltb i 4 then bit a i else some Bit.zero)
resize-Gives_example = resize-Gives a 70 a-IsValid (omega arith)

shl_bits-Gives_example : Gives (shl_bits a three) 4 false (λ i.
    if has_unknown three
    then some Bit.x
    else (if leb (number (3 ∷ [])) i then bit a (i - number (3 ∷ [])) else some Bit.zero))
shl_bits-Gives_example = shl_bits-Gives a three a-IsValid three-IsValid (omega arith)

shr_bits-Gives_example : Gives (shr_bits a three true) 4 false (λ i.
    if has_unknown three
    then some Bit.x
    else (if ltb (number (3 ∷ []) + i) 4 then bit a (number (3 ∷ []) + i) else some Bit.zero))
shr_bits-Gives_example = shr_bits-Gives a three true a-IsValid three-IsValid (omega arith)

-- 4'b0101, and two values of 70 bits with a carry between their limbs.
abbrev five : Bits
five = record b { value = 5 ∷ [] }

five-IsValid : IsValid five
five-IsValid = omega arith

abbrev wide : Bits
wide = record { width = 70; signed = false; value = (2 ^ 64 - 1) ∷ 3 ∷ []; unknown = 0 ∷ 0 ∷ [] }

wide-IsValid : IsValid wide
wide-IsValid = omega arith

add_runs : add wide wide ≡ some (record wide { value = (2 ^ 64 - 2) ∷ 7 ∷ [] })
unfolding add
add_runs = refl

sub_runs : sub five b ≡ some (record b { value = 9 ∷ [] })
unfolding sub
sub_runs = refl

mul_runs : mul wide wide ≡ some (record wide { value = 1 ∷ 56 ∷ [] })
unfolding mul
mul_runs = refl

compare_runs : compare_bits (with_signed b true) (with_signed five true) ≡ some (some lt)
unfolding compare_bits
compare_runs = refl

add-Computes_example :
    Computes false
      (add wide wide)
      70
      false
      ((number ((2 ^ 64 - 1) ∷ 3 ∷ []) + number ((2 ^ 64 - 1) ∷ 3 ∷ [])) % 2 ^ 70)
unfolding has_unknown
add-Computes_example = add-Computes wide wide wide-IsValid wide-IsValid refl

sub-Computes_example :
    Computes false (sub five b) 4 false ((number (5 ∷ []) + 2 ^ 4 - number (12 ∷ [])) % 2 ^ 4)
unfolding has_unknown
sub-Computes_example = sub-Computes five b five-IsValid b-IsValid refl

neg-Computes_example : Computes false (neg b) 4 false ((2 ^ 4 - number (12 ∷ [])) % 2 ^ 4)
unfolding has_unknown
neg-Computes_example = neg-Computes b b-IsValid

mul-Computes_example :
    Computes false
      (mul wide wide)
      70
      false
      ((number ((2 ^ 64 - 1) ∷ 3 ∷ []) * number ((2 ^ 64 - 1) ∷ 3 ∷ [])) % 2 ^ 70)
unfolding has_unknown
mul-Computes_example = mul-Computes wide wide wide-IsValid wide-IsValid refl

compare_bits-rank_example :
    compare_bits (with_signed b true) (with_signed five true) ≡ some (some lt)
unfolding has_unknown number
compare_bits-rank_example =
    compare_bits-rank (with_signed b true) (with_signed five true) (omega arith) (omega arith) refl
      refl
