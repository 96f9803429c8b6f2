-- ===== src/Sema/Bits/Arithmetic.antt =====
-- crates/astli-sema/src/value/bits.rs, the arithmetic on limbs: `add`, `sub`, `neg`, `mul`, and the
-- comparison of values. A sum of `u64`s keeps its wrap-around, and one of `u128`s its own.
pub mod Sum
pub mod Product
pub mod Result
pub mod Laws
pub mod Compare
use Prim.Native.Nat.{compare, Ordering}
use Prim.Native.Nat.Ordering.{lt, eq, gt}
use astli.Prelude.{
  ℕ, zero, suc, ◌+◌, ◌-◌, ◌*◌, ◌/◌, ◌%◌, ◌^◌, Bool, true, false, Option, none, some, List, [], ◌∷◌,
  ◌||◌, map, leb, if◌then◌else◌, ◌>>=◌, length, replicate,
}
use astli.Sema.Bits.{Bits, blank, masked, has_unknown, is_negative}
use astli.Sema.Bits.Limb.{inv}
use astli.Sema.Bits.Put.{all_x}

-- `overflowing_add`
abbrev pub overflows : ℕ → ℕ → Bool
overflows a b = leb (2 ^ 64) (a + b)

abbrev pub as_carry : Bool → ℕ
as_carry b = if b then 1 else 0

-- The closure of `add_limbs` along the two vectors, with the carry it captures.
unfoldable pub add_limbs : List ℕ → List ℕ → ℕ → List ℕ
add_limbs [] bs carry = []
add_limbs (a ∷ as') [] carry = []
add_limbs (a ∷ as') (b ∷ bs) carry =
    let sum : ℕ = (a + b) % 2 ^ 64 in
    (sum + carry) % 2 ^ 64 ∷ add_limbs as' bs (as_carry (overflows a b || overflows sum carry))

-- A known value of the width and signing of `self`.
unfoldable pub with_limbs : Bits → List ℕ → Option Bits
unfolding masked
with_limbs b value = masked (record b { value = value; unknown = replicate (length value) 0 })

unfoldable pub arithmetic : Bits → Bits → (Bits → Bits → Option Bits) → Option Bits
unfolding has_unknown all_x
arithmetic a b f = if has_unknown a || has_unknown b then all_x a.width a.signed else f a b

unfoldable pub add : Bits → Bits → Option Bits
unfolding arithmetic with_limbs add_limbs
add a b = arithmetic a b (λ a b. with_limbs a (add_limbs a.value b.value 0))

unfoldable pub sub : Bits → Bits → Option Bits
unfolding arithmetic with_limbs add_limbs
sub a b = arithmetic a b (λ a b. with_limbs a (add_limbs a.value (map inv b.value) 1))

unfoldable pub neg : Bits → Option Bits
unfolding sub blank
neg b = sub (blank b.width b.signed) b

-- The inner loop of `mul`, for one limb of `self`, along the product from its place on; an index past
-- the end of the other vector panics.
unfoldable pub mul_row : ℕ → List ℕ → List ℕ → ℕ → Option (List ℕ)
mul_row a bs [] carry = some []
mul_row a [] (at ∷ product) carry = none
mul_row a (b ∷ bs) (at ∷ product) carry = do
  let sum : ℕ = (a * b + at + carry) % 2 ^ 128
  rest ← mul_row a bs product (sum / 2 ^ 64)
  some (sum % 2 ^ 64 ∷ rest)

-- The outer loop: what is in front of a limb's place is not changed from there on.
unfoldable pub mul_rows : List ℕ → List ℕ → List ℕ → Option (List ℕ)
unfolding mul_row
mul_rows [] bs product = some product
mul_rows (a ∷ as') bs product = do
  row ← mul_row a bs product 0
  elim row [ [] ↦ none | p ∷ ps ↦ (do rest ← mul_rows as' bs ps; some (p ∷ rest)) ]

unfoldable pub mul : Bits → Bits → Option Bits
unfolding arithmetic with_limbs mul_rows
mul a b = arithmetic a b λ a b. do
  product ← mul_rows a.value b.value (replicate (length a.value) 0)
  with_limbs a product

-- The limbs of two vectors from the last on; the first pair that differs decides.
unfoldable pub compare_pairs : List ℕ → List ℕ → Ordering
compare_pairs [] bs = eq
compare_pairs (a ∷ as') [] = eq
compare_pairs (a ∷ as') (b ∷ bs) =
    let rest = compare_pairs as' bs in elim (compare a b) [ eq ↦ rest | lt ↦ lt | gt ↦ gt ]

unfoldable pub reverse : List ℕ → List ℕ → List ℕ
reverse [] out = out
reverse (a ∷ as') out = reverse as' (a ∷ out)

unfoldable pub compare_limbs : List ℕ → List ℕ → Ordering
unfolding compare_pairs reverse
compare_limbs a b = compare_pairs (reverse a []) (reverse b [])

abbrev pub by_sign : Bool → Bool → Ordering → Ordering
by_sign true false o = lt
by_sign false true o = gt
by_sign true true o = o
by_sign false false o = o

-- `compare`: `none` where it panics, and `some none` where it returns `None`.
unfoldable pub compare_bits : Bits → Bits → Option (Option Ordering)
unfolding has_unknown is_negative compare_limbs
compare_bits a b = if has_unknown a || has_unknown b then some none else (do
  p ← is_negative a
  q ← is_negative b
  some (some (by_sign p q (compare_limbs a.value b.value))))
