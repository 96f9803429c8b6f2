-- ===== src/Sema/Bits/Bitwise.antt =====
-- crates/astli-sema/src/value/bits.rs, `bitwise` and the operators that it serves: `not`, `and`,
-- `or`, `xor`, `xnor`, `merge`. The closures are functions of four limbs.
pub mod Closures
pub mod Laws
use Prim.Native.Nat.{bit_and, bit_or, bit_xor}
use astli.Prelude.{ℕ, Option, none, some, List, [], ◌∷◌, ◌>>=◌}
use astli.Sema.Bits.{Bits, blank, masked, Bit}
use astli.Sema.Bits.Limb.{inv}

-- A closure: value and unknown of one limb, and of another, to value and unknown.
abbrev pub Closure : Type 0
Closure = ℕ → ℕ → ℕ → ℕ → ℕ × ℕ

-- The loop over the limbs of `self`: an index past the end of another vector panics.
unfoldable pub zip_limbs : Closure → List ℕ → List ℕ → List ℕ → List ℕ → Option (List ℕ × List ℕ)
zip_limbs f [] us ws ts = some ([], [])
zip_limbs f (v ∷ vs) (u ∷ us) (w ∷ ws) (t ∷ ts) = do
  rest ← zip_limbs f vs us ws ts
  some ((f v u w t).0 ∷ rest.0, (f v u w t).1 ∷ rest.1)
zip_limbs f (v ∷ vs) us ws ts = none

unfoldable pub bitwise : Bits → Bits → Closure → Option Bits
unfolding zip_limbs masked
bitwise a b f = do
  zipped ← zip_limbs f a.value a.unknown b.value b.unknown
  masked (record a { value = zipped.0; unknown = zipped.1 })

abbrev pub not_limbs : Closure
not_limbs av au bv bu = (bit_or (inv av) au, au)

abbrev pub and_limbs : Closure
and_limbs av au bv bu =
    let zero : ℕ = bit_or (bit_and (inv av) (inv au)) (bit_and (inv bv) (inv bu)) in
    let one : ℕ = bit_and (bit_and av (inv au)) (bit_and bv (inv bu)) in
    let x : ℕ = inv (bit_or zero one) in (bit_or one x, x)

abbrev pub or_limbs : Closure
or_limbs av au bv bu =
    let one : ℕ = bit_or (bit_and av (inv au)) (bit_and bv (inv bu)) in
    let zero : ℕ = bit_and (bit_and (inv av) (inv au)) (bit_and (inv bv) (inv bu)) in
    let x : ℕ = inv (bit_or zero one) in (bit_or one x, x)

abbrev pub xor_limbs : Closure
xor_limbs av au bv bu = let x : ℕ = bit_or au bu in (bit_or (bit_xor av bv) x, x)

abbrev pub merge_limbs : Closure
merge_limbs av au bv bu = let x : ℕ = bit_or (bit_or (bit_xor av bv) au) bu in (bit_or av x, x)

unfoldable pub not : Bits → Option Bits
unfolding bitwise
not a = bitwise a (blank a.width a.signed) not_limbs

unfoldable pub and : Bits → Bits → Option Bits
unfolding bitwise
and a b = bitwise a b and_limbs

unfoldable pub or : Bits → Bits → Option Bits
unfolding bitwise
or a b = bitwise a b or_limbs

unfoldable pub xor : Bits → Bits → Option Bits
unfolding bitwise
xor a b = bitwise a b xor_limbs

unfoldable pub xnor : Bits → Bits → Option Bits
unfolding xor not
xnor a b = do r ← xor a b; not r

unfoldable pub merge : Bits → Bits → Option Bits
unfolding bitwise
merge a b = bitwise a b merge_limbs
