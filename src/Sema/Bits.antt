-- ===== src/Sema/Bits.antt =====
-- crates/astli-sema/src/value/bits.rs: four-state bit vectors of any width, kept as the source keeps
-- them, in two vectors of 64-bit limbs. `Limb` has the operators of `u64`; a vector is a list, an
-- index that would panic gives `none`. The children define the operations by group and prove them
-- against one bit, or one number, at a time.
pub mod Limb
pub mod Fits
pub mod Masked
pub mod Bitwise
pub mod Number
pub mod Put
pub mod Copy
pub mod Arithmetic
use astli.Prelude.{
  ℕ, ◌+◌, ◌/◌, ◌%◌, ◌^◌, ◌-◌, Bool, true, false, Option, none, some, List, [], ◌∷◌, ◌&&◌, ◌||◌, not,
  any, length, replicate, get_elem?, leb, ◌==◌, if◌then◌else◌, ◌>>=◌,
}
use Prim.Native.Nat.{bit_and}
use Limb.{u64_max}

pub data Bit : Type 0 where
  zero one x z : Bit

unfoldable pub pair : Bit → Bool × Bool
pair zero = (false, false)
pair one = (true, false)
pair z = (false, true)
pair x = (true, true)

abbrev pub from_pair : Bool → Bool → Bit
from_pair false false = zero
from_pair true false = one
from_pair false true = z
from_pair true true = x

-- `From<bool>`
abbrev pub from_bool : Bool → Bit
from_bool true = one
from_bool false = zero

pub record Bits : Type 0 where
  pub width : ℕ
  pub signed : Bool
  pub value : List ℕ
  pub unknown : List ℕ

-- `width.div_ceil(64)`
abbrev pub limbs : ℕ → ℕ
limbs width = (width + 63) / 64

abbrev pub low : ℕ → ℕ
low count = if leb 64 count then u64_max else 2 ^ count - 1

unfoldable pub blank : ℕ → Bool → Bits
blank width signed = record {
  width = width;
  signed = signed;
  value = replicate (limbs width) 0;
  unknown = replicate (limbs width) 0;
}

-- `last = len - 1; limbs[last] &= low(rest)`, which panics on no limb at all.
unfoldable pub mask_last : ℕ → List ℕ → Option (List ℕ)
mask_last rest [] = none
mask_last rest (l ∷ []) = some (bit_and l (low rest) ∷ [])
mask_last rest (l ∷ m ∷ ls) = do masked_rest ← mask_last rest (m ∷ ls); some (l ∷ masked_rest)

unfoldable pub masked : Bits → Option Bits
unfolding mask_last
masked b = if b.width % 64 == 0 then some b else (do
  value ← mask_last (b.width % 64) b.value
  unknown ← mask_last (b.width % 64) b.unknown
  some (record b { value = value; unknown = unknown }))

-- `self.value[limb] >> shift & 1 == 1`
abbrev pub bit_of : ℕ → ℕ → Bool
bit_of limb shift = bit_and (limb / 2 ^ shift) 1 == 1

unfoldable pub bit : Bits → ℕ → Option Bit
bit b index = do
  v ← get_elem? b.value (index / 64)
  u ← get_elem? b.unknown (index / 64)
  some (from_pair (bit_of v (index % 64)) (bit_of u (index % 64)))

unfoldable pub top : Bits → Option Bit
unfolding bit
top b = bit b (b.width - 1)

abbrev pub not_zero : ℕ → Bool
not_zero limb = not (limb == 0)

unfoldable pub has_unknown : Bits → Bool
has_unknown b = any not_zero b.unknown

abbrev pub with_signed : Bits → Bool → Bits
with_signed b signed = record b { signed = signed }

abbrev pub is_one : Bit → Bool
is_one one = true
is_one b = false

-- `self.signed && self.top() == Bit::One`: the top bit is read only of a signed value.
unfoldable pub is_negative : Bits → Option Bool
unfolding top
is_negative b = if b.signed then (do t ← top b; some (is_one t)) else some false
