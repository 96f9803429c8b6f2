-- ===== src/Sema/Bits/Put.antt =====
-- crates/astli-sema/src/value/bits.rs, `put` and what is filled with it.
pub mod Parts
pub mod Laws
pub mod Fill
use Prim.Native.Nat.{bit_and, bit_or}
use astli.Prelude.{
  ℕ, zero, suc, ◌+◌, ◌-◌, ◌/◌, ◌%◌, ◌^◌, ◌≤◌, Bool, Option, none, some, List, ◌&&◌, not, min,
  get_elem?, set, ltb, leb, ◌==◌, if◌then◌else◌, ◌>>=◌,
}
use astli.Sema.Bits.{Bits, Bit, blank, low, pair}
use astli.Sema.Bits.Limb.{u64_max, inv}
use astli.Sema.Bits.Limb.Shift.{shl}

-- `limbs[index] = (limbs[index] & !mask) | bits`, which panics out of range.
unfoldable pub update : List ℕ → ℕ → ℕ → ℕ → Option (List ℕ)
update limbs index mask bits = do
  old ← get_elem? limbs index
  some (set limbs index (bit_or (bit_and old (inv mask)) bits))

unfoldable pub put : List ℕ → ℕ → ℕ → ℕ → Option (List ℕ)
unfolding update
put limbs lo bits count = do
  let mask = low count
  let wanted = bit_and bits mask
  let shift = lo % 64
  first ← update limbs (lo / 64) (shl mask shift) (shl wanted shift)
  if not (shift == 0) && ltb 64 (shift + count)
      then update first (lo / 64 + 1) (mask / 2 ^ (64 - shift)) (wanted / 2 ^ (64 - shift))
      else some first

abbrev pub all_if : Bool → ℕ
all_if value = if value then u64_max else 0

-- The loop of `fill`, from `at` on, on one of the two vectors: what it does to one does not depend on
-- the other.
unfoldable pub fill_limbs : ℕ → List ℕ → ℕ → ℕ → Bool → Option (List ℕ)
unfolding put
fill_limbs zero limbs at hi value = if ltb at hi then none else some limbs
fill_limbs (suc fuel) limbs at hi value =
    if ltb at hi
    then (do
      next ← put limbs at (all_if value) (min (hi - at) 64)
      fill_limbs fuel next (at + min (hi - at) 64) hi value)
    else some limbs

unfoldable pub fill : Bits → ℕ → ℕ → Bit → Option Bits
unfolding fill_limbs pair
fill b lo hi bit = do
  value ← fill_limbs (hi - lo) b.value lo hi (pair bit).0
  unknown ← fill_limbs (hi - lo) b.unknown lo hi (pair bit).1
  some (record b { value = value; unknown = unknown })

unfoldable pub filled : ℕ → Bool → Bit → Option Bits
unfolding fill blank
filled width signed bit = fill (blank width signed) 0 width bit

unfoldable pub all_x : ℕ → Bool → Option Bits
unfolding filled
all_x width signed = filled width signed Bit.x
