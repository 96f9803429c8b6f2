-- ===== src/Sema/Bits/Copy.antt =====
-- crates/astli-sema/src/value/bits.rs, `chunk` and `copy`, and the operations that move bits:
-- `resize`, `concat`, `shl`, `shr`. Every offset stays within a width, so no sum of two `u32` wraps
-- around.
pub mod Chunk
pub mod Laws
pub mod Blank
pub mod Moves
pub mod Shifts
use Prim.Native.Nat.{bit_or}
use astli.Prelude.{
  ℕ, zero, suc, ◌+◌, ◌-◌, ◌/◌, ◌%◌, ◌^◌, Bool, Option, none, some, List, [], ◌∷◌, ◌&&◌, any, min,
  get_elem?, ltb, ◌==◌, if◌then◌else◌, ◌>>=◌,
}
use astli.Sema.Bits.{Bits, Bit, blank, top, has_unknown, not_zero}
use astli.Sema.Bits.Limb.Shift.{shl}
use astli.Sema.Bits.Put.{put, fill, all_x}

-- `limbs.get(index).copied().unwrap_or(0)`
unfoldable pub limb_or_zero : List ℕ → ℕ → ℕ
limb_or_zero [] index = 0
limb_or_zero (l ∷ ls) zero = l
limb_or_zero (l ∷ ls) (suc index) = limb_or_zero ls index

unfoldable pub chunk : List ℕ → ℕ → ℕ
unfolding limb_or_zero
chunk limbs lo =
    let first : ℕ = limb_or_zero limbs (lo / 64) in
    let second : ℕ = limb_or_zero limbs (lo / 64 + 1) in
    if lo % 64 == 0 then first else bit_or (first / 2 ^ (lo % 64)) (shl second (64 - lo % 64))

-- The loop of `copy`, with `done` of the `count` bits copied.
unfoldable pub copy : ℕ → List ℕ → ℕ → List ℕ → ℕ → ℕ → ℕ → Option (List ℕ)
unfolding chunk put
copy zero to to_lo from from_lo count done = if ltb done count then none else some to
copy (suc fuel) to to_lo from from_lo count done =
    if ltb done count
    then (do
      next ← put to (to_lo + done) (chunk from (from_lo + done)) (min (count - done) 64)
      copy fuel next to_lo from from_lo count (done + min (count - done) 64))
    else some to

-- The two calls of `copy` that an operation makes, on the values and on the unknowns.
unfoldable pub copy_both : Bits → ℕ → Bits → ℕ → ℕ → Option Bits
unfolding copy
copy_both bits to_lo b from_lo count = do
  value ← copy count bits.value to_lo b.value from_lo count 0
  unknown ← copy count bits.unknown to_lo b.unknown from_lo count 0
  some (record bits { value = value; unknown = unknown })

unfoldable pub resize : Bits → ℕ → Option Bits
unfolding copy_both blank fill top
resize b width = do
  bits ← copy_both (blank width b.signed) 0 b 0 (min width b.width)
  if ltb b.width width && b.signed then (do t ← top b; fill bits b.width width t) else some bits

-- `amount`: `value[0]` panics on no limb at all.
unfoldable pub amount : Bits → ℕ → Option (Option ℕ)
unfolding has_unknown
amount b width = if has_unknown b then some none else (elim b.value [
  | [] ↦ none
  | l ∷ ls ↦ some (some (if any not_zero ls then width else min l width))
])

unfoldable pub shift_left : Bits → ℕ → Option Bits
unfolding copy_both blank
shift_left b n = copy_both (blank b.width b.signed) n b 0 (b.width - n)

unfoldable pub shl_bits : Bits → Bits → Option Bits
unfolding amount shift_left all_x
shl_bits b by = do
  n ← amount by b.width
  elim n [ none ↦ all_x b.width b.signed | some n ↦ shift_left b n ]

unfoldable pub shift_right : Bits → ℕ → Bool → Option Bits
unfolding copy_both blank fill top
shift_right b n arithmetic = do
  bits ← copy_both (blank b.width b.signed) 0 b n (b.width - n)
  if arithmetic && b.signed then (do t ← top b; fill bits (b.width - n) b.width t) else some bits

unfoldable pub shr_bits : Bits → Bits → Bool → Option Bits
unfolding amount shift_right all_x
shr_bits b by arithmetic = do
  n ← amount by b.width
  elim n [ none ↦ all_x b.width b.signed | some n ↦ shift_right b n arithmetic ]
