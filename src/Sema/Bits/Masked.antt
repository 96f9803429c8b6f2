-- ===== src/Sema/Bits/Masked.antt =====
-- `masked` clears the bits above the width, and no other.
use native.Mathlib.Nat.{one-le-pow}
use astli.Prelude.{
  ℕ, zero, suc, ◌-◌, ◌%◌, ◌<◌, ◌≡◌, ◌≢◌, refl, ap₂, min, Bool, false, arith, some, List, [], ◌∷◌,
  inl, inr, ◌==◌, ◌>>=◌, Bool-cases, replicate,
}
use astli.Sema.Bits.{Bits, from_pair, limbs, blank, masked}
use astli.Sema.Bits.Limb.{test-zero}
use astli.Sema.Bits.Fits.{Fits, Loose, IsValid, test_at, mask_last-Fits}

-- A width of whole limbs leaves nothing above it.
pub Loose-Fits : (w : ℕ) (ls : List ℕ) → w % 64 ≡ 0 → Loose w ls → Fits w ls
Loose-Fits w [] e h = h
Loose-Fits w (l ∷ ls) e h =
    let full : min w 64 ≡ 64 = omega (arith, h.0) in
    (h.0, rw full h.1, Loose-Fits (w - 64) ls (omega (arith, h.0)) h.2)

pub masked-IsValid :
    (b : Bits)
    → 0 < b.width
    → Loose b.width b.value
    → Loose b.width b.unknown
    → (r : Bits) × (masked b ≡ some r)
      × IsValid r
      × (r.width ≡ b.width)
      × (r.signed ≡ b.signed)
      × ((i : ℕ)
          → i < b.width
          → from_pair (test_at r.value i) (test_at r.unknown i)
            ≡ from_pair (test_at b.value i) (test_at b.unknown i))
unfolding masked
masked-IsValid b pos hv hu = elim (Bool-cases (b.width % 64 == 0)) [
  | inl whole ↦
      let e : b.width % 64 ≡ 0 = ground arith in
      (
        b,
        rw whole refl,
        record {
          positive = pos;
          value_fits = Loose-Fits b.width b.value e hv;
          unknown_fits = Loose-Fits b.width b.unknown e hu;
        },
        refl,
        refl,
        λ i k. refl,
      )
  | inr part ↦
      let n : b.width % 64 ≢ 0 = ground arith in
      let (v, masks_v, fits_v, bits_v) =
        mask_last-Fits b.width (b.width % 64) b.value pos refl n hv in
      let (u, masks_u, fits_u, bits_u) =
        mask_last-Fits b.width (b.width % 64) b.unknown pos refl n hu in
      (
        record b { value = v; unknown = u },
        rw part (rw (masks_v, ◌>>=◌, masks_u, ◌>>=◌) refl),
        record { positive = pos; value_fits = fits_v; unknown_fits = fits_u },
        refl,
        refl,
        λ i k. ap₂ from_pair (bits_v i k) (bits_u i k),
      )
]

-- A blank value is valid, and all its bits are 0.
pub zeros-Fits : (n w : ℕ) → n ≡ limbs w → Fits w (replicate n 0)
zeros-Fits zero w e = omega arith
zeros-Fits (suc n) w e =
    (omega arith, omega (arith, one-le-pow (min w 64) 2), zeros-Fits n (w - 64) (omega arith))

pub test_at-zeros : (n i : ℕ) → test_at (replicate n 0) i ≡ false
unfolding test_at
test_at-zeros zero i = refl
test_at-zeros (suc n) i = ground (arith, test-zero i, test_at-zeros n (i - 64))

pub blank-IsValid : (w : ℕ) (signed : Bool) → 0 < w → IsValid (blank w signed)
unfolding blank
blank-IsValid w signed pos = record {
  positive = pos;
  value_fits = zeros-Fits (limbs w) w refl;
  unknown_fits = zeros-Fits (limbs w) w refl;
}
