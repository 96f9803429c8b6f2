-- ===== src/Sema/Bits/Put/Fill.antt =====
-- What `fill` leaves at each bit, and that a filled value is valid and all of one bit.
use native.Mathlib.Nat.{mod-lt, one-le-pow}
use astli.Prelude.{
  ◌%◌, replicate, ℕ, zero, suc, ◌+◌, ◌-◌, ◌^◌, ◌≤◌, ◌<◌, ◌≡◌, refl, ap, ap₂, sym, ◌∙◌, subst, min,
  Bool, true, false, ◌&&◌, some, List, [], ◌∷◌, inl, inr, arith, Bool-cases, ltb, leb,
  if◌then◌else◌, ◌>>=◌,
}
use astli.Sema.Bits.{Bit, Bits, pair, from_pair, blank, limbs, bit}
use astli.Sema.Bits.Limb.{test, test-zero, test-low, test_ext}
use astli.Sema.Bits.Limb.Shift.{test-mod}
use astli.Sema.Bits.Put.{put, all_if, fill_limbs, fill, filled}
use astli.Sema.Bits.Put.Laws.{put-test_at, in_range}
use astli.Sema.Bits.Fits.{
  Fits, Loose, IsValid, test_at, test_at-tail, bit-test, Fits-Loose, pow_mono,
}
use astli.Sema.Bits.Masked.{test_at-zeros, zeros-Fits}

test-all_if : (value : Bool) (j : ℕ) → j < 64 → test (all_if value) j ≡ value
test-all_if true j h = test-low 64 j ∙ ground arith
test-all_if false j h = test-zero j

abbrev pub FillTo : ℕ → ℕ → List ℕ → ℕ → ℕ → Bool → Type 0
FillTo fuel w ls at hi value =
    (rs : List ℕ) × (fill_limbs fuel ls at hi value ≡ some rs)
    × Loose w rs
    × ((i : ℕ) → test_at rs i ≡ (if leb at i && ltb i hi then value else test_at ls i))

fill_done :
    (fuel w : ℕ) (ls : List ℕ) (at hi : ℕ) (value : Bool)
    → ltb at hi ≡ false
    → Loose w ls
    → FillTo fuel w ls at hi value
unfolding fill_limbs
fill_done zero w ls at hi value over h = (ls, rw over refl, h, λ i. ground (arith, over))
fill_done (suc fuel) w ls at hi value over h = (ls, rw over refl, h, λ i. ground (arith, over))

fill_step :
    (fuel w : ℕ) (ls ps : List ℕ) (at hi step : ℕ) (value : Bool)
    → ltb at hi ≡ true
    → step ≡ min (hi - at) 64
    → put ls at (all_if value) step ≡ some ps
    → ((i : ℕ)
        → test_at ps i
          ≡ (if in_range at step i then test (all_if value) (i - at) else test_at ls i))
    → FillTo fuel w ps (at + step) hi value
    → FillTo (suc fuel) w ls at hi value
unfolding fill_limbs
fill_step fuel w ls ps at hi step value under e run now (rs, ran, loose, rest) = (
  rs,
  rw (under, sym e, run, ◌>>=◌) ran,
  loose,
  λ i. ground (arith, rest i, now i, test-all_if value (i - at)),
)

pub fill_limbs-test_at :
    (fuel w : ℕ) (ls : List ℕ) (at hi : ℕ) (value : Bool)
    → hi ≤ at + fuel
    → hi ≤ w
    → Loose w ls
    → FillTo fuel w ls at hi value
fill_limbs-test_at zero w ls at hi value f k h = fill_done zero w ls at hi value (ground arith) h
fill_limbs-test_at (suc fuel) w ls at hi value f k h = elim (Bool-cases (ltb at hi)) [
  | inl under ↦
      let step = min (hi - at) 64 in
      let (ps, run, loose, now) =
        put-test_at w ls at (all_if value) step h (ground arith) (omega arith) (ground arith) in
      fill_step fuel w ls ps at hi step value under refl run now
        (fill_limbs-test_at fuel w ps (at + step) hi value (ground arith) k loose)
  | inr over ↦ fill_done (suc fuel) w ls at hi value over h
]

-- A limb whose high bits are clear is small.
small_limb :
    (m l : ℕ) → m ≤ 64 → l < 2 ^ 64 → ((i : ℕ) → m ≤ i → i < 64 → test l i ≡ false) → l < 2 ^ m
small_limb m l h b f =
    let small : l % 2 ^ m < 2 ^ m = mod-lt l (omega (arith, one-le-pow m 2)) in
    let same : l ≡ l % 2 ^ m =
      test_ext 64 l (l % 2 ^ m) b (omega (arith, small, pow_mono m 64 h))
        λ i k. ground (arith, test-mod m l i, f i) in
    subst (λ x. x < 2 ^ m) (sym same) small

pub Loose-Fits_of_clear :
    (w : ℕ) (ls : List ℕ) → Loose w ls → ((i : ℕ) → w ≤ i → test_at ls i ≡ false) → Fits w ls
unfolding test_at
Loose-Fits_of_clear w [] h f = h
Loose-Fits_of_clear w (l ∷ ls) h f = (
  h.0,
  small_limb (min w 64) l (omega arith) h.1 (λ i m k. ground (arith, f i)),
  Loose-Fits_of_clear (w - 64) ls h.2
      (λ i m. sym (test_at-tail l ls i) ∙ f (i + 64) (omega (arith, m))),
)

-- One vector of a value that is filled from blank.
filled_limbs :
    (w : ℕ) (value : Bool)
    → (rs : List ℕ) × (fill_limbs (w - 0) (replicate (limbs w) 0) 0 w value ≡ some rs)
      × Fits w rs
      × ((i : ℕ) → i < w → test_at rs i ≡ value)
filled_limbs w value =
    let (rs, run, loose, at) =
      fill_limbs-test_at (w - 0) w (replicate (limbs w) 0) 0 w value (omega arith) (omega arith)
        (Fits-Loose w _ (zeros-Fits (limbs w) w refl)) in
    (
      rs,
      run,
      Loose-Fits_of_clear w rs loose (λ i k. ground (arith, at i, test_at-zeros (limbs w) i)),
      λ i k. ground (arith, at i),
    )

pub pair-from_pair : (b : Bit) → from_pair (pair b).0 (pair b).1 ≡ b
unfolding pair
pair-from_pair Bit.zero = refl
pair-from_pair Bit.one = refl
pair-from_pair Bit.x = refl
pair-from_pair Bit.z = refl

-- `filled` does not panic at a width that is not 0: its result is a valid value of that width and
-- signing, and every bit of it is the one asked for.
pub filled-bit :
    (w : ℕ) (signed : Bool) (value : Bit)
    → 0 < w
    → (r : Bits) × (filled w signed value ≡ some r)
      × IsValid r
      × (r.width ≡ w)
      × (r.signed ≡ signed)
      × ((i : ℕ) → i < w → bit r i ≡ some value)
unfolding filled fill blank
filled-bit w signed value pos =
    let (vs, run_v, fits_v, at_v) = filled_limbs w (pair value).0 in
    let (us, run_u, fits_u, at_u) = filled_limbs w (pair value).1 in
    let r : Bits = record { width = w; signed = signed; value = vs; unknown = us } in
    let valid : IsValid r = record { positive = pos; value_fits = fits_v; unknown_fits = fits_u } in
    (
      r,
      rw (run_v, run_u, ◌>>=◌) refl,
      valid,
      refl,
      refl,
      λ i k.
          bit-test r i valid k
          ∙ ap some (ap₂ from_pair (at_v i k) (at_u i k) ∙ pair-from_pair value),
    )
