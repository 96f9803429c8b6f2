-- ===== src/Sema/Bits/Copy/Blank.antt =====
-- A copy into a blank value, and a range of it filled after: both are valid, bit by bit.
use astli.Prelude.{
  subst, ℕ, ◌+◌, ◌-◌, ◌≤◌, ◌<◌, ◌≡◌, refl, ap, ap₂, sym, ◌∙◌, min, Bool, false, ◌&&◌, some, List,
  [], ◌∷◌, inl, inr, arith, Bool-cases, ltb, leb, replicate, if◌then◌else◌, ◌>>=◌,
}
use astli.Sema.Bits.{Bits, Bit, pair, from_pair, blank, limbs, bit}
use astli.Sema.Bits.Limb.{test-high}
use astli.Sema.Bits.Fits.{Fits, IsValid, test_at, Fits-Loose, bit-test}
use astli.Sema.Bits.Masked.{zeros-Fits, test_at-zeros}
use astli.Sema.Bits.Put.{fill_limbs, fill}
use astli.Sema.Bits.Put.Laws.{in_range}
use astli.Sema.Bits.Put.Fill.{fill_limbs-test_at, Loose-Fits_of_clear}
use astli.Sema.Bits.Copy.{copy, copy_both}
use astli.Sema.Bits.Copy.Laws.{copy-test_at}

-- What is above the width of a vector that fits is clear.
pub Fits-clear : (w : ℕ) (ls : List ℕ) (i : ℕ) → Fits w ls → w ≤ i → test_at ls i ≡ false
unfolding test_at
Fits-clear w [] i h k = refl
Fits-clear w (l ∷ ls) i h k = elim (Bool-cases (ltb i 64)) [
  | inl near ↦ rw near (test-high (min w 64) i l h.1 (ground arith))
  | inr far ↦ rw far (Fits-clear (w - 64) ls (i - 64) h.2 (omega (arith, k)))
]

-- The values that a vector holds, and the range that one has of another.
abbrev pub Holds : List ℕ → (ℕ → Bool) → Type 0
Holds ls f = (i : ℕ) → test_at ls i ≡ f i

abbrev pub part_of : List ℕ → ℕ → ℕ → ℕ → ℕ → Bool
part_of from to_lo from_lo count i =
    if in_range to_lo count i then test_at from (from_lo + (i - to_lo)) else false

copied_limbs :
    (w v to_lo from_lo count : ℕ) (from : List ℕ)
    → Fits v from
    → to_lo + count ≤ w
    → (rs : List ℕ) × (copy count (replicate (limbs w) 0) to_lo from from_lo count 0 ≡ some rs)
      × Fits w rs
      × Holds rs (part_of from to_lo from_lo count)
copied_limbs w v to_lo from_lo count from h room =
    let (rs, run, loose, at) =
      copy-test_at w v to_lo from from_lo count (Fits-Loose v from h) room count
        (replicate (limbs w) 0) 0 (omega arith) (Fits-Loose w _ (zeros-Fits (limbs w) w refl)) in
    let holds : Holds rs (part_of from to_lo from_lo count) =
      λ i. ground (arith, at i, test_at-zeros (limbs w) i) in
    (rs, run, Loose-Fits_of_clear w rs loose (λ i k. ground (arith, holds i)), holds)

pub copy_both-blank :
    (w : ℕ) (signed : Bool) (to_lo : ℕ) (b : Bits) (from_lo count : ℕ)
    → 0 < w
    → IsValid b
    → to_lo + count ≤ w
    → (r : Bits) × (copy_both (blank w signed) to_lo b from_lo count ≡ some r)
      × IsValid r
      × (r.width ≡ w)
      × (r.signed ≡ signed)
      × Holds r.value (part_of b.value to_lo from_lo count)
      × Holds r.unknown (part_of b.unknown to_lo from_lo count)
unfolding copy_both blank
copy_both-blank w signed to_lo b from_lo count pos h room =
    let (vs, run_v, fits_v, at_v) =
      copied_limbs w b.width to_lo from_lo count b.value h.value_fits room in
    let (us, run_u, fits_u, at_u) =
      copied_limbs w b.width to_lo from_lo count b.unknown h.unknown_fits room in
    (
      record { width = w; signed = signed; value = vs; unknown = us },
      rw (run_v, run_u, ◌>>=◌) refl,
      record { positive = pos; value_fits = fits_v; unknown_fits = fits_u },
      refl,
      refl,
      at_v,
      at_u,
    )

abbrev pub over : List ℕ → ℕ → ℕ → Bool → ℕ → Bool
over ls lo hi value i = if leb lo i && ltb i hi then value else test_at ls i

filled_over :
    (w : ℕ) (ls : List ℕ) (lo : ℕ) (value : Bool)
    → Fits w ls
    → (rs : List ℕ) × (fill_limbs (w - lo) ls lo w value ≡ some rs)
      × Fits w rs
      × Holds rs (over ls lo w value)
filled_over w ls lo value h =
    let (rs, run, loose, at) =
      fill_limbs-test_at (w - lo) w ls lo w value (omega arith) (omega arith) (Fits-Loose w ls h) in
    (
      rs,
      run,
      Loose-Fits_of_clear w rs loose (λ i k. ground (arith, at i, Fits-clear w ls i h k)),
      at,
    )

pub fill-over :
    (r : Bits) (lo w : ℕ) (b : Bit)
    → w ≡ r.width
    → IsValid r
    → (t : Bits) × (fill r lo w b ≡ some t)
      × IsValid t
      × (t.width ≡ r.width)
      × (t.signed ≡ r.signed)
      × Holds t.value (over r.value lo w (pair b).0)
      × Holds t.unknown (over r.unknown lo w (pair b).1)
unfolding fill
fill-over r lo w b e h =
    let fits : (ls : List ℕ) → Fits r.width ls → Fits w ls = λ ls. subst (λ n. Fits n ls) (sym e) in
    let back : (ls : List ℕ) → Fits w ls → Fits r.width ls = λ ls. subst (λ n. Fits n ls) e in
    let (vs, run_v, fits_v, at_v) =
      filled_over w r.value lo (pair b).0 (fits r.value h.value_fits) in
    let (us, run_u, fits_u, at_u) =
      filled_over w r.unknown lo (pair b).1 (fits r.unknown h.unknown_fits) in
    (
      record r { value = vs; unknown = us },
      rw (run_v, run_u, ◌>>=◌) refl,
      record { positive = h.positive; value_fits = back vs fits_v; unknown_fits = back us fits_u },
      refl,
      refl,
      at_v,
      at_u,
    )

pub bit-Holds :
    (r : Bits) (f g : ℕ → Bool) (i : ℕ)
    → IsValid r
    → Holds r.value f
    → Holds r.unknown g
    → i < r.width
    → bit r i ≡ some (from_pair (f i) (g i))
bit-Holds r f g i h hf hg k = bit-test r i h k ∙ ap some (ap₂ from_pair (hf i) (hg i))
