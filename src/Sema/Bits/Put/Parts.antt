-- ===== src/Sema/Bits/Put/Parts.antt =====
-- What one limb holds once a part of the range is written to it.
use Prim.Native.Nat.{bit_and, bit_or}
use native.Mathlib.Nat.{one-le-pow}
use astli.Prelude.{
  ℕ, zero, suc, ◌+◌, ◌-◌, ◌*◌, ◌/◌, ◌^◌, ◌≤◌, ◌<◌, ◌≡◌, refl, ap, ◌∙◌, Bool, not, ◌&&◌, ◌||◌, some,
  List, [], ◌∷◌, inl, inr, arith, Bool-cases, ltb, leb, if◌then◌else◌,
}
use astli.Sema.Bits.{low}
use astli.Sema.Bits.Put.{update}
use astli.Sema.Bits.Limb.{inv, test, test-and, test-or, test-not, test-low, and-lt, or-lt}
use astli.Sema.Bits.Limb.Shift.{shl, test-shl, test-shr}
use astli.Sema.Bits.Fits.{Loose, test_at, pow_mono}

-- One limb under a mask.
test-masked :
    (l mask bits j : ℕ)
    → mask < 2 ^ 64
    → j < 64
    → test (bit_or (bit_and l (inv mask)) bits) j ≡ ((test l j && not (test mask j)) || test bits j)
test-masked l mask bits j h k = rw (test-or, test-and, test-not 64 j mask h k) refl

abbrev pub within : ℕ → ℕ → Bool
within index i = leb (64 * index) i && ltb i (64 * index + 64)

update-suc :
    (l : ℕ) (ls rs : List ℕ) (index mask bits : ℕ)
    → update ls index mask bits ≡ some rs
    → update (l ∷ ls) (suc index) mask bits ≡ some (l ∷ rs)
unfolding update
update-suc l ls rs index mask bits h = ground (arith, h)

pub update-test_at :
    (w : ℕ) (ls : List ℕ) (index mask bits : ℕ)
    → Loose w ls
    → 64 * index < w
    → mask < 2 ^ 64
    → bits < 2 ^ 64
    → (rs : List ℕ) × (update ls index mask bits ≡ some rs)
      × Loose w rs
      × ((i : ℕ)
          → test_at rs i ≡ (
              if within index i
              then (test_at ls i && not (test mask (i - 64 * index))) || test bits (i - 64 * index)
              else test_at ls i))
unfolding update test_at
update-test_at w [] index mask bits h k hm hb = absurd (omega arith)
update-test_at w (l ∷ ls) zero mask bits h k hm hb = (
  bit_or (bit_and l (inv mask)) bits ∷ ls,
  refl,
  (h.0, or-lt 64 (bit_and l (inv mask)) bits (and-lt 64 l (inv mask) (omega arith)) hb, h.2),
  λ i.
      let e : i - 64 * 0 ≡ i = omega arith in
      ground (arith, test-masked l mask bits i hm, ap (test mask) e, ap (test bits) e),
)
update-test_at w (l ∷ ls) (suc index) mask bits h k hm hb =
    let (rs, run, loose, at) = update-test_at (w - 64) ls index mask bits h.2 (omega arith) hm hb in
    (
      l ∷ rs,
      update-suc l ls rs index mask bits run,
      (h.0, h.1, loose),
      λ i.
          let e : i - 64 - 64 * index ≡ i - 64 * suc index = omega arith in
          ground (arith, at (i - 64), ap (test mask) e, ap (test bits) e),
    )

low_eq : (count : ℕ) → count ≤ 64 → low count ≡ 2 ^ count - 1
low_eq count h = elim (Bool-cases (leb 64 count)) [
  | inl q ↦ let e : count ≡ 64 = ground arith in rw e refl
  | inr q ↦ ground arith
]

pub low-lt : (count : ℕ) → count ≤ 64 → low count < 2 ^ 64
low-lt count h = rw (low_eq count h) (omega (arith, pow_mono count 64 h, one-le-pow count 2))

test-mask : (count j : ℕ) → count ≤ 64 → test (low count) j ≡ ltb j count
test-mask count j h = rw (low_eq count h) (test-low count j)

test-wanted :
    (bits count j : ℕ)
    → count ≤ 64
    → test (bit_and bits (low count)) j ≡ (test bits j && ltb j count)
test-wanted bits count j h =
    test-and j bits (low count) ∙ ap (λ b. test bits j && b) (test-mask count j h)

pub wanted-lt : (bits count : ℕ) → count ≤ 64 → bit_and bits (low count) < 2 ^ 64
wanted-lt bits count h = and-lt 64 bits (low count) (low-lt count h)

-- The part of the range in its first limb, and that in the next.
pub first_part :
    (bits count q s i : ℕ) (was : Bool)
    → s < 64
    → count ≤ 64
    → (if within q i
        then (was && not (test (shl (low count) s) (i - 64 * q)))
          || test (shl (bit_and bits (low count)) s) (i - 64 * q)
        else was)
      ≡ (if (leb (64 * q + s) i && ltb i (64 * q + s + count)) && ltb i (64 * q + 64)
          then test bits (i - (64 * q + s))
          else was)
first_part bits count q s i was hs hc =
    let j = i - 64 * q in
    let e : j - s ≡ i - (64 * q + s) = omega arith in
    ground (
      arith,
      test-shl (low count) s j,
      test-shl (bit_and bits (low count)) s j,
      test-mask count (j - s) hc,
      test-wanted bits count (j - s) hc,
      ap (test bits) e,
    )

pub next_part :
    (bits count q s i : ℕ) (was : Bool)
    → s < 64
    → count ≤ 64
    → (if within (q + 1) i
        then (was && not (test (low count / 2 ^ (64 - s)) (i - 64 * (q + 1))))
          || test (bit_and bits (low count) / 2 ^ (64 - s)) (i - 64 * (q + 1))
        else was)
      ≡ (if (leb (64 * q + s) i && ltb i (64 * q + s + count))
            && (leb (64 * q + 64) i && ltb i (64 * q + 128))
          then test bits (i - (64 * q + s))
          else was)
next_part bits count q s i was hs hc =
    let j = i - 64 * (q + 1) + (64 - s) in
    elim (Bool-cases (within (q + 1) i)) [
      | inl here ↦
          let e : j ≡ i - (64 * q + s) = ground arith in
          rw here (
            ground (
              arith,
              test-shr (64 - s) (low count) (i - 64 * (q + 1)),
              test-shr (64 - s) (bit_and bits (low count)) (i - 64 * (q + 1)),
              test-mask count j hc,
              test-wanted bits count j hc,
              ap (test bits) e,
            ))
      | inr away ↦ rw away (ground arith)
    ]
