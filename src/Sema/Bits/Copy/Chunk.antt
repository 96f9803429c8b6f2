-- ===== src/Sema/Bits/Copy/Chunk.antt =====
-- What `chunk` reads.
use Prim.Native.Nat.{bit_or}
use astli.Prelude.{
  ℕ, zero, suc, ◌+◌, ◌-◌, ◌*◌, ◌/◌, ◌%◌, ◌^◌, ◌<◌, ◌≡◌, ap, sym, ◌∙◌, false, List, [], ◌∷◌, inl,
  inr, arith, Bool-cases, ltb, ◌==◌,
}
use astli.Sema.Bits.Limb.{test, test-or, test-zero, test-high}
use astli.Sema.Bits.Limb.Shift.{shl, test-shl, test-shr}
use astli.Sema.Bits.Fits.{Loose, test_at, test_at-tail}
use astli.Sema.Bits.Copy.{limb_or_zero, chunk}

limb_bit :
    (q : ℕ) (ls : List ℕ) (j : ℕ) → j < 64 → test (limb_or_zero ls q) j ≡ test_at ls (j + 64 * q)
unfolding limb_or_zero test_at
limb_bit q [] j h = test-zero j
limb_bit zero (l ∷ ls) j h = let e : j + 64 * 0 ≡ j = omega arith in rw e (ground arith)
limb_bit (suc q) (l ∷ ls) j h =
    let e : j + 64 * suc q ≡ j + 64 * q + 64 = omega arith in
    limb_bit q ls j h ∙ sym (test_at-tail l ls (j + 64 * q)) ∙ ap (test_at (l ∷ ls)) (sym e)

limb-lt : (w : ℕ) (ls : List ℕ) (q : ℕ) → Loose w ls → limb_or_zero ls q < 2 ^ 64
unfolding limb_or_zero
limb-lt w [] q h = omega arith
limb-lt w (l ∷ ls) zero h = h.1
limb-lt w (l ∷ ls) (suc q) h = limb-lt (w - 64) ls q h.2

straddle :
    (w : ℕ) (ls : List ℕ) (q s i : ℕ)
    → Loose w ls
    → i < 64
    → s < 64
    → 0 < s
    → test (bit_or (limb_or_zero ls q / 2 ^ s) (shl (limb_or_zero ls (q + 1)) (64 - s))) i
      ≡ test_at ls (i + s + 64 * q)
straddle w ls q s i h k small pos =
    let near : test (limb_or_zero ls q / 2 ^ s) i ≡ test (limb_or_zero ls q) (i + s) =
      test-shr s (limb_or_zero ls q) i in
    let far = test-shl (limb_or_zero ls (q + 1)) (64 - s) i in
    elim (Bool-cases (ltb (i + s) 64)) [
      | inl inside ↦
          let here : test (limb_or_zero ls q) (i + s) ≡ test_at ls (i + s + 64 * q) =
            limb_bit q ls (i + s) (ground arith) in
          rw test-or (ground (arith, near, far, here))
      | inr outside ↦
          let gone : test (limb_or_zero ls q) (i + s) ≡ false =
            test-high 64 (i + s) _ (limb-lt w ls q h) (ground arith) in
          let e : i - (64 - s) + 64 * (q + 1) ≡ i + s + 64 * q = ground arith in
          let there : test (limb_or_zero ls (q + 1)) (i - (64 - s)) ≡ test_at ls (i + s + 64 * q) =
            limb_bit (q + 1) ls (i - (64 - s)) (omega arith) ∙ ap (test_at ls) e in
          rw test-or (ground (arith, near, far, gone, there))
    ]

-- Bit `j` of the chunk from `lo` is bit `lo + j`, within the limbs or past them.
pub chunk-test_at :
    (w : ℕ) (ls : List ℕ) (lo j : ℕ)
    → Loose w ls
    → j < 64
    → test (chunk ls lo) j ≡ test_at ls (lo + j)
unfolding chunk
chunk-test_at w ls lo j h k = elim (Bool-cases (lo % 64 == 0)) [
  | inl whole ↦
      let e : j + 64 * (lo / 64) ≡ lo + j = ground arith in
      rw whole (limb_bit (lo / 64) ls j k ∙ ap (test_at ls) e)
  | inr part ↦ rw part (
      straddle w ls (lo / 64) (lo % 64) j h k (omega arith) (ground arith)
      ∙ ap (test_at ls) (place lo j))
]
  where
    place : (a b : ℕ) → b + a % 64 + 64 * (a / 64) ≡ a + b
    place a b = omega arith
