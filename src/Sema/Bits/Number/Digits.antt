-- ===== src/Sema/Bits/Number/Digits.antt =====
-- The bits of a vector are the binary digits of its number.
use native.Mathlib.Nat.{pow-suc, mul_assoc}
use astli.Prelude.{
  ℕ, zero, suc, ◌+◌, ◌-◌, ◌*◌, ◌/◌, ◌%◌, ◌^◌, ◌<◌, ◌≡◌, ap, ◌∙◌, List, [], ◌∷◌, arith, ltb, leb,
  All, if◌then◌else◌,
}
use astli.Sema.Bits.Limb.{test, test-zero}
use astli.Sema.Bits.Fits.{test_at}
use astli.Sema.Bits.Number.{number, IsLimb}

double : (k n : ℕ) → 2 ^ suc k * n ≡ 2 * (2 ^ k * n)
double k n =
    let e : 2 ^ suc k ≡ 2 * 2 ^ k = omega (arith, pow-suc 2 k) in
    ap (λ x. x * n) e ∙ mul_assoc 2 (2 ^ k) n

test-join :
    (k l n i : ℕ)
    → l < 2 ^ k
    → test (l + 2 ^ k * n) i ≡ (if ltb i k then test l i else test n (i - k))
unfolding test
test-join zero l n i h = let e : l + 2 ^ 0 * n ≡ n = omega arith in rw e (ground arith)
test-join (suc k) l n zero h =
    let e : 2 ^ suc k * n ≡ 2 * (2 ^ k * n) = double k n in
    let low : (l + 2 ^ suc k * n) % 2 ≡ l % 2 = omega arith in rw low (ground arith)
test-join (suc k) l n (suc i) h =
    let e : 2 ^ suc k * n ≡ 2 * (2 ^ k * n) = double k n in
    let half : (l + 2 ^ suc k * n) / 2 ≡ l / 2 + 2 ^ k * n = omega arith in
    rw half (test-join k (l / 2) n i (omega (arith, pow-suc 2 k)) ∙ ground arith)

pub test-number : (ls : List ℕ) (i : ℕ) → All IsLimb ls → test (number ls) i ≡ test_at ls i
unfolding number test_at
test-number [] i h = test-zero i
test-number (l ∷ ls) i h =
    test-join 64 l (number ls) i h.0
    ∙ ap (λ b. if ltb i 64 then test l i else b) (test-number ls (i - 64) h.1)

-- The highest bit of a number of so many bits.
pub test-top : (w n : ℕ) → n < 2 ^ suc w → test n w ≡ leb (2 ^ w) n
unfolding test
test-top zero n h = ground arith
test-top (suc w) n h =
    test-top w (n / 2) (omega (arith, pow-suc 2 (suc w), pow-suc 2 w)) ∙ ground (arith, pow-suc 2 w)
