-- ===== src/Sema/Bits/Limb/Shift.antt =====
-- The bits of a product by a power of two and of a remainder by one: `<<` of `u64` is both.
use native.Mathlib.Nat.{
  pow-succ', div-div-eq-div-mul, pow-suc, div-add-mod, mod-lt, one-le-pow, add-mul-mod_self_left,
  mod-eq_of_lt, mul_assoc, mul_left_comm,
}
use astli.Prelude.{
  ℕ, zero, suc, ◌+◌, ◌-◌, ◌*◌, ◌/◌, ◌%◌, ◌^◌, ◌<◌, ◌≡◌, refl, ap, sym, ◌∙◌, ◌&&◌, arith, ltb, leb,
}
use astli.Sema.Bits.Limb.{test, test-zero}

abbrev pub shl : ℕ → ℕ → ℕ
shl a s = (a * 2 ^ s) % 2 ^ 64

pow_double : (w : ℕ) → 2 ^ suc w ≡ 2 * 2 ^ w
pow_double w = omega (arith, pow-suc 2 w)

test-double : (y i : ℕ) → test (2 * y) (suc i) ≡ test y i
unfolding test
test-double y i = let e : 2 * y / 2 ≡ y = omega arith in rw e refl

scale_suc : (s a : ℕ) → a * 2 ^ suc s ≡ 2 * (a * 2 ^ s)
scale_suc s a = ap (λ p. a * p) (pow_double s) ∙ mul_left_comm a 2 (2 ^ s)

test_doubled :
    (y a s i : ℕ)
    → ((j : ℕ) → test y j ≡ (leb s j && test a (j - s)))
    → test (2 * y) i ≡ (leb (suc s) i && test a (i - suc s))
test_doubled y a s zero h = unfold test in ground arith
test_doubled y a s (suc i) h = test-double y i ∙ h i ∙ ground arith

test-scale : (s a i : ℕ) → test (a * 2 ^ s) i ≡ (leb s i && test a (i - s))
test-scale zero a i = let e : a * 2 ^ 0 ≡ a = omega arith in rw e (ground arith)
test-scale (suc s) a i =
    ap (λ y. test y i) (scale_suc s a) ∙ test_doubled (a * 2 ^ s) a s i (test-scale s a)

-- The remainder by twice a number, from that of the half.
mod_double : (p x : ℕ) → 0 < p → x % (2 * p) ≡ 2 * ((x / 2) % p) + x % 2
mod_double p x h =
    let q = x / 2 / p in
    let r = (x / 2) % p in
    let e : 2 * p * q ≡ 2 * (p * q) = mul_assoc 2 p q in
    let split : x ≡ 2 * r + x % 2 + 2 * p * q = omega (arith, div-add-mod (x / 2) p) in
    let small : 2 * r + x % 2 < 2 * p = omega (arith, mod-lt (x / 2) h) in
    ap (λ t. t % (2 * p)) split
    ∙ add-mul-mod_self_left (2 * r + x % 2) (2 * p) q
    ∙ mod-eq_of_lt small

pub test-mod : (w x i : ℕ) → test (x % 2 ^ w) i ≡ (ltb i w && test x i)
unfolding test
test-mod zero x i = ground (arith, test-zero i)
test-mod (suc w) x zero =
    let d : x % 2 ^ suc w ≡ 2 * ((x / 2) % 2 ^ w) + x % 2 =
      ap (λ m. x % m) (pow_double w) ∙ mod_double (2 ^ w) x (omega (arith, one-le-pow w 2)) in
    let low : (x % 2 ^ suc w) % 2 ≡ x % 2 = omega (arith, d) in rw low (ground arith)
test-mod (suc w) x (suc i) =
    let d : x % 2 ^ suc w ≡ 2 * ((x / 2) % 2 ^ w) + x % 2 =
      ap (λ m. x % m) (pow_double w) ∙ mod_double (2 ^ w) x (omega (arith, one-le-pow w 2)) in
    let half : (x % 2 ^ suc w) / 2 ≡ (x / 2) % 2 ^ w = omega (arith, d) in
    rw half (test-mod w (x / 2) i ∙ ground arith)

pub test-shl : (a s i : ℕ) → test (shl a s) i ≡ (ltb i 64 && (leb s i && test a (i - s)))
test-shl a s i = test-mod 64 (a * 2 ^ s) i ∙ ap (λ b. ltb i 64 && b) (test-scale s a i)

pub test-shr : (s a i : ℕ) → test (a / 2 ^ s) i ≡ test a (i + s)
test-shr zero a i =
    let e : a / 2 ^ 0 ≡ a = omega arith in let n : i + 0 ≡ i = omega arith in rw (e, n) refl
test-shr (suc s) a i =
    let e : a / 2 ^ suc s ≡ a / 2 / 2 ^ s = rw (pow-succ', ← div-div-eq-div-mul) refl in
    let n : i + suc s ≡ suc (i + s) = omega arith in
    ap (λ y. test y i) e ∙ test-shr s (a / 2) i ∙ test_next a (i + s) ∙ ap (test a) (sym n)
  where
    test_next : (x j : ℕ) → test (x / 2) j ≡ test x (suc j)
    test_next x j = unfold test in refl
