-- ===== src/Sema/Bits/Limb.antt =====
-- The `u64` limbs of crates/astli-sema/src/value/bits.rs: a limb is a number below 2^64, and the
-- operators of `u64` are written out with their wrap-around. `test` reads one bit of a number.
mod Step
pub mod Shift
use Step.{and_digit, or_digit, xor_digit, differ-eq}
use native.Mathlib.Nat.{pow-suc, pow-succ', one-le-pow, div-div-eq-div-mul}
use Prim.Native.Nat.{bit_and, bit_or, bit_xor}
use astli.Prelude.{
  sym, ℕ, zero, suc, ◌+◌, ◌-◌, ◌*◌, ◌/◌, ◌%◌, ◌^◌, ◌≤◌, ◌<◌, ◌≡◌, refl, ap, sym, ◌∙◌, Bool, true,
  false, not, ◌&&◌, ◌||◌, arith, ◌==◌, ltb, leb, if◌then◌else◌,
}

abbrev pub u64_mod : ℕ
u64_mod = 2 ^ 64

abbrev pub u64_max : ℕ
u64_max = 2 ^ 64 - 1

-- `!a`, at a width of `w` bits and at 64.
abbrev pub not_at : ℕ → ℕ → ℕ
not_at w a = 2 ^ w - 1 - a

abbrev pub inv : ℕ → ℕ
inv = not_at 64

-- Bit `i` of a number.
unfoldable pub test : ℕ → ℕ → Bool
test x zero = x % 2 == 1
test x (suc i) = test (x / 2) i

pub test-and : (i a b : ℕ) → test (bit_and a b) i ≡ (test a i && test b i)
unfolding test
test-and zero a b = ground (arith, and_digit a b)
test-and (suc i) a b =
    let half : bit_and a b / 2 ≡ bit_and (a / 2) (b / 2) = omega (arith, and_digit a b) in
    rw half (test-and i (a / 2) (b / 2))

pub test-or : (i a b : ℕ) → test (bit_or a b) i ≡ (test a i || test b i)
unfolding test
test-or zero a b = ground (arith, or_digit a b)
test-or (suc i) a b =
    let half : bit_or a b / 2 ≡ bit_or (a / 2) (b / 2) = omega (arith, or_digit a b) in
    rw half (test-or i (a / 2) (b / 2))

abbrev pub differ : Bool → Bool → Bool
differ true b = not b
differ false b = b

pub test-xor : (i a b : ℕ) → test (bit_xor a b) i ≡ differ (test a i) (test b i)
unfolding test
test-xor zero a b = ground (arith, xor_digit a b, differ-eq (a % 2) (b % 2))
test-xor (suc i) a b =
    let half : bit_xor a b / 2 ≡ bit_xor (a / 2) (b / 2) =
      omega (arith, xor_digit a b, differ-eq (a % 2) (b % 2) (omega arith) (omega arith)) in
    rw half (test-xor i (a / 2) (b / 2))

pub test-not : (w i a : ℕ) → a < 2 ^ w → i < w → test (not_at w a) i ≡ not (test a i)
unfolding test
test-not zero i a h k = absurd (omega arith)
test-not (suc w) zero a h k = ground (arith, pow-suc 2 w)
test-not (suc w) (suc i) a h k =
    let half : not_at (suc w) a / 2 ≡ not_at w (a / 2) = omega (arith, pow-suc 2 w) in
    rw half (test-not w i (a / 2) (omega (arith, pow-suc 2 w)) (omega arith))

pub test-zero : (i : ℕ) → test 0 i ≡ false
unfolding test
test-zero zero = refl
test-zero (suc i) = test-zero i

-- The bits of a mask of `k` ones.
pub test-low : (k i : ℕ) → test (2 ^ k - 1) i ≡ ltb i k
unfolding test
test-low zero zero = refl
test-low zero (suc i) = ground (arith, test-zero i)
test-low (suc k) zero = ground (arith, pow-suc 2 k, one-le-pow k 2)
test-low (suc k) (suc i) =
    let half : (2 ^ suc k - 1) / 2 ≡ 2 ^ k - 1 = omega (arith, pow-suc 2 k) in
    rw half (test-low k i ∙ ground arith)

-- A number below 2^w has no bit from `w` on, and is decided by its bits.
pub test-high : (w i a : ℕ) → a < 2 ^ w → w ≤ i → test a i ≡ false
unfolding test
test-high zero i a h k = let e : a ≡ 0 = omega arith in rw e (test-zero i)
test-high (suc w) zero a h k = absurd (omega arith)
test-high (suc w) (suc i) a h k = test-high w i (a / 2) (omega (arith, pow-suc 2 w)) (omega arith)

pub test_ext : (w a b : ℕ) → a < 2 ^ w → b < 2 ^ w → ((i : ℕ) → i < w → test a i ≡ test b i) → a ≡ b
unfolding test
test_ext zero a b ha hb h = omega arith
test_ext (suc w) a b ha hb h =
    let top =
      test_ext w (a / 2) (b / 2) (omega (arith, pow-suc 2 w)) (omega (arith, pow-suc 2 w))
        (λ i k. h (suc i) (omega arith)) in
    let low = h 0 (omega arith) in ground arith

and_none : (w a : ℕ) → a < 2 ^ w → bit_and a 0 ≡ 0
and_none zero a h = let e : a ≡ 0 = omega arith in rw e
and_none (suc w) a h = omega (arith, and_digit a 0, and_none w (a / 2) (omega (arith, pow-suc 2 w)))

lt-pow : (n : ℕ) → n < 2 ^ n
lt-pow zero = omega arith
lt-pow (suc n) = omega (arith, pow-suc 2 n, lt-pow n)

and_low : (a : ℕ) → bit_and a 1 ≡ a % 2
and_low a = omega (arith, and_digit a 1, and_none (a / 2) (a / 2) (lt-pow (a / 2)))

pub and-lt : (w a b : ℕ) → b < 2 ^ w → bit_and a b < 2 ^ w
and-lt zero a b h = let e : b ≡ 0 = omega arith in rw e (omega (arith, and_none a a (lt-pow a)))
and-lt (suc w) a b h =
    omega (arith, pow-suc 2 w, and_digit a b, and-lt w (a / 2) (b / 2) (omega (arith, pow-suc 2 w)))

pub or-lt : (w a b : ℕ) → a < 2 ^ w → b < 2 ^ w → bit_or a b < 2 ^ w
or-lt zero a b h k =
    let (p, q) : (a ≡ 0) × (b ≡ 0) = (omega arith, omega arith) in rw (p, q) (omega arith)
or-lt (suc w) a b h k = omega (
  arith,
  pow-suc 2 w,
  or_digit a b,
  or-lt w (a / 2) (b / 2) (omega (arith, pow-suc 2 w)) (omega (arith, pow-suc 2 w)),
)

pub xor-lt : (w a b : ℕ) → a < 2 ^ w → b < 2 ^ w → bit_xor a b < 2 ^ w
xor-lt zero a b h k =
    let (p, q) : (a ≡ 0) × (b ≡ 0) = (omega arith, omega arith) in rw (p, q) (omega arith)
xor-lt (suc w) a b h k = omega (
  arith,
  pow-suc 2 w,
  xor_digit a b,
  differ-eq (a % 2) (b % 2) (omega arith) (omega arith),
  xor-lt w (a / 2) (b / 2) (omega (arith, pow-suc 2 w)) (omega (arith, pow-suc 2 w)),
)

test-shift : (x k : ℕ) → test x k ≡ ((x / 2 ^ k) % 2 == 1)
unfolding test
test-shift x zero = ground arith
test-shift x (suc k) = rw (pow-succ', ← div-div-eq-div-mul) (test-shift (x / 2) k)

-- Shifting right and masking reads the bit.
pub bit_of-test : (x k : ℕ) → (bit_and (x / 2 ^ k) 1 == 1) ≡ test x k
bit_of-test x k = rw and_low (sym (test-shift x k))
