-- ===== src/Sema/Bits/Limb/Step.antt =====
-- The native bit operations, one binary digit at a time: the count of digits that they recur on is
-- dropped.
use Prim.Native.Nat.{
  digits, differ, bit_and, bit_or, bit_xor, bit_and-bitwise, bit_or-bitwise, bit_xor-bitwise,
}
use native.Mathlib.Nat.{add-zero, add-suc}
use astli.Prelude.{
  ℕ, zero, suc, ◌+◌, ◌-◌, ◌*◌, ◌/◌, ◌%◌, ◌≤◌, ◌<◌, ◌≡◌, ◌∙◌, refl, sym, subst, min, max, arith,
}

module _ (z : ℕ → ℕ) (f : ℕ → ℕ → ℕ) where
  digits_one_more : (n a b : ℕ) → a ≤ n → digits z f (suc n) a b ≡ digits z f n a b
  digits_one_more n zero b h = digits_none n b
    where
      digits_none : (m c : ℕ) → digits z f (suc m) zero c ≡ digits z f m zero c
      digits_none zero c = refl
      digits_none (suc m) c = refl
  digits_one_more zero (suc a) b h = absurd (omega arith)
  digits_one_more (suc n) (suc a) b h = rw (digits_one_more n (suc a / 2) (b / 2) (omega arith))

  digits_spare : (spare a b : ℕ) → digits z f (a + spare) a b ≡ digits z f a a b
  digits_spare zero a b = rw add-zero
  digits_spare (suc spare) a b =
      rw add-suc (digits_one_more (a + spare) a b (omega arith) ∙ digits_spare spare a b)

  -- The digits of `a + 1`, from those of its half.
  digits_step :
      (a b : ℕ)
      → digits z f (suc a) (suc a) b
        ≡ f (suc a % 2) (b % 2) + 2 * digits z f (suc a / 2) (suc a / 2) (b / 2)
  digits_step a b =
      let h = suc a / 2 in
      let enough : a ≡ h + (a - h) = omega arith in
      let same : digits z f a h (b / 2) ≡ digits z f h h (b / 2) =
        subst (λ n. digits z f n h (b / 2) ≡ digits z f h h (b / 2)) (sym enough)
          (digits_spare (a - h) h (b / 2)) in
      omega (arith, same)

pub and_digit : (a b : ℕ) → bit_and a b ≡ min (a % 2) (b % 2) + 2 * bit_and (a / 2) (b / 2)
and_digit zero b = simp bit_and-bitwise (omega arith)
and_digit (suc a) b = simp bit_and-bitwise (digits_step (λ _. 0) min a b)

pub or_digit : (a b : ℕ) → bit_or a b ≡ max (a % 2) (b % 2) + 2 * bit_or (a / 2) (b / 2)
or_digit zero b = simp bit_or-bitwise (omega arith)
or_digit (suc a) b = simp bit_or-bitwise (digits_step (λ y. y) max a b)

pub xor_digit : (a b : ℕ) → bit_xor a b ≡ differ (a % 2) (b % 2) + 2 * bit_xor (a / 2) (b / 2)
xor_digit zero b = simp bit_xor-bitwise (omega arith)
xor_digit (suc a) b = simp bit_xor-bitwise (digits_step (λ y. y) differ a b)

pub differ-eq : (a b : ℕ) → a < 2 → b < 2 → differ a b ≡ (a + b) % 2
differ-eq zero b h k = omega arith
differ-eq (suc zero) zero h k = refl
differ-eq (suc zero) (suc zero) h k = refl
differ-eq (suc zero) (suc (suc b)) h k = absurd (omega arith)
differ-eq (suc (suc a)) b h k = absurd (omega arith)
