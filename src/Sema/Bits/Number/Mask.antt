-- ===== src/Sema/Bits/Number/Mask.antt =====
-- `masked` takes the remainder by the power of two of the width.
use Prim.Native.Nat.{bit_and, bit_and-bitwise}
use native.Mathlib.Nat.{one-le-pow, mod-lt, mod-eq_of_lt}
use astli.Prelude.{
  ℕ, zero, suc, ◌+◌, ◌-◌, ◌*◌, ◌%◌, ◌/◌, ◌^◌, ◌≤◌, ◌<◌, ◌≡◌, ◌≢◌, refl, ap, sym, ◌∙◌, none, some,
  List, [], ◌∷◌, inl, inr, arith, Bool-cases, Option-cases, ◌==◌, ◌>>=◌, replicate,
}
use astli.Sema.Bits.{Bits, low, limbs, mask_last, masked}
use astli.Sema.Bits.Limb.{test, test-and, test-low, test_ext, and-lt}
use astli.Sema.Bits.Limb.Shift.{test-mod}
use astli.Sema.Bits.Fits.{Fits, Loose, pow_mono, low_lem, mask_last-Fits}
use astli.Sema.Bits.Masked.{Loose-Fits}
use astli.Sema.Bits.Number.{number, Fits-lt, pow-limb}
use astli.Sema.Bits.Number.Modulo.{mod_limb}

-- A limb under the mask of its low bits is its remainder.
and-low : (r l : ℕ) → r < 64 → l < 2 ^ 64 → bit_and l (low r) ≡ l % 2 ^ r
and-low r l h k =
    let pos : 0 < 2 ^ r = omega (arith, one-le-pow r 2) in
    let top : 2 ^ r ≤ 2 ^ 64 = pow_mono r 64 (omega arith) in
    let mask : low r ≡ 2 ^ r - 1 = low_lem r h in
    test_ext 64 (bit_and l (low r)) (l % 2 ^ r) (and-lt 64 l (low r) (omega (arith, mask)))
      (omega (arith, mod-lt l pos))
      λ i m.
        test-and i l (low r) ∙ ground (arith, ap (λ x. test x i) mask, test-low r i, test-mod r l i)

-- The remainder of a number by a width past its lowest limb.
mod_wide :
    (w l n : ℕ) → 64 ≤ w → l < 2 ^ 64 → (l + 2 ^ 64 * n) % 2 ^ w ≡ l + 2 ^ 64 * (n % 2 ^ (w - 64))
mod_wide w l n h k =
    let pos : 0 < 2 ^ (w - 64) = omega (arith, one-le-pow (w - 64) 2) in
    let e : l % 2 ^ 64 ≡ l = omega arith in
    let d : l / 2 ^ 64 ≡ 0 = omega arith in
    let f : n + l / 2 ^ 64 ≡ n = omega arith in
    ap (λ m. (l + 2 ^ 64 * n) % m) (pow-limb w h)
    ∙ sym (mod_limb (2 ^ 64) (2 ^ (w - 64)) l n (omega arith) pos)
    ∙ ap (λ x. x + 2 ^ 64 * ((n + l / 2 ^ 64) % 2 ^ (w - 64))) e
    ∙ ap (λ x. l + 2 ^ 64 * (x % 2 ^ (w - 64))) f

mask_one : (r l : ℕ) (rs : List ℕ) → mask_last r (l ∷ []) ≡ some rs → rs ≡ bit_and l (low r) ∷ []
unfolding mask_last
mask_one r l rs q = cc q

mask_more :
    (r l m : ℕ) (ls ms rs : List ℕ)
    → mask_last r (m ∷ ls) ≡ some ms
    → mask_last r (l ∷ m ∷ ls) ≡ some rs
    → rs ≡ l ∷ ms
unfolding mask_last
mask_more r l m ls ms rs p q = ground (arith, p, q)

mask_none :
    (r l m : ℕ) (ls rs : List ℕ) → mask_last r (m ∷ ls) ≡ none → mask_last r (l ∷ m ∷ ls) ≢ some rs
unfolding mask_last
mask_none r l m ls rs p q = ground (arith, p, q)

number-mask_last :
    (w r : ℕ) (ls rs : List ℕ)
    → w % 64 ≡ r
    → r ≢ 0
    → Loose w ls
    → mask_last r ls ≡ some rs
    → number rs ≡ number ls % 2 ^ w
unfolding number
number-mask_last w r [] rs e n h q = absurd (n (omega (arith, h, e)))
number-mask_last w r (l ∷ []) rs e n h q =
    let same : r ≡ w = omega (arith, h.2, h.0) in
    let alone : l ≡ l + 2 ^ 64 * 0 = omega arith in
    ap number (mask_one r l rs q)
    ∙ omega (arith, and-low r l (omega (arith, e)) h.1)
    ∙ ap (λ k. l % 2 ^ k) same
    ∙ ap (λ x. x % 2 ^ w) alone
number-mask_last w r (l ∷ m ∷ ls) rs e n h q = elim (Option-cases (mask_last r (m ∷ ls))) [
  | inl p ↦ absurd (mask_none r l m ls rs p q)
  | inr (ms, p) ↦
      ap number (mask_more r l m ls ms rs p q)
      ∙ ap (λ x. l + 2 ^ 64 * x)
          (number-mask_last (w - 64) r (m ∷ ls) ms (omega (arith, h.2.0, e)) n h.2 p)
      ∙ sym (mod_wide w l (number (m ∷ ls)) (omega (arith, h.2.0)) h.1)
]

mask_zeros : (r n : ℕ) → mask_last r (replicate (suc n) 0) ≡ some (replicate (suc n) 0)
unfolding mask_last
mask_zeros r zero = ap (λ x. some (x ∷ [])) (bit_and-bitwise 0 (low r))
mask_zeros r (suc n) = rw (mask_zeros r n, ◌>>=◌) refl

-- What `masked` makes of a known value.
pub masked-number :
    (b : Bits) (n : ℕ)
    → 0 < b.width
    → Loose b.width b.value
    → b.unknown ≡ replicate n 0
    → n ≡ limbs b.width
    → (vs : List ℕ) × (masked b ≡ some (record b { value = vs; unknown = replicate n 0 }))
      × Fits b.width vs
      × (number vs ≡ number b.value % 2 ^ b.width)
unfolding masked
masked-number b zero pos h u e = absurd (omega arith)
masked-number b (suc n) pos h u e = elim (Bool-cases (b.width % 64 == 0)) [
  | inl whole ↦
      let fits : Fits b.width b.value = Loose-Fits b.width b.value (ground arith) h in
      (
        b.value,
        rw whole (ap (λ us. some (record b { unknown = us })) u),
        fits,
        sym (mod-eq_of_lt (Fits-lt b.width b.value fits)),
      )
  | inr part ↦
      let ne : b.width % 64 ≢ 0 = ground arith in
      let (vs, run, fits, bits) = mask_last-Fits b.width (b.width % 64) b.value pos refl ne h in
      (
        vs,
        rw (part, u) (rw (run, ◌>>=◌, mask_zeros (b.width % 64) n, ◌>>=◌) refl),
        fits,
        number-mask_last b.width (b.width % 64) b.value vs refl ne h run,
      )
]
