-- ===== src/Sema/Bits/Number.antt =====
-- The number that a vector of limbs stands for, least limb first, and its bounds.
pub mod Modulo
pub mod Mask
pub mod Digits
use native.Mathlib.Nat.{one-le-pow, pow-suc, mul_assoc, mul_left_comm}
use astli.Prelude.{
  ℕ, zero, suc, ◌+◌, ◌-◌, ◌*◌, ◌^◌, ◌≤◌, ◌<◌, ◌≡◌, refl, ap, sym, ◌∙◌, subst, min, List, [], ◌∷◌,
  arith, length, All, Bool-cases, inl, inr, leb,
}
use astli.Sema.Bits.Fits.{Fits, Loose, Fits-Loose}
use astli.Sema.Bits.{limbs}

unfoldable pub number : List ℕ → ℕ
number [] = 0
number (l ∷ ls) = l + 2 ^ 64 * number ls

-- The numbers that so many limbs can stand for.
unfoldable pub room : ℕ → ℕ
room zero = 1
room (suc n) = 2 ^ 64 * room n

abbrev pub IsLimb : ℕ → Type 0
IsLimb l = l < 2 ^ 64

pub room_pos : (n : ℕ) → 0 < room n
unfolding room
room_pos zero = omega arith
room_pos (suc n) = omega (arith, room_pos n)

pub number-lt-room : (ls : List ℕ) → All IsLimb ls → number ls < room (length ls)
unfolding number room
number-lt-room [] h = omega arith
number-lt-room (l ∷ ls) h = omega (arith, number-lt-room ls h.1, h.0)

pub Loose-All : (w : ℕ) (ls : List ℕ) → Loose w ls → All IsLimb ls
Loose-All w [] h = tt
Loose-All w (l ∷ ls) h = (h.1, Loose-All (w - 64) ls h.2)

pub pow_split : (a b : ℕ) → 2 ^ (a + b) ≡ 2 ^ a * 2 ^ b
pow_split a zero = let e : a + 0 ≡ a = omega arith in rw e (omega arith)
pow_split a (suc b) =
    let e : a + suc b ≡ suc (a + b) = omega arith in
    let d : 2 ^ suc b ≡ 2 * 2 ^ b = omega (arith, pow-suc 2 b) in
    let f : 2 ^ suc (a + b) ≡ 2 * 2 ^ (a + b) = omega (arith, pow-suc 2 (a + b)) in
    ap (λ n. 2 ^ n) e
    ∙ f
    ∙ ap (λ n. 2 * n) (pow_split a b)
    ∙ mul_left_comm 2 (2 ^ a) (2 ^ b)
    ∙ ap (λ n. 2 ^ a * n) (sym d)

pub pow-limb : (w : ℕ) → 64 ≤ w → 2 ^ w ≡ 2 ^ 64 * 2 ^ (w - 64)
pow-limb w h =
    let e : 64 + (w - 64) ≡ w = omega arith in ap (λ n. 2 ^ n) (sym e) ∙ pow_split 64 (w - 64)

no_limbs : (w : ℕ) (ls : List ℕ) → w ≤ 64 → Loose (w - 64) ls → ls ≡ []
no_limbs w [] k h = refl
no_limbs w (l ∷ ls) k h = absurd (omega (arith, h.0))

-- As many limbs as the width needs have room for it.
pub Loose-room : (w : ℕ) (ls : List ℕ) → Loose w ls → (k : ℕ) × (room (length ls) ≡ 2 ^ w * k)
unfolding room
Loose-room w [] h = (1, let e : w ≡ 0 = h in rw e refl)
Loose-room w (l ∷ ls) h = elim (Bool-cases (leb 64 w)) [
  | inl wide ↦
      let (k, e) = Loose-room (w - 64) ls h.2 in
      (
        k,
        ap (λ n. 2 ^ 64 * n) e
            ∙ sym (mul_assoc (2 ^ 64) (2 ^ (w - 64)) k)
            ∙ ap (λ n. n * k) (sym (pow-limb w (ground arith))),
      )
  | inr narrow ↦
      let e : ls ≡ [] = no_limbs w ls (ground arith) h.2 in
      let f : w + (64 - w) ≡ 64 = ground arith in
      (
        2 ^ (64 - w),
        ap (λ xs. 2 ^ 64 * room (length xs)) e ∙ ap (λ n. 2 ^ n) (sym f) ∙ pow_split w (64 - w),
      )
]

pub Fits-lt : (w : ℕ) (ls : List ℕ) → Fits w ls → number ls < 2 ^ w
unfolding number
Fits-lt w [] h = one-le-pow w 2 (omega arith)
Fits-lt w (l ∷ ls) h = elim (Bool-cases (leb 64 w)) [
  | inl wide ↦
      let full : min w 64 ≡ 64 = ground arith in
      let small : l < 2 ^ 64 = subst (λ m. l < 2 ^ m) full h.1 in
      omega (arith, pow-limb w (ground arith), Fits-lt (w - 64) ls h.2, small)
  | inr narrow ↦
      let e : ls ≡ [] = no_limbs w ls (ground arith) (Fits-Loose (w - 64) ls h.2) in
      let part : min w 64 ≡ w = ground arith in
      let small : l < 2 ^ w = subst (λ m. l < 2 ^ m) part h.1 in rw e (omega (arith, small))
]

pub length-Loose : (w : ℕ) (ls : List ℕ) → Loose w ls → length ls ≡ limbs w
length-Loose w [] h = omega (arith, h)
length-Loose w (l ∷ ls) h = omega (arith, length-Loose (w - 64) ls h.2, h.0)
