-- ===== src/Sema/Bits/Fits.antt =====
-- The shape of a vector of limbs: as many as the width needs, each in range, and no bit above the
-- width; and what a bit of it is.
use native.Mathlib.Nat.{pow-suc, one-le-pow}
use Prim.Native.Nat.{bit_and}
use astli.Prelude.{
  ℕ, zero, suc, ◌+◌, ◌-◌, ◌/◌, ◌%◌, ◌^◌, ◌≤◌, ◌<◌, ◌≡◌, ◌≢◌, refl, ap, ap₂, sym, ◌∙◌, min, Bool,
  true, false, arith, some, List, [], ◌∷◌, inl, inr, get_elem?, ltb, if◌then◌else◌, ◌>>=◌,
  Bool-cases, subst,
}
use astli.Sema.Bits.{Bits, from_pair, low, mask_last, bit_of, bit}
use astli.Sema.Bits.Limb.{test, test-and, test-low, test_ext, and-lt, bit_of-test}

-- The limbs of a value of `w` bits.
abbrev pub Fits : ℕ → List ℕ → Type 0
Fits w [] = w ≡ 0
Fits w (l ∷ ls) = (0 < w) × (l < 2 ^ min w 64) × Fits (w - 64) ls

-- The same, but for bits above the width.
abbrev pub Loose : ℕ → List ℕ → Type 0
Loose w [] = w ≡ 0
Loose w (l ∷ ls) = (0 < w) × (l < 2 ^ 64) × Loose (w - 64) ls

pub record IsValid (b : Bits) : Type 0 where
  pub positive : 0 < b.width
  pub value_fits : Fits b.width b.value
  pub unknown_fits : Fits b.width b.unknown

-- One bit of a vector of limbs.
unfoldable pub test_at : List ℕ → ℕ → Bool
test_at [] i = false
test_at (l ∷ ls) i = if ltb i 64 then test l i else test_at ls (i - 64)

pow_le : (k n : ℕ) → 2 ^ k ≤ 2 ^ (n + k)
pow_le k zero = let e : 0 + k ≡ k = omega arith in rw e (omega arith)
pow_le k (suc n) =
    let e : suc n + k ≡ suc (n + k) = omega arith in
    rw e (omega (arith, pow-suc 2 (n + k), pow_le k n))

pub pow_mono : (k n : ℕ) → k ≤ n → 2 ^ k ≤ 2 ^ n
pow_mono k n h =
    let e : n ≡ (n - k) + k = omega arith in
    rw e (subst (λ m. 2 ^ k ≤ 2 ^ m) refl (pow_le k (n - k)))

pub Fits-Loose : (w : ℕ) (ls : List ℕ) → Fits w ls → Loose w ls
Fits-Loose w [] h = h
Fits-Loose w (l ∷ ls) h =
    (h.0, omega (arith, pow_mono (min w 64) 64 (omega arith)), Fits-Loose (w - 64) ls h.2)

pub low_lem : (r : ℕ) → r < 64 → low r ≡ 2 ^ r - 1
low_lem r h = ground arith

-- A limb under the mask of its low `r` bits.
and-low-lt : (r l : ℕ) → r < 64 → bit_and l (low r) < 2 ^ r
and-low-lt r l h = rw (low_lem r h) (and-lt r l (2 ^ r - 1) (omega (arith, one-le-pow r 2)))

test-and-low : (r l i : ℕ) → r < 64 → i < r → test (bit_and l (low r)) i ≡ test l i
test-and-low r l i h k = rw (low_lem r h, test-and, test-low) (ground arith)

-- Masking the last limb takes off what is above the width, and nothing else.
pub mask_last-Fits :
    (w r : ℕ) (ls : List ℕ)
    → 0 < w
    → w % 64 ≡ r
    → r ≢ 0
    → Loose w ls
    → (rs : List ℕ) × (mask_last r ls ≡ some rs)
      × Fits w rs
      × ((i : ℕ) → i < w → test_at rs i ≡ test_at ls i)
unfolding mask_last test_at
mask_last-Fits w r [] p e n h = absurd (omega arith)
mask_last-Fits w r (l ∷ []) p e n h =
    let same : min w 64 ≡ r = omega arith in
    (
      bit_and l (low r) ∷ [],
      refl,
      (p, rw same (and-low-lt r l (omega arith)), h.2),
      λ i k. ground (arith, test-and-low r l i (omega arith) (omega arith)),
    )
mask_last-Fits w r (l ∷ m ∷ ls) p e n h =
    let full : min w 64 ≡ 64 = omega (arith, h.2.0) in
    let (rs, masks, fits, bits) =
      mask_last-Fits (w - 64) r (m ∷ ls) h.2.0 (omega (arith, h.2.0)) n h.2 in
    (l ∷ rs, rw (masks, ◌>>=◌), (p, rw full h.1, fits), λ i k. ground (arith, bits (i - 64)))

pub test_at-tail : (l : ℕ) (ls : List ℕ) (i : ℕ) → test_at (l ∷ ls) (i + 64) ≡ test_at ls i
unfolding test_at
test_at-tail l ls i =
    let e : i + 64 - 64 ≡ i = omega arith in
    let far : ltb (i + 64) 64 ≡ false = ground arith in rw (far, e)

-- The bits of a vector of limbs that fits decide it.
pub Fits-ext :
    (w : ℕ) (xs ys : List ℕ)
    → Fits w xs
    → Fits w ys
    → ((i : ℕ) → i < w → test_at xs i ≡ test_at ys i)
    → xs ≡ ys
unfolding test_at
Fits-ext w [] [] ha hb h = refl
Fits-ext w [] (b ∷ ys) ha hb h = absurd (omega (arith, hb.0))
Fits-ext w (a ∷ xs) [] ha hb h = absurd (omega (arith, ha.0))
Fits-ext w (a ∷ xs) (b ∷ ys) ha hb h =
    ap₂ ◌∷◌ (test_ext (min w 64) a b ha.1 hb.1 (λ i k. ground (arith, h i))) (
      Fits-ext (w - 64) xs ys ha.2 hb.2
        (λ i k. sym (test_at-tail a xs i) ∙ h (i + 64) (omega arith) ∙ test_at-tail b ys i))

read_near :
    (l : ℕ) (ls : List ℕ) (i : ℕ)
    → i < 64
    → (get_elem? (l ∷ ls) (i / 64) ≡ some l) × (bit_of l (i % 64) ≡ test_at (l ∷ ls) i)
unfolding test_at
read_near l ls i h =
    let q : i / 64 ≡ 0 = omega arith in
    let r : i % 64 ≡ i = omega arith in
    let near : ltb i 64 ≡ true = ground arith in
    (ap (get_elem? (l ∷ ls)) q, ap (bit_of l) r ∙ rw near (bit_of-test l i))

read_far :
    (l : ℕ) (ls : List ℕ) (i m : ℕ)
    → 64 ≤ i
    → get_elem? ls ((i - 64) / 64) ≡ some m
    → bit_of m ((i - 64) % 64) ≡ test_at ls (i - 64)
    → (get_elem? (l ∷ ls) (i / 64) ≡ some m) × (bit_of m (i % 64) ≡ test_at (l ∷ ls) i)
unfolding test_at
read_far l ls i m h at same =
    let q : i / 64 ≡ suc ((i - 64) / 64) = omega arith in
    let r : i % 64 ≡ (i - 64) % 64 = omega arith in
    let far : ltb i 64 ≡ false = ground arith in
    (ap (get_elem? (l ∷ ls)) q ∙ at, ap (bit_of m) r ∙ rw far same)

-- Reading a bit of a vector that fits does not panic, and gives `test_at`.
pub read_limb :
    (w : ℕ) (ls : List ℕ) (i : ℕ)
    → Loose w ls
    → i < w
    → (l : ℕ) × (get_elem? ls (i / 64) ≡ some l) × (bit_of l (i % 64) ≡ test_at ls i)
unfolding test_at
read_limb w [] i h k = absurd (omega arith)
read_limb w (l ∷ ls) i h k = elim (Bool-cases (ltb i 64)) [
  | inl near ↦ let (at, same) = read_near l ls i (ground arith) in (l, at, same)
  | inr far ↦
      let (m, at, same) = read_limb (w - 64) ls (i - 64) h.2 (ground arith) in
      let (at', same') = read_far l ls i m (ground arith) at same in (m, at', same')
]

-- `bit` on a valid value, below its width.
pub bit-test :
    (b : Bits) (i : ℕ)
    → IsValid b
    → i < b.width
    → bit b i ≡ some (from_pair (test_at b.value i) (test_at b.unknown i))
unfolding bit
bit-test b i h k =
    let (v, at_v, is_v) = read_limb b.width b.value i (Fits-Loose b.width b.value h.value_fits) k in
    let (u, at_u, is_u) =
      read_limb b.width b.unknown i (Fits-Loose b.width b.unknown h.unknown_fits) k in
    rw (at_v, at_u, ◌>>=◌) (rw (is_v, is_u))
