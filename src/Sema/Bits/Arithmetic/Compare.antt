-- ===== src/Sema/Bits/Arithmetic/Compare.antt =====
-- `compare` is the order of the numbers that values stand for, read as their signing says.
use Prim.Native.Nat.{compare, Ordering}
use Prim.Native.Nat.Ordering.{lt, eq, gt}
use native.Mathlib.Nat.{
  mul-le-mul_right, mul-add, mul_assoc, mul_comm, mul_left_comm, add-mul, pow-suc,
}
use astli.Prelude.{
  ℕ, zero, suc, ◌+◌, ◌-◌, ◌*◌, ◌^◌, ◌≤◌, ◌<◌, ◌≡◌, refl, ap, ap₂, sym, ◌∙◌, subst, Bool, true,
  false, ◌&&◌, ◌||◌, Option, none, some, List, [], ◌∷◌, arith, All, length, any, leb, if◌then◌else◌,
  ◌>>=◌, Bool-cases, inl, inr,
}
use astli.Sema.Bits.{Bits, Bit, not_zero, has_unknown, is_negative, is_one, top, from_pair}
use astli.Sema.Bits.Limb.{test-zero}
use astli.Sema.Bits.Fits.{IsValid, test_at, bit-test}
use astli.Sema.Bits.Number.{number, room, IsLimb, Fits-lt}
use astli.Sema.Bits.Number.Digits.{test-number, test-top}
use astli.Sema.Bits.Arithmetic.{compare_pairs, reverse, compare_limbs, by_sign, compare_bits}
use astli.Sema.Bits.Arithmetic.Laws.{long, value-All}

-- The number of limbs that are written highest first.
unfoldable high_first : List ℕ → ℕ
high_first [] = 0
high_first (a ∷ as') = a * room (length as') + high_first as'

high_first-lt : (as' : List ℕ) → All IsLimb as' → high_first as' < room (length as')
unfolding high_first room
high_first-lt [] h = omega arith
high_first-lt (a ∷ as') h =
    let more : a + 1 ≤ 2 ^ 64 = omega (arith, h.0) in
    let top : (a + 1) * room (length as') ≤ 2 ^ 64 * room (length as') =
      mul-le-mul_right (room (length as')) more in
    omega (arith, top, add-mul a 1 (room (length as')), high_first-lt as' h.1)

first-lt : (a b m x y : ℕ) → x < m → a < b → a * m + x < b * m + y
first-lt a b m x y hx h =
    let more : a + 1 ≤ b = omega (arith, h) in
    let top : (a + 1) * m ≤ b * m = mul-le-mul_right m more in omega (arith, top, add-mul a 1 m)

-- The first limb that differs decides.
compare_first :
    (a b m x y : ℕ)
    → x < m
    → y < m
    → compare (a * m + x) (b * m + y) ≡ elim (compare a b) [ eq ↦ compare x y | lt ↦ lt | gt ↦ gt ]
compare_first a b m x y hx hy =
    ground (arith, first-lt a b m x y hx, first-lt b a m y x hy, λ (e : a ≡ b). ap (λ t. t * m) e)

compare_pairs-high :
    (as' bs : List ℕ)
    → length as' ≡ length bs
    → All IsLimb as'
    → All IsLimb bs
    → compare_pairs as' bs ≡ compare (high_first as') (high_first bs)
unfolding compare_pairs high_first
compare_pairs-high [] [] e ha hb = refl
compare_pairs-high [] (b ∷ bs) e ha hb = absurd (omega arith)
compare_pairs-high (a ∷ as') [] e ha hb = absurd (omega arith)
compare_pairs-high (a ∷ as') (b ∷ bs) e ha hb =
    let same : length as' ≡ length bs = omega arith in
    ap (λ o. elim (compare a b) as (λ x. Ordering) [ eq ↦ o | lt ↦ lt | gt ↦ gt ])
      (compare_pairs-high as' bs same ha.1 hb.1)
    ∙ sym (
        compare_first a b (room (length as')) (high_first as') (high_first bs)
          (high_first-lt as' ha.1)
          (subst (λ n. high_first bs < room n) (sym same) (high_first-lt bs hb.1)))
    ∙ ap (λ n. compare (a * room (length as') + high_first as') (b * room n + high_first bs)) same

high_first-reverse :
    (ls out : List ℕ) → high_first (reverse ls out) ≡ high_first out + room (length out) * number ls
unfolding reverse high_first number room
high_first-reverse [] out = omega arith
high_first-reverse (l ∷ ls) out =
    let r = room (length out) in
    let n = number ls in
    high_first-reverse ls (l ∷ out)
    ∙ omega (
      arith,
      mul-add r l (2 ^ 64 * n),
      mul_comm r l,
      mul_left_comm r (2 ^ 64) n,
      mul_assoc (2 ^ 64) r n,
    )

length-reverse : (ls out : List ℕ) → length (reverse ls out) ≡ length ls + length out
unfolding reverse
length-reverse [] out = omega arith
length-reverse (l ∷ ls) out = omega (arith, length-reverse ls (l ∷ out))

reverse-All : (ls out : List ℕ) → All IsLimb ls → All IsLimb out → All IsLimb (reverse ls out)
unfolding reverse
reverse-All [] out h k = k
reverse-All (l ∷ ls) out h k = reverse-All ls (l ∷ out) h.1 (h.0, k)

number_of : (ls : List ℕ) → high_first (reverse ls []) ≡ number ls
number_of ls = high_first-reverse ls [] ∙ (unfold high_first room in omega arith)

pub compare_limbs_lem :
    (as' bs : List ℕ)
    → length as' ≡ length bs
    → All IsLimb as'
    → All IsLimb bs
    → compare_limbs as' bs ≡ compare (number as') (number bs)
unfolding compare_limbs
compare_limbs_lem as' bs e ha hb =
    compare_pairs-high (reverse as' []) (reverse bs [])
      (omega (arith, length-reverse as' [], length-reverse bs [], e)) (reverse-All as' [] ha tt)
      (reverse-All bs [] hb tt)
    ∙ ap₂ compare (number_of as') (number_of bs)

clear_limb : (us : List ℕ) (i : ℕ) → any not_zero us ≡ false → test_at us i ≡ false
unfolding test_at
clear_limb [] i h = refl
clear_limb (zero ∷ us) i h = ground (arith, test-zero i, clear_limb us (i - 64))
clear_limb (suc u ∷ us) i h = ground arith

top_known :
    (b : Bits)
    → IsValid b
    → has_unknown b ≡ false
    → top b ≡ some (from_pair (leb (2 ^ (b.width - 1)) (number b.value)) false)
unfolding top has_unknown
top_known b h known =
    let last : suc (b.width - 1) ≡ b.width = omega (arith, h.positive) in
    let small : number b.value < 2 ^ suc (b.width - 1) =
      subst (λ n. number b.value < 2 ^ n) (sym last) (Fits-lt b.width b.value h.value_fits) in
    bit-test b (b.width - 1) h (omega (arith, h.positive))
    ∙ ap₂ (λ p q. some (from_pair p q))
        (sym (test-number b.value (b.width - 1) (value-All b h))
          ∙ test-top (b.width - 1) (number b.value) small)
        (clear_limb b.unknown (b.width - 1) known)

sign_of :
    (s p : Bool) (t : Option Bit)
    → t ≡ some (from_pair p false)
    → (if s then (do u ← t; some (is_one u)) else some false) ≡ some (s && p)
sign_of false p t h = refl
sign_of true false t h = rw h refl
sign_of true true t h = rw h refl

-- Whether a value is negative: it is signed, and its number has the highest bit.
is_negative_known :
    (b : Bits)
    → IsValid b
    → has_unknown b ≡ false
    → is_negative b ≡ some (b.signed && leb (2 ^ (b.width - 1)) (number b.value))
unfolding is_negative
is_negative_known b h known = sign_of b.signed _ (top b) (top_known b h known)

-- The place of a value in the order of its signing: of an unsigned one its number, and of a signed one
-- what it stands for above the least, `-2 ^ (width - 1)`.
abbrev pub rank : Bool → ℕ → ℕ → ℕ
rank false width n = n
rank true width n = if leb (2 ^ (width - 1)) n then n - 2 ^ (width - 1) else n + 2 ^ (width - 1)

ranked :
    (signed : Bool) (w m n : ℕ)
    → 0 < w
    → m < 2 ^ w
    → n < 2 ^ w
    → by_sign (signed && leb (2 ^ (w - 1)) m) (signed && leb (2 ^ (w - 1)) n) (compare m n)
      ≡ compare (rank signed w m) (rank signed w n)
ranked false w m n p hm hn = refl
ranked true w m n p hm hn = let e : 2 ^ w ≡ 2 * 2 ^ (w - 1) = half w p in ground (arith, e)
  where
    half : (v : ℕ) → 0 < v → 2 ^ v ≡ 2 * 2 ^ (v - 1)
    half zero q = absurd (omega arith)
    half (suc v) q =
        let e : suc v - 1 ≡ v = omega arith in omega (arith, pow-suc 2 v, ap (λ k. 2 ^ k) e)

known_order :
    (a b : Bits)
    → IsValid a
    → IsValid b
    → a.width ≡ b.width
    → a.signed ≡ b.signed
    → by_sign
        (a.signed && leb (2 ^ (a.width - 1)) (number a.value))
        (b.signed && leb (2 ^ (b.width - 1)) (number b.value))
        (compare_limbs a.value b.value)
      ≡ compare (rank a.signed a.width (number a.value)) (rank b.signed b.width (number b.value))
known_order a b ha hb e f =
    let m = number a.value in
    let n = number b.value in
    ap (by_sign (a.signed && leb (2 ^ (a.width - 1)) m) (b.signed && leb (2 ^ (b.width - 1)) n))
      (compare_limbs_lem a.value b.value (long a b ha hb e) (value-All a ha) (value-All b hb))
    ∙ ap₂
        (λ s w.
          by_sign (a.signed && leb (2 ^ (a.width - 1)) m) (s && leb (2 ^ (w - 1)) n) (compare m n))
        (sym f) (sym e)
    ∙ ranked a.signed a.width m n ha.positive (Fits-lt a.width a.value ha.value_fits)
        (subst (λ w. n < 2 ^ w) (sym e) (Fits-lt b.width b.value hb.value_fits))
    ∙ ap₂ (λ s w. compare (rank a.signed a.width m) (rank s w n)) f e

-- The order of two valid values of one width and signing is that of what they stand for; there is none
-- where a bit of either is unknown. It does not panic.
pub compare_bits-rank :
    (a b : Bits)
    → IsValid a
    → IsValid b
    → a.width ≡ b.width
    → a.signed ≡ b.signed
    → compare_bits a b
      ≡ some (
          if has_unknown a || has_unknown b
          then none
          else some (
              compare
                (rank a.signed a.width (number a.value))
                (rank b.signed b.width (number b.value))))
unfolding compare_bits
compare_bits-rank a b ha hb e f = elim (Bool-cases (has_unknown a || has_unknown b)) [
  | inl unknown ↦ rw unknown refl
  | inr known ↦
      let neg_a = is_negative_known a ha (ground (arith, known)) in
      let neg_b = is_negative_known b hb (ground (arith, known)) in
      rw known
        (rw (neg_a, ◌>>=◌, neg_b, ◌>>=◌) (ap (λ o. some (some o)) (known_order a b ha hb e f)))
]
