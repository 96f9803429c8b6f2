-- ===== src/Sema/Bits/Arithmetic/Laws.antt =====
-- `add`, `sub`, `neg` and `mul` are those of the numbers that values stand for, at their width.
use native.Mathlib.Nat.{add-mul-mod_self_left, mul-suc}
use astli.Prelude.{
  ℕ, zero, suc, ◌+◌, ◌-◌, ◌*◌, ◌%◌, ◌^◌, ◌≤◌, ◌<◌, ◌≡◌, refl, ap, ap₂, sym, ◌∙◌, subst, Bool, false,
  ◌||◌, Option, List, arith, All, map, length, replicate, length-replicate, ◌>>=◌,
}
use astli.Sema.Bits.{Bits, limbs, blank, has_unknown}
use astli.Sema.Bits.Limb.{inv}
use astli.Sema.Bits.Fits.{IsValid, Fits-Loose}
use astli.Sema.Bits.Masked.{blank-IsValid}
use astli.Sema.Bits.Number.{
  number, room, room_pos, IsLimb, Loose-All, Loose-room, length-Loose, Fits-lt,
}
use astli.Sema.Bits.Arithmetic.{with_limbs, arithmetic, add, sub, neg, mul, add_limbs, mul_rows}
use astli.Sema.Bits.Arithmetic.Sum.{
  number-add_limbs, length-add_limbs, add_limbs-All, number-inv, length-map-inv, inv-All,
}
use astli.Sema.Bits.Arithmetic.Product.{number-mul_rows}
use astli.Sema.Bits.Arithmetic.Result.{
  IsNumber, zeros_known, with_limbs-IsNumber, Loose-of, Computes, either,
}

pub long :
    (a b : Bits) → IsValid a → IsValid b → a.width ≡ b.width → length a.value ≡ length b.value
long a b ha hb e =
    length-Loose a.width a.value (Fits-Loose a.width a.value ha.value_fits)
    ∙ ap limbs e
    ∙ sym (length-Loose b.width b.value (Fits-Loose b.width b.value hb.value_fits))

pub value-All : (a : Bits) → IsValid a → All IsLimb a.value
value-All a h = Loose-All a.width a.value (Fits-Loose a.width a.value h.value_fits)

sum-IsNumber :
    (a : Bits) (bs : List ℕ) (c : ℕ)
    → IsValid a
    → length a.value ≡ length bs
    → All IsLimb bs
    → c ≤ 1
    → IsNumber
        (with_limbs a (add_limbs a.value bs c))
        a.width
        a.signed
        ((number a.value + number bs + c) % 2 ^ a.width)
sum-IsNumber a bs c h e hb k =
    let rs = add_limbs a.value bs c in
    let same : length rs ≡ length a.value = length-add_limbs a.value bs c e in
    with_limbs-IsNumber a rs (number a.value + number bs + c) h
      (Loose-of a.width a.value rs same (add_limbs-All a.value bs c)
        (Fits-Loose a.width a.value h.value_fits))
      (number-add_limbs a.value bs c e (value-All a h) hb k
        ∙ ap (λ m. (number a.value + number bs + c) % room m) (sym same))

-- The sum, at the width.
pub add-Computes :
    (a b : Bits)
    → IsValid a
    → IsValid b
    → a.width ≡ b.width
    → Computes
        (has_unknown a || has_unknown b)
        (add a b)
        a.width
        a.signed
        ((number a.value + number b.value) % 2 ^ a.width)
unfolding add arithmetic
add-Computes a b ha hb e = either (has_unknown a || has_unknown b) a _ _ ha (
    subst
      (λ n.
        IsNumber (with_limbs a (add_limbs a.value b.value 0)) a.width a.signed (n % 2 ^ a.width))
      (omega arith) (sum-IsNumber a b.value 0 ha (long a b ha hb e) (value-All b hb) (omega arith)))

-- From the complement of the limbs to the difference.
difference :
    (w na nb ni r k : ℕ)
    → ni + nb + 1 ≡ r
    → r ≡ 2 ^ w * k
    → 0 < r
    → nb < 2 ^ w
    → (na + ni + 1) % 2 ^ w ≡ (na + 2 ^ w - nb) % 2 ^ w
difference w na nb ni r zero e f p l = absurd (omega (arith, e, f))
difference w na nb ni r (suc k) e f p l =
    let more : 2 ^ w * suc k ≡ 2 ^ w * k + 2 ^ w = mul-suc (2 ^ w) k in
    let split : na + ni + 1 ≡ na + 2 ^ w - nb + 2 ^ w * k = omega (arith, more) in
    ap (λ x. x % 2 ^ w) split ∙ add-mul-mod_self_left (na + 2 ^ w - nb) (2 ^ w) k

-- The difference, at the width.
pub sub-Computes :
    (a b : Bits)
    → IsValid a
    → IsValid b
    → a.width ≡ b.width
    → Computes
        (has_unknown a || has_unknown b)
        (sub a b)
        a.width
        a.signed
        ((number a.value + 2 ^ a.width - number b.value) % 2 ^ a.width)
unfolding sub arithmetic
sub-Computes a b ha hb e =
    let w = a.width in
    let (k, room_k) = Loose-room b.width b.value (Fits-Loose b.width b.value hb.value_fits) in
    let room_w : room (length b.value) ≡ 2 ^ w * k = room_k ∙ ap (λ n. 2 ^ n * k) (sym e) in
    let same =
      difference w (number a.value) (number b.value) (number (map inv b.value))
        (room (length b.value)) k (number-inv b.value (value-All b hb)) room_w
        (room_pos (length b.value))
        (subst (λ n. number b.value < 2 ^ n) (sym e) (Fits-lt b.width b.value hb.value_fits)) in
    either (has_unknown a || has_unknown b) a _ _ ha (
      subst (λ n. IsNumber (with_limbs a (add_limbs a.value (map inv b.value) 1)) w a.signed n) same
        (sum-IsNumber a (map inv b.value) 1 ha (long a b ha hb e ∙ sym (length-map-inv b.value))
          (inv-All b.value) (omega arith)))

blank_known : (w : ℕ) (signed : Bool) → has_unknown (blank w signed) ≡ false
unfolding has_unknown blank
blank_known w signed = zeros_known (limbs w)

number-zeros : (n : ℕ) → number (replicate n 0) ≡ 0
unfolding number
number-zeros zero = refl
number-zeros (suc n) = omega (arith, number-zeros n)

number-blank : (w : ℕ) (signed : Bool) → number ((blank w signed).value) ≡ 0
unfolding blank
number-blank w signed = number-zeros (limbs w)

Computes-ext :
    (c c' : Bool) (o o' : Option Bits) (w : ℕ) (signed : Bool) (n n' : ℕ)
    → c ≡ c'
    → o ≡ o'
    → n ≡ n'
    → Computes c o w signed n
    → Computes c' o' w signed n'
Computes-ext c c' o o' w signed n n' p q r h =
    subst (λ m. Computes c' o' w signed m) r
      (subst (λ x. Computes c' x w signed n) q (subst (λ d. Computes d o w signed n) p h))

-- The negation, at the width.
pub neg-Computes :
    (b : Bits)
    → IsValid b
    → Computes
        (has_unknown b)
        (neg b)
        b.width
        b.signed
        ((2 ^ b.width - number b.value) % 2 ^ b.width)
unfolding neg
neg-Computes b hb =
    let w = b.width in
    let none_of : (has_unknown (blank w b.signed) || has_unknown b) ≡ has_unknown b =
      ap (λ c. c || has_unknown b) (blank_known w b.signed) in
    let from_zero : (number ((blank w b.signed).value) + 2 ^ w - number b.value) % 2 ^ w
        ≡ (2 ^ w - number b.value) % 2 ^ w =
      ap (λ n. (n + 2 ^ w - number b.value) % 2 ^ w) (number-blank w b.signed)
      ∙ ap (λ n. (n - number b.value) % 2 ^ w) (start_at (2 ^ w)) in
    Computes-ext _ _ _ _ w b.signed _ _ none_of refl from_zero (sub_blank b hb)
  where
    start_at : (n : ℕ) → 0 + n ≡ n
    start_at n = omega arith

    sub_blank :
        (b : Bits)
        → IsValid b
        → Computes
            (has_unknown (blank b.width b.signed) || has_unknown b)
            (sub (blank b.width b.signed) b)
            b.width
            b.signed
            ((number ((blank b.width b.signed).value) + 2 ^ b.width - number b.value) % 2 ^ b.width)
    sub_blank b hb =
        unfold blank in
        sub-Computes (blank b.width b.signed) b (blank-IsValid b.width b.signed hb.positive) hb refl

zeros-All : (n : ℕ) → All IsLimb (replicate n 0)
zeros-All zero = tt
zeros-All (suc n) = (omega arith, zeros-All n)

product-IsNumber :
    (a b : Bits)
    → IsValid a
    → IsValid b
    → a.width ≡ b.width
    → IsNumber
        (do product ← mul_rows a.value b.value (replicate (length a.value) 0); with_limbs a product)
        a.width
        a.signed
        ((number a.value * number b.value) % 2 ^ a.width)
product-IsNumber a b ha hb e =
    let n = length a.value in
    let zeros : List ℕ = replicate n 0 in
    let count : length zeros ≡ n = length-replicate n 0 in
    let (rs, run, same, limbs_of, num) =
      number-mul_rows a.value b.value zeros (sym count) (omega (arith, count, long a b ha hb e))
        (value-All a ha) (value-All b hb) (zeros-All n) in
    let from_zero : number zeros + number a.value * number b.value
        ≡ number a.value * number b.value =
      omega (arith, number-zeros n) in
    let total : number rs ≡ (number a.value * number b.value) % room (length rs) =
      num ∙ ap₂ (λ x k. x % room k) from_zero (sym same) in
    rw (run, ◌>>=◌)
      (with_limbs-IsNumber a rs (number a.value * number b.value) ha
        (Loose-of a.width a.value rs (same ∙ count) limbs_of
          (Fits-Loose a.width a.value ha.value_fits))
        total)

-- The product, at the width.
pub mul-Computes :
    (a b : Bits)
    → IsValid a
    → IsValid b
    → a.width ≡ b.width
    → Computes
        (has_unknown a || has_unknown b)
        (mul a b)
        a.width
        a.signed
        ((number a.value * number b.value) % 2 ^ a.width)
unfolding mul arithmetic
mul-Computes a b ha hb e =
    either (has_unknown a || has_unknown b) a _ _ ha (product-IsNumber a b ha hb e)
