-- ===== src/Sema/Bits/Arithmetic/Sum.antt =====
-- What `add_limbs` makes of the numbers of two vectors, and of a complement.
use astli.Prelude.{
  ℕ, ◌+◌, ◌*◌, ◌/◌, ◌%◌, ◌^◌, ◌≤◌, ◌<◌, ◌≡◌, refl, ap, ap₂, ◌∙◌, Bool, List, [], ◌∷◌, ◌||◌, arith,
  map, All, length,
}
use astli.Sema.Bits.Limb.{inv}
use astli.Sema.Bits.Number.{number, room, room_pos, IsLimb}
use astli.Sema.Bits.Number.Modulo.{mod_limb}
use astli.Sema.Bits.Arithmetic.{add_limbs, overflows, as_carry}

-- The two wrapping sums of a step, and the carry out of it.
step_sum :
    (a b c : ℕ)
    → a < 2 ^ 64
    → b < 2 ^ 64
    → c ≤ 1
    → ((((a + b) % 2 ^ 64 + c) % 2 ^ 64) ≡ (a + b + c) % 2 ^ 64)
      × (as_carry (overflows a b || overflows ((a + b) % 2 ^ 64) c) ≡ (a + b + c) / 2 ^ 64)
step_sum a b c ha hb hc = (omega arith, ground arith)

carry_small : (b : Bool) → as_carry b ≤ 1
carry_small b = ground arith

pub number-add_limbs :
    (as' bs : List ℕ) (c : ℕ)
    → length as' ≡ length bs
    → All IsLimb as'
    → All IsLimb bs
    → c ≤ 1
    → number (add_limbs as' bs c) ≡ (number as' + number bs + c) % room (length as')
unfolding add_limbs number room
number-add_limbs [] bs c e ha hb k = omega arith
number-add_limbs (a ∷ as') [] c e ha hb k = absurd (omega arith)
number-add_limbs (a ∷ as') (b ∷ bs) c e ha hb k =
    let (sum, carry) = step_sum a b c ha.0 hb.0 k in
    let rest =
      number-add_limbs as' bs (as_carry (overflows a b || overflows ((a + b) % 2 ^ 64) c))
        (omega arith) ha.1 hb.1 (carry_small (overflows a b || overflows ((a + b) % 2 ^ 64) c)) in
    let n : ℕ = number as' + number bs in
    let total : a + b + c + 2 ^ 64 * n ≡ a + 2 ^ 64 * number as' + (b + 2 ^ 64 * number bs) + c =
      omega arith in
    ap₂ (λ x y. x + 2 ^ 64 * y) sum (rest ∙ ap (λ k. (n + k) % room (length as')) carry)
    ∙ mod_limb (2 ^ 64) (room (length as')) (a + b + c) n (omega arith) (room_pos (length as'))
    ∙ ap (λ x. x % (2 ^ 64 * room (length as'))) total

-- The complement of every limb.
pub number-inv :
    (bs : List ℕ) → All IsLimb bs → number (map inv bs) + number bs + 1 ≡ room (length bs)
unfolding number room
number-inv [] h = omega arith
number-inv (b ∷ bs) h = omega (arith, number-inv bs h.1, h.0)

pub length-map-inv : (bs : List ℕ) → length (map inv bs) ≡ length bs
length-map-inv [] = refl
length-map-inv (b ∷ bs) = omega (arith, length-map-inv bs)

pub inv-All : (bs : List ℕ) → All IsLimb (map inv bs)
inv-All [] = tt
inv-All (b ∷ bs) = (omega arith, inv-All bs)

pub length-add_limbs :
    (as' bs : List ℕ) (c : ℕ) → length as' ≡ length bs → length (add_limbs as' bs c) ≡ length as'
unfolding add_limbs
length-add_limbs [] bs c e = refl
length-add_limbs (a ∷ as') [] c e = absurd (omega arith)
length-add_limbs (a ∷ as') (b ∷ bs) c e = omega (arith, length-add_limbs as' bs _ (omega arith))

pub add_limbs-All : (as' bs : List ℕ) (c : ℕ) → All IsLimb (add_limbs as' bs c)
unfolding add_limbs
add_limbs-All [] bs c = tt
add_limbs-All (a ∷ as') [] c = tt
add_limbs-All (a ∷ as') (b ∷ bs) c = (omega arith, add_limbs-All as' bs _)
