-- ===== src/Sema/Bits/Arithmetic/Product.antt =====
-- What the two loops of `mul` make of the numbers of two vectors.
use native.Mathlib.Nat.{mul-add, add-mul, mul_left_comm, mul_assoc, mul-le-mul, mod-add-mod}
use astli.Prelude.{
  ℕ, suc, ◌+◌, ◌-◌, ◌*◌, ◌/◌, ◌%◌, ◌^◌, ◌≤◌, ◌<◌, ◌≡◌, refl, ap, ap₂, sym, ◌∙◌, some, List, [], ◌∷◌,
  arith, All, length, ◌>>=◌,
}
use astli.Sema.Bits.Number.{number, room, room_pos, IsLimb}
use astli.Sema.Bits.Number.Modulo.{mod_limb}
use astli.Sema.Bits.Arithmetic.{mul_row, mul_rows}

-- A step's sum does not pass the width of a `u128`.
product_small :
    (a b at c : ℕ) → a < 2 ^ 64 → b < 2 ^ 64 → at < 2 ^ 64 → c < 2 ^ 64 → a * b + at + c < 2 ^ 128
product_small a b at c ha hb hat hc =
    let most : a * b ≤ (2 ^ 64 - 1) * (2 ^ 64 - 1) =
      mul-le-mul {n₂ = 2 ^ 64 - 1} {m₂ = 2 ^ 64 - 1} (omega arith) (omega arith) in
    omega (arith, most)

abbrev pub RowOf : ℕ → List ℕ → List ℕ → ℕ → Type 0
RowOf a bs ps c =
    (rs : List ℕ) × (mul_row a bs ps c ≡ some rs)
    × (length rs ≡ length ps)
    × All IsLimb rs
    × (number rs ≡ (number ps + a * number bs + c) % room (length ps))

-- One step of the row, in front of the rest of it.
row_step :
    (a b : ℕ) (bs : List ℕ) (p : ℕ) (ps : List ℕ) (c : ℕ)
    → a * b + p + c < 2 ^ 128
    → RowOf a bs ps ((a * b + p + c) % 2 ^ 128 / 2 ^ 64)
    → RowOf a (b ∷ bs) (p ∷ ps) c
unfolding mul_row number room
row_step a b bs p ps c small (rs, run, long, limbs, sum) =
    let s = a * b + p + c in
    let n = number ps + a * number bs in
    let whole : s % 2 ^ 128 ≡ s = omega arith in
    let spread : a * (b + 2 ^ 64 * number bs) ≡ a * b + 2 ^ 64 * (a * number bs) =
      mul-add a b (2 ^ 64 * number bs)
      ∙ ap (λ x. a * b + x) (mul_left_comm a (2 ^ 64) (number bs)) in
    let total : s + 2 ^ 64 * n ≡ p + 2 ^ 64 * number ps + a * (b + 2 ^ 64 * number bs) + c =
      omega arith in
    (
      s % 2 ^ 128 % 2 ^ 64 ∷ rs,
      rw (run, ◌>>=◌) refl,
      omega (arith, long),
      (omega arith, limbs),
      ap₂ (λ x y. x % 2 ^ 64 + 2 ^ 64 * y) whole
            (sum ∙ ap (λ x. (n + x / 2 ^ 64) % room (length ps)) whole)
          ∙ mod_limb (2 ^ 64) (room (length ps)) s n (omega arith) (room_pos (length ps))
          ∙ ap (λ x. x % (2 ^ 64 * room (length ps))) total,
    )

number-mul_row :
    (a : ℕ) (bs ps : List ℕ) (c : ℕ)
    → length ps ≤ length bs
    → a < 2 ^ 64
    → All IsLimb bs
    → All IsLimb ps
    → c < 2 ^ 64
    → RowOf a bs ps c
unfolding mul_row number room
number-mul_row a bs [] c l ha hb hp hc = ([], refl, refl, tt, omega arith)
number-mul_row a [] (p ∷ ps) c l ha hb hp hc = absurd (omega arith)
number-mul_row a (b ∷ bs) (p ∷ ps) c l ha hb hp hc =
    let small = product_small a b p c ha hb.0 hp.0 hc in
    row_step a b bs p ps c small (number-mul_row a bs ps _ (omega arith) ha hb.1 hp.1 (omega arith))

abbrev pub RowsOf : List ℕ → List ℕ → List ℕ → Type 0
RowsOf as' bs ps =
    (rs : List ℕ) × (mul_rows as' bs ps ≡ some rs)
    × (length rs ≡ length ps)
    × All IsLimb rs
    × (number rs ≡ (number ps + number as' * number bs) % room (length ps))

rows_step :
    (a : ℕ) (as' bs ps : List ℕ) (q : ℕ) (qs : List ℕ)
    → mul_row a bs ps 0 ≡ some (q ∷ qs)
    → length (q ∷ qs) ≡ length ps
    → All IsLimb (q ∷ qs)
    → number (q ∷ qs) ≡ (number ps + a * number bs + 0) % room (length ps)
    → RowsOf as' bs qs
    → RowsOf (a ∷ as') bs ps
unfolding mul_rows number room
rows_step a as' bs ps q qs row long limbs sum (rs, run, same, limbs', rest) =
    let n = number qs + number as' * number bs in
    let m = room (length qs) in
    let modulus : room (length ps) ≡ 2 ^ 64 * m = ap room (sym long) in
    let limb : q % 2 ^ 64 ≡ q = omega (arith, limbs.0) in
    let no_carry : n + q / 2 ^ 64 ≡ n = omega (arith, limbs.0) in
    let joined : q + 2 ^ 64 * (n % m) ≡ (q + 2 ^ 64 * n) % (2 ^ 64 * m) =
      ap₂ (λ x y. x + 2 ^ 64 * (y % m)) (sym limb) (sym no_carry)
      ∙ mod_limb (2 ^ 64) m q n (omega arith) (room_pos (length qs)) in
    let first : q + 2 ^ 64 * number qs ≡ (number ps + a * number bs + 0) % (2 ^ 64 * m) =
      sum ∙ ap (λ x. (number ps + a * number bs + 0) % x) modulus in
    let regroup : q + 2 ^ 64 * n ≡ q + 2 ^ 64 * number qs + 2 ^ 64 * (number as' * number bs) =
      omega arith in
    let spread : (a + 2 ^ 64 * number as') * number bs
        ≡ a * number bs + 2 ^ 64 * (number as' * number bs) =
      add-mul a (2 ^ 64 * number as') (number bs)
      ∙ ap (λ x. a * number bs + x) (mul_assoc (2 ^ 64) (number as') (number bs)) in
    let total : number ps + a * number bs + 0 + 2 ^ 64 * (number as' * number bs)
        ≡ number ps + (a + 2 ^ 64 * number as') * number bs =
      omega (arith, spread) in
    (
      q ∷ rs,
      rw (row, ◌>>=◌, run, ◌>>=◌) refl,
      omega (arith, same, long),
      (limbs.0, limbs'),
      ap (λ x. q + 2 ^ 64 * x) rest
          ∙ joined
          ∙ ap (λ x. x % (2 ^ 64 * m)) regroup
          ∙ ap (λ x. (x + 2 ^ 64 * (number as' * number bs)) % (2 ^ 64 * m)) first
          ∙ mod-add-mod (number ps + a * number bs + 0) (2 ^ 64 * m)
              (2 ^ 64 * (number as' * number bs))
          ∙ ap₂ (λ x y. x % y) total (sym modulus),
    )

rows_done : (bs ps : List ℕ) → 0 ≡ length ps → All IsLimb ps → RowsOf [] bs ps
unfolding mul_rows number room
rows_done bs [] e h = ([], refl, refl, tt, omega arith)
rows_done bs (p ∷ ps) e h = absurd (omega (arith, e))

rows_next :
    (a : ℕ) (as' bs ps : List ℕ)
    → suc (length as') ≡ length ps
    → RowOf a bs ps 0
    → ((qs : List ℕ) → suc (length qs) ≡ length ps → All IsLimb qs → RowsOf as' bs qs)
    → RowsOf (a ∷ as') bs ps
rows_next a as' bs ps e ([], run, long, limbs, sum) go = absurd (omega (arith, long, e))
rows_next a as' bs ps e (q ∷ qs, run, long, limbs, sum) go =
    rows_step a as' bs ps q qs run long limbs sum (go qs long limbs.1)

pub number-mul_rows :
    (as' bs ps : List ℕ)
    → length as' ≡ length ps
    → length ps ≤ length bs
    → All IsLimb as'
    → All IsLimb bs
    → All IsLimb ps
    → RowsOf as' bs ps
number-mul_rows [] bs ps e l ha hb hp = rows_done bs ps e hp
number-mul_rows (a ∷ as') bs ps e l ha hb hp =
    rows_next a as' bs ps e (number-mul_row a bs ps 0 l ha.0 hb hp (omega arith)) λ qs k limbs.
      number-mul_rows as' bs qs (omega (arith, k, e)) (omega (arith, k, l)) ha.1 hb limbs
