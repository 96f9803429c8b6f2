-- ===== src/Sema/Bits/Number/Modulo.antt =====
-- Remainders by a product, taken limb by limb.
use native.Mathlib.Nat.{
  div-add-mod, mod-lt, add-mul-mod_self_left, mod-eq_of_lt, mul_assoc, mul-add, mul-le-mul_left,
}
use astli.Prelude.{ℕ, ◌+◌, ◌*◌, ◌/◌, ◌%◌, ◌≤◌, ◌<◌, ◌≡◌, ap, sym, ◌∙◌, arith}

-- The lowest limb of a sum is its remainder, and what carries over joins the rest.
pub mod_limb : (B m s n : ℕ) → 0 < B → 0 < m → s % B + B * ((n + s / B) % m) ≡ (s + B * n) % (B * m)
mod_limb B m s n hB hm =
    let t = n + s / B in
    let q = t / m in
    let r = t % m in
    let e : B * m * q ≡ B * (m * q) = mul_assoc B m q in
    let d : B * t ≡ B * (m * q) + B * r =
      ap (λ x. B * x) (sym (div-add-mod t m)) ∙ mul-add B (m * q) r in
    let f : B * t ≡ B * n + B * (s / B) = mul-add B n (s / B) in
    let split : s + B * n ≡ s % B + B * r + B * m * q = omega (arith, div-add-mod s B) in
    let g : B * (r + 1) ≤ B * m = mul-le-mul_left B (omega (arith, mod-lt t hm)) in
    let h : B * (r + 1) ≡ B * r + B * 1 = mul-add B r 1 in
    let small : s % B + B * r < B * m = omega (arith, mod-lt s hB) in
    sym (
      ap (λ x. x % (B * m)) split
      ∙ add-mul-mod_self_left (s % B + B * r) (B * m) q
      ∙ mod-eq_of_lt small)
