-- ===== src/Sema/Bits/Bitwise/Closures.antt =====
-- Each closure does the four-state operation of the standard at every bit of its limbs.
use Prim.Native.Nat.{bit_and, bit_or}
use astli.Prelude.{ℕ, ◌^◌, ◌<◌, ◌≡◌, refl, ◌∙◌, Bool, true, false, not, ◌&&◌, ◌||◌, arith}
use astli.Sema.Bits.{Bit, zero, one, x, from_pair}
use astli.Sema.Bits.Bitwise.{Closure, not_limbs, and_limbs, or_limbs, xor_limbs, merge_limbs}
use astli.Sema.Bits.Limb.{
  inv, test, test-and, test-or, test-xor, test-not, and-lt, or-lt, xor-lt, differ,
}

-- IEEE 1800, the tables of the operators.
pub not4 : Bit → Bit
not4 zero = one
not4 one = zero
not4 b = x

pub and4 : Bit → Bit → Bit
and4 zero b = zero
and4 one zero = zero
and4 one one = one
and4 one b = x
and4 a zero = zero
and4 a b = x

pub or4 : Bit → Bit → Bit
or4 one b = one
or4 zero zero = zero
or4 zero one = one
or4 zero b = x
or4 a one = one
or4 a b = x

pub xor4 : Bit → Bit → Bit
xor4 zero zero = zero
xor4 zero one = one
xor4 one zero = one
xor4 one one = zero
xor4 a b = x

-- The `?:` of an unknown condition: what both know and agree on.
pub merge4 : Bit → Bit → Bit
merge4 zero zero = zero
merge4 one one = one
merge4 a b = x

-- A closure that keeps limbs in range and does `g` at each bit.
pub record IsPointwise (f : Closure) (g : Bit → Bit → Bit) : Type 0 where
  pub in_range :
      (av au bv bu : ℕ)
      → av < 2 ^ 64
      → au < 2 ^ 64
      → bv < 2 ^ 64
      → bu < 2 ^ 64
      → ((f av au bv bu).0 < 2 ^ 64) × ((f av au bv bu).1 < 2 ^ 64)
  pub at_bit :
      (av au bv bu i : ℕ)
      → av < 2 ^ 64
      → au < 2 ^ 64
      → bv < 2 ^ 64
      → bu < 2 ^ 64
      → i < 64
      → from_pair (test (f av au bv bu).0 i) (test (f av au bv bu).1 i)
        ≡ g (from_pair (test av i) (test au i)) (from_pair (test bv i) (test bu i))

inv-lt : (a : ℕ) → inv a < 2 ^ 64
inv-lt a = omega arith

ruleset test_laws = (test-and, test-or, test-xor)

not_bits : (a b c d : Bool) → from_pair (not a || b) b ≡ not4 (from_pair a b)
unfolding not4
not_bits true true c d = refl
not_bits true false c d = refl
not_bits false true c d = refl
not_bits false false c d = refl

pub not-IsPointwise : IsPointwise not_limbs (λ a b. not4 a)
not-IsPointwise = record {
  in_range = λ av au bv bu p q r s. (or-lt 64 (inv av) au (inv-lt av) q, q);
  at_bit = λ av au bv bu i p q r s k.
      rw (test-or, test-not 64 i av p k) (not_bits (test av i) (test au i) true true);
}

pub xor-IsPointwise : IsPointwise xor_limbs xor4
xor-IsPointwise = record {
  in_range = λ av au bv bu p q r s.
      (or-lt 64 _ _ (xor-lt 64 av bv p r) (or-lt 64 au bu q s), or-lt 64 au bu q s);
  at_bit = λ av au bv bu i p q r s k.
      simp test_laws (xor_bits (test av i) (test au i) (test bv i) (test bu i));
}
  where
    xor_bits :
        (a b c d : Bool)
        → from_pair (differ a c || (b || d)) (b || d) ≡ xor4 (from_pair a b) (from_pair c d)
    xor_bits a b c d = unfold xor4 in ground arith

pub merge-IsPointwise : IsPointwise merge_limbs merge4
merge-IsPointwise = record {
  in_range = λ av au bv bu p q r s.
      let x-lt = or-lt 64 _ _ (or-lt 64 _ _ (xor-lt 64 av bv p r) q) s in
      (or-lt 64 _ _ p x-lt, x-lt);
  at_bit = λ av au bv bu i p q r s k.
      simp test_laws (merge_bits (test av i) (test au i) (test bv i) (test bu i));
}
  where
    merge_bits :
        (a b c d : Bool)
        → from_pair (a || ((differ a c || b) || d)) ((differ a c || b) || d)
          ≡ merge4 (from_pair a b) (from_pair c d)
    merge_bits a b c d = unfold merge4 in ground arith

-- `x` is what is neither 0 nor 1: the last two lines of the closures of `and` and `or`.
abbrev undecided : ℕ → ℕ → ℕ
undecided zeros ones = inv (bit_or zeros ones)

-- The bits at which a known operand is 0, and at which it is 1.
abbrev zeros_of : ℕ → ℕ → ℕ
zeros_of v u = bit_and (inv v) (inv u)

abbrev ones_of : ℕ → ℕ → ℕ
ones_of v u = bit_and v (inv u)

zeros-lt : (v u : ℕ) → zeros_of v u < 2 ^ 64
zeros-lt v u = and-lt 64 (inv v) (inv u) (inv-lt u)

ones-lt : (v u : ℕ) → ones_of v u < 2 ^ 64
ones-lt v u = and-lt 64 v (inv u) (inv-lt u)

test-zeros :
    (v u i : ℕ)
    → v < 2 ^ 64
    → u < 2 ^ 64
    → i < 64
    → test (zeros_of v u) i ≡ (not (test v i) && not (test u i))
test-zeros v u i p q k = rw (test-and, test-not 64 i v p k, test-not 64 i u q k)

test-ones : (v u i : ℕ) → u < 2 ^ 64 → i < 64 → test (ones_of v u) i ≡ (test v i && not (test u i))
test-ones v u i q k = rw (test-and, test-not 64 i u q k)

-- The bits of a result, from those of its zeros and ones.
test-result :
    (zeros ones i : ℕ)
    → zeros < 2 ^ 64
    → ones < 2 ^ 64
    → i < 64
    → from_pair (test (bit_or ones (undecided zeros ones)) i) (test (undecided zeros ones) i)
      ≡ from_pair
          (test ones i || not (test zeros i || test ones i))
          (not (test zeros i || test ones i))
test-result zeros ones i p q k =
    let e = test-not 64 i (bit_or zeros ones) (or-lt 64 zeros ones p q) k in
    rw (test-or, e, test-or)

result-lt :
    (zeros ones : ℕ)
    → ones < 2 ^ 64
    → (bit_or ones (undecided zeros ones) < 2 ^ 64) × (undecided zeros ones < 2 ^ 64)
result-lt zeros ones q = (
  or-lt 64 ones (undecided zeros ones) q (inv-lt (bit_or zeros ones)),
  inv-lt (bit_or zeros ones),
)

pub and-IsPointwise : IsPointwise and_limbs and4
and-IsPointwise = record {
  in_range = λ av au bv bu p q r s.
      result-lt _ _ (and-lt 64 (ones_of av au) (ones_of bv bu) (ones-lt bv bu));
  at_bit = λ av au bv bu i p q r s k.
      test-result (bit_or (zeros_of av au) (zeros_of bv bu))
        (bit_and (ones_of av au) (ones_of bv bu)) i (or-lt 64 _ _ (zeros-lt av au) (zeros-lt bv bu))
        (and-lt 64 (ones_of av au) (ones_of bv bu) (ones-lt bv bu)) k
      ∙ rw
          (
            test-or i (zeros_of av au) (zeros_of bv bu),
            test-and i (ones_of av au) (ones_of bv bu),
            test-zeros av au i p q k,
            test-zeros bv bu i r s k,
            test-ones av au i q k,
            test-ones bv bu i s k,
          )
          (and_bits (test av i) (test au i) (test bv i) (test bu i));
}
  where
    and_bits :
        (a b c d : Bool)
        → let ones : Bool = (a && not b) && (c && not d) in
          let known : Bool = ((not a && not b) || (not c && not d)) || ones in
          from_pair (ones || not known) (not known) ≡ and4 (from_pair a b) (from_pair c d)
    and_bits a b c d = unfold and4 in ground arith

pub or-IsPointwise : IsPointwise or_limbs or4
or-IsPointwise = record {
  in_range = λ av au bv bu p q r s. result-lt _ _ (or-lt 64 _ _ (ones-lt av au) (ones-lt bv bu));
  at_bit = λ av au bv bu i p q r s k.
      test-result (bit_and (zeros_of av au) (zeros_of bv bu))
        (bit_or (ones_of av au) (ones_of bv bu)) i
        (and-lt 64 (zeros_of av au) (zeros_of bv bu) (zeros-lt bv bu))
        (or-lt 64 _ _ (ones-lt av au) (ones-lt bv bu)) k
      ∙ rw
          (
            test-or i (ones_of av au) (ones_of bv bu),
            test-and i (zeros_of av au) (zeros_of bv bu),
            test-zeros av au i p q k,
            test-zeros bv bu i r s k,
            test-ones av au i q k,
            test-ones bv bu i s k,
          )
          (or_bits (test av i) (test au i) (test bv i) (test bu i));
}
  where
    or_bits :
        (a b c d : Bool)
        → let ones : Bool = (a && not b) || (c && not d) in
          let known : Bool = ((not a && not b) && (not c && not d)) || ones in
          from_pair (ones || not known) (not known) ≡ or4 (from_pair a b) (from_pair c d)
    or_bits a b c d = unfold or4 in ground arith
