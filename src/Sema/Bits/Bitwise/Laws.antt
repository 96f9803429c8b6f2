-- ===== src/Sema/Bits/Bitwise/Laws.antt =====
-- The operators over whole values: on two valid values of one width they do not panic, the result
-- is valid, and each bit of it is the operation of the standard on the bits of the two.
use astli.Prelude.{
  ℕ, ◌-◌, ◌<◌, ◌≡◌, refl, ◌∙◌, arith, ap, Option, some, List, [], ◌∷◌, inl, inr, ltb, ◌>>=◌,
  Bool-cases,
}
use astli.Sema.Bits.{Bit, Bits, from_pair, blank, bit}
use astli.Sema.Bits.Fits.{Loose, Fits-Loose, IsValid, test_at, bit-test}
use astli.Sema.Bits.Masked.{masked-IsValid, blank-IsValid}
use astli.Sema.Bits.Bitwise
use astli.Sema.Bits.Bitwise.{
  Closure, zip_limbs, bitwise, not_limbs, and_limbs, or_limbs, xor_limbs, merge_limbs,
}
use astli.Sema.Bits.Bitwise.Closures.{
  IsPointwise, not4, and4, or4, xor4, merge4, not-IsPointwise, and-IsPointwise, or-IsPointwise,
  xor-IsPointwise, merge-IsPointwise,
}

-- One bit of a value given by its limbs.
abbrev bit_at : List ℕ → List ℕ → ℕ → Bit
bit_at vs us i = from_pair (test_at vs i) (test_at us i)

module _ (f : Closure) (g : Bit → Bit → Bit) (p : IsPointwise f g) where
  zip_limbs-Loose :
      (w : ℕ) (vs us ws ts : List ℕ)
      → Loose w vs
      → Loose w us
      → Loose w ws
      → Loose w ts
      → (r : List ℕ × List ℕ) × (zip_limbs f vs us ws ts ≡ some r)
        × Loose w r.0
        × Loose w r.1
        × ((i : ℕ) → i < w → bit_at r.0 r.1 i ≡ g (bit_at vs us i) (bit_at ws ts i))
  unfolding zip_limbs test_at
  zip_limbs-Loose w [] us ws ts hv hu hw ht = (([], []), refl, hv, hv, λ i k. absurd (omega arith))
  zip_limbs-Loose w (v ∷ vs) [] ws ts hv hu hw ht = absurd (omega (arith, hv.0))
  zip_limbs-Loose w (v ∷ vs) (u ∷ us) [] ts hv hu hw ht = absurd (omega (arith, hv.0))
  zip_limbs-Loose w (v ∷ vs) (u ∷ us) (y ∷ ws) [] hv hu hw ht = absurd (omega (arith, hv.0))
  zip_limbs-Loose w (v ∷ vs) (u ∷ us) (y ∷ ws) (t ∷ ts) hv hu hw ht =
      let (r, zips, r0, r1, bits) = zip_limbs-Loose (w - 64) vs us ws ts hv.2 hu.2 hw.2 ht.2 in
      let (lt0, lt1) = p.in_range v u y t hv.1 hu.1 hw.1 ht.1 in
      (
        ((f v u y t).0 ∷ r.0, (f v u y t).1 ∷ r.1),
        rw (zips, ◌>>=◌) refl,
        (hv.0, lt0, r0),
        (hv.0, lt1, r1),
        λ i k. elim (Bool-cases (ltb i 64)) [
          | inl near ↦ rw near (p.at_bit v u y t i hv.1 hu.1 hw.1 ht.1 (ground arith))
          | inr far ↦ rw far (bits (i - 64) (ground arith))
        ],
      )

  -- `bitwise` with a pointwise closure, on values of one width.
  bitwise_at :
      (a b : Bits)
      → IsValid a
      → IsValid b
      → a.width ≡ b.width
      → (r : Bits) × (bitwise a b f ≡ some r)
        × IsValid r
        × (r.width ≡ a.width)
        × (r.signed ≡ a.signed)
        × ((i : ℕ)
            → i < a.width
            → bit_at r.value r.unknown i
              ≡ g (bit_at a.value a.unknown i) (bit_at b.value b.unknown i))
  unfolding bitwise
  bitwise_at a b ha hb e =
      let (zipped, zips, l0, l1, bits) =
        zip_limbs-Loose a.width a.value a.unknown b.value b.unknown
          (Fits-Loose a.width a.value ha.value_fits) (Fits-Loose a.width a.unknown ha.unknown_fits)
          (rw e (Fits-Loose b.width b.value hb.value_fits))
          (rw e (Fits-Loose b.width b.unknown hb.unknown_fits)) in
      let (r, masks, valid, width, signed, kept) =
        masked-IsValid (record a { value = zipped.0; unknown = zipped.1 }) ha.positive l0 l1 in
      (r, rw (zips, ◌>>=◌) masks, valid, width, signed, λ i k. kept i k ∙ bits i k)

-- A result that is `g` at every bit of two values.
pub record IsBitwise (g : Bit → Bit → Bit) (a b : Bits) (o : Option Bits) : Type 0 where
  pub result : Bits
  pub returns : o ≡ some result
  pub valid : IsValid result
  pub same_width : result.width ≡ a.width
  pub same_signed : result.signed ≡ a.signed
  pub at :
      (i : ℕ)
      → i < a.width
      → (p : Bit) × (q : Bit) × (bit a i ≡ some p)
        × (bit b i ≡ some q)
        × (bit result i ≡ some (g p q))

bitwise-IsBitwise :
    (f : Closure) (g : Bit → Bit → Bit) (a b : Bits)
    → IsPointwise f g
    → IsValid a
    → IsValid b
    → a.width ≡ b.width
    → IsBitwise g a b (bitwise a b f)
bitwise-IsBitwise f g a b p ha hb e =
    let (r, computes, valid, width, signed, bits) = bitwise_at f g p a b ha hb e in
    record {
      result = r;
      returns = computes;
      valid = valid;
      same_width = width;
      same_signed = signed;
      at = λ i k. (
        bit_at a.value a.unknown i,
        bit_at b.value b.unknown i,
        bit-test a i ha k,
        bit-test b i hb (omega arith),
        bit-test r i valid (omega arith) ∙ ap some (bits i k),
      );
    }

-- `and` of two valid values of one width returns a valid value of that width and of the first's
-- signing, and its every bit is the four-state AND of theirs.
pub and-IsBitwise :
    (a b : Bits) → IsValid a → IsValid b → a.width ≡ b.width → IsBitwise and4 a b (Bitwise.and a b)
unfolding Bitwise.and
and-IsBitwise a b = bitwise-IsBitwise and_limbs and4 a b and-IsPointwise

-- `or` of two valid values of one width returns a valid value of that width and of the first's
-- signing, and its every bit is the four-state OR of theirs.
pub or-IsBitwise :
    (a b : Bits) → IsValid a → IsValid b → a.width ≡ b.width → IsBitwise or4 a b (Bitwise.or a b)
unfolding Bitwise.or
or-IsBitwise a b = bitwise-IsBitwise or_limbs or4 a b or-IsPointwise

-- `xor` of two valid values of one width returns a valid value of that width and of the first's
-- signing, and its every bit is the four-state XOR of theirs.
pub xor-IsBitwise :
    (a b : Bits) → IsValid a → IsValid b → a.width ≡ b.width → IsBitwise xor4 a b (Bitwise.xor a b)
unfolding Bitwise.xor
xor-IsBitwise a b = bitwise-IsBitwise xor_limbs xor4 a b xor-IsPointwise

-- `merge` of two valid values of one width returns a valid value of that width and of the first's
-- signing: each bit that both know and agree on, and `x` elsewhere.
pub merge-IsBitwise :
    (a b : Bits)
    → IsValid a
    → IsValid b
    → a.width ≡ b.width
    → IsBitwise merge4 a b (Bitwise.merge a b)
unfolding Bitwise.merge
merge-IsBitwise a b = bitwise-IsBitwise merge_limbs merge4 a b merge-IsPointwise

not-IsBitwise :
    (a : Bits) → IsValid a → IsBitwise (λ p q. not4 p) a (blank a.width a.signed) (Bitwise.not a)
unfolding Bitwise.not
not-IsBitwise a h =
    bitwise-IsBitwise not_limbs (λ p q. not4 p) a (blank a.width a.signed) not-IsPointwise h
      (blank-IsValid a.width a.signed h.positive) (unfold blank in refl)

-- `xnor` of two valid values of one width, which is `not` of `xor`, returns a valid value of that
-- width and of the first's signing, and its every bit is the four-state NOT of the XOR of theirs.
pub xnor-IsBitwise :
    (a b : Bits)
    → IsValid a
    → IsValid b
    → a.width ≡ b.width
    → IsBitwise (λ p q. not4 (xor4 p q)) a b (Bitwise.xnor a b)
unfolding Bitwise.xnor
xnor-IsBitwise a b ha hb e =
    let first = xor-IsBitwise a b ha hb e in
    let r = first.result in
    let second = not-IsBitwise r first.valid in
    record {
      result = second.result;
      returns = rw (first.returns, ◌>>=◌) second.returns;
      valid = second.valid;
      same_width = second.same_width ∙ first.same_width;
      same_signed = second.same_signed ∙ first.same_signed;
      at = λ i k.
          let (p, q, at_a, at_b, at_r) = first.at i k in
          let (p', q', at_r', at_blank, at_not) = second.at i (omega (arith, first.same_width)) in
          (p, q, at_a, at_b, cc (at_not, at_r', at_r));
    }
