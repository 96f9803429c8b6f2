-- ===== src/Sema/Bits/Put/Laws.antt =====
-- What `put` leaves at each bit.
use Prim.Native.Nat.{bit_and}
use native.Mathlib.Nat.{div-le_self, mod-lt}
use astli.Prelude.{
  ℕ, ◌+◌, ◌-◌, ◌*◌, ◌/◌, ◌%◌, ◌^◌, ◌≤◌, ◌<◌, ◌≡◌, refl, ◌∙◌, Bool, true, false, not, ◌&&◌, some,
  List, inl, inr, arith, Bool-cases, ltb, leb, ◌==◌, if◌then◌else◌, ◌>>=◌,
}
use astli.Sema.Bits.{low}
use astli.Sema.Bits.Put.{update, put}
use astli.Sema.Bits.Limb.{test}
use astli.Sema.Bits.Limb.Shift.{shl}
use astli.Sema.Bits.Fits.{Loose, test_at}
use astli.Sema.Bits.Put.Parts.{first_part, next_part, update-test_at, low-lt, wanted-lt}

div-lt : (a b : ℕ) → a < 2 ^ 64 → a / b < 2 ^ 64
div-lt a b h = omega (arith, div-le_self a b)

put_near :
    (ls fs : List ℕ) (lo bits count : ℕ)
    → update ls (lo / 64) (shl (low count) (lo % 64)) (shl (bit_and bits (low count)) (lo % 64))
      ≡ some fs
    → (not (lo % 64 == 0) && ltb 64 (lo % 64 + count)) ≡ false
    → put ls lo bits count ≡ some fs
unfolding put
put_near ls fs lo bits count run near = rw (run, ◌>>=◌) (rw near refl)

put_far :
    (ls fs rs : List ℕ) (lo bits count : ℕ)
    → update ls (lo / 64) (shl (low count) (lo % 64)) (shl (bit_and bits (low count)) (lo % 64))
      ≡ some fs
    → (not (lo % 64 == 0) && ltb 64 (lo % 64 + count)) ≡ true
    → update fs
        (lo / 64 + 1)
        (low count / 2 ^ (64 - lo % 64))
        (bit_and bits (low count) / 2 ^ (64 - lo % 64))
      ≡ some rs
    → put ls lo bits count ≡ some rs
unfolding put
put_far ls fs rs lo bits count run far run' = rw (run, ◌>>=◌) (rw far run')

abbrev pub in_range : ℕ → ℕ → ℕ → Bool
in_range lo count i = leb lo i && ltb i (lo + count)

one_part :
    (lo count q s i : ℕ) (f : ℕ → Bool) (was : Bool)
    → 64 * q + s ≡ lo
    → (not (s == 0) && ltb 64 (s + count)) ≡ false
    → count ≤ 64
    → (if in_range (64 * q + s) count i && ltb i (64 * q + 64) then f (i - (64 * q + s)) else was)
      ≡ (if in_range lo count i then f (i - lo) else was)
one_part lo count q s i f was e near l = rw e (ground (arith, near))

both_parts :
    (lo count q s i : ℕ) (f : ℕ → Bool) (was first : Bool)
    → 64 * q + s ≡ lo
    → (not (s == 0) && ltb 64 (s + count)) ≡ true
    → count ≤ 64
    → s < 64
    → first
      ≡ (if in_range (64 * q + s) count i && ltb i (64 * q + 64) then f (i - (64 * q + s)) else was)
    → (if in_range (64 * q + s) count i && (leb (64 * q + 64) i && ltb i (64 * q + 128))
        then f (i - (64 * q + s))
        else first)
      ≡ (if in_range lo count i then f (i - lo) else was)
both_parts lo count q s i f was first e far l small h = rw e (ground (arith, far, h, e))

-- What one `put` does: no panic within the width, and just the bits of the range are new.
pub put-test_at :
    (w : ℕ) (ls : List ℕ) (lo bits count : ℕ)
    → Loose w ls
    → 0 < count
    → count ≤ 64
    → lo + count ≤ w
    → (rs : List ℕ) × (put ls lo bits count ≡ some rs)
      × Loose w rs
      × ((i : ℕ)
          → test_at rs i
            ≡ (if leb lo i && ltb i (lo + count) then test bits (i - lo) else test_at ls i))
unfolding put
put-test_at w ls lo bits count h p l k =
    let q = lo / 64 in
    let s = lo % 64 in
    let b = bit_and bits (low count) in
    let place : 64 * q + s ≡ lo = omega arith in
    let (fs, run, loose, at) =
      update-test_at w ls q (shl (low count) s) (shl b s) h (omega arith) (mod-lt _ (omega arith))
        (mod-lt _ (omega arith)) in
    elim (Bool-cases (not (s == 0) && ltb 64 (s + count))) [
      | inl far ↦
          let (rs, run', loose', at') =
            update-test_at w fs (q + 1) (low count / 2 ^ (64 - s)) (b / 2 ^ (64 - s)) loose
              (ground arith) (div-lt (low count) (2 ^ (64 - s)) (low-lt count l))
              (div-lt b (2 ^ (64 - s)) (wanted-lt bits count l)) in
          (
            rs,
            put_far ls fs rs lo bits count run far run',
            loose',
            λ i.
                at' i
                ∙ next_part bits count q s i (test_at fs i) (omega arith) l
                ∙ both_parts lo count q s i (test bits) (test_at ls i) (test_at fs i) place far l
                    (omega arith)
                    (at i ∙ first_part bits count q s i (test_at ls i) (omega arith) l),
          )
      | inr near ↦ (
        fs,
        put_near ls fs lo bits count run near,
        loose,
        λ i.
            at i
            ∙ first_part bits count q s i (test_at ls i) (omega arith) l
            ∙ one_part lo count q s i (test bits) (test_at ls i) place near l,
      )
    ]
