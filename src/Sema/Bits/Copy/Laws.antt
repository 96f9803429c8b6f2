-- ===== src/Sema/Bits/Copy/Laws.antt =====
-- What `copy` leaves at each bit.
use astli.Prelude.{
  ℕ, zero, suc, ◌+◌, ◌-◌, ◌≤◌, ◌≡◌, refl, ap, sym, ◌∙◌, min, true, false, ◌&&◌, some, List, inl,
  inr, arith, Bool-cases, ltb, leb, if◌then◌else◌, ◌>>=◌,
}
use astli.Sema.Bits.Limb.{test}
use astli.Sema.Bits.Put.{put}
use astli.Sema.Bits.Put.Laws.{put-test_at, in_range}
use astli.Sema.Bits.Fits.{Loose, test_at}
use astli.Sema.Bits.Copy.{chunk, copy}
use astli.Sema.Bits.Copy.Chunk.{chunk-test_at}

module _ (w v : ℕ) (to_lo : ℕ) (from : List ℕ) (from_lo count : ℕ) (hf : Loose v from)
    (room : to_lo + count ≤ w) where
  abbrev pub CopyTo : ℕ → List ℕ → ℕ → Type 0
  CopyTo fuel to done =
      (rs : List ℕ) × (copy fuel to to_lo from from_lo count done ≡ some rs)
      × Loose w rs
      × ((i : ℕ)
          → test_at rs i ≡ (
              if leb (to_lo + done) i && ltb i (to_lo + count)
              then test_at from (from_lo + (i - to_lo))
              else test_at to i))

  copy_done :
      (fuel : ℕ) (to : List ℕ) (done : ℕ)
      → ltb done count ≡ false
      → Loose w to
      → CopyTo fuel to done
  unfolding copy
  copy_done zero to done over h = (to, rw over refl, h, λ i. ground (arith, over))
  copy_done (suc fuel) to done over h = (to, rw over refl, h, λ i. ground (arith, over))

  copy_step :
      (fuel : ℕ) (to ps : List ℕ) (done step : ℕ)
      → ltb done count ≡ true
      → step ≡ min (count - done) 64
      → put to (to_lo + done) (chunk from (from_lo + done)) step ≡ some ps
      → ((i : ℕ)
          → test_at ps i ≡ (
              if in_range (to_lo + done) step i
              then test (chunk from (from_lo + done)) (i - (to_lo + done))
              else test_at to i))
      → CopyTo fuel ps (done + step)
      → CopyTo (suc fuel) to done
  unfolding copy
  copy_step fuel to ps done step under e run now (rs, ran, loose, rest) = (
    rs,
    rw (under, sym e, run, ◌>>=◌) ran,
    loose,
    λ i. elim (Bool-cases (in_range (to_lo + done) step i)) [
      | inl here ↦
          let j = i - (to_lo + done) in
          let at : from_lo + done + j ≡ from_lo + (i - to_lo) = ground arith in
          let read =
            chunk-test_at v from (from_lo + done) j hf (ground arith) ∙ ap (test_at from) at in
          ground (arith, rest i, now i, read)
      | inr away ↦ ground (arith, rest i, now i, away)
    ],
  )

  -- `copy` does not panic where the range fits, and just the bits of the range are new.
  pub copy-test_at :
      (fuel : ℕ) (to : List ℕ) (done : ℕ) → count ≤ done + fuel → Loose w to → CopyTo fuel to done
  copy-test_at zero to done f h = copy_done zero to done (ground arith) h
  copy-test_at (suc fuel) to done f h = elim (Bool-cases (ltb done count)) [
    | inl under ↦
        let step = min (count - done) 64 in
        let (ps, run, loose, now) =
          put-test_at w to (to_lo + done) (chunk from (from_lo + done)) step h (ground arith)
            (omega arith) (ground arith) in
        copy_step fuel to ps done step under refl run now
          (copy-test_at fuel ps (done + step) (ground arith) loose)
    | inr over ↦ copy_done (suc fuel) to done over h
  ]
