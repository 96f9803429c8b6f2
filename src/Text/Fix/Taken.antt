-- ===== src/Text/Fix/Taken.antt =====
-- The edits that `choose` takes: no two of them clash, and all are edits of the fixes given.
use astli.Prelude.{
  ℕ, ◌+◌, ◌≡◌, refl, false, List, [], ◌∷◌, ◌++◌, ◌||◌, inl, inr, arith, any, All, All-append,
  Bool-cases,
}
use astli.Text.Fix.{Edit, clash, clashes, is_empty, choose}
use astli.Text.Fix.Order.{Apart, AllApart}

-- A clash is mutual.
clash_symm : (e x : Edit) → clash e x ≡ clash x e
clash_symm e x = ground arith

Apart-of_clashes : (e : Edit) (taken : List Edit) → clashes taken e ≡ false → All (Apart e) taken
Apart-of_clashes e [] h = tt
Apart-of_clashes e (x ∷ xs) h = ground (arith, Apart-of_clashes e xs)

-- `t` is apart from all of a fix that was not skipped.
Apart-fix :
    (t : Edit) (taken fix : List Edit) → any (clashes (t ∷ taken)) fix ≡ false → All (Apart t) fix
Apart-fix t taken [] h = tt
Apart-fix t taken (e ∷ es) h = ground (arith, clash_symm t e, Apart-fix t taken es)

any_tail :
    (t : Edit) (taken fix : List Edit)
    → any (clashes (t ∷ taken)) fix ≡ false
    → any (clashes taken) fix ≡ false
any_tail t taken [] h = refl
any_tail t taken (e ∷ es) h = ground (arith, any_tail t taken es)

AllApart-append :
    (taken fix : List Edit)
    → AllApart taken
    → AllApart fix
    → any (clashes taken) fix ≡ false
    → AllApart (taken ++ fix)
AllApart-append [] fix a b h = b
AllApart-append (t ∷ taken) fix a b h = (
  All-append (Apart t) taken fix a.0 (Apart-fix t taken fix h),
  AllApart-append taken fix a.1 b (any_tail t taken fix h),
)

-- If no two of the edits taken before clash, and no two of any one fix, then no two of the edits that
-- the first loop takes clash.
pub choose-AllApart :
    (taken : List Edit) (n : ℕ) (fixes : List (List Edit))
    → AllApart taken
    → All AllApart fixes
    → AllApart (choose taken n fixes).0
unfolding choose
choose-AllApart taken n [] a h = a
choose-AllApart taken n (fix ∷ fixes) a h =
    elim (Bool-cases (is_empty fix || any (clashes taken) fix)) [
      | inl s ↦ rw (s, AllApart) (choose-AllApart taken n fixes a h.1)
      | inr s ↦
          rw (s, AllApart)
            (choose-AllApart (taken ++ fix) (n + 1) fixes
              (AllApart-append taken fix a h.0 (ground arith)) h.1)
    ]

-- A property of every edit given holds of every edit taken.
pub choose-All {κ} :
    (P : Edit → Type κ) (taken : List Edit) (n : ℕ) (fixes : List (List Edit))
    → All P taken
    → All (All P) fixes
    → All P (choose taken n fixes).0
unfolding choose
choose-All P taken n [] a h = a
choose-All P taken n (fix ∷ fixes) a h =
    elim (Bool-cases (is_empty fix || any (clashes taken) fix)) [
      | inl s ↦ rw (s, All) (choose-All P taken n fixes a h.1)
      | inr s ↦
          rw (s, All) (choose-All P (taken ++ fix) (n + 1) fixes (All-append P taken fix a h.0) h.1)
    ]
