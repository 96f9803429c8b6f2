-- ===== src/Preproc/Directive/Scan.antt =====
-- `(from..end).find` and `(from..end).rev().find`, where the test of an index may panic.
use astli.Prelude.{
  ℕ, zero, suc, ◌+◌, ◌<◌, ◌≤◌, ◌≡◌, refl, sym, subst, arith, inl, inr, ◌⊎◌, Bool, true, false,
  Option, none, some, if◌then◌else◌, ◌>>=◌,
}

-- Along `n` indices from `at` on.
abbrev pub find_from : (ℕ → Option Bool) → ℕ → ℕ → Option (Option ℕ)
find_from p zero at = some none
find_from p (suc n) at = do found ← p at; if found then some (some at) else find_from p n (suc at)

-- Along the `n` indices before `at + n`, from the last on.
abbrev pub find_back : (ℕ → Option Bool) → ℕ → ℕ → Option (Option ℕ)
find_back p zero at = some none
find_back p (suc n) at = do
  found ← p (at + n)
  if found then some (some (at + n)) else find_back p n at

-- A test that does not panic in a range.
abbrev pub IsTested : (ℕ → Option Bool) → ℕ → ℕ → Type 0
IsTested p from end = (i : ℕ) → from ≤ i → i < end → (b : Bool) × (p i ≡ some b)

-- The first index of a range that passes, if one does.
abbrev pub IsFirst : (ℕ → Option Bool) → ℕ → ℕ → Option ℕ → Type 0
IsFirst p from end none = (i : ℕ) → from ≤ i → i < end → p i ≡ some false
IsFirst p from end (some at) =
    (from ≤ at) × (at < end) × (p at ≡ some true) × ((i : ℕ) → from ≤ i → i < at → p i ≡ some false)

-- The last one.
abbrev pub IsLast : (ℕ → Option Bool) → ℕ → ℕ → Option ℕ → Type 0
IsLast p from end none = (i : ℕ) → from ≤ i → i < end → p i ≡ some false
IsLast p from end (some at) =
    (from ≤ at) × (at < end) × (p at ≡ some true) × ((i : ℕ) → at < i → i < end → p i ≡ some false)

le_cases : (a b : ℕ) → a ≤ b → (a ≡ b) ⊎ (suc a ≤ b)
le_cases a b h = ground arith

IsFirst-next :
    (p : ℕ → Option Bool) (from end : ℕ) (r : Option ℕ)
    → p from ≡ some false
    → IsFirst p (suc from) end r
    → IsFirst p from end r
IsFirst-next p from end none h k = λ i lo hi. elim (le_cases from i lo) [
  | inl e ↦ subst (λ j. p j ≡ some false) e h
  | inr more ↦ k i more hi
]
IsFirst-next p from end (some at) h k = (
  omega (arith, k.0),
  k.1,
  k.2,
  λ i lo hi. elim (le_cases from i lo) [
    | inl e ↦ subst (λ j. p j ≡ some false) e h
    | inr more ↦ k.3 i more hi
  ],
)

IsFirst-step :
    (p : ℕ → Option Bool) (n from : ℕ) (b : Bool)
    → p from ≡ some b
    → (r : Option ℕ) × (find_from p n (suc from) ≡ some r) × IsFirst p (suc from) (from + suc n) r
    → (r : Option ℕ) × (find_from p (suc n) from ≡ some r) × IsFirst p from (from + suc n) r
IsFirst-step p n from true e (r, run, h) =
    (some from, rw (e, ◌>>=◌) refl, (omega arith, omega arith, e, λ i lo hi. absurd (omega arith)))
IsFirst-step p n from false e (r, run, h) =
    (r, rw (e, ◌>>=◌) run, IsFirst-next p from (from + suc n) r e h)

pub find_from-IsFirst :
    (p : ℕ → Option Bool) (n from : ℕ)
    → IsTested p from (from + n)
    → (r : Option ℕ) × (find_from p n from ≡ some r) × IsFirst p from (from + n) r
find_from-IsFirst p zero from h = (none, refl, λ i lo hi. absurd (omega arith))
find_from-IsFirst p (suc n) from h =
    let (r, run, is_first) =
      find_from-IsFirst p n (suc from) (λ i lo hi. h i (omega arith) (omega arith)) in
    let (b, e) = h from (omega arith) (omega arith) in
    IsFirst-step p n from b e
      (r, run, subst (λ end. IsFirst p (suc from) end r) (omega arith) is_first)

IsLast-next :
    (p : ℕ → Option Bool) (from n : ℕ) (r : Option ℕ)
    → p (from + n) ≡ some false
    → IsLast p from (from + n) r
    → IsLast p from (from + suc n) r
IsLast-next p from n none h k = λ i lo hi. elim (le_cases i (from + n) (omega arith)) [
  | inl e ↦ subst (λ j. p j ≡ some false) (sym e) h
  | inr more ↦ k i lo more
]
IsLast-next p from n (some at) h k = (
  k.0,
  omega (arith, k.1),
  k.2,
  λ i lo hi. elim (le_cases i (from + n) (omega arith)) [
    | inl e ↦ subst (λ j. p j ≡ some false) (sym e) h
    | inr more ↦ k.3 i lo more
  ],
)

IsLast-step :
    (p : ℕ → Option Bool) (n from : ℕ) (b : Bool)
    → p (from + n) ≡ some b
    → (r : Option ℕ) × (find_back p n from ≡ some r) × IsLast p from (from + n) r
    → (r : Option ℕ) × (find_back p (suc n) from ≡ some r) × IsLast p from (from + suc n) r
IsLast-step p n from true e (r, run, h) = (
  some (from + n),
  rw (e, ◌>>=◌) refl,
  (omega arith, omega arith, e, λ i lo hi. absurd (omega arith)),
)
IsLast-step p n from false e (r, run, h) = (r, rw (e, ◌>>=◌) run, IsLast-next p from n r e h)

pub find_back-IsLast :
    (p : ℕ → Option Bool) (n from : ℕ)
    → IsTested p from (from + n)
    → (r : Option ℕ) × (find_back p n from ≡ some r) × IsLast p from (from + n) r
find_back-IsLast p zero from h = (none, refl, λ i lo hi. absurd (omega arith))
find_back-IsLast p (suc n) from h =
    let (b, e) = h (from + n) (omega arith) (omega arith) in
    IsLast-step p n from b e (find_back-IsLast p n from (λ i lo hi. h i lo (omega arith)))
