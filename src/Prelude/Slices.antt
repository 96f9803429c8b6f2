-- ===== src/Prelude/Slices.antt =====
-- What `drop` leaves of a list.
use Prim.Native.Nat.{ℕ, zero, suc, ◌≤◌}
use mathlib.Core.Path.{◌≡◌, refl, ap}
use mathlib.Core.Option.{some}
use mathlib.Core.List.{List, [], ◌∷◌}
use native.Mathlib.Omega.{arith}
use astli.Prelude.Lists.{length, get_elem?, drop}

pub drop_at {ℓ} :
    {A : Type ℓ} (xs : List A) (at : ℕ) (x : A)
    → get_elem? xs at ≡ some x
    → drop at xs ≡ x ∷ drop (suc at) xs
drop_at [] at x h = cc
drop_at (y ∷ xs) zero x h = ap (λ t. t ∷ xs) (cc h)
drop_at (y ∷ xs) (suc at) x h = drop_at xs at x h

pub drop_all {ℓ} : {A : Type ℓ} (at : ℕ) (xs : List A) → length xs ≤ at → drop at xs ≡ []
drop_all zero [] h = refl
drop_all zero (x ∷ xs) h = absurd (omega arith)
drop_all (suc at) [] h = refl
drop_all (suc at) (x ∷ xs) h = drop_all at xs (omega arith)
