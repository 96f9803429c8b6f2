-- ===== src/Resolve/Candidates.antt =====
-- crates/astli-resolve/src/version.rs, `Candidates`: finite sets of candidates and their
-- complements, over any ordered type. A `BTreeSet` is the ascending list of its elements.
pub mod Sorted
pub mod Laws
pub mod Highest
pub mod Preferred
use Prim.Native.Nat.Ordering.{lt, eq, gt}
use Prim.Native.Nat.{Ordering}
use astli.Prelude.{
  ℕ, Bool, true, false, not, ◌&&◌, ◌||◌, Option, none, some, List, [], ◌∷◌, if◌then◌else◌, length,
}
use astli.Resolve.Order.{Ord, is_eq, is_lt}

pub record Candidates {ℓ} (V : Type ℓ) : Type ℓ where
  pub all_but : Bool
  pub members : List V

-- `!=` of two Booleans.
abbrev pub differs : Bool → Bool → Bool
differs true b = not b
differs false b = b

module _ {ℓ} {V : Type ℓ} ⦃o : Ord V⦄ where
  -- `BTreeSet::contains`
  unfoldable pub has : List V → V → Bool
  has [] a = false
  has (x ∷ xs) a = is_eq (o.cmp x a) || has xs a

  -- `BTreeSet::insert`
  unfoldable pub insert : V → List V → List V
  insert a [] = a ∷ []
  insert a (x ∷ xs) =
      let rest = insert a xs in elim (o.cmp a x) [ lt ↦ a ∷ x ∷ xs | eq ↦ x ∷ xs | gt ↦ x ∷ rest ]

  -- `collect::<BTreeSet<_>>`, and `union`
  unfoldable pub insert_all : List V → List V → List V
  unfolding insert
  insert_all [] xs = xs
  insert_all (a ∷ as') xs = insert a (insert_all as' xs)

  -- The elements of one set that another has, and those that it has not.
  unfoldable pub keep : Bool → List V → List V → List V
  unfolding has
  keep wanted [] ys = []
  keep wanted (x ∷ xs) ys =
      let rest = keep wanted xs ys in
      if has ys x then (if wanted then x ∷ rest else rest) else (if wanted then rest else x ∷ rest)

  unfoldable pub of : List V → Candidates V
  unfolding insert_all
  of members = record { all_but = false; members = insert_all members [] }

  -- `BTreeSet::last`
  unfoldable pub last : List V → Option V
  last [] = none
  last (x ∷ []) = some x
  last (x ∷ y ∷ xs) = last (y ∷ xs)

  -- `Iterator::max`, which returns the last of several greatest.
  unfoldable pub max_of : Option V → List V → Option V
  max_of best [] = best
  max_of none (x ∷ xs) = max_of (some x) xs
  max_of (some b) (x ∷ xs) = max_of (some (if is_lt (o.cmp x b) then b else x)) xs

  unfoldable pub highest : Candidates V → List V → Option V
  unfolding last max_of keep
  highest s known = if s.all_but then max_of none (keep false known s.members) else last s.members

  unfoldable pub len : Candidates V → Option ℕ
  len s = if not s.all_but then some (length s.members) else none

  unfoldable pub empty : Candidates V
  empty = record { all_but = false; members = [] }

  unfoldable pub singleton : V → Candidates V
  unfolding of
  singleton candidate = of (candidate ∷ [])

  unfoldable pub complement : Candidates V → Candidates V
  complement s = record s { all_but = not s.all_but }

  abbrev pub meet : Bool → Bool → List V → List V → List V
  meet false false xs ys = keep true xs ys
  meet false true xs ys = keep false xs ys
  meet true false xs ys = keep false ys xs
  meet true true xs ys = insert_all xs ys

  unfoldable pub intersection : Candidates V → Candidates V → Candidates V
  unfolding keep insert_all
  intersection s t = record {
    all_but = s.all_but && t.all_but;
    members = meet s.all_but t.all_but s.members t.members;
  }

  unfoldable pub contains : Candidates V → V → Bool
  unfolding has
  contains s candidate = differs (has s.members candidate) s.all_but
