-- ===== src/Resolve/Candidates/Preferred.antt =====
-- `Candidates::highest` on `Candidate`s: what the order of them is for, that the highest is the one to prefer.
use astli.Prelude.{◌≡◌, refl, Bool, true, false, not, ◌&&◌, ◌||◌, Option, none, some, List, arith}
use astli.Resolve.Order.{Ord, is_lt}
use astli.Resolve.Candidate.{Candidate, local, commit, candidate_ord, candidate_cmp}
use astli.Resolve.Candidates.{Candidates, has, contains, highest}
use astli.Resolve.Candidates.Laws.{IsValid}
use astli.Resolve.Candidates.Highest.{IsHighest, highest-IsHighest}

-- A version that there is, and that is not below another.
abbrev pub IsNewest {ℓ} : {V : Type ℓ} ⦃v : Ord V⦄ → Option V → V → Type 0
IsNewest none w = ⊥
IsNewest ⦃v = v⦄ (some u) w = is_lt (v.cmp u w) ≡ false

module _ {ℓ κ} {V : Type ℓ} {I : Type κ} ⦃v : Ord V⦄ ⦃i : Ord I⦄ where
  abbrev Preferred : Option (Candidate V I) → V → Type (ℓ ⊔ κ)
  Preferred r w = (u : Option V) × (h : I) × (r ≡ some (commit u h)) × IsNewest u w

  -- A candidate that a tagged commit is not above is a commit of a version not below.
  newest_of :
      (r : Candidate V I) (w : V) (j : I)
      → is_lt (candidate_cmp r (commit (some w) j)) ≡ false
      → Preferred (some r) w
  newest_of local w j h = cc
  newest_of (commit none m) w j h = cc
  newest_of (commit (some u) m) w j h = (some u, m, refl, ground arith)

  Preferred-of :
      (f : Candidate V I → Bool) (r : Option (Candidate V I)) (w : V) (j : I)
      → IsHighest f r
      → f (commit (some w) j) ≡ true
      → Preferred r w
  unfolding candidate_ord
  Preferred-of f none w j h k = cc (h (commit (some w) j))
  Preferred-of f (some r) w j h k = newest_of r w j (h.1 (commit (some w) j) k)

  -- If a valid set holds a commit of a version, one of those known where the set is the complement of a
  -- list, then the highest is a commit of a version that is not below it: no commit without a
  -- version, and not what is on disk.
  pub highest-IsPreferred :
      (s : Candidates (Candidate V I)) (known : List (Candidate V I)) (w : V) (j : I)
      → IsValid s
      → contains s (commit (some w) j) ≡ true
      → (not s.all_but || has known (commit (some w) j)) ≡ true
      → (u : Option V) × (h : I) × (highest s known ≡ some (commit u h)) × IsNewest u w
  highest-IsPreferred s known w j valid held listed =
      Preferred-of (λ c. contains s c && (not s.all_but || has known c)) (highest s known) w j
        (highest-IsHighest s known valid) (ground (arith, held, listed))
