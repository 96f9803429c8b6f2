-- ===== src/Resolve/Examples.antt =====
-- Runs and instances of the theorems about crates/astli-resolve/src/version.rs, at the inputs of its
-- own tests, with natural numbers for versions and ids.
use astli.Prelude.{Option, ◌≡◌, refl, ℕ, false, not, ◌&&◌, ◌||◌, some, none, [], ◌∷◌}
use astli.Resolve.Order.{nat_ord, is_eq}
use astli.Resolve.Candidate.{Candidate, commit, candidate_ord, candidate_cmp}
use astli.Resolve.Candidates.{
  Candidates, of, empty, singleton, complement, intersection, contains, highest, has,
}
use astli.Resolve.Candidates.Laws.{
  IsValid, contains-intersection, contains-complement, contains-of, intersection-complement,
}
use astli.Resolve.Candidates.Preferred.{IsNewest, highest-IsPreferred}
use astli.Resolve.Candidates.Highest.{IsHighest, highest-IsHighest}

abbrev a : Candidate ℕ ℕ
a = commit (some 100) 1

abbrev b : Candidate ℕ ℕ
b = commit (some 110) 2

abbrev c : Candidate ℕ ℕ
c = commit none 3

abbrev ab : Candidates (Candidate ℕ ℕ)
ab = record { all_but = false; members = a ∷ b ∷ [] }

abbrev bc : Candidates (Candidate ℕ ℕ)
bc = record { all_but = false; members = c ∷ b ∷ [] }

ab_of : of (b ∷ a ∷ b ∷ []) ≡ ab
unfolding of nat_ord candidate_ord
ab_of = refl

intersection_runs : intersection ab bc ≡ singleton b
unfolding intersection singleton nat_ord candidate_ord
intersection_runs = refl

intersection-complement_runs : intersection ab (complement bc) ≡ singleton a
unfolding intersection complement singleton nat_ord candidate_ord
intersection-complement_runs = refl

highest_runs : highest (complement (singleton b)) (c ∷ a ∷ b ∷ []) ≡ some a
unfolding highest complement singleton nat_ord candidate_ord
highest_runs = refl

highest_untagged_runs : highest (singleton c) [] ≡ some c
unfolding highest singleton nat_ord candidate_ord
highest_untagged_runs = refl

ab-IsValid : IsValid ab
unfolding nat_ord candidate_ord
ab-IsValid = ((refl, tt), (tt, tt))

not_bc-IsValid : IsValid (complement bc)
unfolding complement nat_ord candidate_ord
not_bc-IsValid = ((refl, tt), (tt, tt))

contains-intersection_example :
    IsValid (intersection ab (complement bc))
    × ((d : Candidate ℕ ℕ)
        → contains (intersection ab (complement bc)) d
          ≡ (contains ab d && contains (complement bc) d))
contains-intersection_example = contains-intersection ab (complement bc) ab-IsValid not_bc-IsValid

contains-complement_example :
    ((d : Candidate ℕ ℕ) → contains (complement ab) d ≡ not (contains ab d))
    × (complement (complement ab) ≡ ab)
contains-complement_example = contains-complement ab

contains-of_example :
    IsValid (of (b ∷ a ∷ []))
    × ((d : Candidate ℕ ℕ) → contains (of (b ∷ a ∷ [])) d ≡ has (b ∷ a ∷ []) d)
    × ((d : Candidate ℕ ℕ) → contains (singleton c) d ≡ is_eq (candidate_cmp c d))
    × ((d : Candidate ℕ ℕ) → contains {V = Candidate ℕ ℕ} empty d ≡ false)
unfolding candidate_ord
contains-of_example = contains-of (b ∷ a ∷ []) c

intersection-complement_example : intersection ab (complement ab) ≡ empty
intersection-complement_example = intersection-complement ab ab-IsValid

highest-IsHighest_example :
    IsHighest
      (λ d. contains (complement bc) d && (not ((complement bc).all_but) || has (a ∷ b ∷ []) d))
      (highest (complement bc) (a ∷ b ∷ []))
highest-IsHighest_example = highest-IsHighest (complement bc) (a ∷ b ∷ []) not_bc-IsValid

highest-IsPreferred_example :
    (u : Option ℕ) × (h : ℕ) × (highest (complement bc) (a ∷ c ∷ []) ≡ some (commit u h))
    × IsNewest u 100
unfolding nat_ord candidate_ord contains complement
highest-IsPreferred_example =
    highest-IsPreferred (complement bc) (a ∷ c ∷ []) 100 1 not_bc-IsValid refl refl
