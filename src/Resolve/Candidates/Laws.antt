-- ===== src/Resolve/Candidates/Laws.antt =====
-- `Candidates` as pubgrub's `VersionSet`: each operation is that of sets.
use astli.Prelude.{◌≡◌, refl, ap, ◌∙◌, Bool, true, false, not, ◌&&◌, List, [], arith}
use astli.Resolve.Order.{Ord, is_eq}
use astli.Resolve.Candidates.{
  Candidates, has, keep, differs, of, empty, singleton, complement, intersection, contains, meet,
}
use astli.Resolve.Candidates.Sorted.{
  IsSorted, has-insert_all, has-keep, insert_all-IsSorted, keep-IsSorted, IsSorted-ext,
}

module _ {ℓ} {V : Type ℓ} ⦃o : Ord V⦄ where
  abbrev pub IsValid : Candidates V → Type 0
  IsValid s = IsSorted s.members

  contains_lem : (s : Candidates V) (c : V) → contains s c ≡ differs (has s.members c) s.all_but
  contains_lem s c = unfold contains in refl

  meet-has :
      (p q : Bool) (xs ys : List V) (c : V)
      → differs (has (meet p q xs ys) c) (p && q) ≡ (differs (has xs c) p && differs (has ys c) q)
  meet-has false false xs ys c = rw has-keep (ground arith)
  meet-has false true xs ys c = rw has-keep (ground arith)
  meet-has true false xs ys c = rw has-keep (ground arith)
  meet-has true true xs ys c = rw has-insert_all (ground arith)

  meet-IsSorted :
      (p q : Bool) (xs ys : List V) → IsSorted xs → IsSorted ys → IsSorted (meet p q xs ys)
  meet-IsSorted false false xs ys hx hy = keep-IsSorted true xs ys hx
  meet-IsSorted false true xs ys hx hy = keep-IsSorted false xs ys hx
  meet-IsSorted true false xs ys hx hy = keep-IsSorted false ys xs hy
  meet-IsSorted true true xs ys hx hy = insert_all-IsSorted xs ys hy

  -- The intersection holds what both sets hold, whichever of the two are complements, and keeps its
  -- members ascending.
  pub contains-intersection :
      (s t : Candidates V)
      → IsValid s
      → IsValid t
      → IsValid (intersection s t)
        × ((c : V) → contains (intersection s t) c ≡ (contains s c && contains t c))
  unfolding intersection contains
  contains-intersection s t hs ht = (
    meet-IsSorted s.all_but t.all_but s.members t.members hs ht,
    λ c. meet-has s.all_but t.all_but s.members t.members c,
  )

  -- The complement holds what the set does not, and its complement is the set.
  pub contains-complement :
      (s : Candidates V)
      → ((c : V) → contains (complement s) c ≡ not (contains s c)) × (complement (complement s) ≡ s)
  unfolding complement contains
  contains-complement s = ((λ c. ground arith), ground arith)

  -- A set of given members is valid, holds just those, and `singleton` and `empty` are such sets.
  pub contains-of :
      (xs : List V) (a : V)
      → IsValid (of xs)
        × ((c : V) → contains (of xs) c ≡ has xs c)
        × ((c : V) → contains (singleton a) c ≡ is_eq (o.cmp a c))
        × ((c : V) → contains {V = V} empty c ≡ false)
  unfolding of singleton empty contains
  contains-of xs a = (
    insert_all-IsSorted xs [] tt,
    λ c. rw has-insert_all (ground arith),
    λ c. ground arith,
    λ c. refl,
  )

  no_more : (ys : List V) (b : V) → (has ys b && differs (has ys b) true) ≡ has [] b
  unfolding has
  no_more ys b = ground arith

  keep_self : (xs : List V) → IsSorted xs → keep false xs xs ≡ []
  keep_self xs h =
      IsSorted-ext (keep false xs xs) [] (keep-IsSorted false xs xs h) tt
        λ b. has-keep false xs xs b ∙ no_more xs b

  meet_self :
      (p : Bool) (xs : List V)
      → IsSorted xs
      → Path
          (Candidates V)
          (record { all_but = p && not p; members = meet p (not p) xs xs })
          (record { all_but = false; members = [] })
  meet_self false xs h = ap (λ ys. record { all_but = false; members = ys }) (keep_self xs h)
  meet_self true xs h = ap (λ ys. record { all_but = false; members = ys }) (keep_self xs h)

  -- A valid set and its complement have nothing in common, and `intersection` says so by returning
  -- the empty set.
  pub intersection-complement :
      (s : Candidates V) → IsValid s → intersection s (complement s) ≡ empty
  unfolding intersection complement empty
  intersection-complement s h = meet_self s.all_but s.members h
