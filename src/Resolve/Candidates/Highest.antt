-- ===== src/Resolve/Candidates/Highest.antt =====
-- `Candidates::highest`: the greatest element, of the set or of those known that are in it.
use astli.Prelude.{
  ◌≡◌, refl, sym, ◌∙◌, Bool, true, false, not, ◌&&◌, ◌||◌, Option, if◌then◌else◌, none, some, List,
  [], ◌∷◌, arith, Bool-cases, inl, inr,
}
use astli.Resolve.Order.{Ord, is_eq, is_lt}
use astli.Resolve.Candidates.{Candidates, has, keep, differs, last, max_of, highest, contains}
use astli.Resolve.Candidates.Sorted.{IsSorted, has-keep}
use astli.Resolve.Candidates.Laws.{IsValid}

module _ {ℓ} {V : Type ℓ} ⦃o : Ord V⦄ where
  -- The greatest of what a test accepts.
  abbrev pub IsHighest : (V → Bool) → Option V → Type ℓ
  IsHighest f none = (c : V) → f c ≡ false
  IsHighest f (some v) = f v ≡ true × ((c : V) → f c ≡ true → is_lt (o.cmp v c) ≡ false)

  IsHighest-ext :
      (f g : V → Bool) → ((c : V) → f c ≡ g c) → (r : Option V) → IsHighest f r → IsHighest g r
  IsHighest-ext f g e none h = λ c. sym (e c) ∙ h c
  IsHighest-ext f g e (some v) h = (sym (e v) ∙ h.0, λ c p. h.1 c (e c ∙ p))

  abbrev is_some_of : Option V → V → Bool
  is_some_of none c = false
  is_some_of (some b) c = is_eq (o.cmp b c)

  at_most_trans :
      (v b c : V)
      → is_lt (o.cmp v b) ≡ false
      → is_lt (o.cmp b c) ≡ false
      → is_lt (o.cmp v c) ≡ false
  at_most_trans v b c p q = ground (arith, o.unique b c, o.flip_gt b c, o.chain v c b)

  -- What adds an element that is not above one accepted keeps the highest.
  widen :
      (f g : V → Bool) (b d : V)
      → f b ≡ true
      → is_lt (o.cmp b d) ≡ false
      → ((c : V) → g c ≡ (is_eq (o.cmp d c) || f c))
      → (r : Option V) → IsHighest f r
      → IsHighest g r
  widen f g b d p q e none h = absurd (ground (arith, h b))
  widen f g b d p q e (some v) h = (
    ground (arith, e v, h.0),
    λ c k. ground (arith, e c, h.1 c, o.unique d c, at_most_trans v b d (h.1 b p) q),
  )

  max_of-IsHighest :
      (best : Option V) (xs : List V)
      → IsHighest (λ c. is_some_of best c || has xs c) (max_of best xs)
  unfolding max_of has
  max_of-IsHighest none [] = λ c. refl
  max_of-IsHighest (some b) [] = (ground (arith, o.same b), λ c k. ground arith)
  max_of-IsHighest none (x ∷ xs) = max_of-IsHighest (some x) xs
  max_of-IsHighest (some b) (x ∷ xs) = elim (Bool-cases (is_lt (o.cmp x b))) [
    | inl below ↦ rw below (
        widen (λ c. is_eq (o.cmp b c) || has xs c)
          (λ c. is_eq (o.cmp b c) || (is_eq (o.cmp x c) || has xs c)) b x (ground (arith, o.same b))
          (ground (arith, o.flip_lt x b)) (λ c. ground arith) (max_of (some b) xs)
          (max_of-IsHighest (some b) xs))
    | inr above ↦ rw above (
        widen (λ c. is_eq (o.cmp x c) || has xs c)
          (λ c. is_eq (o.cmp b c) || (is_eq (o.cmp x c) || has xs c)) x b (ground (arith, o.same x))
          above (λ c. refl) (max_of (some x) xs) (max_of-IsHighest (some x) xs))
  ]

  last-IsHighest : (xs : List V) → IsSorted xs → IsHighest (has xs) (last xs)
  unfolding has last
  last-IsHighest [] h = λ c. refl
  last-IsHighest (x ∷ []) h = (ground (arith, o.same x), λ c k. ground arith)
  last-IsHighest (x ∷ y ∷ xs) h =
      widen (has (y ∷ xs)) (has (x ∷ y ∷ xs)) y x (ground (arith, o.same y))
        (ground (arith, o.flip_lt x y, h.0.0)) (λ c. refl) (last (y ∷ xs))
        (last-IsHighest (y ∷ xs) h.1)

  IsHighest-pool :
      (p : Bool) (xs known : List V)
      → IsSorted xs
      → IsHighest
          (λ c. differs (has xs c) p && (not p || has known c))
          (if p then max_of none (keep false known xs) else last xs)
  IsHighest-pool false xs known h =
      IsHighest-ext (has xs) (λ c. differs (has xs c) false && true) (λ c. ground arith) (last xs)
        (last-IsHighest xs h)
  IsHighest-pool true xs known h =
      IsHighest-ext (has (keep false known xs)) (λ c. differs (has xs c) true && has known c)
        (λ c. has-keep false known xs c ∙ ground arith) (max_of none (keep false known xs))
        (max_of-IsHighest none (keep false known xs))

  -- `highest` is the greatest candidate that the set contains, among those known where the set is
  -- the complement of a list, and it is `None` where there is none. A listed set gives its greatest
  -- member whether that is known or not.
  pub highest-IsHighest :
      (s : Candidates V) (known : List V)
      → IsValid s
      → IsHighest (λ c. contains s c && (not s.all_but || has known c)) (highest s known)
  unfolding highest contains
  highest-IsHighest s known h = IsHighest-pool s.all_but s.members known h
