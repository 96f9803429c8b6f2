-- ===== src/Resolve/Candidates/Sorted.antt =====
-- The ascending lists that stand for a `BTreeSet`: what they hold, and that each operation keeps
-- them ascending.
use Prim.Native.Nat.Ordering.{lt, eq}
use astli.Prelude.{
  ◌≡◌, refl, ap, ap₂, sym, ◌∙◌, Bool, false, not, ◌&&◌, ◌||◌, List, [], ◌∷◌, arith, All, All-imp,
}
use astli.Resolve.Order.{Ord, is_eq}
use astli.Resolve.Candidates.{has, insert, insert_all, keep, differs}

module _ {ℓ} {V : Type ℓ} ⦃o : Ord V⦄ where
  abbrev pub Above : V → List V → Type 0
  Above a xs = All (λ x. o.cmp a x ≡ lt) xs

  abbrev pub IsSorted : List V → Type 0
  IsSorted [] = Unit
  IsSorted (x ∷ xs) = Above x xs × IsSorted xs

  pub has-insert :
      (a : V) (xs : List V) (b : V) → has (insert a xs) b ≡ (is_eq (o.cmp a b) || has xs b)
  unfolding has insert
  has-insert a [] b = refl
  has-insert a (x ∷ xs) b = ground (arith, has-insert a xs b, o.unique a x)

  pub has-insert_all : (ys xs : List V) (b : V) → has (insert_all ys xs) b ≡ (has ys b || has xs b)
  unfolding has insert_all
  has-insert_all [] xs b = refl
  has-insert_all (y ∷ ys) xs b =
      has-insert y (insert_all ys xs) b ∙ ground (arith, has-insert_all ys xs b)

  pub has-keep :
      (wanted : Bool) (xs ys : List V) (b : V)
      → has (keep wanted xs ys) b ≡ (has xs b && differs (has ys b) (not wanted))
  unfolding has keep
  has-keep wanted [] ys b = refl
  has-keep wanted (x ∷ xs) ys b = ground (arith, has-keep wanted xs ys b, o.unique x b)

  All-insert {μ} : (P : V → Type μ) (a : V) (xs : List V) → P a → All P xs → All P (insert a xs)
  unfolding insert
  All-insert P a [] p h = (p, tt)
  All-insert P a (x ∷ xs) p h = ground (arith, All-insert P a xs)

  All-keep {μ} :
      (P : V → Type μ) (wanted : Bool) (xs ys : List V) → All P xs → All P (keep wanted xs ys)
  unfolding keep
  All-keep P wanted [] ys h = tt
  All-keep P wanted (x ∷ xs) ys h = ground (arith, All-keep P wanted xs ys)

  Above-chain : (a x : V) (xs : List V) → o.cmp a x ≡ lt → Above x xs → Above a xs
  Above-chain a x xs h = All-imp xs (λ y. o.chain a x y h)

  pub insert-IsSorted : (a : V) (xs : List V) → IsSorted xs → IsSorted (insert a xs)
  unfolding insert
  insert-IsSorted a [] h = (tt, tt)
  insert-IsSorted a (x ∷ xs) h = ground (
    arith,
    insert-IsSorted a xs h.1,
    All-insert (λ y. o.cmp x y ≡ lt) a xs,
    o.flip_gt a x,
    Above-chain a x xs,
  )

  pub insert_all-IsSorted : (ys xs : List V) → IsSorted xs → IsSorted (insert_all ys xs)
  unfolding insert_all
  insert_all-IsSorted [] xs h = h
  insert_all-IsSorted (y ∷ ys) xs h =
      insert-IsSorted y (insert_all ys xs) (insert_all-IsSorted ys xs h)

  pub keep-IsSorted : (wanted : Bool) (xs ys : List V) → IsSorted xs → IsSorted (keep wanted xs ys)
  unfolding keep
  keep-IsSorted wanted [] ys h = tt
  keep-IsSorted wanted (x ∷ xs) ys h =
      ground (arith, keep-IsSorted wanted xs ys h.1, All-keep (λ y. o.cmp x y ≡ lt) wanted xs ys)

  -- What is below every element is not held.
  has-Above : (a : V) (xs : List V) → Above a xs → has xs a ≡ false
  unfolding has
  has-Above a [] h = refl
  has-Above a (x ∷ xs) h = ground (arith, has-Above a xs h.1, o.flip_lt a x)

  -- Where two ascending lists hold the same, their first elements are the same.
  head-eq :
      (x y : V) (xs ys : List V)
      → IsSorted (x ∷ xs)
      → IsSorted (y ∷ ys)
      → has (x ∷ xs) x ≡ has (y ∷ ys) x
      → has (x ∷ xs) y ≡ has (y ∷ ys) y
      → o.cmp x y ≡ eq
  unfolding has
  head-eq x y xs ys hx hy p q = ground (
    arith,
    o.same x,
    o.same y,
    o.flip_lt x y,
    o.flip_gt x y,
    Above-chain x y ys,
    Above-chain y x xs,
    has-Above x ys,
    has-Above y xs,
  )

  tail-eq :
      (x : V) (xs ys : List V) (b : V)
      → Above x xs
      → Above x ys
      → has (x ∷ xs) b ≡ has (x ∷ ys) b
      → has xs b ≡ has ys b
  unfolding has
  tail-eq x xs ys b hx hy h = ground (arith, o.unique x b, has-Above x xs hx, has-Above x ys hy)

  -- Two ascending lists that hold the same are the same.
  pub IsSorted-ext :
      (xs ys : List V) → IsSorted xs → IsSorted ys → ((b : V) → has xs b ≡ has ys b) → xs ≡ ys
  unfolding has
  IsSorted-ext [] [] hx hy h = refl
  IsSorted-ext [] (y ∷ ys) hx hy h = ground (arith, h y, o.same y)
  IsSorted-ext (x ∷ xs) [] hx hy h = ground (arith, h x, o.same x)
  IsSorted-ext (x ∷ xs) (y ∷ ys) hx hy h =
      let e : x ≡ y = o.unique x y (head-eq x y xs ys hx hy (h x) (h y)) in
      let above : Above x ys = rw e hy.0 in
      ap₂ ◌∷◌ e (
        IsSorted-ext xs ys hx.1 hy.1
          λ b. tail-eq x xs ys b hx.0 above (h b ∙ ap (λ u. is_eq (o.cmp u b) || has ys b) (sym e)))
