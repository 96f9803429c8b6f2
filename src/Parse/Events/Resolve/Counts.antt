-- ===== src/Parse/Events/Resolve/Counts.antt =====
-- What `resolve` keeps of the events: the tokens and the ends of nodes in their order, and the
-- starts by their kinds.
use astli.Prelude.{
  ℕ, zero, suc, ◌+◌, ◌≤◌, ◌≡◌, refl, ap, Bool, true, false, Option, none, some, List, [], ◌∷◌,
  arith, All, if◌then◌else◌, get_elem?, set, drop,
}
use astli.Parse.Event.{Event}
use astli.Parse.Events.Resolve.{push_starts}

abbrev pub one_if : Bool → ℕ
one_if b = if b then 1 else 0

module _ {ℓ} {K : Type ℓ} where
  -- The tokens and the ends.
  unfoldable pub content : List (Event K) → List (Event K)
  content [] = []
  content (Event.start kind forward_parent ∷ es) = content es
  content (Event.tombstone ∷ es) = content es
  content (Event.token kind ∷ es) = Event.token kind ∷ content es
  content (Event.finish ∷ es) = Event.finish ∷ content es

  -- How many starts are of the kinds that a test accepts.
  unfoldable pub starts : (K → Bool) → List (Event K) → ℕ
  starts f [] = 0
  starts f (Event.start kind forward_parent ∷ es) = one_if (f kind) + starts f es
  starts f (Event.tombstone ∷ es) = starts f es
  starts f (Event.token kind ∷ es) = starts f es
  starts f (Event.finish ∷ es) = starts f es

  unfoldable pub tally : (K → Bool) → List K → ℕ
  tally f [] = 0
  tally f (kind ∷ kinds) = one_if (f kind) + tally f kinds

  -- An event that a tree is built from: no tombstone, and no link.
  abbrev pub IsPlain : Event K → Type 0
  IsPlain (Event.start kind none) = Unit
  IsPlain (Event.start kind (some distance)) = false ≡ true
  IsPlain Event.tombstone = false ≡ true
  IsPlain (Event.token kind) = Unit
  IsPlain Event.finish = Unit

  pub content-push :
      (kinds : List K) (out : List (Event K)) → content (push_starts kinds out) ≡ content out
  unfolding content push_starts
  content-push [] out = refl
  content-push (kind ∷ kinds) out = content-push kinds (Event.start kind none ∷ out)

  pub starts-push :
      (f : K → Bool) (kinds : List K) (out : List (Event K))
      → starts f (push_starts kinds out) ≡ tally f kinds + starts f out
  unfolding starts push_starts tally
  starts-push f [] out = omega arith
  starts-push f (kind ∷ kinds) out =
      omega (arith, starts-push f kinds (Event.start kind none ∷ out))

  pub IsPlain-push :
      (kinds : List K) (out : List (Event K))
      → All IsPlain out
      → All IsPlain (push_starts kinds out)
  unfolding push_starts
  IsPlain-push [] out h = h
  IsPlain-push (kind ∷ kinds) out h = IsPlain-push kinds (Event.start kind none ∷ out) (tt, h)

  content_under :
      (e : Event K) (xs ys : List (Event K))
      → content xs ≡ content ys
      → content (e ∷ xs) ≡ content (e ∷ ys)
  unfolding content
  content_under (Event.start kind fp) xs ys h = h
  content_under Event.tombstone xs ys h = h
  content_under (Event.token kind) xs ys h = ap (λ t. Event.token kind ∷ t) h
  content_under Event.finish xs ys h = ap (λ t. Event.finish ∷ t) h

  starts_under :
      (f : K → Bool) (n : ℕ) (e : Event K) (xs ys : List (Event K))
      → n + starts f xs ≡ starts f ys
      → n + starts f (e ∷ xs) ≡ starts f (e ∷ ys)
  unfolding starts
  starts_under f n (Event.start kind fp) xs ys h = omega (arith, h)
  starts_under f n Event.tombstone xs ys h = h
  starts_under f n (Event.token kind) xs ys h = h
  starts_under f n Event.finish xs ys h = h

  content_start :
      (e : Event K) (es : List (Event K)) (kind : K) (fp : Option ℕ)
      → some e ≡ some (Event.start kind fp)
      → content es ≡ content (e ∷ es)
  unfolding content
  content_start e es kind fp h = ground (arith, h)

  starts_start :
      (f : K → Bool) (e : Event K) (es : List (Event K)) (kind : K) (fp : Option ℕ)
      → some e ≡ some (Event.start kind fp)
      → one_if (f kind) + starts f es ≡ starts f (e ∷ es)
  unfolding starts
  starts_start f e es kind fp h = ground (arith, h)

  pub content-moved :
      (a : ℕ) (es : List (Event K)) (q : ℕ) (kind : K) (forward_parent : Option ℕ)
      → get_elem? es q ≡ some (Event.start kind forward_parent)
      → content (drop a (set es q Event.tombstone)) ≡ content (drop a es)
  unfolding content
  content-moved a [] q kind fp h = refl
  content-moved zero (e ∷ es) zero kind fp h = content_start e es kind fp h
  content-moved (suc a) (e ∷ es) zero kind fp h = refl
  content-moved zero (e ∷ es) (suc q) kind fp h =
      content_under e _ _ (content-moved zero es q kind fp h)
  content-moved (suc a) (e ∷ es) (suc q) kind fp h = content-moved a es q kind fp h

  pub starts-moved :
      (f : K → Bool) (a : ℕ) (es : List (Event K)) (q : ℕ) (kind : K) (forward_parent : Option ℕ)
      → a ≤ q
      → get_elem? es q ≡ some (Event.start kind forward_parent)
      → one_if (f kind) + starts f (drop a (set es q Event.tombstone)) ≡ starts f (drop a es)
  unfolding starts
  starts-moved f a [] q kind fp l h = cc
  starts-moved f zero (e ∷ es) zero kind fp l h = starts_start f e es kind fp h
  starts-moved f (suc a) (e ∷ es) zero kind fp l h = absurd (omega arith)
  starts-moved f zero (e ∷ es) (suc q) kind fp l h =
      starts_under f (one_if (f kind)) e _ _ (starts-moved f zero es q kind fp (omega arith) h)
  starts-moved f (suc a) (e ∷ es) (suc q) kind fp l h =
      starts-moved f a es q kind fp (omega arith) h
