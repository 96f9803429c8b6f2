-- ===== src/Parse/Events/Resolve/Links.antt =====
-- The links that `precede` writes: each leads ahead to a start, and no two to the same. Following
-- them, which clears the starts they lead to, keeps that of the links that are left.
use astli.Prelude.{
  ℕ, suc, ◌+◌, ◌≤◌, ◌<◌, ◌≡◌, ◌≢◌, sym, ap, ◌∙◌, Option, none, some, List, arith, inl, inr,
  get_elem?, set, get_elem?-set, get_elem?-set_ne, get_elem?-set_self, length, length-set,
  lt_of_get_elem?,
}
use astli.Parse.Event.{Event}

module _ {ℓ} {K : Type ℓ} where
  abbrev pub LinkAt : List (Event K) → ℕ → ℕ → Type ℓ
  LinkAt es p distance = (kind : K) × (get_elem? es p ≡ some (Event.start kind (some distance)))

  abbrev pub StartAt : List (Event K) → ℕ → Type ℓ
  StartAt es q =
      (kind : K) × (forward_parent : Option ℕ) × (get_elem? es q
        ≡ some (Event.start kind forward_parent))

  -- The links from index `from` on.
  pub record IsLinked (from : ℕ) (es : List (Event K)) : Type ℓ where
    pub ahead : (p d : ℕ) → from ≤ p → LinkAt es p d → (0 < d) × StartAt es (p + d)
    pub unshared :
        (p q d c : ℕ) → from ≤ p → from ≤ q → LinkAt es p d → LinkAt es q c → p + d ≡ q + c → p ≡ q

  -- The link that is being followed, from `link`, of a start that is taken already.
  abbrev pub IsPending : ℕ → List (Event K) → ℕ → Option ℕ → Type ℓ
  IsPending from es link none = Unit
  IsPending from es link (some d) =
      (0 < d) × StartAt es (link + d) × ((p c : ℕ) → from ≤ p → LinkAt es p c → p + c ≢ link + d)

  cleared_link :
      (es : List (Event K)) (q : ℕ) (kind : K) (d : ℕ)
      → get_elem? (set es q Event.tombstone) q ≢ some (Event.start kind (some d))
  cleared_link es q kind d h =
      let inside : q < length es =
        omega (arith, lt_of_get_elem? _ q _ h, length-set es q Event.tombstone) in
      let e = get_elem?-set_self es q Event.tombstone inside in cc (e, h)

  -- A start that is still there is not the one cleared.
  kept_link :
      (es : List (Event K)) (q p d : ℕ)
      → LinkAt (set es q Event.tombstone) p d
      → LinkAt es p d × (p ≢ q)
  kept_link es q p d (kind, h) =
      elim (get_elem?-set es q Event.tombstone p (Event.start kind (some d)) h) [
        | inl e ↦ (
          (kind, e),
          λ same.
              cleared_link es q kind d (ap (get_elem? (set es q Event.tombstone)) (sym same) ∙ h),
        )
        | inr (same, e) ↦ absurd (cc e)
      ]

  kept_start :
      (es : List (Event K)) (q t : ℕ) → t ≢ q → StartAt es t → StartAt (set es q Event.tombstone) t
  kept_start es q t ne (kind, fp, h) =
      (kind, fp, get_elem?-set_ne es q t Event.tombstone (λ e. ne (sym e)) ∙ h)

  pub IsLinked-cleared :
      (from : ℕ) (es : List (Event K)) (link d : ℕ)
      → IsLinked from es
      → IsPending from es link (some d)
      → IsLinked from (set es (link + d) Event.tombstone)
  IsLinked-cleared from es link d h p = record {
    ahead = λ i c l k.
        let (old, ne) = kept_link es (link + d) i c k in
        (
          (h.ahead i c l old).0,
          kept_start es (link + d) (i + c) (p.2 i c l old) (h.ahead i c l old).1,
        );
    unshared = λ i j c b l m k n e.
        h.unshared i j c b l m (kept_link es (link + d) i c k).0 (kept_link es (link + d) j b n).0
          e;
  }

  pub IsPending-cleared :
      (from : ℕ) (es : List (Event K)) (q : ℕ) (kind : K) (next : Option ℕ)
      → IsLinked from es
      → from ≤ q
      → get_elem? es q ≡ some (Event.start kind next)
      → IsPending from (set es q Event.tombstone) q next
  IsPending-cleared from es q kind none h l found = tt
  IsPending-cleared from es q kind (some d) h l found =
      let (further, target) = h.ahead q d l (kind, found) in
      (
        further,
        kept_start es q (q + d) (λ e. omega (arith, e)) target,
        λ p c m k e.
            let (old, ne) = kept_link es q p c k in ne (h.unshared p q c d m l old (kind, found) e),
      )

  pub IsPending-first :
      (at : ℕ) (es : List (Event K)) (kind : K) (forward_parent : Option ℕ)
      → IsLinked at es
      → get_elem? es at ≡ some (Event.start kind forward_parent)
      → IsPending (suc at) es at forward_parent
  IsPending-first at es kind none h found = tt
  IsPending-first at es kind (some d) h found =
      let (further, target) = h.ahead at d (omega arith) (kind, found) in
      (
        further,
        target,
        λ p c m k e.
            omega
              (arith, m, h.unshared p at c d (omega (arith, m)) (omega arith) k (kind, found) e),
      )

  pub IsLinked-weaken : (at : ℕ) (es : List (Event K)) → IsLinked at es → IsLinked (suc at) es
  IsLinked-weaken at es h = record {
    ahead = λ p d l k. h.ahead p d (omega (arith, l)) k;
    unshared = λ p q d c l m k n e. h.unshared p q d c (omega (arith, l)) (omega (arith, m)) k n e;
  }
