-- ===== src/Parse/Events/Resolve/Chase.antt =====
-- The inner loop of `resolve`: it does not panic, and what it takes out is what it pushes.
use astli.Prelude.{
  ℕ, zero, suc, ◌+◌, ◌≤◌, ◌≡◌, refl, ◌∙◌, Bool, Option, none, some, List, [], ◌∷◌, arith, length,
  get_elem?, set, drop, length-set, lt_of_get_elem?,
}
use astli.Parse.Event.{Event}
use astli.Parse.Events.Resolve.{chase}
use astli.Parse.Events.Resolve.Counts.{content, starts, tally, content-moved, starts-moved}
use astli.Parse.Events.Resolve.Links.{IsLinked, IsPending, IsLinked-cleared, IsPending-cleared}

module _ {ℓ} {K : Type ℓ} where
  -- What is left after the links of one start are followed, of the events from `from` on.
  pub record IsChased (from : ℕ) (es : List (Event K)) (r : List (Event K) × List K) : Type ℓ where
    pub long : length r.0 ≡ length es
    pub linked : IsLinked from r.0
    pub same : content (drop from r.0) ≡ content (drop from es)
    pub moved : (f : K → Bool) → tally f r.1 + starts f (drop from r.0) ≡ starts f (drop from es)

  abbrev pub ChaseTo : ℕ → ℕ → List (Event K) → ℕ → Option ℕ → Type ℓ
  ChaseTo fuel from es link fp =
      (r : List (Event K) × List K) × (chase fuel es link fp ≡ some r) × IsChased from es r

  chase_done :
      (fuel from : ℕ) (es : List (Event K)) (link : ℕ)
      → IsLinked from es
      → ChaseTo fuel from es link none
  unfolding chase tally
  chase_done fuel from es link h = (
    (es, []),
    ground arith,
    record { long = refl; linked = h; same = refl; moved = λ f. omega arith },
  )

  chase_step :
      (fuel from : ℕ) (es : List (Event K)) (link d : ℕ) (kind : K) (next : Option ℕ)
      → from ≤ link + d
      → get_elem? es (link + d) ≡ some (Event.start kind next)
      → ChaseTo fuel from (set es (link + d) Event.tombstone) (link + d) next
      → ChaseTo (suc fuel) from es link (some d)
  unfolding chase tally
  chase_step fuel from es link d kind next l found (r, run, c) = (
    (r.0, kind ∷ r.1),
    rw (found, chase) (rw run refl),
    record {
      long = c.long ∙ length-set es (link + d) Event.tombstone;
      linked = c.linked;
      same = c.same ∙ content-moved from es (link + d) kind next found;
      moved = λ f. omega (arith, c.moved f, starts-moved f from es (link + d) kind next l found);
    },
  )

  pub chase-IsChased :
      (fuel from : ℕ) (es : List (Event K)) (link : ℕ) (fp : Option ℕ)
      → length es ≤ link + fuel
      → from ≤ suc link
      → IsLinked from es
      → IsPending from es link fp
      → ChaseTo fuel from es link fp
  chase-IsChased fuel from es link none l m h p = chase_done fuel from es link h
  chase-IsChased zero from es link (some d) l m h (further, (kind, next, found), new) =
      absurd (omega (arith, lt_of_get_elem? es (link + d) _ found))
  chase-IsChased (suc fuel) from es link (some d) l m h (further, (kind, next, found), new) =
      let q = link + d in
      chase_step fuel from es link d kind next (omega arith) found (
        chase-IsChased fuel from (set es q Event.tombstone) q next
          (omega (arith, length-set es q Event.tombstone)) (omega arith)
          (IsLinked-cleared from es link d h (further, (kind, next, found), new))
          (IsPending-cleared from es q kind next h (omega arith) found))
