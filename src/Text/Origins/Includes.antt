-- ===== src/Text/Origins/Includes.antt =====
-- Walking up the includes.
use astli.Prelude.{
  ℕ, zero, suc, ◌≤◌, ◌<◌, ◌≡◌, refl, Option, some, List, [], ◌∷◌, inl, inr, arith, ◌>>=◌, All,
  length, get_elem?-append_some, Option-cases, get_elem?_of_lt,
}
use astli.Text.Span.{Span, SourceId}
use astli.Text.Origins.{
  Origins, Source, source_from, add, buffer, included_from, include_trace, sites,
}
use astli.Text.Origins.Valid.{IsValid}

-- Where a file was included from, on a valid registry: an earlier file.
pub included_from-lt :
    (o : Origins) (f : SourceId)
    → IsValid o
    → f < length o.views
    → (from : Option Span) × (included_from o f ≡ some from)
      × ((s : Span) → from ≡ some s → s.src_id < f)
unfolding included_from buffer
included_from-lt o f h within =
    let (v, at_v) = get_elem?_of_lt o.views f within in
    let (b, at_b, le) = h.shown f v at_v in
    (
      source_from b.source,
      rw (at_v, ◌>>=◌, at_b, ◌>>=◌),
      λ s e. omega (arith, h.before v.buffer b s at_b e),
    )

-- The walk ends: fuel past the file's id is enough, no trace is longer than the id, and every file
-- on it is one of the registry.
pub include_trace-total :
    (fuel : ℕ) (o : Origins) (f : SourceId)
    → IsValid o
    → f < length o.views
    → f < fuel
    → (t : List Span) × (include_trace fuel o f ≡ some t)
      × (length t ≤ f)
      × All (λ g. g < length o.views) (sites t)
unfolding include_trace
include_trace-total zero o f h within lt = absurd (omega arith)
include_trace-total (suc fuel) o f h within lt =
    let (from, at, below) = included_from-lt o f h within in
    elim (Option-cases from) [
      | inl e ↦ ([], rw (at, ◌>>=◌, e) refl, omega arith, tt)
      | inr site ↦
          let (s, e) = site in
          let lower = below s e in
          let (t, walks, short, inside) =
            include_trace-total fuel o s.src_id h (omega arith) (omega arith) in
          (s ∷ t, rw (at, ◌>>=◌, e) (rw (walks, ◌>>=◌)), omega arith, (omega arith, inside))
    ]

-- A buffer registered later changes no buffer that a view shows.
pub buffer-add :
    (o : Origins) (source : Source) (text : List ℕ) (f : SourceId)
    → IsValid o
    → f < length o.views
    → buffer (add o source text).0 f ≡ buffer o f
unfolding buffer add
buffer-add o source text f h within =
    let (v, at_v) = get_elem?_of_lt o.views f within in
    let (b, at_b, _) = h.shown f v at_v in
    rw (get_elem?-append_some o.views _ f v at_v, at_v, ◌>>=◌)
      (rw (get_elem?-append_some o.buffers _ v.buffer b at_b, at_b))

pub include_trace-add :
    (fuel : ℕ) (o : Origins) (source : Source) (text : List ℕ) (f : SourceId)
    → IsValid o
    → f < length o.views
    → include_trace fuel (add o source text).0 f ≡ include_trace fuel o f
unfolding include_trace
include_trace-add zero o source text f h within = refl
include_trace-add (suc fuel) o source text f h within =
    let (from, at, below) = included_from-lt o f h within in
    let same : included_from (add o source text).0 f ≡ included_from o f =
      unfold included_from in rw (buffer-add o source text f h within) in
    elim (Option-cases from) [
      | inl e ↦ rw (same, at, ◌>>=◌, e) refl
      | inr site ↦
          let (s, e) = site in
          let lower = below s e in
          rw (same, at, ◌>>=◌, e)
            (rw (include_trace-add fuel o source text s.src_id h (omega arith)))
    ]
