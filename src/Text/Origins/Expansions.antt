-- ===== src/Text/Origins/Expansions.antt =====
-- crates/astli-text/src/origins.rs, `trace` and `reported_at`: the expansions that placed a token,
-- outward, and the span that a diagnostic reports. The walk takes fuel, as much as there are views.
use astli.Prelude.{
  ℕ, zero, suc, ◌<◌, ◌≡◌, refl, Option, none, some, List, [], ◌∷◌, inl, inr, arith, ◌>>=◌, length,
  Option-cases, get_elem?_of_lt,
}
use astli.Text.Span.{Span, SourceId}
use astli.Text.Origins.{Expansion, ExpansionId, Origins, placed_by, expansion}
use astli.Text.Origins.Valid.{IsValid}

-- `successors(expansion(file), |inner| expansion(inner.call.src_id))`
unfoldable pub trace : ℕ → Origins → SourceId → Option (List Expansion)
trace zero o f = none
trace (suc fuel) o f = do
  id ← placed_by o f
  elim id [
    | none ↦ some []
    | some e ↦ (do x ← expansion o e; rest ← trace fuel o x.call.src_id; some (x ∷ rest))
  ]

-- `.last().map_or(span, |outermost| outermost.call)`
unfoldable pub outermost_call : Span → List Expansion → Span
outermost_call span [] = span
outermost_call span (x ∷ xs) = outermost_call x.call xs

unfoldable pub reported_at : Origins → Span → Option Span
unfolding trace outermost_call
reported_at o span = do t ← trace (suc (length o.views)) o span.src_id; some (outermost_call span t)

-- What a valid registry says of the expansion of a view.
placed_by-lt :
    (o : Origins) (f : SourceId)
    → IsValid o
    → f < length o.views
    → (id : Option ExpansionId) × (placed_by o f ≡ some id)
      × ((e : ExpansionId)
          → id ≡ some e
          → (x : Expansion) × (expansion o e ≡ some x) × (x.call.src_id < f))
unfolding placed_by expansion
placed_by-lt o f h within =
    let (v, at) = get_elem?_of_lt o.views f within in
    (
      v.from,
      rw (at, ◌>>=◌),
      λ e p. let (x, at_x, lt) = h.made f v e at p in (x.0, rw (at_x, ◌>>=◌), lt),
    )

-- The walk ends, and its last call is written outside any expansion.
trace-total :
    (fuel : ℕ) (o : Origins) (span : Span)
    → IsValid o
    → span.src_id < length o.views
    → span.src_id < fuel
    → (t : List Expansion) × (trace fuel o span.src_id ≡ some t)
      × (placed_by o (outermost_call span t).src_id ≡ some none)
unfolding trace outermost_call
trace-total zero o span h within lt = absurd (omega arith)
trace-total (suc fuel) o span h within lt =
    let (id, at, made) = placed_by-lt o span.src_id h within in
    elim (Option-cases id) [
      | inl e ↦ ([], rw (at, ◌>>=◌, e) refl, rw e at at)
      | inr found ↦
          let (e, is_e) = found in
          let (x, at_x, lower) = made e is_e in
          let (t, walks, outside) = trace-total fuel o x.call h (omega arith) (omega arith) in
          (x ∷ t, rw (at, ◌>>=◌, is_e) (rw (at_x, ◌>>=◌, walks, ◌>>=◌) refl), outside)
    ]

unplaced :
    (n : ℕ) (o : Origins) (span : Span) (t : List Expansion)
    → trace (suc n) o span.src_id ≡ some t
    → placed_by o span.src_id ≡ some none
    → outermost_call span t ≡ span
unfolding trace outermost_call
unplaced n o span [] h e = refl
unplaced n o span (x ∷ xs) h e = cc (rw (e, ◌>>=◌) at h)

-- A diagnostic is reported at a span of the registry that no expansion placed: the outermost call,
-- or the span itself where it was not placed by an expansion.
pub reported_at-written :
    (o : Origins) (span : Span)
    → IsValid o
    → span.src_id < length o.views
    → (s : Span) × (reported_at o span ≡ some s)
      × (placed_by o s.src_id ≡ some none)
      × (placed_by o span.src_id ≡ some none → s ≡ span)
unfolding reported_at
reported_at-written o span h within =
    let (t, walks, outside) = trace-total (suc (length o.views)) o span h within (omega arith) in
    (
      outermost_call span t,
      rw (walks, ◌>>=◌) refl,
      outside,
      λ e. unplaced (length o.views) o span t walks e,
    )
