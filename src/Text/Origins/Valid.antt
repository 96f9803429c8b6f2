-- ===== src/Text/Origins/Valid.antt =====
-- The invariant of the registry, and that every operation that adds to it keeps it.
use astli.Prelude.{
  ℕ, suc, ◌≤◌, ◌<◌, ◌≡◌, refl, ap, Option, none, some, List, [], ◌∷◌, ◌++◌, inl, inr, arith, All,
  All-imp, length, get_elem?, get_elem?-push, get_elem?-append_some, get_elem?-append_last,
}
use astli.Text.Span.{Span, SourceId}
use astli.Text.Origins.{
  ExpansionId, Expansion, Source, source_from, Buffer, View, Origins, new, add, expand, line_starts,
}

abbrev pub ViewAt : Origins → SourceId → ℕ → Option ExpansionId → Type 0
ViewAt o f b from = get_elem? o.views f ≡ some (record { buffer = b; from = from })

-- The view at `p` was placed by expansion `e`.
abbrev pub PlacedBy : List View → ExpansionId → SourceId → Type 0
PlacedBy views e p = (v : View) × (get_elem? views p ≡ some v) × (v.from ≡ some e)

pub record IsValid (o : Origins) : Type 0 where
  -- a view shows a buffer that was written before it, or by it
  pub shown :
      (f : SourceId) (v : View)
      → get_elem? o.views f ≡ some v
      → (b : Buffer) × (get_elem? o.buffers v.buffer ≡ some b) × (b.written ≤ f)
  -- a buffer's own view shows it outside any expansion
  pub own : (i : ℕ) (b : Buffer) → get_elem? o.buffers i ≡ some b → ViewAt o b.written i none
  -- a file is included from a file that was there before it
  pub before :
      (i : ℕ) (b : Buffer) (s : Span)
      → get_elem? o.buffers i ≡ some b
      → source_from b.source ≡ some s
      → s.src_id < b.written
  -- a view that an expansion placed comes after the file that it was called in
  pub made :
      (f : SourceId) (v : View) (e : ExpansionId)
      → get_elem? o.views f ≡ some v
      → v.from ≡ some e
      → (x : Expansion × List SourceId) × (get_elem? o.expansions e ≡ some x)
        × (x.0.call.src_id < f)
  pub called :
      (e : ExpansionId) (x : Expansion × List SourceId)
      → get_elem? o.expansions e ≡ some x
      → x.0.call.src_id < length o.views
  -- what an expansion lists, it placed
  pub placed :
      (e : ExpansionId) (x : Expansion × List SourceId)
      → get_elem? o.expansions e ≡ some x
      → All (PlacedBy o.views e) x.1

pub new-IsValid : IsValid new
new-IsValid = record {
  shown = λ f v h. cc;
  own = λ i b h. cc;
  before = λ i b s h. cc;
  made = λ f v e h. cc;
  called = λ e x h. cc;
  placed = λ e x h. cc;
}

pub PlacedBy-append :
    (views more : List View) (e : ExpansionId) (ps : List SourceId)
    → All (PlacedBy views e) ps
    → All (PlacedBy (views ++ more) e) ps
PlacedBy-append views more e ps =
    All-imp ps (λ p h. (h.0, get_elem?-append_some views more p h.0 h.1, h.2))

pub length-push {ℓ} : {A : Type ℓ} (xs : List A) (x : A) → length (xs ++ x ∷ []) ≡ suc (length xs)
length-push [] x = refl
length-push (y ∷ xs) x = ap suc (length-push xs x)

abbrev registered : Origins → Source → List ℕ → Buffer
registered o source text = record {
  source = source;
  text = text;
  lines = 0 ∷ line_starts 0 text;
  written = length o.views;
}

-- Registering a buffer that is included, if at all, from a file that is there.
pub add-IsValid :
    (o : Origins) (source : Source) (text : List ℕ)
    → ((s : Span) → source_from source ≡ some s → s.src_id < length o.views)
    → IsValid o
    → IsValid (add o source text).0
unfolding add
add-IsValid o source text from h = record {
  shown = λ f v e. elim (get_elem?-push o.views _ f v e) [
    | inl old ↦
        let (b, at, le) = h.shown f v old in (b, get_elem?-append_some o.buffers _ _ b at, le)
    | inr fresh ↦
        (registered o source text, rw fresh.1 (get_elem?-append_last o.buffers _), omega arith)
  ];
  own = λ i b e. elim (get_elem?-push o.buffers _ i b e) [
    | inl old ↦ get_elem?-append_some o.views _ _ _ (h.own i b old)
    | inr fresh ↦ rw (fresh.1, fresh.0) (get_elem?-append_last o.views _)
  ];
  before = λ i b s e p. elim (get_elem?-push o.buffers _ i b e) [
    | inl old ↦ h.before i b s old p
    | inr fresh ↦ rw fresh.1 (from s (rw fresh.1 at p))
  ];
  made = λ f v e p q. elim (get_elem?-push o.views _ f v p) [
    | inl old ↦ h.made f v e old q
    | inr fresh ↦ cc (fresh.1, q)
  ];
  called = λ e x p. omega (
    arith,
    length-push o.views (record { buffer = length o.buffers; from = none }),
    h.called e x p,
  );
  placed = λ e x p. PlacedBy-append o.views _ e x.1 (h.placed e x p);
}

-- Recording an expansion that is called in a file that is there.
pub expand-IsValid :
    (o : Origins) (expansion : Expansion)
    → expansion.call.src_id < length o.views
    → IsValid o
    → IsValid (expand o expansion).0
unfolding expand
expand-IsValid o expansion within h = record {
  shown = h.shown;
  own = h.own;
  before = h.before;
  made = λ f v e p q.
      let (x, at, lt) = h.made f v e p q in (x, get_elem?-append_some o.expansions _ e x at, lt);
  called = λ e x p. elim (get_elem?-push o.expansions _ e x p) [
    | inl old ↦ h.called e x old
    | inr fresh ↦ rw fresh.1 within
  ];
  placed = λ e x p. elim (get_elem?-push o.expansions _ e x p) [
    | inl old ↦ h.placed e x old
    | inr fresh ↦ rw (fresh.1, All) tt
  ];
}
