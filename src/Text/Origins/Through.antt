-- ===== src/Text/Origins/Through.antt =====
-- `through`: the bytes of a span as an expansion placed them.
use astli.Prelude.{
  ℕ, zero, suc, ◌<◌, ◌≡◌, refl, ap, ◌∙◌, sym, Option, none, some, List, [], ◌∷◌, ◌++◌, inl, inr,
  arith, ◌==◌, ◌>>=◌, All, All-append, length, get_elem?, set, get_elem?-push,
  get_elem?-append_some, get_elem?-append_last, get_elem?-set, lt_of_get_elem?, Bool-cases,
  get_elem?_of_lt, get_elem?-set_self,
}
use astli.Text.Span.{Span, SourceId}
use astli.Text.Origins.{
  ExpansionId, Expansion, Buffer, View, Origins, find_placed, place, file_through, through, spelled,
  buffer, placed_by,
}
use astli.Text.Origins.Valid.{IsValid, ViewAt, PlacedBy, PlacedBy-append, length-push}

-- The place of a buffer in an expansion: the view that is there, or a new one.
pub record IsPlaced (o o' : Origins) (f : SourceId) (buffer : ℕ) (from : Option ExpansionId)
    : Type 0 where
  pub valid : IsValid o'
  pub kept : o'.buffers ≡ o.buffers
  pub grows :
      (g : SourceId) (v : View) → get_elem? o.views g ≡ some v → get_elem? o'.views g ≡ some v
  pub at : ViewAt o' f buffer from
  pub again : file_through o' buffer from ≡ some (o', f)

View_ext :
    (v : View) (b : ℕ) (from : Option ExpansionId)
    → v.buffer ≡ b
    → v.from ≡ from
    → v ≡ record { buffer = b; from = from }
View_ext v b from p q = ground arith

-- What `find_placed` finds shows the buffer; it fails only where no view of the list does, and then
-- finds the first that is put behind them.
data Found (views : List View) (buffer : ℕ) (e : ExpansionId) (ps : List SourceId) : Type 0 where
  there :
      (p : SourceId)
      → find_placed views buffer ps ≡ some (some p)
      → get_elem? views p ≡ some (record { buffer = buffer; from = some e })
      → Found views buffer e ps
  missing : find_placed views buffer ps ≡ some none → Found views buffer e ps

find_placed-Found :
    (views : List View) (buffer : ℕ) (e : ExpansionId) (ps : List SourceId)
    → All (PlacedBy views e) ps
    → Found views buffer e ps
unfolding find_placed
find_placed-Found views buffer e [] h = missing refl
find_placed-Found views buffer e (p ∷ ps) h =
    let (v, at, by) = h.0 in
    elim (Bool-cases (v.buffer == buffer)) [
      | inl same ↦
          there p (rw (at, ◌>>=◌, same))
            (at ∙ ap some (View_ext v buffer (some e) (ground arith) by))
      | inr other ↦ elim (find_placed-Found views buffer e ps h.1) [
        | there q found shows ↦ there q (rw (at, ◌>>=◌, other) found) shows
        | missing none_found ↦ missing (rw (at, ◌>>=◌, other) none_found)
      ]
    ]

find_placed-append :
    (views more : List View) (buffer : ℕ) (e : ExpansionId) (ps : List SourceId) (p : SourceId)
    → All (PlacedBy views e) ps
    → find_placed views buffer ps ≡ some none
    → get_elem? (views ++ more) p ≡ some (record { buffer = buffer; from = some e })
    → find_placed (views ++ more) buffer (ps ++ p ∷ []) ≡ some (some p)
unfolding find_placed
find_placed-append views more buffer e [] p h n at = rw (at, ◌>>=◌) (ground arith)
find_placed-append views more buffer e (q ∷ ps) p h n at =
    let (v, vat, by) = h.0 in
    let here = get_elem?-append_some views more q v vat in
    let n' = rw (vat, ◌>>=◌) at n in
    let rest = λ (m : find_placed views buffer ps ≡ some none).
      find_placed-append views more buffer e ps p h.1 m at in
    elim (Bool-cases (v.buffer == buffer)) [
      | inl same ↦ cc (rw same at n')
      | inr other ↦ rw (here, ◌>>=◌, other) (rest (rw other at n'))
    ]

-- A new view of a buffer, listed with its expansion.
abbrev placed_in : Origins → ℕ → ExpansionId → Expansion × List SourceId → Origins
placed_in o buffer id x = record o {
  views = o.views ++ record { buffer = buffer; from = some id } ∷ [];
  expansions = set o.expansions id (x.0, x.1 ++ length o.views ∷ []);
}

-- Changing what an expansion lists changes no expansion.
set_entry :
    (xs : List (Expansion × List SourceId)) (id : ℕ) (x : Expansion × List SourceId)
    (ps : List SourceId)
    → get_elem? xs id ≡ some x
    → (e : ℕ) (y : Expansion × List SourceId) → get_elem? xs e ≡ some y
    → (z : Expansion × List SourceId) × (get_elem? (set xs id (x.0, ps)) e ≡ some z) × (z.0 ≡ y.0)
set_entry [] id x ps h e y k = cc
set_entry (a ∷ xs) zero x ps h zero y k = ((x.0, ps), refl, cc)
set_entry (a ∷ xs) zero x ps h (suc e) y k = (y, k, refl)
set_entry (a ∷ xs) (suc id) x ps h zero y k = (y, k, refl)
set_entry (a ∷ xs) (suc id) x ps h (suc e) y k = set_entry xs id x ps h e y k

placed_in-IsValid :
    (o : Origins) (buffer : ℕ) (b : Buffer) (id : ExpansionId) (x : Expansion × List SourceId)
    → IsValid o
    → get_elem? o.buffers buffer ≡ some b
    → get_elem? o.expansions id ≡ some x
    → IsValid (placed_in o buffer id x)
placed_in-IsValid o buffer b id x h at_b at_x = record {
  shown = λ f v e. elim (get_elem?-push o.views _ f v e) [
    | inl old ↦ h.shown f v old
    | inr fresh ↦ (
      b,
      rw fresh.1 at_b,
      omega (arith, lt_of_get_elem? o.views b.written _ (h.own buffer b at_b)),
    )
  ];
  own = λ i c e. get_elem?-append_some o.views _ _ _ (h.own i c e);
  before = h.before;
  made = λ f v e p q. elim (get_elem?-push o.views _ f v p) [
    | inl old ↦
        let (y, at_y, lt) = h.made f v e old q in
        let (z, at_z, same) = set_entry o.expansions id x _ at_x e y at_y in (z, at_z, rw same lt)
    | inr fresh ↦
        let here : id ≡ e = ground arith in
        let (z, at_z, same) = set_entry o.expansions id x _ at_x e x (rw here at at_x) in
        (z, at_z, rw (same, fresh.0) (h.called id x at_x))
  ];
  called = λ e y p. elim (get_elem?-set o.expansions id _ e y p) [
    | inl old ↦
        omega (
          arith,
          h.called e y old,
          length-push o.views (record { buffer = buffer; from = some id }),
        )
    | inr fresh ↦ rw fresh.1 (
        omega (
          arith,
          h.called id x at_x,
          length-push o.views (record { buffer = buffer; from = some id }),
        ))
  ];
  placed = λ e y p. elim (get_elem?-set o.expansions id _ e y p) [
    | inl old ↦ PlacedBy-append o.views _ e y.1 (h.placed e y old)
    | inr fresh ↦
        rw (fresh.1, fresh.0)
          (All-append _ x.1 _ (PlacedBy-append o.views _ id x.1 (h.placed id x at_x)) (
            (_, get_elem?-append_last o.views (record { buffer = buffer; from = some id }), refl),
            tt,
          ))
  ];
}

place-IsPlaced :
    (o : Origins) (buffer : ℕ) (b : Buffer) (id : ExpansionId) (x : Expansion × List SourceId)
    → IsValid o
    → get_elem? o.buffers buffer ≡ some b
    → get_elem? o.expansions id ≡ some x
    → Found o.views buffer id x.1
    → (r : Origins × SourceId) × (place o buffer id ≡ some r) × IsPlaced o r.0 r.1 buffer (some id)
unfolding place
place-IsPlaced o buffer b id x h at_b at_x (there p found shows) =
    let here : place o buffer id ≡ some (o, p) = rw (at_x, ◌>>=◌, found, ◌>>=◌) refl in
    (
      (o, p),
      here,
      record {
        valid = h;
        kept = refl;
        grows = λ g v e. e;
        at = shows;
        again = unfold file_through in here;
      },
    )
place-IsPlaced o buffer b id x h at_b at_x (missing none_found) = (
  (placed_in o buffer id x, length o.views),
  rw (at_x, ◌>>=◌, none_found, ◌>>=◌) refl,
  record {
    valid = placed_in-IsValid o buffer b id x h at_b at_x;
    kept = refl;
    grows = λ g v e. get_elem?-append_some o.views _ g v e;
    at = get_elem?-append_last o.views _;
    again =
        let here =
          get_elem?-set_self o.expansions id (x.0, x.1 ++ length o.views ∷ [])
            (lt_of_get_elem? o.expansions id x at_x) in
        let there =
          find_placed-append o.views _ buffer id x.1 (length o.views) (h.placed id x at_x)
            none_found
            (get_elem?-append_last o.views (record { buffer = buffer; from = some id })) in
        unfold file_through in rw (here, ◌>>=◌, there, ◌>>=◌) refl;
  },
)

-- Placing a buffer in an expansion returns a view of that buffer by that expansion, changes no
-- other view, keeps the registry valid, and done again changes nothing.
pub file_through-IsPlaced :
    (o : Origins) (buffer : ℕ) (b : Buffer) (from : Option ExpansionId)
    → IsValid o
    → get_elem? o.buffers buffer ≡ some b
    → ((e : ExpansionId) → from ≡ some e → e < length o.expansions)
    → (r : Origins × SourceId) × (file_through o buffer from ≡ some r)
      × IsPlaced o r.0 r.1 buffer from
unfolding file_through
file_through-IsPlaced o buffer b none h at within = (
  (o, b.written),
  rw at,
  record { valid = h; kept = refl; grows = λ g v e. e; at = h.own buffer b at; again = rw at },
)
file_through-IsPlaced o buffer b (some id) h at within =
    let (x, at_x) = get_elem?_of_lt o.expansions id (within id refl) in
    place-IsPlaced o buffer b id x h at at_x
      (find_placed-Found o.views buffer id x.1 (h.placed id x at_x))

-- What `through` promises of the registry and the span that it returns.
pub record IsThrough (o : Origins) (span : Span) (from : Option ExpansionId) (o' : Origins)
    (s : Span) : Type 0 where
  pub valid : IsValid o'
  -- the span keeps its offsets, shows the same buffer, and is the expansion's
  pub same_range : (s.start ≡ span.start) × (s.end ≡ span.end)
  pub same_buffer : buffer o' s.src_id ≡ buffer o span.src_id
  pub placed : placed_by o' s.src_id ≡ some from
  -- it is spelled where the given span is
  pub same_spelling : spelled o' s ≡ spelled o span
  -- no file that was there reads otherwise
  pub others : (g : SourceId) → g < length o.views → buffer o' g ≡ buffer o g
  -- done again, with either span, it returns the same and adds nothing
  pub again : through o' s from ≡ some (o', s)
  pub again' : through o' span from ≡ some (o', s)

buffer_at :
    (o : Origins) (f : SourceId) (v : View)
    → get_elem? o.views f ≡ some v
    → buffer o f ≡ get_elem? o.buffers v.buffer
unfolding buffer
buffer_at o f v h = rw (h, ◌>>=◌)

through_at :
    (o o' : Origins) (span : Span) (from : Option ExpansionId) (v : View) (f : SourceId)
    → get_elem? o.views span.src_id ≡ some v
    → file_through o v.buffer from ≡ some (o', f)
    → through o span from ≡ some (o', record span { src_id = f })
unfolding through
through_at o o' span from v f h k = rw (h, ◌>>=◌, k, ◌>>=◌)

-- On a valid registry `through` does not panic, for any span and expansion of the registry, and
-- does what `IsThrough` says.
pub through-IsThrough :
    (o : Origins) (span : Span) (from : Option ExpansionId)
    → IsValid o
    → span.src_id < length o.views
    → ((e : ExpansionId) → from ≡ some e → e < length o.expansions)
    → (r : Origins × Span) × (through o span from ≡ some r) × IsThrough o span from r.0 r.1
through-IsThrough o span from h within known =
    let (v, at_v) = get_elem?_of_lt o.views span.src_id within in
    let (b, at_b, _) = h.shown span.src_id v at_v in
    let ((o', f), placed_to, p) = file_through-IsPlaced o v.buffer b from h at_b known in
    let s : Span = record span { src_id = f } in
    let same : buffer o' f ≡ buffer o span.src_id =
      buffer_at o' f _ p.at ∙ rw p.kept (sym (buffer_at o span.src_id v at_v)) in
    (
      (o', s),
      through_at o o' span from v f at_v placed_to,
      record {
        valid = p.valid;
        same_range = (refl, refl);
        same_buffer = same;
        placed = unfold placed_by in rw (p.at, ◌>>=◌);
        same_spelling = unfold spelled in rw same refl;
        others = λ g lt.
            let (w, at_w) = get_elem?_of_lt o.views g lt in
            buffer_at o' g w (p.grows g w at_w) ∙ rw p.kept (sym (buffer_at o g w at_w));
        again = through_at o' o' s from _ f p.at p.again;
        again' = through_at o' o' span from v f (p.grows span.src_id v at_v) p.again;
      },
    )
