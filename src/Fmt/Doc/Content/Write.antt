-- ===== src/Fmt/Doc/Content/Write.antt =====
-- What the printer writes besides texts is blank.
use astli.Prelude.{
  ℕ, ◌≡◌, ◌∙◌, refl, sym, ap, [], ◌∷◌, ◌++◌, Option, replicate, append_nil, append_assoc,
  Bool-cases, inl, inr,
}
use astli.Fmt.Doc.{Chars, Anchor, Gap, Printer}
use astli.Fmt.Doc.Gap.{no_gap, one_space, lines}
use astli.Fmt.Doc.Write.{is_empty, writes_space, write_gap, break_lines, flush, text}
use astli.Fmt.Doc.Content.{solid, solid-append, solid-blank, solid-replicate, solid-repeated}
use astli.Fmt.Doc.Write.{repeated}

-- What a step writes, blanks aside, and that it keeps the layout.
pub record Writes (p q : Printer) (cs : Chars) : Type 0 where
  pub out : solid q.out ≡ solid p.out ++ cs
  pub layout : q.layout ≡ p.layout

pub Writes-none : (p q : Printer) → solid q.out ≡ solid p.out → q.layout ≡ p.layout → Writes p q []
Writes-none p q h k = record { out = h ∙ sym (append_nil (solid p.out)); layout = k }

pub Writes-both :
    (p q r : Printer) (cs ds : Chars) → Writes p q cs → Writes q r ds → Writes p r (cs ++ ds)
Writes-both p q r cs ds h k = record {
  out = k.out ∙ ap (λ t. t ++ ds) h.out ∙ append_assoc (solid p.out) cs ds;
  layout = k.layout ∙ h.layout;
}

break_lines-out :
    (p : Printer) (count : ℕ) (anchor : Option Anchor)
    → solid p.layout.newline ≡ []
    → solid (break_lines p count anchor).out ≡ solid p.out
break_lines-out p count anchor h = elim (Bool-cases (is_empty p.out)) [
  | inl e ↦ rw e refl
  | inr e ↦ rw e (
      solid-blank p.out (repeated count p.layout.newline) (solid-repeated count p.layout.newline h))
]

break_lines-layout :
    (p : Printer) (count : ℕ) (anchor : Option Anchor)
    → (break_lines p count anchor).layout ≡ p.layout
break_lines-layout p count anchor = elim (Bool-cases (is_empty p.out)) [
  | inl e ↦ rw e refl
  | inr e ↦ rw e refl
]

write_gap-Writes :
    (g : Gap) (p : Printer) → solid p.layout.newline ≡ [] → Writes p (write_gap g p) []
unfolding write_gap
write_gap-Writes no_gap p h = Writes-none p _ refl refl
write_gap-Writes one_space p h = elim (Bool-cases (writes_space p)) [
  | inl e ↦ rw e (Writes-none p _ (solid-blank p.out (32 ∷ []) refl) refl)
  | inr e ↦ rw e (Writes-none p _ refl refl)
]
write_gap-Writes (lines count indent anchor) p h =
    let q = break_lines (record p { gap = no_gap }) count anchor in
    Writes-none p _
      (solid-blank q.out (replicate indent 32) (solid-replicate indent)
        ∙ break_lines-out (record p { gap = no_gap }) count anchor h)
      (break_lines-layout (record p { gap = no_gap }) count anchor)

pub flush-Writes : (p : Printer) → solid p.layout.newline ≡ [] → Writes p (flush p) []
unfolding flush
flush-Writes p h = write_gap-Writes p.gap p h

pub text-Writes :
    (p : Printer) (t : Chars) → solid p.layout.newline ≡ [] → Writes p (text p t) (solid t)
unfolding text
text-Writes p [] h = Writes-none p p refl refl
text-Writes p (c ∷ cs) h =
    let before = flush-Writes p h in
    record {
      out =
          solid-append (flush p).out (c ∷ cs)
          ∙ ap (λ t. t ++ solid (c ∷ cs)) (before.out ∙ append_nil (solid p.out));
      layout = before.layout;
    }

-- The newline of a layout that is kept stays blank.
pub blank_newline :
    (p q : Printer) (cs : Chars)
    → Writes p q cs
    → solid p.layout.newline ≡ []
    → solid q.layout.newline ≡ []
blank_newline p q cs w h = ap (λ l. solid l.newline) w.layout ∙ h
