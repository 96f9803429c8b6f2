-- ===== src/Fmt/Doc/Measure.antt =====
-- crates/astli-fmt/src/doc.rs, `measure`: whether documents fit on what is left of a line. The stack of
-- documents to do is the recursion over them, and what is left is the width less what is used.
use astli.Prelude.{
  ℕ, ◌+◌, Bool, true, false, ◌||◌, ◌&&◌, List, [], ◌∷◌, leb, ltb, if◌then◌else◌, length,
}
use astli.Fmt.Doc.{Chars, VerbatimLine, Doc, Docs, Mode, Gap, Command, Printer}
use astli.Fmt.Doc.Doc.{
  text, space, line, soft_line, hard_line, blank_line, group, indent, margin, align, prefer, fill,
  table, cell, trailing, concat, verbatim,
}
use astli.Fmt.Doc.Docs.{no_docs, docs}
use astli.Fmt.Doc.Mode.{flat, broken}
use astli.Fmt.Doc.Gap.{no_gap, one_space, lines}
use astli.Fmt.Doc.Work.{one, filling}

-- What is used of the line and the gap that is pending, or the answer.
pub data Measured : Type 0 where
  so_far : ℕ → Gap → Measured
  answer : Bool → Measured

abbrev pub spaced : Gap → ℕ
spaced one_space = 1
spaced no_gap = 0
spaced (lines count in_by anchor) = 0

abbrev pub with_space : Gap → Gap
with_space no_gap = one_space
with_space one_space = one_space
with_space (lines count in_by anchor) = lines count in_by anchor

abbrev pub is_broken : Mode → Bool
is_broken broken = true
is_broken flat = false

abbrev pub no_lines : List VerbatimLine → Bool
no_lines [] = true
no_lines (l ∷ ls) = false

abbrev pub measure_text : ℕ → Chars → ℕ → Gap → Measured
measure_text width [] used gap = if ltb width used then answer false else so_far used gap
measure_text width (c ∷ cs) used gap =
    let more : ℕ = used + length (c ∷ cs) + spaced gap in
    if ltb width more then answer false else so_far more no_gap

unfoldable mutual
  pub measure_doc : ℕ → Bool → Mode → Doc → ℕ → Gap → Measured
  measure_doc width first_line mode (text t) used gap = measure_text width t used gap
  measure_doc width first_line mode space used gap = so_far used (with_space gap)
  measure_doc width first_line broken line used gap = answer true
  measure_doc width first_line flat line used gap = so_far used (with_space gap)
  measure_doc width first_line broken soft_line used gap = answer true
  measure_doc width first_line flat soft_line used gap = so_far used gap
  measure_doc width first_line mode hard_line used gap = answer (is_broken mode || first_line)
  measure_doc width first_line mode blank_line used gap = answer (is_broken mode || first_line)
  measure_doc width first_line mode (group d) used gap =
      measure_doc width first_line mode d used gap
  measure_doc width first_line mode (indent d) used gap =
      measure_doc width first_line mode d used gap
  measure_doc width first_line mode (margin d) used gap =
      measure_doc width first_line mode d used gap
  measure_doc width first_line mode (align d) used gap =
      measure_doc width first_line mode d used gap
  measure_doc width first_line mode (prefer d e) used gap =
      measure_doc width first_line mode d used gap
  measure_doc width first_line mode (table d strict) used gap =
      measure_doc width first_line mode d used gap
  measure_doc width first_line mode (fill ds) used gap =
      measure_docs width first_line mode ds used gap
  measure_doc width first_line mode (concat ds) used gap =
      measure_docs width first_line mode ds used gap
  measure_doc width first_line mode (cell index) used gap = so_far used gap
  measure_doc width first_line mode (trailing d) used gap = so_far used gap
  measure_doc width first_line mode (verbatim v) used gap =
      if no_lines v.rest
      then measure_text width v.first used gap
      else answer (leb (used + length v.first + spaced gap) width && (is_broken mode || first_line))

  pub measure_docs : ℕ → Bool → Mode → Docs → ℕ → Gap → Measured
  measure_docs width first_line mode no_docs used gap = so_far used gap
  measure_docs width first_line mode (docs d ds) used gap =
      elim (measure_doc width first_line mode d used gap) [
        | answer b ↦ answer b
        | so_far more pending ↦ measure_docs width first_line mode ds more pending
      ]

-- What follows on the stack, from its top on; at its end everything fits.
unfoldable pub measure_rest : ℕ → Bool → List Command → Measured → Bool
unfolding measure_doc measure_docs
measure_rest width first_line rest (answer b) = b
measure_rest width first_line [] (so_far used gap) = true
measure_rest width first_line (c ∷ rest) (so_far used gap) =
    measure_rest width first_line rest (elim c.doc [
      | one d ↦ measure_doc width first_line c.mode d used gap
      | filling ds ↦ measure_docs width first_line c.mode ds used gap
    ])

abbrev pub start_of : Printer → ℕ
start_of p = elim p.gap [
  | no_gap ↦ p.column
  | one_space ↦ p.column
  | lines count in_by anchor ↦ in_by
]

unfoldable pub measure : Printer → Docs → List Command → Bool → Bool
unfolding measure_rest
measure p ds rest first_line =
    measure_rest p.layout.width first_line rest
      (measure_docs p.layout.width first_line flat ds (start_of p) p.gap)

abbrev pub fits : Printer → Docs → List Command → Bool
unfolding measure
fits p ds rest = measure p ds rest false

abbrev pub starts : Printer → Docs → List Command → Bool
unfolding measure
starts p ds rest = measure p ds rest true
