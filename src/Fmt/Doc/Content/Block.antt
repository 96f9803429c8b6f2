-- ===== src/Fmt/Doc/Content/Block.antt =====
-- A verbatim block writes what its lines say.
use astli.Prelude.{
  ℕ, suc, ◌+◌, ◌-◌, ◌≡◌, ◌∙◌, refl, sym, ap, subst, arith, true, false, List, [], ◌∷◌, ◌++◌, Option,
  none, some, if◌then◌else◌, ◌>>=◌, ◌==◌, replicate, length, length-replicate, append_nil,
  Bool-cases, inl, inr, ◌⊎◌,
}
use astli.Fmt.Doc.{Chars, Verbatim, VerbatimLine, Printer}
use astli.Fmt.Doc.VerbatimLine.{moved, kept}
use astli.Fmt.Doc.Write.{is_empty, flush, text}
use astli.Fmt.Doc.Block.{
  split_last, split_backslash, Placed, placed, shifted, backslashes, continued, new_line,
  start_line, write_lines, write_verbatim,
}
use astli.Fmt.Doc.Block.Total.{IsBlock, place_runs_total}
use astli.Fmt.Doc.Content.{solid, lines_content, solid-append, solid-blank, solid-replicate}
use astli.Fmt.Doc.Content.Write.{
  Writes, Writes-none, Writes-both, flush-Writes, text-Writes, blank_newline,
}

-- A text is split in two.
IsSplit : Chars → Option (Chars × Chars) → Type 0
IsSplit t none = Unit
IsSplit t (some parts) = parts.0 ++ parts.1 ≡ t

split_last-IsSplit : (t : Chars) → IsSplit t (split_last t)
unfolding IsSplit
split_last-IsSplit [] = tt
split_last-IsSplit (c ∷ cs) = further (split_last cs) (split_last-IsSplit cs)
  where
    further :
        (o : Option (Chars × Chars))
        → IsSplit cs o
        → IsSplit (c ∷ cs) (elim o as (λ o. Option (Chars × Chars)) [
          | some parts ↦ some (c ∷ parts.0, parts.1)
          | none ↦ if c == 92 then some ([], c ∷ cs) else none
        ])
    further (some parts) h = ap (λ t. c ∷ t) h
    further none h = elim (Bool-cases (c == 92)) [ inl e ↦ rw e refl | inr e ↦ rw e tt ]

split_backslash_all : (t : Chars) → (split_backslash t).0 ++ (split_backslash t).1 ≡ t
unfolding IsSplit
split_backslash_all t = whole (split_last t) (split_last-IsSplit t)
  where
    whole :
        (o : Option (Chars × Chars))
        → IsSplit t o
        → (elim o as (λ o. Chars × Chars) [ some parts ↦ parts | none ↦ (t, []) ]).0
            ++ (elim o as (λ o. Chars × Chars) [ some parts ↦ parts | none ↦ (t, []) ]).1
          ≡ t
    whole (some parts) h = h
    whole none h = append_nil t

continued-Writes :
    (p : Printer) (t : Chars) (b : Option (ℕ × ℕ))
    → solid p.layout.newline ≡ []
    → Writes p (continued p t b) (solid t)
unfolding continued
continued-Writes p t none h = text-Writes p t h
continued-Writes p t (some (end, column)) h =
    let before = (split_backslash t).0 in
    let after = (split_backslash t).1 in
    let q = text p before in
    let r = record q {
      out = q.out ++ replicate (column - end) 32;
      column = q.column + (column - end);
    } in
    let first = text-Writes p before h in
    let padded : Writes q r [] =
      Writes-none q r
        (solid-blank q.out (replicate (column - end) 32) (solid-replicate (column - end))) refl in
    let both = Writes-both p q r (solid before) [] first padded in
    let last = text-Writes r after (blank_newline p r (solid before ++ []) both h) in
    subst (Writes p (text r after)) (shape before after ∙ ap solid (split_backslash_all t))
      (Writes-both p r (text r after) (solid before ++ []) (solid after) both last)
  where
    shape : (before after : Chars) → (solid before ++ []) ++ solid after ≡ solid (before ++ after)
    shape before after =
        ap (λ s. s ++ solid after) (append_nil (solid before)) ∙ sym (solid-append before after)

-- A blank end of a line, and the start of one, write nothing.
new_line-Writes :
    (p : Printer) (newline : Chars) → solid newline ≡ [] → Writes p (new_line p newline) []
new_line-Writes p newline h = Writes-none p (new_line p newline) (solid-blank p.out newline h) refl

start_line-Writes : (p : Printer) (at : Placed) (indent : ℕ) → Writes p (start_line p at indent) []
start_line-Writes p at indent =
    Writes-none p (start_line p at indent)
      (solid-blank p.out (replicate indent 32) (solid-replicate indent)) refl

empty_solid : (t : Chars) → is_empty t ≡ true → solid t ≡ []
empty_solid [] h = refl
empty_solid (c ∷ cs) h = cc

write_lines-Writes :
    (p : Printer) (at : Placed) (ls : List VerbatimLine) (bs : List (Option (ℕ × ℕ)))
    → length bs ≡ length ls
    → solid p.layout.newline ≡ []
    → Writes p (write_lines p at ls bs) (lines_content ls)
unfolding write_lines
write_lines-Writes p at [] bs e h = Writes-none p p refl refl
write_lines-Writes p at (l ∷ ls) [] e h = absurd (omega arith)
write_lines-Writes p at (kept t ∷ ls) (b ∷ bs) e h =
    let q = new_line p (10 ∷ []) in
    let r = continued q t b in
    let begun = new_line-Writes p (10 ∷ []) refl in
    let wrote =
      Writes-both p q r [] (solid t) begun
        (continued-Writes q t b (blank_newline p q [] begun h)) in
    Writes-both p r _ (solid t) (lines_content ls) wrote
      (write_lines-Writes r at ls bs (omega (arith, e)) (blank_newline p r (solid t) wrote h))
write_lines-Writes p at (moved indent t ∷ ls) (b ∷ bs) e h =
    let q = new_line p p.layout.newline in
    let begun = new_line-Writes p p.layout.newline h in
    let r : Printer =
      if is_empty t
      then record q { block = suc q.block }
      else continued (start_line q at (shifted at.shift indent)) t b in
    let wrote : Writes p r (solid t) = line_of (Bool-cases (is_empty t)) begun in
    Writes-both p r _ (solid t) (lines_content ls) wrote
      (write_lines-Writes r at ls bs (omega (arith, e)) (blank_newline p r (solid t) wrote h))
  where
    line_of :
        (is_empty t ≡ true) ⊎ (is_empty t ≡ false)
        → Writes p (new_line p p.layout.newline) []
        → Writes p
            (if is_empty t
              then record (new_line p p.layout.newline) {
                block = suc ((new_line p p.layout.newline).block);
              }
              else continued
                  (start_line (new_line p p.layout.newline) at (shifted at.shift indent))
                  t
                  b)
            (solid t)
    line_of (inl empty) begun =
        rw empty (rw (empty_solid t empty) (record { out = begun.out; layout = begun.layout }))
    line_of (inr full) begun =
        let q = new_line p p.layout.newline in
        let r = start_line q at (shifted at.shift indent) in
        let started =
          Writes-both p q r [] [] begun (start_line-Writes q at (shifted at.shift indent)) in
        rw full (
          Writes-both p r (continued r t b) [] (solid t) started
            (continued-Writes r t b (blank_newline p r [] started h)))

pub write_verbatim-Writes :
    (p : Printer) (v : Verbatim)
    → IsBlock v
    → solid p.layout.newline ≡ []
    → (q : Printer) × (write_verbatim p v ≡ some q)
      × Writes p q (solid v.first ++ lines_content v.rest)
unfolding write_verbatim backslashes
write_verbatim-Writes p v block h =
    let at = placed (flush p) v in
    let flushed = flush-Writes p h in
    let (bs, ran, long) =
      place_runs_total (length v.continued) (flush p) v at.shift v.continued
        (replicate (suc (length v.rest)) none) block (omega arith) in
    rw (ran, ◌>>=◌) (lines_of bs (long ∙ ap suc (length-replicate (length v.rest) none)) flushed)
  where
    lines_of :
        (bs : List (Option (ℕ × ℕ)))
        → length bs ≡ suc (length v.rest)
        → Writes p (flush p) []
        → (q : Printer) × (elim bs as (λ bs. Option Printer) [
          | [] ↦ none
          | b ∷ more ↦
              some (write_lines (continued (flush p) v.first b) (placed (flush p) v) v.rest more)
        ]
            ≡ some q)
          × Writes p q (solid v.first ++ lines_content v.rest)
    lines_of [] e flushed = absurd (omega arith)
    lines_of (b ∷ more) e flushed =
        let first = continued (flush p) v.first b in
        let wrote =
          Writes-both p (flush p) first [] (solid v.first) flushed
            (continued-Writes (flush p) v.first b (blank_newline p (flush p) [] flushed h)) in
        (
          write_lines first (placed (flush p) v) v.rest more,
          refl,
          Writes-both p first _ (solid v.first) (lines_content v.rest) wrote (
              write_lines-Writes first (placed (flush p) v) v.rest more (omega (arith, e))
                (blank_newline p first (solid v.first) wrote h)),
        )
