-- ===== src/Fmt/Doc/Block/Total.antt =====
-- A block whose continued lines are lines of it is written without a panic.
use astli.Prelude.{
  ◌+◌, ℕ, zero, suc, ◌≤◌, ◌≡◌, ◌∙◌, refl, ap, arith, List, [], ◌∷◌, Option, none, some, ◌>>=◌, ◌==◌,
  length, length-set, length-replicate, replicate, set, get_elem?_of_lt, All, Bool-cases, inl, inr,
}
use astli.Fmt.Doc.{Verbatim, VerbatimLine, Printer}
use astli.Fmt.Doc.VerbatimLine.{moved, kept}
use astli.Fmt.Doc.Write.{flush}
use astli.Fmt.Doc.Block.{
  Shift, columns, split_backslash, shifted, line_end, cut_run, ends_of, largest, put_all,
  place_runs, backslashes, placed, continued, write_lines, write_verbatim,
}

-- Every line that ends in a placed backslash is one of the block, 0 being the first.
abbrev pub IsBlock : Verbatim → Type 0
IsBlock v = All (λ at. at ≤ length v.rest) v.continued

line_end_total :
    (p : Printer) (v : Verbatim) (s : Shift) (at : ℕ)
    → at ≤ length v.rest
    → (e : ℕ) × (line_end p v s at ≡ some e)
line_end_total p v s zero h = (p.column + columns (split_backslash v.first).0, refl)
line_end_total p v s (suc at) h =
    let (l, e) = get_elem?_of_lt v.rest at h in rw (e, ◌>>=◌) (end_of l)
  where
    end_of :
        (l : VerbatimLine)
        → (n : ℕ) × (some (elim l as (λ l. ℕ) [
          | kept t ↦ columns (split_backslash t).0
          | moved i t ↦ shifted s i + columns (split_backslash t).0
        ])
            ≡ some n)
    end_of l = (
      elim l as (λ l. ℕ) [
        | kept t ↦ columns (split_backslash t).0
        | moved i t ↦ shifted s i + columns (split_backslash t).0
      ],
      refl,
    )

ends_of_total :
    (p : Printer) (v : Verbatim) (s : Shift) (run : List ℕ)
    → All (λ at. at ≤ length v.rest) run
    → (es : List ℕ) × (ends_of p v s run ≡ some es)
ends_of_total p v s [] h = ([], refl)
ends_of_total p v s (at ∷ more) h =
    let (e, one) = line_end_total p v s at h.0 in
    let (es, rest) = ends_of_total p v s more h.1 in (e ∷ es, rw (one, ◌>>=◌, rest, ◌>>=◌) refl)

length-put_all :
    (run ends : List ℕ) (column : ℕ) (out : List (Option (ℕ × ℕ)))
    → length (put_all run ends column out) ≡ length out
length-put_all [] ends column out = refl
length-put_all (at ∷ more) [] column out = refl
length-put_all (at ∷ more) (e ∷ ends) column out =
    length-put_all more ends column (set out at (some (e, column)))
    ∙ length-set out at (some (e, column))

-- A run and what is behind it have the lines of both.
cut_run-All :
    (P : ℕ → Type 0) (at : ℕ) (more : List ℕ)
    → All P more
    → All P (cut_run at more).0
      × All P (cut_run at more).1
      × (length (cut_run at more).1 ≤ length more)
cut_run-All P at [] h = (tt, tt, omega arith)
cut_run-All P at (next ∷ more) h = elim (Bool-cases (next == suc at)) [
  | inl e ↦
      let (run, rest, bound) = cut_run-All P next more h.1 in
      rw e ((h.0, run), rest, omega (arith, bound))
  | inr e ↦ rw e (tt, h, omega arith)
]

pub place_runs_total :
    (fuel : ℕ) (p : Printer) (v : Verbatim) (s : Shift) (left : List ℕ)
    (out : List (Option (ℕ × ℕ)))
    → All (λ at. at ≤ length v.rest) left
    → length left ≤ fuel
    → (bs : List (Option (ℕ × ℕ))) × (place_runs fuel p v s left out ≡ some bs)
      × (length bs ≡ length out)
unfolding place_runs
place_runs_total zero p v s [] out h k = (out, refl, refl)
place_runs_total zero p v s (at ∷ more) out h k = absurd (omega arith)
place_runs_total (suc fuel) p v s [] out h k = (out, refl, refl)
place_runs_total (suc fuel) p v s (at ∷ more) out h k =
    let (run, rest, bound) = cut_run-All (λ at. at ≤ length v.rest) at more h.1 in
    let (ends, e) = ends_of_total p v s (at ∷ (cut_run at more).0) (h.0, run) in
    let next = put_all (at ∷ (cut_run at more).0) ends (suc (largest ends)) out in
    let (bs, ran, long) =
      place_runs_total fuel p v s (cut_run at more).1 next rest (omega (arith, bound)) in
    (
      bs,
      rw (e, ◌>>=◌) ran,
      long ∙ length-put_all (at ∷ (cut_run at more).0) ends (suc (largest ends)) out,
    )

pub write_verbatim_total :
    (p : Printer) (v : Verbatim) → IsBlock v → (q : Printer) × (write_verbatim p v ≡ some q)
unfolding write_verbatim backslashes
write_verbatim_total p v h =
    let at = placed (flush p) v in
    let (bs, ran, long) =
      place_runs_total (length v.continued) (flush p) v at.shift v.continued
        (replicate (suc (length v.rest)) none) h (omega arith) in
    rw (ran, ◌>>=◌) (lines_of bs (long ∙ ap suc (length-replicate (length v.rest) none)))
  where
    lines_of :
        (bs : List (Option (ℕ × ℕ)))
        → length bs ≡ suc (length v.rest)
        → (q : Printer) × (elim bs as (λ bs. Option Printer) [
          | [] ↦ none
          | b ∷ more ↦
              some (write_lines (continued (flush p) v.first b) (placed (flush p) v) v.rest more)
        ]
            ≡ some q)
    lines_of [] e = absurd (omega arith)
    lines_of (b ∷ more) e =
        (write_lines (continued (flush p) v.first b) (placed (flush p) v) v.rest more, refl)
