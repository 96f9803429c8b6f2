-- ===== src/Text/Examples.antt =====
-- Runs and instances of the theorems about crates/astli-text, at inputs of its own tests.
use astli.Prelude.{ℕ, ◌≡◌, ◌<◌, ◌≤◌, refl, none, some, List, [], ◌∷◌, arith, true, length, All}
use astli.Text.Span.{Span, cover, contains, cover-IsLeast}
use astli.Text.Fix.{Edit, choose, apply}
use astli.Text.Fix.Rewrite.{rewritten}
use astli.Text.Fix.Order.{AllApart, OnBoundary}
use astli.Text.Fix.Taken.{choose-AllApart}
use astli.Text.Fix.Apply.{apply-rewritten}
use astli.Text.Origins.{
  Expansion, Origins, Included, cycle, included_from, expansion, sites, path, file, new, add,
  expand, through, load_included, include_trace, placed_by, Reader,
}
use astli.Text.Origins.Valid.{IsValid, new-IsValid, add-IsValid, expand-IsValid}
use astli.Text.Origins.Through.{IsThrough, through-IsThrough}
use astli.Text.Origins.Includes.{include_trace-total}
use astli.Text.Origins.Load.{Loads, load_included-Loads}
use astli.Text.Origins.Expansions.{reported_at, reported_at-written}

abbrev span : ℕ → ℕ → ℕ → Span
span f a b = record { src_id = f; start = a; end = b }

cover-IsLeast_example :
    (contains (span 0 1 9) (span 0 1 4) ≡ true)
    × (contains (span 0 1 9) (span 0 6 9) ≡ true)
    × ((d : Span)
        → contains d (span 0 1 4) ≡ true
        → contains d (span 0 6 9) ≡ true
        → contains d (span 0 1 9) ≡ true)
unfolding cover
cover-IsLeast_example = cover-IsLeast (span 0 1 4) (span 0 6 9) (span 0 1 9) refl

-- "reg x;" and a newline and ";".
abbrev reg : List ℕ
reg = b'r' ∷ b'e' ∷ b'g' ∷ b' ' ∷ b'x' ∷ b';' ∷ 10 ∷ b';' ∷ []

abbrev edit : ℕ → ℕ → List ℕ → Edit
edit a b t = record { at = span 0 a b; text = t }

-- A replacement by "bit", and an insertion of "A" with a deletion.
abbrev fixes : List (List Edit)
fixes =
    (edit 0 3 (b'b' ∷ b'i' ∷ b't' ∷ []) ∷ [])
    ∷ (edit 6 6 (b'A' ∷ []) ∷ edit 7 8 [] ∷ [])
    ∷ (edit 2 4 [] ∷ [])
    ∷ []

apply_runs : apply reg fixes ≡ some (b'b' ∷ b'i' ∷ b't' ∷ b' ' ∷ b'x' ∷ b';' ∷ b'A' ∷ 10 ∷ [], 2)
unfolding apply
apply_runs = refl

fixes-AllApart : All AllApart fixes
fixes-AllApart = ((tt, tt), (((refl, tt), (tt, tt)), ((tt, tt), tt)))

fixes-OnBoundary : All (All (OnBoundary reg)) fixes
fixes-OnBoundary =
    (((refl, refl), tt), ((((refl, refl), ((refl, refl), tt))), ((((refl, refl), tt)), tt)))

apply-rewritten_example :
    apply reg fixes ≡ some (rewritten 0 reg (choose [] 0 fixes).0, (choose [] 0 fixes).1)
apply-rewritten_example = apply-rewritten reg fixes (omega arith) fixes-OnBoundary fixes-AllApart

-- Two bytes of one character: an edit between them panics.
within_runs : apply (195 ∷ 169 ∷ []) ((edit 1 1 [] ∷ []) ∷ []) ≡ none
unfolding apply
within_runs = refl

choose-AllApart_example : AllApart (choose [] 0 fixes).0
choose-AllApart_example = choose-AllApart [] 0 fixes tt fixes-AllApart

-- A file of ten bytes, and an expansion called in it.
abbrev top : List ℕ
top = b'a' ∷ 10 ∷ b'b' ∷ b'c' ∷ 10 ∷ b'd' ∷ b'e' ∷ b'f' ∷ b'g' ∷ 10 ∷ []

one_file : Origins
unfolding add
one_file = (add new (file "top.sv" none) top).0

one_file-IsValid : IsValid one_file
unfolding one_file
one_file-IsValid = add-IsValid new (file "top.sv" none) top (λ s e. cc) new-IsValid

abbrev call : Expansion
call = record { name = span 0 2 4; call = span 0 2 4; def = some (span 0 5 9) }

expanded : Origins
unfolding one_file expand
expanded = (expand one_file call).0

expanded-IsValid : IsValid expanded
unfolding expanded
expanded-IsValid = expand-IsValid one_file call (omega arith) one_file-IsValid

through-IsThrough_example :
    (r : Origins × Span) × (through expanded (span 0 5 9) (some 0) ≡ some r)
    × IsThrough expanded (span 0 5 9) (some 0) r.0 r.1
unfolding expanded
through-IsThrough_example =
    through-IsThrough expanded (span 0 5 9) (some 0) expanded-IsValid (omega arith)
      (λ e h. ground arith)

placed_runs :
    through expanded (span 0 5 9) (some 0)
    ≡ some (
      record expanded {
        views = record { buffer = 0; from = none } ∷ record { buffer = 0; from = some 0 } ∷ [];
        expansions = (call, 1 ∷ []) ∷ [];
      },
      span 1 5 9,
    )
unfolding expanded through
placed_runs = refl

-- A header, and the file again.
abbrev reader : Reader
reader p = some (b'h' ∷ [])

load_included-Loads_example :
    (r : Origins × Included) × (load_included one_file reader ("a.svh" ∷ []) (span 0 0 1) ≡ some r)
    × Loads one_file reader ("a.svh" ∷ []) (span 0 0 1) r
unfolding one_file
load_included-Loads_example =
    load_included-Loads one_file reader ("a.svh" ∷ []) (span 0 0 1) one_file-IsValid (omega arith)

include_trace-total_example :
    (t : List Span) × (include_trace 1 one_file 0 ≡ some t)
    × (length t ≤ 0)
    × All (λ g. g < length one_file.views) (sites t)
unfolding one_file
include_trace-total_example =
    include_trace-total 1 one_file 0 one_file-IsValid (omega arith) (omega arith)

-- The token that the expansion placed is reported at the call.
placed : Origins
unfolding expanded
placed = record expanded {
  views = record { buffer = 0; from = none } ∷ record { buffer = 0; from = some 0 } ∷ [];
  expansions = (call, 1 ∷ []) ∷ [];
}

reported_runs : reported_at placed (span 1 5 9) ≡ some (span 0 2 4)
unfolding placed reported_at placed_by expansion
reported_runs = refl

reported_at-written_example :
    (s : Span) × (reported_at expanded (span 0 5 9) ≡ some s)
    × (placed_by expanded s.src_id ≡ some none)
    × (placed_by expanded (span 0 5 9).src_id ≡ some none → s ≡ span 0 5 9)
unfolding expanded
reported_at-written_example =
    reported_at-written expanded (span 0 5 9) expanded-IsValid (omega arith)

cycle_runs :
    load_included one_file (λ p. some top) ("top.sv" ∷ []) (span 0 0 1) ≡ some (one_file, cycle)
unfolding one_file load_included path included_from
cycle_runs = refl
