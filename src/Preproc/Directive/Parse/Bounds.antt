-- ===== src/Preproc/Directive/Parse/Bounds.antt =====
-- Every directive of a lexed input is parsed, to a place past its start.
use astli.Prelude.{ℕ, suc, ◌<◌, ◌≤◌, ◌≡◌, refl, arith, true, Option, none, some, ◌>>=◌}
use astli.Preproc.Tokens.{Input, IsLexed, TokenSpan, len, id, span}
use astli.Preproc.Directive.{DirectiveType, Operands, Directive}
use astli.Preproc.Directive.DirectiveType.{
  define, undef, undefine_all, ifdef, ifndef, elsif, else_, endif, include, timescale,
  default_nettype, unconnected_drive, no_unconnected_drive, cell_define, end_cell_define, resetall,
  line, begin_keywords, end_keywords, pragma, file_name, line_number,
}
use astli.Preproc.Directive.Operands.{malformed, name_op, bare, unparsed}
use astli.Preproc.Directive.Scan.{IsFirst}
use astli.Preproc.Directive.Lines.{is_significant, end_of_line}
use astli.Preproc.Directive.Lines.Laws.{trimmed_total, end_of_line_total, significant-IsFirst}
use astli.Preproc.Directive.Define.Bounds.{parse_define_total}
use astli.Preproc.Directive.Include.Bounds.{Ends, parse_include-Ends}
use astli.Preproc.Directive.Parse.{parse_name, parse_rest, operands_of, parse}
use astli.Preproc.Directive.{takes_line}
use astli.Preproc.Directive.Define.{parse_define}

parse_name-Ends :
    (input : Input) (at : ℕ)
    → IsLexed input
    → at < len input
    → Ends (parse_name input at) at (len input)
unfolding parse_name
parse_name-Ends input at lexed h =
    let (end, run, lo, hi) = end_of_line_total input (suc at) lexed h in
    let (name, found, is_first) = significant-IsFirst input (suc at) end lo hi in
    rw (run, ◌>>=◌, found, ◌>>=◌) (named end lo hi name is_first)
  where
    named :
        (end : ℕ)
        → suc at ≤ end
        → end ≤ len input
        → (name : Option ℕ) → IsFirst (is_significant input) (suc at) end name
        → Ends
            (elim name as (λ f. Option (Operands × ℕ)) [
              | none ↦ some (malformed, end)
              | some n ↦ some (name_op (id input n), suc n)
            ])
            at
            (len input)
    named end lo hi none is_first = (malformed, end, refl, omega (arith, lo), hi)
    named end lo hi (some n) is_first = (
      name_op (id input n),
      suc n,
      refl,
      omega (arith, is_first.0),
      omega (arith, is_first.1, hi),
    )

-- Operands that end with the line.
abbrev EndsLine : Option (Operands × ℕ) → Input → ℕ → Type 0
EndsLine o input at =
    (operands : Operands) × (end : ℕ) × (o ≡ some (operands, end))
    × (at < end)
    × (end ≤ len input)
    × (end_of_line input (suc at) ≡ some end)

parse_rest-EndsLine :
    (input : Input) (at : ℕ)
    → IsLexed input
    → at < len input
    → EndsLine (parse_rest input at) input at
unfolding parse_rest
parse_rest-EndsLine input at lexed h =
    let (end, run, lo, hi) = end_of_line_total input (suc at) lexed h in
    let (rest, trim_run) = trimmed_total input (suc at) end lo hi in
    (unparsed rest, end, rw (run, ◌>>=◌, trim_run, ◌>>=◌) refl, omega (arith, lo), hi, run)

Ends-of :
    (o : Option (Operands × ℕ)) (input : Input) (at : ℕ)
    → EndsLine o input at
    → Ends o at (len input)
Ends-of o input at (operands, end, run, lo, hi, line_end) = (operands, end, run, lo, hi)

operands_of-Ends :
    (ty : DirectiveType) (input : Input) (at : ℕ)
    → IsLexed input
    → at < len input
    → Ends (operands_of ty input at) at (len input)
unfolding operands_of
operands_of-Ends define input at lexed h =
    Ends-of (parse_define input at) input at (parse_define_total input at lexed h)
operands_of-Ends include input at lexed h = parse_include-Ends input at lexed h
operands_of-Ends undef input at lexed h = parse_name-Ends input at lexed h
operands_of-Ends ifdef input at lexed h = parse_name-Ends input at lexed h
operands_of-Ends ifndef input at lexed h = parse_name-Ends input at lexed h
operands_of-Ends elsif input at lexed h = parse_name-Ends input at lexed h
operands_of-Ends timescale input at lexed h =
    Ends-of (parse_rest input at) input at (parse_rest-EndsLine input at lexed h)
operands_of-Ends default_nettype input at lexed h =
    Ends-of (parse_rest input at) input at (parse_rest-EndsLine input at lexed h)
operands_of-Ends unconnected_drive input at lexed h =
    Ends-of (parse_rest input at) input at (parse_rest-EndsLine input at lexed h)
operands_of-Ends no_unconnected_drive input at lexed h =
    Ends-of (parse_rest input at) input at (parse_rest-EndsLine input at lexed h)
operands_of-Ends line input at lexed h =
    Ends-of (parse_rest input at) input at (parse_rest-EndsLine input at lexed h)
operands_of-Ends begin_keywords input at lexed h =
    Ends-of (parse_rest input at) input at (parse_rest-EndsLine input at lexed h)
operands_of-Ends pragma input at lexed h =
    Ends-of (parse_rest input at) input at (parse_rest-EndsLine input at lexed h)
operands_of-Ends undefine_all input at lexed h = (bare, suc at, refl, omega arith, h)
operands_of-Ends else_ input at lexed h = (bare, suc at, refl, omega arith, h)
operands_of-Ends endif input at lexed h = (bare, suc at, refl, omega arith, h)
operands_of-Ends cell_define input at lexed h = (bare, suc at, refl, omega arith, h)
operands_of-Ends end_cell_define input at lexed h = (bare, suc at, refl, omega arith, h)
operands_of-Ends resetall input at lexed h = (bare, suc at, refl, omega arith, h)
operands_of-Ends end_keywords input at lexed h = (bare, suc at, refl, omega arith, h)
operands_of-Ends file_name input at lexed h = (bare, suc at, refl, omega arith, h)
operands_of-Ends line_number input at lexed h = (bare, suc at, refl, omega arith, h)

-- In an input whose tokens lie in its source, a directive at one of the tokens is parsed without a
-- panic; it keeps its type, starts at that token, and ends past it and within the input.
pub parse-IsPlaced :
    (ty : DirectiveType) (input : Input) (at : ℕ)
    → IsLexed input
    → at < len input
    → (d : Directive) × (parse ty input at ≡ some d)
      × (d.ty ≡ ty)
      × (d.tokens.src_id ≡ input.src_id)
      × (d.tokens.start ≡ at)
      × (at < d.tokens.end)
      × (d.tokens.end ≤ len input)
unfolding parse
parse-IsPlaced ty input at lexed h =
    let (operands, end, run, lo, hi) = operands_of-Ends ty input at lexed h in
    let tokens : TokenSpan = record { src_id = input.src_id; start = at; end = end } in
    let spanned : span input at end ≡ some tokens = ground (arith, lo) in
    (
      record { ty = ty; tokens = tokens; operands = operands },
      rw (run, ◌>>=◌, spanned, ◌>>=◌) refl,
      refl,
      refl,
      refl,
      lo,
      hi,
    )

operands_of-EndsLine :
    (ty : DirectiveType) (input : Input) (at : ℕ)
    → takes_line ty ≡ true
    → IsLexed input
    → at < len input
    → EndsLine (operands_of ty input at) input at
unfolding operands_of takes_line
operands_of-EndsLine define input at takes lexed h = parse_define_total input at lexed h
operands_of-EndsLine undef input at takes lexed h = cc
operands_of-EndsLine undefine_all input at takes lexed h = cc
operands_of-EndsLine ifdef input at takes lexed h = cc
operands_of-EndsLine ifndef input at takes lexed h = cc
operands_of-EndsLine elsif input at takes lexed h = cc
operands_of-EndsLine else_ input at takes lexed h = cc
operands_of-EndsLine endif input at takes lexed h = cc
operands_of-EndsLine include input at takes lexed h = cc
operands_of-EndsLine timescale input at takes lexed h = parse_rest-EndsLine input at lexed h
operands_of-EndsLine default_nettype input at takes lexed h = parse_rest-EndsLine input at lexed h
operands_of-EndsLine unconnected_drive input at takes lexed h = parse_rest-EndsLine input at lexed h
operands_of-EndsLine no_unconnected_drive input at takes lexed h =
    parse_rest-EndsLine input at lexed h
operands_of-EndsLine cell_define input at takes lexed h = cc
operands_of-EndsLine end_cell_define input at takes lexed h = cc
operands_of-EndsLine resetall input at takes lexed h = cc
operands_of-EndsLine line input at takes lexed h = parse_rest-EndsLine input at lexed h
operands_of-EndsLine begin_keywords input at takes lexed h = parse_rest-EndsLine input at lexed h
operands_of-EndsLine end_keywords input at takes lexed h = cc
operands_of-EndsLine pragma input at takes lexed h = parse_rest-EndsLine input at lexed h
operands_of-EndsLine file_name input at takes lexed h = cc
operands_of-EndsLine line_number input at takes lexed h = cc

-- In an input whose tokens lie in its source, a directive of a type that takes its line is parsed,
-- and ends where the line does.
pub takes_line-parse :
    (ty : DirectiveType) (input : Input) (at : ℕ)
    → takes_line ty ≡ true
    → IsLexed input
    → at < len input
    → (d : Directive) × (parse ty input at ≡ some d)
      × (end_of_line input (suc at) ≡ some d.tokens.end)
unfolding parse
takes_line-parse ty input at takes lexed h =
    let (operands, end, run, lo, hi, line_end) = operands_of-EndsLine ty input at takes lexed h in
    let tokens : TokenSpan = record { src_id = input.src_id; start = at; end = end } in
    let spanned : span input at end ≡ some tokens = ground (arith, lo) in
    (
      record { ty = ty; tokens = tokens; operands = operands },
      rw (run, ◌>>=◌, spanned, ◌>>=◌) refl,
      line_end,
    )
