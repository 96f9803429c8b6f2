-- ===== src/Preproc/Directive/Parse.antt =====
-- crates/astli-preproc/src/directive.rs, `parse`: the operands that each directive takes.
pub mod Bounds
use astli.Prelude.{ℕ, suc, Option, none, some, ◌>>=◌}
use astli.Preproc.Tokens.{Input, id, span}
use astli.Preproc.Directive.{DirectiveType, Operands, Directive}
use astli.Preproc.Directive.DirectiveType.{
  define, undef, undefine_all, ifdef, ifndef, elsif, else_, endif, include, timescale,
  default_nettype, unconnected_drive, no_unconnected_drive, cell_define, end_cell_define, resetall,
  line, begin_keywords, end_keywords, pragma, file_name, line_number,
}
use astli.Preproc.Directive.Operands.{name_op, bare, unparsed, malformed}
use astli.Preproc.Directive.Lines.{significant, trim, end_of_line, trimmed}
use astli.Preproc.Directive.Define.{parse_define}
use astli.Preproc.Directive.Include.{parse_include}

-- The name of a macro on the line.
unfoldable pub parse_name : Input → ℕ → Option (Operands × ℕ)
unfolding end_of_line significant
parse_name input at = do
  line_end ← end_of_line input (suc at)
  found ← significant input (suc at) line_end
  elim found [
    | none ↦ some (malformed, line_end)
    | some name ↦ some (name_op (id input name), suc name)
  ]

-- The rest of the line, not looked into.
unfoldable pub parse_rest : Input → ℕ → Option (Operands × ℕ)
unfolding end_of_line trim
parse_rest input at = do
  end ← end_of_line input (suc at)
  rest ← trimmed input (suc at) end
  some (unparsed rest, end)

unfoldable pub operands_of : DirectiveType → Input → ℕ → Option (Operands × ℕ)
unfolding parse_define parse_include parse_name parse_rest
operands_of define input at = parse_define input at
operands_of undef input at = parse_name input at
operands_of ifdef input at = parse_name input at
operands_of ifndef input at = parse_name input at
operands_of elsif input at = parse_name input at
operands_of include input at = parse_include input at
operands_of timescale input at = parse_rest input at
operands_of default_nettype input at = parse_rest input at
operands_of unconnected_drive input at = parse_rest input at
operands_of no_unconnected_drive input at = parse_rest input at
operands_of line input at = parse_rest input at
operands_of begin_keywords input at = parse_rest input at
operands_of pragma input at = parse_rest input at
operands_of undefine_all input at = some (bare, suc at)
operands_of else_ input at = some (bare, suc at)
operands_of endif input at = some (bare, suc at)
operands_of cell_define input at = some (bare, suc at)
operands_of end_cell_define input at = some (bare, suc at)
operands_of resetall input at = some (bare, suc at)
operands_of end_keywords input at = some (bare, suc at)
operands_of file_name input at = some (bare, suc at)
operands_of line_number input at = some (bare, suc at)

unfoldable pub parse : DirectiveType → Input → ℕ → Option Directive
unfolding operands_of
parse ty input at = do
  parsed ← operands_of ty input at
  tokens ← span input at parsed.1
  some (record { ty = ty; tokens = tokens; operands = parsed.0 })
