-- ===== src/Preproc/Directive/Include.antt =====
-- crates/astli-preproc/src/directive.rs: the path of an `include`, written or by a macro.
pub mod Arguments
pub mod Bounds
use astli.Prelude.{ℕ, zero, suc, ◌-◌, ◌&&◌, ◌||◌, Option, none, some, ◌==◌, if◌then◌else◌, ◌>>=◌}
use astli.Preproc.Kind.{
  SyntaxKind, string_literal, tick_ident, ident, escaped_ident, macro_quote, l_paren, r_paren,
  lt_sign, gt_sign, is_keyword,
}
use astli.Preproc.Tokens.{Input, kind_at, id, span}
use astli.Preproc.Directive.{Operands}
use astli.Preproc.Directive.Operands.{include_op, malformed}
use astli.Preproc.Directive.IncludePath.{quoted, angle, expanded}
use astli.Preproc.Directive.Lines.{significant, trim, end_of_line, trimmed}
use astli.Preproc.Directive.Scan.{find_from}

-- The depth after a token; a parenthesis too many panics.
abbrev pub depth_after : SyntaxKind → ℕ → Option ℕ
depth_after kind depth =
    if kind == l_paren
    then some (suc depth)
    else if kind == r_paren
    then (if depth == 0 then none else some (depth - 1))
    else some depth

-- Along `n` tokens from `at` on: past the parenthesis that closes the first.
unfoldable pub closing : Input → ℕ → ℕ → ℕ → Option (Option ℕ)
closing input zero at depth = some none
closing input (suc n) at depth = do
  kind ← kind_at input at
  left ← depth_after kind depth
  let rest = closing input n (suc at) left
  if kind == r_paren && left == 0 then some (some (suc at)) else rest

-- The first significant token, if it is an opening parenthesis.
abbrev pub opening : Input → Option ℕ → Option (Option ℕ)
opening input none = some none
opening input (some at) = do
  kind ← kind_at input at
  some (if kind == l_paren then some at else none)

unfoldable pub after_arguments : Input → ℕ → ℕ → Option ℕ
unfolding significant closing
after_arguments input name line_end = do
  found ← significant input (suc name) line_end
  open_at ← opening input found
  elim open_at [
    | none ↦ some (suc name)
    | some at ↦ (do
      close ← closing input (line_end - at) at 0
      elim close [ none ↦ some line_end | some after ↦ some after ])
  ]

unfoldable pub expanded_name : Input → ℕ → SyntaxKind → ℕ → Option (Option ℕ)
unfolding after_arguments
expanded_name input first kind line_end =
    if kind == macro_quote
    then (do
      close ←
          find_from (λ at. do k ← kind_at input at; some (k == macro_quote)) (line_end - suc first)
            (suc first)
      elim close [ none ↦ some (some line_end) | some at ↦ some (some (suc at)) ])
    else if kind == tick_ident
    then (do after ← after_arguments input first line_end; some (some after))
    else if kind == ident || kind == escaped_ident
    then some (some (suc first))
    else if is_keyword kind
    then some (some (suc first))
    else some none

abbrev pub angle_path : Input → ℕ → ℕ → Option ℕ → Option (Operands × ℕ)
angle_path input first line_end none = some (malformed, line_end)
angle_path input first line_end (some close) = do
  path ← trimmed input (suc first) close
  some (include_op (angle path), suc close)

abbrev pub macro_path : Input → ℕ → ℕ → Option ℕ → Option (Operands × ℕ)
macro_path input first line_end none = some (malformed, line_end)
macro_path input first line_end (some end) = do
  path ← span input first end
  some (include_op (expanded path), end)

unfoldable pub include_path : Input → ℕ → ℕ → Option (Operands × ℕ)
unfolding trim expanded_name
include_path input first line_end = do
  kind ← kind_at input first
  if kind == string_literal
      then some (include_op (quoted (id input first)), suc first)
      else if kind == lt_sign
      then (do
        close ←
            find_from (λ at. do k ← kind_at input at; some (k == gt_sign)) (line_end - suc first)
              (suc first)
        angle_path input first line_end close)
      else (do end ← expanded_name input first kind line_end; macro_path input first line_end end)

unfoldable pub parse_include : Input → ℕ → Option (Operands × ℕ)
unfolding end_of_line significant include_path
parse_include input at = do
  line_end ← end_of_line input (suc at)
  found ← significant input (suc at) line_end
  elim found [ none ↦ some (malformed, line_end) | some first ↦ include_path input first line_end ]
