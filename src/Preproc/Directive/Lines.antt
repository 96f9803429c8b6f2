-- ===== src/Preproc/Directive/Lines.antt =====
-- crates/astli-preproc/src/directive.rs: the tokens of a line that mean something, and where it ends.
pub mod Laws
use astli.Prelude.{
  ℕ, zero, suc, ◌-◌, Bool, true, false, not, ◌&&◌, Option, none, some, ◌==◌, if◌then◌else◌, ◌>>=◌,
  is_some, any,
}
use astli.Preproc.Kind.{SyntaxKind, whitespace, line_continuation, eof, is_trivia}
use astli.Preproc.Tokens.{TokenSpan, Input, len, token, kind_at, text_of, span}
use astli.Preproc.Directive.Scan.{find_from, find_back}

-- The test of `significant`.
abbrev pub means : SyntaxKind → Bool
means kind = not (is_trivia kind) && not (kind == line_continuation) && not (kind == eof)

abbrev pub is_significant : Input → ℕ → Option Bool
is_significant input at = do kind ← kind_at input at; some (means kind)

unfoldable pub significant : Input → ℕ → ℕ → Option (Option ℕ)
significant input from end = find_from (is_significant input) (end - from) from

-- Whether the kinds of `n` tokens from a place on are all the end of the file.
abbrev pub all_eof : Input → ℕ → ℕ → Option Bool
all_eof input zero at = some true
all_eof input (suc n) at = do
  kind ← kind_at input at
  if kind == eof then all_eof input n (suc at) else some false

unfoldable pub ends_line : Input → ℕ → Option Bool
ends_line input at = do
  t ← token input at
  if t.kind == whitespace
      then (do
        written ← text_of t input.source
        if any (λ c. c == 10) written
            then some true
            else all_eof input (len input - suc at) (suc at))
      else some (t.kind == eof)

-- The test of `trim` from behind.
abbrev pub alone : Input → ℕ → Option Bool
unfolding significant
alone input at = do found ← significant input at (suc at); some (is_some found)

unfoldable pub trim : Input → ℕ → ℕ → Option (ℕ × ℕ)
unfolding significant
trim input from end = do
  first ← significant input from end
  elim first [
    | none ↦ some (from, from)
    | some start ↦ (do
      last ← find_back (alone input) (end - from) from
      elim last [ none ↦ some (start, suc start) | some at ↦ some (start, suc at) ])
  ]

unfoldable pub end_of_line : Input → ℕ → Option ℕ
unfolding ends_line
end_of_line input from = do
  found ← find_from (ends_line input) (len input - from) from
  elim found [ none ↦ some (len input) | some at ↦ some at ]

-- The span of what `trim` leaves.
abbrev pub trimmed : Input → ℕ → ℕ → Option TokenSpan
trimmed input from end = do range ← trim input from end; span input range.0 range.1
