-- ===== src/Preproc/Directive/Define.antt =====
-- crates/astli-preproc/src/directive.rs: the name, the formals and the body that a `define` gives a macro.
pub mod Bounds
use astli.Prelude.{
  ℕ, zero, suc, ◌-◌, min, Bool, not, ◌&&◌, ◌||◌, List, [], ◌∷◌, ◌++◌, Option, none, some, ◌==◌,
  if◌then◌else◌, ◌>>=◌, is_some, get_elem?,
}
use astli.Preproc.Kind.{line_continuation, l_paren, r_paren, comma, eq_sign, is_trivia}
use astli.Preproc.Tokens.{Input, token, kind_at, id, span}
use astli.Preproc.Directive.{Formal, Operands}
use astli.Preproc.Directive.Operands.{define_op, malformed}
use astli.Preproc.Directive.Lines.{significant, trim, end_of_line, trimmed}

-- What the loop over a list of formals keeps between tokens; `depth` is never 0.
pub record Formals : Type 0 where
  pub depth : ℕ
  pub current : Option Formal
  pub default_from : Option ℕ
  pub formals : List Formal

abbrev pub push_formal : Input → ℕ → Option Formal → Option ℕ → List Formal → Option (List Formal)
push_formal input cursor none from formals = some formals
push_formal input cursor (some f) none formals = some (formals ++ f ∷ [])
push_formal input cursor (some f) (some from) formals = do
  value ← trimmed input from cursor
  some (formals ++ record f { default = some value } ∷ [])

-- One pass of the loop; `some none` breaks out of it.
unfoldable pub formal_step : Input → ℕ → Formals → Option (Option Formals)
unfolding trim
formal_step input cursor s = do
  kind ← kind_at input cursor
  let outermost : Bool = s.depth == 1
  if kind == l_paren
      then some (some (record s { depth = suc s.depth }))
      else if kind == r_paren && outermost
      then some none
      else if kind == r_paren
      then some (some (record s { depth = s.depth - 1 }))
      else if kind == comma && outermost
      then (do
        formals ← push_formal input cursor s.current s.default_from s.formals
        let left : Option ℕ = if is_some s.current then none else s.default_from
        some (some (record s { current = none; default_from = left; formals = formals })))
      else if kind == eq_sign && outermost && is_some s.current && not (is_some s.default_from)
      then some (some (record s { default_from = some (suc cursor) }))
      else if is_trivia kind || kind == line_continuation
      then some (some s)
      else if outermost && not (is_some s.current)
      then some
          (some (record s { current = some (record { name = id input cursor; default = none }) }))
      else some (some s)

-- The loop, along `n` tokens: what it kept, and the cursor it ended at.
unfoldable pub formals_from : Input → ℕ → ℕ → Formals → Option (Formals × ℕ)
unfolding formal_step
formals_from input zero cursor s = some (s, cursor)
formals_from input (suc n) cursor s = do
  next ← formal_step input cursor s
  elim next [ none ↦ some (s, cursor) | some t ↦ formals_from input n (suc cursor) t ]

unfoldable pub parse_formals : Input → ℕ → ℕ → Option (List Formal × ℕ)
unfolding formals_from trim
parse_formals input at end = do
  ended ←
      formals_from input (end - suc at) (suc at)
        (record { depth = 1; current = none; default_from = none; formals = [] })
  formals ← push_formal input ended.1 ended.0.current ended.0.default_from ended.0.formals
  some (formals, min (suc ended.1) end)

-- The formals of the macro `name`, if a parenthesis follows at once, and where its body starts.
unfoldable pub formals_after : Input → ℕ → ℕ → Option (Option (List Formal) × ℕ)
unfolding parse_formals
formals_after input name end = elim (get_elem? input.tokens (suc name)) [
  | none ↦ some (none, suc name)
  | some t ↦ (do
    before ← token input name
    if t.kind == l_paren && t.start == before.end
        then (do parsed ← parse_formals input (suc name) end; some (some parsed.0, parsed.1))
        else some (none, suc name))
]

unfoldable pub define_named : Input → ℕ → ℕ → ℕ → Option (Operands × ℕ)
unfolding formals_after trim
define_named input at name end = do
  after ← formals_after input name end
  tokens ← span input at end
  body ← trimmed input (min after.1 end) end
  some (
    define_op (record { tokens = tokens; name = id input name; formals = after.0; body = body }),
    end,
  )

unfoldable pub parse_define : Input → ℕ → Option (Operands × ℕ)
unfolding end_of_line significant define_named
parse_define input at = do
  end ← end_of_line input (suc at)
  found ← significant input (suc at) end
  elim found [ none ↦ some (malformed, end) | some name ↦ define_named input at name end ]
