-- ===== src/Preproc/Conditional.antt =====
-- crates/astli-preproc/src/conditional.rs: the regions of conditional directives and their branches. Each loop
-- runs on as much fuel as there are tokens left, and gives `none` without it and where the code panics.
pub mod Walk
pub mod Turns
pub mod Branches
pub mod Outermost
use astli.Prelude.{
  ℕ, zero, suc, ◌-◌, min, max, Bool, true, false, ◌&&◌, List, [], ◌∷◌, ◌++◌, Option, none, some,
  ltb, ◌==◌, if◌then◌else◌, ◌>>=◌,
}
use astli.Preproc.Kind.{tick_ident}
use astli.Preproc.Tokens.{TokenId, TokenSpan, Input, kind_at, text, span}
use astli.Preproc.Directive.{DirectiveType, Operands, Directive, lookup}
use astli.Preproc.Directive.DirectiveType.{ifdef, ifndef, elsif, else_, endif}
use astli.Preproc.Directive.Operands.{name_op}
use astli.Preproc.Directive.Parse.{parse}

pub data Taken : Type 0 where
  defined : TokenId → Taken
  undefined : TokenId → Taken
  otherwise : Taken
  never : Taken

pub record Branch : Type 0 where
  pub taken : Taken
  pub directive : TokenSpan
  pub body : TokenSpan

pub record Region : Type 0 where
  pub tokens : TokenSpan
  pub branches : List Branch
  pub closed : Bool

abbrev pub is_otherwise : Taken → Bool
is_otherwise otherwise = true
is_otherwise t = false

abbrev pub last_is_else : List Branch → Bool
last_is_else [] = false
last_is_else (b ∷ []) = is_otherwise b.taken
last_is_else (b ∷ c ∷ bs) = last_is_else (c ∷ bs)

unfoldable pub has_else : Region → Bool
has_else r = last_is_else r.branches

-- `Ifdef | Ifndef`
abbrev pub opens : DirectiveType → Bool
opens ifdef = true
opens ifndef = true
opens ty = false

-- `Elsif | Else`
abbrev pub alternates : DirectiveType → Bool
alternates elsif = true
alternates else_ = true
alternates ty = false

abbrev pub closes : DirectiveType → Bool
closes endif = true
closes ty = false

-- The directive at a token, if one is there.
unfoldable pub parse_at : Input → ℕ → Option (Option Directive)
unfolding lookup parse
parse_at input at = do
  kind ← kind_at input at
  if kind == tick_ident
      then (do
        name ← text input at
        elim (lookup name) [
          | none ↦ some none
          | some ty ↦ (do d ← parse ty input at; some (some d))
        ])
      else some none

unfoldable pub taken_of : DirectiveType → Operands → Taken
taken_of else_ operands = otherwise
taken_of ifndef (name_op name) = undefined name
taken_of ty (name_op name) = defined name
taken_of ty operands = never

unfoldable pub branch : Input → Directive → ℕ → ℕ → Option Branch
unfolding taken_of
branch input d from end = do
  body ← span input from end
  some (record { taken = taken_of d.ty d.operands; directive = d.tokens; body = body })

-- What the loop of `region` keeps: the branch that is open, where its body starts, the branches before it,
-- and how many regions are open in it.
pub record Scan : Type 0 where
  pub open_by : Directive
  pub from : ℕ
  pub branches : List Branch
  pub nested : ℕ

pub data Next : Type 0 where
  go_on : Scan → Next
  stop : List Branch → Next

abbrev pub after_of : Directive → ℕ → ℕ → ℕ
after_of found cursor limit = min (max found.tokens.end (suc cursor)) limit

-- The branch that ends at the cursor, behind those before it.
abbrev pub finish : Input → Scan → ℕ → Option (List Branch)
finish input s end = do b ← branch input s.open_by s.from end; some (s.branches ++ b ∷ [])

unfoldable pub region_step : Input → ℕ → ℕ → Scan → Directive → Option Next
unfolding branch
region_step input limit cursor s found =
    if opens found.ty
    then some (go_on (record s { nested = suc s.nested }))
    else if closes found.ty && ltb 0 s.nested
    then some (go_on (record s { nested = s.nested - 1 }))
    else if alternates found.ty && s.nested == 0
    then (do
      branches ← finish input s cursor
      some (
          go_on (record s {
            open_by = found;
            from = after_of found cursor limit;
            branches = branches;
          })))
    else if closes found.ty
    then (do branches ← finish input s cursor; some (stop branches))
    else some (go_on s)

-- The branches, where the region ends, and whether it was closed.
unfoldable pub region_from : Input → ℕ → ℕ → ℕ → Scan → Option (List Branch × ℕ × Bool)
unfolding parse_at region_step branch
region_from input limit zero cursor s =
    if ltb cursor limit
    then none
    else (do branches ← finish input s limit; some (branches, limit, false))
region_from input limit (suc fuel) cursor s =
    if ltb cursor limit
    then (do
      found ← parse_at input cursor
      elim found [
        | none ↦ region_from input limit fuel (suc cursor) s
        | some d ↦ (do
          next ← region_step input limit cursor s d
          elim next [
            | stop branches ↦ some (branches, after_of d cursor limit, true)
            | go_on t ↦ region_from input limit fuel (after_of d cursor limit) t
          ])
      ])
    else (do branches ← finish input s limit; some (branches, limit, false))

unfoldable pub region : Input → ℕ → ℕ → Option Region
unfolding parse_at region_from
region input at limit = do
  found ← parse_at input at
  d ← found
  let from : ℕ = d.tokens.end
  ended ←
      region_from input limit (limit - from) from
        (record { open_by = d; from = from; branches = []; nested = 0 })
  tokens ← span input at ended.1
  some (record { tokens = tokens; branches = ended.0; closed = ended.2 })

-- The regions from a cursor on that are in no other.
unfoldable pub regions_from : Input → ℕ → ℕ → ℕ → Option (List Region)
unfolding parse_at region
regions_from input limit zero cursor = if ltb cursor limit then none else some []
regions_from input limit (suc fuel) cursor =
    if ltb cursor limit
    then (do
      found ← parse_at input cursor
      elim found [
        | none ↦ regions_from input limit fuel (suc cursor)
        | some d ↦ elim (opens d.ty) [
          | true ↦ (do
            r ← region input cursor limit
            rest ← regions_from input limit fuel (max r.tokens.end (suc cursor))
            some (r ∷ rest))
          | false ↦ regions_from input limit fuel (max d.tokens.end (suc cursor))
        ]
      ])
    else some []

unfoldable pub regions : Input → TokenSpan → Option (List Region)
unfolding regions_from
regions input s = regions_from input s.end (s.end - s.start) s.start
