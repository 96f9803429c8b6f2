-- ===== src/Preproc/Conditional/Walk.antt =====
-- What a region of conditional directives is: branches one after another, each with a body in which the
-- directives are balanced.
use astli.Prelude.{
  ℕ, suc, ◌<◌, ◌≤◌, ◌≡◌, min, Bool, true, false, List, [], ◌∷◌, ◌++◌, some, none, refl, sym, subst,
}
use astli.Preproc.Tokens.{Input}
use astli.Preproc.Directive.{DirectiveType, Directive}
use astli.Preproc.Conditional.{Branch, opens, alternates, closes, parse_at, taken_of, after_of}

-- From a place to another, with so many regions left open on the way, and none closed or continued
-- that was open before.
pub data Inside (input : Input) (limit from : ℕ) : ℕ → ℕ → Type 0 where
  start : Inside input limit from from 0
  over :
      {c n : ℕ}
      → Inside input limit from c n
      → c < limit
      → parse_at input c ≡ some none
      → Inside input limit from (suc c) n
  down :
      {c n : ℕ} {d : Directive}
      → Inside input limit from c n
      → c < limit
      → parse_at input c ≡ some (some d)
      → opens d.ty ≡ true
      → Inside input limit from (after_of d c limit) (suc n)
  up :
      {c n : ℕ} {d : Directive}
      → Inside input limit from c (suc n)
      → c < limit
      → parse_at input c ≡ some (some d)
      → closes d.ty ≡ true
      → Inside input limit from (after_of d c limit) n
  by :
      {c n : ℕ} {d : Directive}
      → Inside input limit from c n
      → c < limit
      → parse_at input c ≡ some (some d)
      → opens d.ty ≡ false
      → closes d.ty ≡ false
      → (alternates d.ty ≡ true → 0 < n)
      → Inside input limit from (after_of d c limit) n

-- A branch that a directive of a kind opens at a place, with so many regions open at its end.
pub record IsBranch (input : Input) (limit : ℕ) (kind : DirectiveType → Bool) (at : ℕ) (b : Branch)
    (depth : ℕ) : Type 0 where
  pub opener : Directive
  pub parsed : parse_at input at ≡ some (some opener)
  pub fits : kind opener.ty ≡ true
  pub directive : b.directive ≡ opener.tokens
  pub taken : b.taken ≡ taken_of opener.ty opener.operands
  pub body_start : b.body.start ≡ min opener.tokens.end limit
  pub ordered : b.body.start ≤ b.body.end
  pub inside : Inside input limit b.body.start b.body.end depth

-- Balanced branches, each at the end of the body before it; all but the first are alternatives.
abbrev pub Chain : Input → ℕ → (DirectiveType → Bool) → ℕ → List Branch → ℕ → Type 0
Chain input limit kind at [] stop = at ≡ stop
Chain input limit kind at (b ∷ bs) stop =
    IsBranch input limit kind at b 0 × Chain input limit alternates b.body.end bs stop

abbrev pub next_kind : (DirectiveType → Bool) → List Branch → DirectiveType → Bool
next_kind kind [] = kind
next_kind kind (b ∷ bs) = alternates

-- How a region ends: with an `endif` behind a balanced body, or with the limit.
abbrev pub IsEnd : Input → ℕ → Bool → ℕ → ℕ → ℕ → Type 0
IsEnd input limit true depth body end =
    (d : Directive) × (depth ≡ 0)
    × (parse_at input body ≡ some (some d))
    × (closes d.ty ≡ true)
    × (end ≡ after_of d body limit)
IsEnd input limit false depth body end = (body ≡ limit) × (end ≡ limit)

-- A region's branches, from its first directive to its end.
pub record IsRegion (input : Input) (limit at : ℕ) (branches : List Branch) (end : ℕ)
    (closed : Bool) : Type 0 where
  pub front : List Branch
  pub final : Branch
  pub middle : ℕ
  pub depth : ℕ
  pub all : branches ≡ front ++ final ∷ []
  pub chain : Chain input limit opens at front middle
  pub last : IsBranch input limit (next_kind opens front) middle final depth
  pub ends : IsEnd input limit closed depth final.body.end end

pub Chain-append :
    (input : Input) (limit : ℕ) (kind : DirectiveType → Bool) (at : ℕ) (bs : List Branch)
    (b : Branch) (middle : ℕ)
    → Chain input limit kind at bs middle
    → IsBranch input limit (next_kind kind bs) middle b 0
    → Chain input limit kind at (bs ++ b ∷ []) b.body.end
Chain-append input limit kind at [] b middle h k =
    (subst (λ m. IsBranch input limit kind m b 0) (sym h) k, refl)
Chain-append input limit kind at (c ∷ bs) b middle h k =
    (h.0, Chain-append input limit alternates c.body.end bs b middle h.1 (weaken bs k))
  where
    weaken :
        (bs : List Branch)
        → IsBranch input limit alternates middle b 0
        → IsBranch input limit (next_kind alternates bs) middle b 0
    weaken [] k = k
    weaken (c ∷ bs) k = k

pub next_kind-append :
    (kind : DirectiveType → Bool) (bs : List Branch) (b : Branch)
    → next_kind kind (bs ++ b ∷ []) ≡ alternates
next_kind-append kind [] b = refl
next_kind-append kind (c ∷ bs) b = refl
