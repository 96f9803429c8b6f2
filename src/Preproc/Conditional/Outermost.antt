-- ===== src/Preproc/Conditional/Outermost.antt =====
-- `regions` does not panic in a lexed input, ends within its fuel, and finds the regions that are in no other.
use astli.Prelude.{
  ℕ, zero, suc, ◌+◌, ◌-◌, ◌<◌, ◌≤◌, ◌≡◌, ◌∙◌, refl, sym, subst, arith, max, true, false, List, [],
  ◌∷◌, Option, none, some, ltb, ◌>>=◌, Bool-cases, inl, inr,
}
use astli.Preproc.Tokens.{Input, TokenSpan, IsLexed, len}
use astli.Preproc.Directive.{Directive}
use astli.Preproc.Conditional.{Region, opens, parse_at, region, regions_from, regions}
use astli.Preproc.Conditional.Walk.{IsRegion}
use astli.Preproc.Conditional.Turns.{IsAt, parse_at_total}
use astli.Preproc.Conditional.Branches.{region-IsRegion}

-- Tokens from a place to another, and directives, that open no region.
pub data Outside (input : Input) (from : ℕ) : ℕ → Type 0 where
  here : Outside input from from
  over : {c : ℕ} → Outside input from c → parse_at input c ≡ some none → Outside input from (suc c)
  passed :
      {c : ℕ} {d : Directive}
      → Outside input from c
      → parse_at input c ≡ some (some d)
      → opens d.ty ≡ false
      → Outside input from d.tokens.end

-- Regions in order, the first from a place on, each the region at an opening directive, with nothing that
-- opens one in front of, between or behind them.
abbrev pub InOrder : Input → ℕ → ℕ → List Region → Type 0
InOrder input limit from [] = (to : ℕ) × (limit ≤ to) × Outside input from to
InOrder input limit from (r ∷ rs) =
    (r.tokens.start < r.tokens.end)
    × (r.tokens.end ≤ limit)
    × Outside input from r.tokens.start
    × (region input r.tokens.start limit ≡ some r)
    × IsRegion input limit r.tokens.start r.branches r.tokens.end r.closed
    × InOrder input limit r.tokens.end rs

-- No directive that opens a region runs over a limit.
abbrev pub Whole : Input → ℕ → Type 0
Whole input limit =
    (c : ℕ) (d : Directive)
    → c < limit
    → parse_at input c ≡ some (some d)
    → opens d.ty ≡ true
    → d.tokens.end ≤ limit

-- The end of the input is such a limit.
pub len-Whole : (input : Input) → IsLexed input → Whole input (len input)
len-Whole input lexed c d h run o =
    let (r, run_at, is_at) = parse_at_total input c lexed h in
    (subst (λ r. IsAt input c r) (same (sym run_at ∙ run)) is_at).2
  where
    same : {a b : Option Directive} → some a ≡ some b → a ≡ b
    same e = cc

not_below : (a b : ℕ) → b ≤ a → ltb a b ≡ false
not_below a b h = ground arith

below_of : (a b : ℕ) → ltb a b ≡ true → a < b
below_of a b h = ground arith

above_of : (a b : ℕ) → ltb a b ≡ false → b ≤ a
above_of a b h = ground arith

-- The regions that a list of them starts with are found from further on.
abbrev Found : Input → ℕ → ℕ → Option (List Region) → Type 0
Found input limit from o = (rs : List Region) × (o ≡ some rs) × InOrder input limit from rs

max_past : (e c : ℕ) → c < e → max e (suc c) ≡ e
max_past e c h = omega arith

Found-turn :
    (input : Input) (limit fuel from cursor : ℕ) (r : Option Directive)
    → IsLexed input
    → limit ≤ len input
    → Whole input limit
    → Outside input from cursor
    → cursor < limit
    → parse_at input cursor ≡ some r
    → IsAt input cursor r
    → ((from c : ℕ)
        → Outside input from c
        → cursor < c
        → Found input limit from (regions_from input limit fuel c))
    → Found input limit from (elim r as (λ r. Option (List Region)) [
      | none ↦ regions_from input limit fuel (suc cursor)
      | some d ↦ elim (opens d.ty) as (λ b. Option (List Region)) [
        | true ↦ (do
          r ← region input cursor limit
          rest ← regions_from input limit fuel (max r.tokens.end (suc cursor))
          some (r ∷ rest))
        | false ↦ regions_from input limit fuel (max d.tokens.end (suc cursor))
      ]
    ])
Found-turn input limit fuel from cursor none lexed top whole out lo run is_at again =
    again from (suc cursor) (over out run) (omega arith)
Found-turn input limit fuel from cursor (some d) lexed top whole out lo run is_at again =
    elim (Bool-cases (opens d.ty)) [
      | inl o ↦
          let (r, ran, at_start, past_start, within, is_region) =
            region-IsRegion input cursor limit d lexed (omega (arith, lo, top)) top run o
              (whole cursor d lo run o) in
          let (rest, ran_rest, in_order) = again r.tokens.end r.tokens.end here past_start in
          let moved = max_past r.tokens.end cursor past_start in
          rw (o, ran, ◌>>=◌, moved, ran_rest, ◌>>=◌)
            (
              r ∷ rest,
              refl,
              first input limit from cursor r rest (sym at_start) out past_start within ran
                  is_region in_order,
            )
      | inr o ↦
          rw (o, max_past d.tokens.end cursor is_at.1)
            (again from d.tokens.end (passed out run o) is_at.1)
    ]
  where
    first :
        (input : Input) (limit from at : ℕ) (r : Region) (rest : List Region)
        → at ≡ r.tokens.start
        → Outside input from at
        → at < r.tokens.end
        → r.tokens.end ≤ limit
        → region input at limit ≡ some r
        → IsRegion input limit at r.branches r.tokens.end r.closed
        → InOrder input limit r.tokens.end rest
        → InOrder input limit from (r ∷ rest)
    first input limit from at r rest e out past within ran is_region in_order = (
      subst (λ a. a < r.tokens.end) e past,
      within,
      subst (Outside input from) e out,
      subst (λ a. region input a limit ≡ some r) e ran,
      subst (λ a. IsRegion input limit a r.branches r.tokens.end r.closed) e is_region,
      in_order,
    )

regions_from-Found :
    (input : Input) (limit fuel from cursor : ℕ)
    → IsLexed input
    → limit ≤ len input
    → Whole input limit
    → Outside input from cursor
    → limit ≤ cursor + fuel
    → Found input limit from (regions_from input limit fuel cursor)
unfolding regions_from
regions_from-Found input limit zero from cursor lexed top whole out enough =
    rw (not_below cursor limit (omega (arith, enough)))
      ([], refl, (cursor, omega (arith, enough), out))
regions_from-Found input limit (suc fuel) from cursor lexed top whole out enough =
    elim (Bool-cases (ltb cursor limit)) [
      | inl lo ↦
          let below = below_of cursor limit lo in
          let (r, run, is_at) = parse_at_total input cursor lexed (omega (arith, below, top)) in
          rw (lo, run, ◌>>=◌)
            (Found-turn input limit fuel from cursor r lexed top whole out below run is_at
              (λ f c o more.
                regions_from-Found input limit fuel f c lexed top whole o
                  (omega (arith, more, enough))))
      | inr e ↦ rw e ([], refl, (cursor, above_of cursor limit e, out))
    ]

-- In an input whose tokens lie in its source, within a span that ends within the input and that no
-- directive which opens a region runs over, `regions` neither panics nor runs out of fuel. What it
-- gives are regions in order, each what `region` gives at an opening directive, with its branches,
-- and no directive that opens one lies in front of, between or behind them.
pub regions-InOrder :
    (input : Input) (s : TokenSpan)
    → IsLexed input
    → s.end ≤ len input
    → Whole input s.end
    → (rs : List Region) × (regions input s ≡ some rs) × InOrder input s.end s.start rs
unfolding regions
regions-InOrder input s lexed top whole =
    regions_from-Found input s.end (s.end - s.start) s.start s.start lexed top whole here
      (omega arith)
