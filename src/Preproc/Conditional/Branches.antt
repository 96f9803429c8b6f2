-- ===== src/Preproc/Conditional/Branches.antt =====
-- `region` does not panic in a lexed input, ends within its fuel, and finds the branches of the region.
use astli.Prelude.{
  ℕ, zero, suc, ◌+◌, ◌-◌, ◌<◌, ◌≤◌, ◌≡◌, ◌∙◌, refl, sym, subst, arith, Bool, true, false, List, [],
  ◌∷◌, ◌++◌, Option, none, some, ltb, ◌>>=◌, Bool-cases, inl, inr,
}
use astli.Preproc.Tokens.{Input, IsLexed, len, span}
use astli.Preproc.Directive.{Directive}
use astli.Preproc.Conditional.{
  Branch, Region, Scan, Next, opens, parse_at, after_of, finish, region_step, region_from, region,
}
use astli.Preproc.Conditional.Next.{go_on, stop}
use astli.Preproc.Conditional.Walk.{IsRegion}
use astli.Preproc.Conditional.Walk.Inside.{start, over}
use astli.Preproc.Conditional.Turns.{
  IsAt, parse_at_total, IsScan, made, finish_made, after_bounds, Turns, ended, turn,
}

-- What the loop gives.
abbrev Ended : Input → ℕ → ℕ → ℕ → Option (List Branch × ℕ × Bool) → Type 0
Ended input limit at cursor o =
    (branches : List Branch) × (end : ℕ) × (closed : Bool) × (o ≡ some (branches, end, closed))
    × IsRegion input limit at branches end closed
    × (cursor ≤ end)
    × (end ≤ limit)

Ended-earlier :
    (input : Input) (limit at c c' : ℕ) (o : Option (List Branch × ℕ × Bool))
    → c ≤ c'
    → Ended input limit at c' o
    → Ended input limit at c o
Ended-earlier input limit at c c' o h (branches, end, closed, run, r, lo, hi) =
    (branches, end, closed, run, r, omega (arith, h, lo), hi)

unclosed :
    (input : Input) (limit at cursor : ℕ) (s : Scan)
    → IsScan input limit at cursor s
    → ltb cursor limit ≡ false
    → Ended input limit at cursor
        (do branches ← finish input s limit; some (branches, limit, false))
unclosed input limit at cursor s h k =
    let there : cursor ≡ limit = ground (arith, h.within, k) in
    let last = subst (λ c. IsScan input limit at c s) there h in
    (
      s.branches ++ made input s limit ∷ [],
      limit,
      false,
      rw (finish_made input s limit last.behind, ◌>>=◌) refl,
      ended input limit at limit s limit false last (refl, refl),
      h.within,
      omega arith,
    )

turned :
    (input : Input) (limit at cursor fuel : ℕ) (d : Directive) (next : Next)
    → cursor < limit
    → cursor < d.tokens.end
    → Turns input limit at (after_of d cursor limit) next
    → ((t : Scan)
        → IsScan input limit at (after_of d cursor limit) t
        → Ended input limit at
            (after_of d cursor limit)
            (region_from input limit fuel (after_of d cursor limit) t))
    → Ended input limit at cursor (elim next as (λ n. Option (List Branch × ℕ × Bool)) [
      | stop branches ↦ some (branches, after_of d cursor limit, true)
      | go_on t ↦ region_from input limit fuel (after_of d cursor limit) t
    ])
turned input limit at cursor fuel d (stop branches) lo past h again =
    let (more, top, is_after) = after_bounds d cursor limit lo past in
    (branches, after_of d cursor limit, true, refl, h, omega (arith, more), top)
turned input limit at cursor fuel d (go_on t) lo past h again =
    let (more, top, is_after) = after_bounds d cursor limit lo past in
    Ended-earlier input limit at cursor (after_of d cursor limit) _ (omega (arith, more))
      (again t h)

found_turn :
    (input : Input) (limit at cursor fuel : ℕ) (s : Scan) (r : Option Directive)
    → IsScan input limit at cursor s
    → cursor < limit
    → parse_at input cursor ≡ some r
    → IsAt input cursor r
    → ((c : ℕ) (t : Scan)
        → cursor < c
        → IsScan input limit at c t
        → Ended input limit at c (region_from input limit fuel c t))
    → Ended input limit at cursor (elim r as (λ r. Option (List Branch × ℕ × Bool)) [
      | none ↦ region_from input limit fuel (suc cursor) s
      | some d ↦ (do
        next ← region_step input limit cursor s d
        elim next [
          | stop branches ↦ some (branches, after_of d cursor limit, true)
          | go_on t ↦ region_from input limit fuel (after_of d cursor limit) t
        ])
    ])
found_turn input limit at cursor fuel s none h lo run is_at again =
    Ended-earlier input limit at cursor (suc cursor) _ (omega arith) (
      again (suc cursor) s (omega arith) (record {
        middle = h.middle;
        parsed = h.parsed;
        fits = h.fits;
        from_is = h.from_is;
        chain = h.chain;
        inside = over h.inside lo run;
        behind = omega (arith, h.behind);
        within = lo;
      }))
found_turn input limit at cursor fuel s (some d) h lo run is_at again =
    let (next, step, turns) = turn input limit at cursor s d h lo is_at.1 run in
    let (more, top, is_after) = after_bounds d cursor limit lo is_at.1 in
    rw (step, ◌>>=◌)
      (turned input limit at cursor fuel d next lo is_at.1 turns
        (λ t k. again (after_of d cursor limit) t more k))

not_below : (a b : ℕ) → b ≤ a → ltb a b ≡ false
not_below a b h = ground arith

below_of : (a b : ℕ) → ltb a b ≡ true → a < b
below_of a b h = ground arith

spanned_of :
    (input : Input) (from end : ℕ)
    → from ≤ end
    → span input from end ≡ some (record { src_id = input.src_id; start = from; end = end })
spanned_of input from end h = ground arith

region_from-Ended :
    (input : Input) (limit at fuel cursor : ℕ) (s : Scan)
    → IsLexed input
    → limit ≤ len input
    → IsScan input limit at cursor s
    → limit ≤ cursor + fuel
    → Ended input limit at cursor (region_from input limit fuel cursor s)
unfolding region_from
region_from-Ended input limit at zero cursor s lexed top h enough =
    let out = not_below cursor limit (omega (arith, enough)) in
    rw out (unclosed input limit at cursor s h out)
region_from-Ended input limit at (suc fuel) cursor s lexed top h enough =
    elim (Bool-cases (ltb cursor limit)) [
      | inl lo ↦
          let below = below_of cursor limit lo in
          let (r, run, is_at) = parse_at_total input cursor lexed (omega (arith, below)) in
          rw (lo, run, ◌>>=◌)
            (found_turn input limit at cursor fuel s r h below run is_at (λ c t more k.
              region_from-Ended input limit at fuel c t lexed top k (omega (arith, more, enough))))
      | inr out ↦ rw out (unclosed input limit at cursor s h out)
    ]

-- In an input whose tokens lie in its source, at a directive that opens a region and ends before a
-- limit within the input, `region` neither panics nor runs out of fuel. What it gives starts at that
-- directive and ends past it and up to the limit; its branches follow each other, all but the
-- first opened by an alternative, with balanced bodies; it is closed by the `endif` behind the last,
-- or runs to the limit.
pub region-IsRegion :
    (input : Input) (at limit : ℕ) (d : Directive)
    → IsLexed input
    → at < len input
    → limit ≤ len input
    → parse_at input at ≡ some (some d)
    → opens d.ty ≡ true
    → d.tokens.end ≤ limit
    → (r : Region) × (region input at limit ≡ some r)
      × (r.tokens.start ≡ at)
      × (at < r.tokens.end)
      × (r.tokens.end ≤ limit)
      × IsRegion input limit at r.branches r.tokens.end r.closed
unfolding region
region-IsRegion input at limit d lexed here top run o fits =
    let from : ℕ = d.tokens.end in
    let (r, run_at, is_at) = parse_at_total input at lexed here in
    let (starts, past, within) =
      subst (λ r. IsAt input at r) (same_directive (sym run_at ∙ run)) is_at in
    let first : Scan = record { open_by = d; from = from; branches = []; nested = 0 } in
    let (branches, end, closed, ran, is_region, lo, hi) =
      region_from-Ended input limit at (limit - from) from first lexed top
        (record {
          middle = at;
          parsed = run;
          fits = o;
          from_is = omega (arith, fits);
          chain = refl;
          inside = start;
          behind = omega arith;
          within = fits;
        })
        (omega (arith, fits)) in
    let spanned : span input at end
        ≡ some (record { src_id = input.src_id; start = at; end = end }) =
      spanned_of input at end (omega (arith, past, lo)) in
    (
      record {
        tokens = record { src_id = input.src_id; start = at; end = end };
        branches = branches;
        closed = closed;
      },
      rw (run, ◌>>=◌, ◌>>=◌, ran, ◌>>=◌, spanned, ◌>>=◌) refl,
      refl,
      omega (arith, past, lo),
      hi,
      is_region,
    )
  where
    same_directive : {a b : Option Directive} → some a ≡ some b → a ≡ b
    same_directive e = cc
