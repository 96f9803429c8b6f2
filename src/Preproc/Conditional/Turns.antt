-- ===== src/Preproc/Conditional/Turns.antt =====
-- One turn of the loop of `region`: what it keeps, and how it ends.
use astli.Prelude.{
  ℕ, suc, ◌-◌, ◌<◌, ◌≤◌, ◌≡◌, refl, sym, subst, arith, min, Bool, true, false, ◌&&◌, [], ◌∷◌, ◌++◌,
  Option, none, some, ltb, ◌==◌, ◌>>=◌, Bool-cases, inl, inr,
}
use astli.Preproc.Kind.{tick_ident}
use astli.Preproc.Tokens.{Input, IsLexed, len, span}
use astli.Preproc.Directive.{DirectiveType, Directive, lookup}
use astli.Preproc.Directive.Parse.{parse}
use astli.Preproc.Directive.Parse.Bounds.{parse-IsPlaced}
use astli.Preproc.Directive.Lines.Laws.{kind_of, text_total}
use astli.Preproc.Conditional.{
  Branch, Scan, Next, opens, alternates, closes, parse_at, taken_of, branch, after_of, finish,
  region_step,
}
use astli.Preproc.Conditional.Next.{go_on, stop}
use astli.Preproc.Conditional.Walk.{
  Inside, IsBranch, Chain, next_kind, IsEnd, IsRegion, Chain-append, next_kind-append,
}
use astli.Preproc.Conditional.Walk.Inside.{start, down, up, by}

-- A directive that stands at a token and ends past it.
abbrev pub IsAt : Input → ℕ → Option Directive → Type 0
IsAt input at none = Unit
IsAt input at (some d) = (d.tokens.start ≡ at) × (at < d.tokens.end) × (d.tokens.end ≤ len input)

pub parse_at_total :
    (input : Input) (at : ℕ)
    → IsLexed input
    → at < len input
    → (r : Option Directive) × (parse_at input at ≡ some r) × IsAt input at r
unfolding parse_at
parse_at_total input at lexed h =
    let (kind, e) = kind_of input at h in
    let (name, t) = text_total input at lexed h in
    rw (e, ◌>>=◌, t, ◌>>=◌)
      (elim (Bool-cases (kind == tick_ident)) [
        | inl c ↦ rw c (found (lookup name))
        | inr c ↦ rw c (none, refl, tt)
      ])
  where
    found :
        (o : Option DirectiveType)
        → (r : Option Directive) × (elim o as (λ o. Option (Option Directive)) [
          | none ↦ some none
          | some ty ↦ (do d ← parse ty input at; some (some d))
        ]
            ≡ some r)
          × IsAt input at r
    found none = (none, refl, tt)
    found (some ty) =
        let (d, run, same, source, starts, lo, hi) = parse-IsPlaced ty input at lexed h in
        (some d, rw (run, ◌>>=◌) refl, (starts, lo, hi))

-- What holds at every turn of the loop.
pub record IsScan (input : Input) (limit at cursor : ℕ) (s : Scan) : Type 0 where
  pub middle : ℕ
  pub parsed : parse_at input middle ≡ some (some s.open_by)
  pub fits : next_kind opens s.branches s.open_by.ty ≡ true
  pub from_is : s.from ≡ min s.open_by.tokens.end limit
  pub chain : Chain input limit opens at s.branches middle
  pub inside : Inside input limit s.from cursor s.nested
  pub behind : s.from ≤ cursor
  pub within : cursor ≤ limit

unfoldable pub made : Input → Scan → ℕ → Branch
made input s end = record {
  taken = taken_of s.open_by.ty s.open_by.operands;
  directive = s.open_by.tokens;
  body = record { src_id = input.src_id; start = s.from; end = end };
}

made-IsBranch :
    (input : Input) (limit at cursor : ℕ) (s : Scan) (h : IsScan input limit at cursor s)
    → IsBranch input limit (next_kind opens s.branches) h.middle (made input s cursor) s.nested
unfolding made
made-IsBranch input limit at cursor s h = record {
  opener = s.open_by;
  parsed = h.parsed;
  fits = h.fits;
  directive = refl;
  taken = refl;
  body_start = h.from_is;
  ordered = h.behind;
  inside = h.inside;
}

pub finish_made :
    (input : Input) (s : Scan) (end : ℕ)
    → s.from ≤ end
    → finish input s end ≡ some (s.branches ++ made input s end ∷ [])
unfolding made branch
finish_made input s end h =
    let spanned : span input s.from end
        ≡ some (record { src_id = input.src_id; start = s.from; end = end }) =
      ground arith in
    rw (spanned, ◌>>=◌) refl

pub after_bounds :
    (d : Directive) (c limit : ℕ)
    → c < limit
    → c < d.tokens.end
    → (c < after_of d c limit)
      × (after_of d c limit ≤ limit)
      × (after_of d c limit ≡ min d.tokens.end limit)
after_bounds d c limit h k = (omega arith, omega arith, omega arith)

-- A turn goes on with what holds, or ends the region.
abbrev pub Turns : Input → ℕ → ℕ → ℕ → Next → Type 0
Turns input limit at after (go_on t) = IsScan input limit at after t
Turns input limit at after (stop branches) = IsRegion input limit at branches after true

pub ended :
    (input : Input) (limit at cursor : ℕ) (s : Scan) (end : ℕ) (closed : Bool)
    → IsScan input limit at cursor s
    → IsEnd input limit closed s.nested cursor end
    → IsRegion input limit at (s.branches ++ made input s cursor ∷ []) end closed
ended input limit at cursor s end closed h k = record {
  front = s.branches;
  final = made input s cursor;
  middle = h.middle;
  depth = s.nested;
  all = refl;
  chain = h.chain;
  last = made-IsBranch input limit at cursor s h;
  ends = unfold made in k;
}

-- The alternative that a directive at the cursor opens.
continued :
    (input : Input) (limit at cursor : ℕ) (s : Scan) (d : Directive)
    → IsScan input limit at cursor s
    → cursor < limit
    → cursor < d.tokens.end
    → parse_at input cursor ≡ some (some d)
    → alternates d.ty ≡ true
    → s.nested ≡ 0
    → IsScan input limit at (after_of d cursor limit) (record s {
      open_by = d;
      from = after_of d cursor limit;
      branches = s.branches ++ made input s cursor ∷ [];
    })
continued input limit at cursor s d h lo past run alt outer =
    let (more, top, is_after) = after_bounds d cursor limit lo past in
    let closed =
      subst
        (λ n. IsBranch input limit (next_kind opens s.branches) h.middle (made input s cursor) n)
        outer (made-IsBranch input limit at cursor s h) in
    record {
      middle = cursor;
      parsed = run;
      fits =
          subst (λ k. k d.ty ≡ true) (sym (next_kind-append opens s.branches (made input s cursor)))
            alt;
      from_is = is_after;
      chain =
          unfold made in
          Chain-append input limit opens at s.branches (made input s cursor) h.middle h.chain
            closed;
      inside =
          subst (λ n. Inside input limit (after_of d cursor limit) (after_of d cursor limit) n)
            (sym outer) start;
      behind = omega arith;
      within = top;
    }

both_left : (a b : Bool) → (a && b) ≡ true → a ≡ true
both_left true b h = refl
both_left false b h = h

pub turn :
    (input : Input) (limit at cursor : ℕ) (s : Scan) (d : Directive)
    → IsScan input limit at cursor s
    → cursor < limit
    → cursor < d.tokens.end
    → parse_at input cursor ≡ some (some d)
    → (next : Next) × (region_step input limit cursor s d ≡ some next)
      × Turns input limit at (after_of d cursor limit) next
unfolding region_step
turn input limit at cursor s d h lo past run =
    let (more, top, is_after) = after_bounds d cursor limit lo past in
    let moved = h.behind in
    let closing : Bool = closes d.ty && ltb 0 s.nested in
    let alternative : Bool = alternates d.ty && s.nested == 0 in
    let made_before = finish_made input s cursor moved in
    elim (Bool-cases (opens d.ty)) [
      | inl o ↦ (
        go_on (record s { nested = suc s.nested }),
        rw o refl,
        record {
          middle = h.middle;
          parsed = h.parsed;
          fits = h.fits;
          from_is = h.from_is;
          chain = h.chain;
          inside = down h.inside lo run o;
          behind = omega (arith, moved, more);
          within = top;
        },
      )
      | inr o ↦ elim (Bool-cases closing) [
        | inl c ↦ (
          go_on (record s { nested = s.nested - 1 }),
          rw (o, c) refl,
          record {
            middle = h.middle;
            parsed = h.parsed;
            fits = h.fits;
            from_is = h.from_is;
            chain = h.chain;
            inside =
                up (subst (λ m. Inside input limit s.from cursor m) (ground (arith, c)) h.inside) lo
                  run (both_left (closes d.ty) _ c);
            behind = omega (arith, moved, more);
            within = top;
          },
        )
        | inr c ↦ elim (Bool-cases alternative) [
          | inl a ↦ (
            go_on (record s {
              open_by = d;
              from = after_of d cursor limit;
              branches = s.branches ++ made input s cursor ∷ [];
            }),
            rw (o, c, a, made_before, ◌>>=◌) refl,
            continued input limit at cursor s d h lo past run (both_left (alternates d.ty) _ a)
                (ground (arith, a)),
          )
          | inr a ↦ elim (Bool-cases (closes d.ty)) [
            | inl e ↦ (
              stop (s.branches ++ made input s cursor ∷ []),
              rw (o, c, a, e, made_before, ◌>>=◌) refl,
              ended input limit at cursor s (after_of d cursor limit) true h
                  (d, ground (arith, c, e), run, e, refl),
            )
            | inr e ↦ (
              go_on s,
              rw (o, c, a, e) refl,
              record {
                middle = h.middle;
                parsed = h.parsed;
                fits = h.fits;
                from_is = h.from_is;
                chain = h.chain;
                inside = by h.inside lo run o e (λ b. ground (arith, a, b));
                behind = omega (arith, moved, more);
                within = top;
              },
            )
          ]
        ]
      ]
    ]
