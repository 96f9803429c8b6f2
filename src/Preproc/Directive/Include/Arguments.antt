-- ===== src/Preproc/Directive/Include/Arguments.antt =====
-- The arguments of a macro that an `include` names: where they end on the line.
use astli.Prelude.{
  ℕ, zero, suc, ◌+◌, ◌-◌, ◌<◌, ◌≤◌, ◌≡◌, refl, arith, Bool, true, false, ◌&&◌, Option, none, some,
  if◌then◌else◌, ◌>>=◌, ◌==◌, subst, ap, ◌∙◌, Bool-cases, inl, inr, ==_iff,
}
use astli.Preproc.Kind.{SyntaxKind, l_paren, r_paren}
use astli.Preproc.Tokens.{Input, len, kind_at}
use astli.Preproc.Directive.Scan.{IsFirst}
use astli.Preproc.Directive.Lines.{is_significant}
use astli.Preproc.Directive.Lines.Laws.{kind_of, significant-IsFirst}
use astli.Preproc.Directive.Include.{depth_after, closing, opening, after_arguments}

-- A place past `lo`, up to `hi`, if there is one.
abbrev pub IsPast : ℕ → ℕ → Option ℕ → Type 0
IsPast lo hi none = Unit
IsPast lo hi (some at) = (lo < at) × (at ≤ hi)

abbrev pub Past : Option (Option ℕ) → ℕ → ℕ → Type 0
Past o lo hi = (r : Option ℕ) × (o ≡ some r) × IsPast lo hi r

pub Past-if :
    (b : Bool) (x y : Option (Option ℕ)) (lo hi : ℕ)
    → Past x lo hi
    → Past y lo hi
    → Past (if b then x else y) lo hi
Past-if true x y lo hi h k = h
Past-if false x y lo hi h k = k

IsPast-suc : (lo hi : ℕ) (r : Option ℕ) → IsPast (suc lo) hi r → IsPast lo hi r
IsPast-suc lo hi none h = tt
IsPast-suc lo hi (some at) h = (omega (arith, h.0), h.1)

depth_after_total :
    (kind : SyntaxKind) (depth : ℕ)
    → 0 < depth
    → (d : ℕ) × (depth_after kind depth ≡ some d)
      × (((kind == r_paren) && (d == 0)) ≡ false → 0 < d)
depth_after_total kind depth h = elim (Bool-cases (kind == l_paren)) [
  | inl e ↦ (suc depth, rw e refl, λ f. omega arith)
  | inr n ↦ elim (Bool-cases (kind == r_paren)) [
    | inl e ↦ (depth - 1, ground arith, λ f. ground (arith, f))
    | inr m ↦ (depth, ground arith, λ f. h)
  ]
]

closing-Past :
    (input : Input) (n at depth : ℕ)
    → (0 < n → at + n ≤ len input)
    → 0 < depth
    → Past (closing input n at depth) at (at + n)
unfolding closing
closing-Past input zero at depth h k = (none, refl, tt)
closing-Past input (suc n) at depth h k =
    let (kind, e) = kind_of input at (omega (arith, h (omega arith))) in
    let (left, d, deeper) = depth_after_total kind depth k in
    rw (e, ◌>>=◌, d, ◌>>=◌)
      (elim (Bool-cases ((kind == r_paren) && (left == 0))) [
        | inl c ↦ (some (suc at), rw c refl, (omega arith, omega arith))
        | inr c ↦
            let (r, run, past) =
              closing-Past input n (suc at) left (λ p. omega (arith, h (omega arith))) (deeper c) in
            (
              r,
              rw c run,
              subst (λ hi. IsPast at hi r) (omega arith) (IsPast-suc at (suc at + n) r past),
            )
      ])

-- The search from the parenthesis that opens.
closing-Past_open :
    (input : Input) (n at : ℕ)
    → at + n ≤ len input
    → kind_at input at ≡ some l_paren
    → Past (closing input n at 0) at (at + n)
unfolding closing
closing-Past_open input zero at h e = (none, refl, tt)
closing-Past_open input (suc n) at h e =
    let (r, run, past) = closing-Past input n (suc at) 1 (λ p. omega (arith, h)) (omega arith) in
    (
      r,
      rw (e, ◌>>=◌) run,
      subst (λ hi. IsPast at hi r) (omega arith) (IsPast-suc at (suc at + n) r past),
    )

opening_total :
    (input : Input) (lo hi : ℕ) (found : Option ℕ)
    → hi ≤ len input
    → IsFirst (is_significant input) lo hi found
    → (r : Option ℕ) × (opening input found ≡ some r) × (elim r as (λ r. Type 0) [
      | none ↦ Unit
      | some at ↦ (lo ≤ at) × (at < hi) × (kind_at input at ≡ some l_paren)
    ])
opening_total input lo hi none h is_first = (none, refl, tt)
opening_total input lo hi (some at) h is_first =
    let (kind, e) = kind_of input at (omega (arith, is_first.1)) in
    rw (e, ◌>>=◌)
      (elim (Bool-cases (kind == l_paren)) [
        | inl c ↦
            (some at, rw c refl, (is_first.0, is_first.1, e ∙ ap some ((==_iff kind l_paren).0 c)))
        | inr c ↦ (none, rw c refl, tt)
      ])

pub after_arguments-IsPast :
    (input : Input) (name line_end : ℕ)
    → name < line_end
    → line_end ≤ len input
    → (after : ℕ) × (after_arguments input name line_end ≡ some after)
      × (name < after)
      × (after ≤ line_end)
unfolding after_arguments
after_arguments-IsPast input name line_end h k =
    let (found, run, is_first) = significant-IsFirst input (suc name) line_end h k in
    let (open_at, opened, at_paren) = opening_total input (suc name) line_end found k is_first in
    rw (run, ◌>>=◌, opened, ◌>>=◌) (closed open_at at_paren)
  where
    picked :
        (at : ℕ) (close : Option ℕ)
        → suc name ≤ at
        → IsPast at line_end close
        → (after : ℕ) × (elim close as (λ c. Option ℕ) [ none ↦ some line_end | some a ↦ some a ]
            ≡ some after)
          × (name < after)
          × (after ≤ line_end)
    picked at none lo past = (line_end, refl, h, omega arith)
    picked at (some after) lo past = (after, refl, omega (arith, lo, past.0), past.1)

    closed :
        (open_at : Option ℕ)
        → (elim open_at as (λ r. Type 0) [
          | none ↦ Unit
          | some at ↦ (suc name ≤ at) × (at < line_end) × (kind_at input at ≡ some l_paren)
        ])
        → (after : ℕ) × (elim open_at as (λ o. Option ℕ) [
          | none ↦ some (suc name)
          | some at ↦ (do
            close ← closing input (line_end - at) at 0
            elim close [ none ↦ some line_end | some a ↦ some a ])
        ]
            ≡ some after)
          × (name < after)
          × (after ≤ line_end)
    closed none at_paren = (suc name, refl, omega arith, omega (arith, h))
    closed (some at) at_paren =
        let (close, run, past) =
          closing-Past_open input (line_end - at) at (omega (arith, k, at_paren.1)) at_paren.2 in
        rw (run, ◌>>=◌)
          (picked at close at_paren.0
            (subst (λ hi. IsPast at hi close) (omega (arith, at_paren.1)) past))
