-- ===== src/Preproc/Directive/Include/Bounds.antt =====
-- The parser of an `include` does not panic in a lexed input, and ends past its start on the line.
use astli.Prelude.{
  ℕ, suc, ◌-◌, ◌<◌, ◌≤◌, ◌≡◌, refl, arith, Bool, true, false, ◌||◌, Option, none, some,
  if◌then◌else◌, ◌>>=◌, ◌==◌, subst,
}
use astli.Preproc.Kind.{
  macro_quote, tick_ident, ident, escaped_ident, is_keyword, string_literal, lt_sign, gt_sign,
}
use astli.Preproc.Tokens.{Input, IsLexed, len, kind_at, span, id}
use astli.Preproc.Directive.{Operands}
use astli.Preproc.Directive.Operands.{malformed, include_op}
use astli.Preproc.Directive.IncludePath.{quoted, angle, expanded}
use astli.Preproc.Directive.Scan.{IsFirst, find_from, find_from-IsFirst}
use astli.Preproc.Directive.Lines.{is_significant}
use astli.Preproc.Directive.Lines.Laws.{
  kind_of, trimmed_total, end_of_line_total, significant-IsFirst,
}
use astli.Preproc.Directive.Include.{
  expanded_name, angle_path, macro_path, include_path, parse_include,
}
use astli.Preproc.Directive.Include.Arguments.{IsPast, Past, Past-if, after_arguments-IsPast}

-- Operands that end past `lo`, up to `hi`.
abbrev pub Ends : Option (Operands × ℕ) → ℕ → ℕ → Type 0
Ends o lo hi =
    (operands : Operands) × (end : ℕ) × (o ≡ some (operands, end)) × (lo < end) × (end ≤ hi)

Ends-if :
    (b : Bool) (x y : Option (Operands × ℕ)) (lo hi : ℕ)
    → Ends x lo hi
    → Ends y lo hi
    → Ends (if b then x else y) lo hi
Ends-if true x y lo hi h k = h
Ends-if false x y lo hi h k = k

-- A search for a kind on the rest of the line.
find_kind :
    (input : Input) (wanted from hi : ℕ)
    → from ≤ hi
    → hi ≤ len input
    → (r : Option ℕ) × (find_from
          (λ at. do k ← kind_at input at; some (k == wanted))
          (hi - from)
          from
        ≡ some r)
      × IsFirst (λ at. do k ← kind_at input at; some (k == wanted)) from hi r
find_kind input wanted from hi h k =
    let test : ℕ → Option Bool = (λ at. do k ← kind_at input at; some (k == wanted)) in
    let (r, run, is_first) = find_from-IsFirst test (hi - from) from (λ i lo up.
      let (kind, e) = kind_of input i (omega arith) in (kind == wanted, rw (e, ◌>>=◌) refl)) in
    (r, run, subst (λ e. IsFirst test from e r) (omega arith) is_first)

expanded_name-Past :
    (input : Input) (first kind line_end : ℕ)
    → first < line_end
    → line_end ≤ len input
    → Past (expanded_name input first kind line_end) first line_end
unfolding expanded_name
expanded_name-Past input first kind line_end h k =
    let (close, run, is_first) = find_kind input macro_quote (suc first) line_end h k in
    let (after, args, lo, hi) = after_arguments-IsPast input first line_end h k in
    let next : Past (some (some (suc first))) first line_end =
      (some (suc first), refl, (omega arith, omega (arith, h))) in
    let word =
      Past-if (is_keyword kind) (some (some (suc first))) (some none) first line_end next
        (none, refl, tt) in
    let name =
      Past-if (kind == ident || kind == escaped_ident) (some (some (suc first))) _ first line_end
        next word in
    let call =
      Past-if (kind == tick_ident) (some (some after)) _ first line_end (some after, refl, (lo, hi))
        name in
    rw (run, ◌>>=◌, args, ◌>>=◌)
      (Past-if (kind == macro_quote) _ _ first line_end (quote close is_first) call)
  where
    quote :
        (close : Option ℕ)
        → IsFirst
            (λ at. do k ← kind_at input at; some (k == macro_quote))
            (suc first)
            line_end
            close
        → Past
            (elim close as (λ c. Option (Option ℕ)) [
              | none ↦ some (some line_end)
              | some at ↦ some (some (suc at))
            ])
            first
            line_end
    quote none is_first = (some line_end, refl, (h, omega arith))
    quote (some at) is_first =
        (some (suc at), refl, (omega (arith, is_first.0), omega (arith, is_first.1)))

include_path-Ends :
    (input : Input) (first line_end : ℕ)
    → first < line_end
    → line_end ≤ len input
    → Ends (include_path input first line_end) first line_end
unfolding include_path
include_path-Ends input first line_end h k =
    let (kind, e) = kind_of input first (omega (arith, h, k)) in
    let (close, run, is_first) = find_kind input gt_sign (suc first) line_end h k in
    let (name, named, past) = expanded_name-Past input first kind line_end h k in
    let path =
      Ends-if (kind == lt_sign) (angle_path input first line_end close) _ first line_end
        (bracket close is_first) (by_macro name past) in
    rw (e, ◌>>=◌, run, ◌>>=◌, named, ◌>>=◌)
      (Ends-if (kind == string_literal) _ _ first line_end
        (include_op (quoted (id input first)), suc first, refl, omega arith, omega (arith, h)) path)
  where
    bracket :
        (close : Option ℕ)
        → IsFirst (λ at. do k ← kind_at input at; some (k == gt_sign)) (suc first) line_end close
        → Ends (angle_path input first line_end close) first line_end
    bracket none is_first = (malformed, line_end, refl, h, omega arith)
    bracket (some at) is_first =
        let (path, run) =
          trimmed_total input (suc first) at is_first.0 (omega (arith, is_first.1, k)) in
        (
          include_op (angle path),
          suc at,
          rw (run, ◌>>=◌) refl,
          omega (arith, is_first.0),
          omega (arith, is_first.1),
        )

    by_macro :
        (name : Option ℕ)
        → IsPast first line_end name
        → Ends (macro_path input first line_end name) first line_end
    by_macro none past = (malformed, line_end, refl, h, omega arith)
    by_macro (some end) past =
        let spanned : span input first end
            ≡ some (record { src_id = input.src_id; start = first; end = end }) =
          ground (arith, past.0) in
        (
          include_op (expanded (record { src_id = input.src_id; start = first; end = end })),
          end,
          rw (spanned, ◌>>=◌) refl,
          past.0,
          past.1,
        )

pub parse_include-Ends :
    (input : Input) (at : ℕ)
    → IsLexed input
    → at < len input
    → Ends (parse_include input at) at (len input)
unfolding parse_include
parse_include-Ends input at lexed h =
    let (end, run, lo, hi) = end_of_line_total input (suc at) lexed h in
    let (first, found, is_first) = significant-IsFirst input (suc at) end lo hi in
    rw (run, ◌>>=◌, found, ◌>>=◌) (path end lo hi first is_first)
  where
    path :
        (end : ℕ)
        → suc at ≤ end
        → end ≤ len input
        → (first : Option ℕ) → IsFirst (is_significant input) (suc at) end first
        → Ends
            (elim first as (λ f. Option (Operands × ℕ)) [
              | none ↦ some (malformed, end)
              | some f ↦ include_path input f end
            ])
            at
            (len input)
    path end lo hi none is_first = (malformed, end, refl, omega (arith, lo), hi)
    path end lo hi (some first) is_first =
        let (operands, past, run, more, most) = include_path-Ends input first end is_first.1 hi in
        (operands, past, run, omega (arith, is_first.0, more), omega (arith, most, hi))
