-- ===== src/Preproc/Directive/Define/Bounds.antt =====
-- The parser of a `define` does not panic in a lexed input, and ends with the line.
use astli.Prelude.{
  ℕ, zero, suc, ◌+◌, ◌-◌, ◌<◌, ◌≤◌, min, ◌≡◌, refl, arith, Bool, true, false, not, ◌&&◌, ◌||◌,
  Option, none, some, List, [], ◌∷◌, ◌++◌, if◌then◌else◌, ◌>>=◌, get_elem?, ◌==◌, is_some,
  get_elem?_of_lt, lt_of_get_elem?, Option-cases, inl, inr,
}
use astli.Preproc.Kind.{l_paren, r_paren, comma, eq_sign, is_trivia, line_continuation}
use astli.Preproc.Directive.Operands.{malformed, define_op}
use astli.Preproc.Tokens.{Input, IsLexed, len, span, id}
use astli.Preproc.Directive.{Formal, Operands}
use astli.Preproc.Directive.Lines.Laws.{
  kind_of, trimmed_total, end_of_line_total, significant-IsFirst,
}
use astli.Preproc.Directive.Scan.{IsFirst}
use astli.Preproc.Directive.Lines.{is_significant, significant, end_of_line}
use astli.Preproc.Directive.Define.{
  Formals, push_formal, formal_step, formals_from, parse_formals, formals_after, define_named,
  parse_define,
}

-- Where the default of a formal starts is behind the cursor.
abbrev pub IsBehind : Option ℕ → ℕ → Type 0
IsBehind none cursor = Unit
IsBehind (some from) cursor = from ≤ cursor

IsBehind-suc : (from : Option ℕ) (cursor : ℕ) → IsBehind from cursor → IsBehind from (suc cursor)
IsBehind-suc none cursor h = tt
IsBehind-suc (some from) cursor h = omega (arith, h)

push_formal_total :
    (input : Input) (cursor : ℕ) (current : Option Formal) (from : Option ℕ) (formals : List Formal)
    → IsBehind from cursor
    → cursor ≤ len input
    → (r : List Formal) × (push_formal input cursor current from formals ≡ some r)
push_formal_total input cursor none from formals h k = (formals, refl)
push_formal_total input cursor (some f) none formals h k = (formals ++ f ∷ [], refl)
push_formal_total input cursor (some f) (some from) formals h k =
    let (value, e) = trimmed_total input from cursor h k in
    (formals ++ record f { default = some value } ∷ [], rw (e, ◌>>=◌) refl)

abbrev IsKept : Option Formals → ℕ → Type 0
IsKept none cursor = Unit
IsKept (some s) cursor = IsBehind s.default_from cursor

abbrev Steps : Option (Option Formals) → ℕ → Type 0
Steps o cursor = (next : Option Formals) × (o ≡ some next) × IsKept next cursor

some_step :
    (t : Formals) (cursor : ℕ) → IsBehind t.default_from cursor → Steps (some (some t)) cursor
some_step t cursor h = (some t, refl, h)

one_of :
    (b : Bool) (x y : Option (Option Formals)) (cursor : ℕ)
    → Steps x cursor
    → Steps y cursor
    → Steps (if b then x else y) cursor
one_of true x y cursor h k = h
one_of false x y cursor h k = k

left-IsBehind :
    (b : Bool) (from : Option ℕ) (cursor : ℕ)
    → IsBehind from cursor
    → IsBehind (if b then none else from) cursor
left-IsBehind true from cursor h = tt
left-IsBehind false from cursor h = h

formal_step-Steps :
    (input : Input) (cursor : ℕ) (s : Formals)
    → IsBehind s.default_from cursor
    → cursor < len input
    → Steps (formal_step input cursor s) (suc cursor)
unfolding formal_step
formal_step-Steps input cursor s h k =
    let (kind, e) = kind_of input cursor k in
    let kept = IsBehind-suc s.default_from cursor h in
    let started : suc cursor ≤ suc cursor = omega arith in
    let (pushed, push) =
      push_formal_total input cursor s.current s.default_from s.formals h (omega (arith, k)) in
    let cleared : Formals = record s {
      current = none;
      default_from = if is_some s.current then none else s.default_from;
      formals = pushed;
    } in
    let named : Formals = record s {
      current = some (record { name = id input cursor; default = none });
    } in
    let outermost : Bool = s.depth == 1 in
    let same = some_step s (suc cursor) kept in
    let then_named =
      one_of (outermost && not (is_some s.current)) (some (some named)) (some (some s)) (suc cursor)
        (some_step named (suc cursor) kept) same in
    let then_trivia =
      one_of (is_trivia kind || kind == line_continuation) (some (some s)) _ (suc cursor) same
        then_named in
    let then_default =
      one_of (kind == eq_sign && outermost && is_some s.current && not (is_some s.default_from))
        (some (some (record s { default_from = some (suc cursor) }))) _ (suc cursor)
        (some_step (record s { default_from = some (suc cursor) }) (suc cursor) started)
        then_trivia in
    let then_comma =
      one_of (kind == comma && outermost) (some (some cleared)) _ (suc cursor)
        (some_step cleared (suc cursor)
          (left-IsBehind (is_some s.current) s.default_from (suc cursor) kept))
        then_default in
    let then_close =
      one_of (kind == r_paren) (some (some (record s { depth = s.depth - 1 }))) _ (suc cursor)
        (some_step (record s { depth = s.depth - 1 }) (suc cursor) kept) then_comma in
    let then_end =
      one_of (kind == r_paren && outermost) (some none) _ (suc cursor) (none, refl, tt)
        then_close in
    rw (e, ◌>>=◌, push, ◌>>=◌)
      (one_of (kind == l_paren) (some (some (record s { depth = suc s.depth }))) _ (suc cursor)
        (some_step (record s { depth = suc s.depth }) (suc cursor) kept) then_end)

formals_from_total :
    (input : Input) (n cursor : ℕ) (s : Formals)
    → IsBehind s.default_from cursor
    → (0 < n → cursor + n ≤ len input)
    → (t : Formals) × (at : ℕ) × (formals_from input n cursor s ≡ some (t, at))
      × IsBehind t.default_from at
      × (at ≤ cursor + n)
unfolding formals_from
formals_from_total input zero cursor s h k = (s, cursor, refl, h, omega arith)
formals_from_total input (suc n) cursor s h k =
    let (next, run, kept) = formal_step-Steps input cursor s h (omega (arith, k (omega arith))) in
    onward next run kept
      (λ t h. formals_from_total input n (suc cursor) t h (λ p. omega (arith, k (omega arith))))
  where
    onward :
        (next : Option Formals)
        → formal_step input cursor s ≡ some next
        → IsKept next (suc cursor)
        → ((t : Formals)
            → IsBehind t.default_from (suc cursor)
            → (u : Formals) × (at : ℕ) × (formals_from input n (suc cursor) t ≡ some (u, at))
              × IsBehind u.default_from at
              × (at ≤ suc cursor + n))
        → (t : Formals) × (at : ℕ) × (formals_from input (suc n) cursor s ≡ some (t, at))
          × IsBehind t.default_from at
          × (at ≤ cursor + suc n)
    onward none run kept again = (s, cursor, rw (run, ◌>>=◌) refl, h, omega arith)
    onward (some t) run kept again =
        let (u, at, more, behind, bound) = again t kept in
        (u, at, rw (run, ◌>>=◌) more, behind, omega (arith, bound))

parse_formals_total :
    (input : Input) (at end : ℕ)
    → at < len input
    → end ≤ len input
    → (formals : List Formal) × (after : ℕ) × (parse_formals input at end ≡ some (formals, after))
unfolding parse_formals
parse_formals_total input at end h k =
    let (s, cursor, run, behind, bound) =
      formals_from_total input (end - suc at) (suc at)
        (record { depth = 1; current = none; default_from = none; formals = [] }) tt
        (λ p. omega arith) in
    let (formals, pushed) =
      push_formal_total input cursor s.current s.default_from s.formals behind
        (omega (arith, bound)) in
    (formals, min (suc cursor) end, rw (run, ◌>>=◌, pushed, ◌>>=◌) refl)

formals_after_total :
    (input : Input) (name end : ℕ)
    → name < len input
    → end ≤ len input
    → (formals : Option (List Formal)) × (body : ℕ) × (formals_after input name end
        ≡ some (formals, body))
unfolding formals_after
formals_after_total input name end h k = elim (Option-cases (get_elem? input.tokens (suc name))) [
  | inl e ↦ (none, suc name, rw (e, formals_after) refl)
  | inr found ↦
      let (t, e) = found in
      let (before, run) = get_elem?_of_lt input.tokens name h in
      let (formals, after, parsed) =
        parse_formals_total input (suc name) end (lt_of_get_elem? input.tokens (suc name) t e) k in
      rw (e, formals_after)
        (rw (run, ◌>>=◌, parsed, ◌>>=◌)
          (pick (t.kind == l_paren && t.start == before.end) (some formals) after))
]
  where
    pick :
        (b : Bool) (formals : Option (List Formal)) (after : ℕ)
        → (f : Option (List Formal)) × (body : ℕ) × (if◌then◌else◌
              {A = Option (Option (List Formal) × ℕ)} b
              (some (formals, after))
              (some (none, suc name))
            ≡ some (f, body))
    pick true formals after = (formals, after, refl)
    pick false formals after = (none, suc name, refl)

define_named_total :
    (input : Input) (at name end : ℕ)
    → at ≤ end
    → name < len input
    → end ≤ len input
    → (operands : Operands) × (define_named input at name end ≡ some (operands, end))
unfolding define_named
define_named_total input at name end h n k =
    let (formals, body, run) = formals_after_total input name end n k in
    let (t, trim_run) = trimmed_total input (min body end) end (omega arith) k in
    let spanned : span input at end
        ≡ some (record { src_id = input.src_id; start = at; end = end }) =
      ground arith in
    (
      define_op (record {
        tokens = record { src_id = input.src_id; start = at; end = end };
        name = id input name;
        formals = formals;
        body = t;
      }),
      rw (run, ◌>>=◌, spanned, ◌>>=◌, trim_run, ◌>>=◌) refl,
    )

pub parse_define_total :
    (input : Input) (at : ℕ)
    → IsLexed input
    → at < len input
    → (operands : Operands) × (end : ℕ) × (parse_define input at ≡ some (operands, end))
      × (at < end)
      × (end ≤ len input)
      × (end_of_line input (suc at) ≡ some end)
unfolding parse_define
parse_define_total input at lexed h =
    let (end, run, lo, hi) = end_of_line_total input (suc at) lexed h in
    let (name, found, is_first) = significant-IsFirst input (suc at) end lo hi in
    named end run lo hi name found is_first
  where
    named :
        (end : ℕ)
        → end_of_line input (suc at) ≡ some end
        → suc at ≤ end
        → end ≤ len input
        → (name : Option ℕ) → significant input (suc at) end ≡ some name
        → IsFirst (is_significant input) (suc at) end name
        → (operands : Operands) × (end : ℕ) × (parse_define input at ≡ some (operands, end))
          × (at < end)
          × (end ≤ len input)
          × (end_of_line input (suc at) ≡ some end)
    named end run lo hi none found is_first =
        (malformed, end, rw (run, ◌>>=◌, found, ◌>>=◌) refl, omega (arith, lo), hi, run)
    named end run lo hi (some name) found is_first =
        let (operands, parsed) =
          define_named_total input at name end (omega (arith, lo)) (omega (arith, is_first.1, hi))
            hi in
        (operands, end, rw (run, ◌>>=◌, found, ◌>>=◌) parsed, omega (arith, lo), hi, run)
