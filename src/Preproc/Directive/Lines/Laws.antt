-- ===== src/Preproc/Directive/Lines/Laws.antt =====
-- In a lexed input nothing panics, and what a scan finds is in its range.
use astli.Prelude.{
  ℕ, zero, suc, ◌+◌, ◌-◌, ◌<◌, ◌≤◌, ◌≡◌, ◌∙◌, inl, inr, ◌⊎◌, refl, sym, subst, arith, Bool, true,
  false, Option, none, some, List, [], ◌∷◌, All, if◌then◌else◌, ◌>>=◌, get_elem?, take, drop, any,
  ◌==◌, is_some, get_elem?_of_lt,
}
use astli.Preproc.Kind.{whitespace, eof}
use astli.Preproc.Tokens.{Token, Input, TokenSpan, IsInside, IsLexed, len, kind_at, text_of, text}
use astli.Preproc.Directive.Scan.{
  find_from, find_back, find_from-IsFirst, find_back-IsLast, IsFirst, IsLast,
}
use astli.Preproc.Directive.Lines.{
  means, alone, is_significant, significant, all_eof, ends_line, trim, end_of_line, trimmed,
}

pub kind_of : (input : Input) (at : ℕ) → at < len input → (k : ℕ) × (kind_at input at ≡ some k)
kind_of input at h = let (t, e) = get_elem?_of_lt input.tokens at h in (t.kind, rw (e, ◌>>=◌) refl)

is_significant_of :
    (input : Input) (at : ℕ) → at < len input → (b : Bool) × (is_significant input at ≡ some b)
is_significant_of input at h = let (k, e) = kind_of input at h in (means k, rw (e, ◌>>=◌) refl)

pub significant-IsFirst :
    (input : Input) (from end : ℕ)
    → from ≤ end
    → end ≤ len input
    → (r : Option ℕ) × (significant input from end ≡ some r)
      × IsFirst (is_significant input) from end r
unfolding significant
significant-IsFirst input from end h k =
    let (r, run, is_first) =
      find_from-IsFirst (is_significant input) (end - from) from
        (λ i lo hi. is_significant_of input i (omega arith)) in
    (r, run, subst (λ e. IsFirst (is_significant input) from e r) (omega arith) is_first)

All-get_elem? :
    {A : Type 0} (P : A → Type 0) (xs : List A) (i : ℕ) (x : A)
    → All P xs
    → get_elem? xs i ≡ some x
    → P x
All-get_elem? P [] i x h e = cc
All-get_elem? P (y ∷ xs) zero x h e =
    subst (λ o. elim o as (λ o. Type 0) [ none ↦ P x | some z ↦ P z ]) e h.0
All-get_elem? P (y ∷ xs) (suc i) x h e = All-get_elem? P xs i x h.1 e

text_of_inside :
    (source : List ℕ) (t : Token) → IsInside source t → (s : List ℕ) × (text_of t source ≡ some s)
text_of_inside source t h =
    (take (t.end - t.start) (drop t.start source), ground (arith, h.ordered, h.in_source))

pub text_total :
    (input : Input) (at : ℕ)
    → IsLexed input
    → at < len input
    → (s : List ℕ) × (text input at ≡ some s)
text_total input at lexed h =
    let (t, e) = get_elem?_of_lt input.tokens at h in
    let (s, run) =
      text_of_inside input.source t
        (All-get_elem? (IsInside input.source) input.tokens at t lexed e) in
    (s, rw (e, ◌>>=◌) run)

all_eof_total :
    (input : Input) (n at : ℕ) → at + n ≤ len input → (b : Bool) × (all_eof input n at ≡ some b)
all_eof_total input zero at h = (true, refl)
all_eof_total input (suc n) at h =
    let (k, e) = kind_of input at (omega arith) in
    let (b, run) = all_eof_total input n (suc at) (omega arith) in
    (if k == eof then b else false, rw (e, ◌>>=◌, run) (pick (k == eof) b))
  where
    pick : (c b : Bool) → (if c then some b else some false) ≡ some (if c then b else false)
    pick true b = refl
    pick false b = refl

ends_line_total :
    (input : Input) (at : ℕ)
    → IsLexed input
    → at < len input
    → (b : Bool) × (ends_line input at ≡ some b)
unfolding ends_line
ends_line_total input at lexed h =
    let (t, e) = get_elem?_of_lt input.tokens at h in
    let (s, text_run) =
      text_of_inside input.source t
        (All-get_elem? (IsInside input.source) input.tokens at t lexed e) in
    let (b, eof_run) = all_eof_total input (len input - suc at) (suc at) (omega arith) in
    (
      if t.kind == whitespace then (if any (λ c. c == 10) s then true else b) else t.kind == eof,
      rw (e, ◌>>=◌, text_run, ◌>>=◌, eof_run)
          (pick (t.kind == whitespace) (any (λ c. c == 10) s) b (t.kind == eof)),
    )
  where
    pick :
        (c d b k : Bool)
        → (if c then (if d then some true else some b) else some k)
          ≡ some (if c then (if d then true else b) else k)
    pick true true b k = refl
    pick true false b k = refl
    pick false d b k = refl

-- The end of a line is the first token that ends it, or the end of the input.
pub end_of_line_total :
    (input : Input) (from : ℕ)
    → IsLexed input
    → from ≤ len input
    → (end : ℕ) × (end_of_line input from ≡ some end) × (from ≤ end) × (end ≤ len input)
unfolding end_of_line
end_of_line_total input from lexed h =
    let (r, run, is_first) =
      find_from-IsFirst (ends_line input) (len input - from) from
        (λ i lo hi. ends_line_total input i lexed (omega arith)) in
    found r run is_first
  where
    found :
        (r : Option ℕ)
        → find_from (ends_line input) (len input - from) from ≡ some r
        → IsFirst (ends_line input) from (from + (len input - from)) r
        → (end : ℕ) × (end_of_line input from ≡ some end) × (from ≤ end) × (end ≤ len input)
    found none run is_first = (len input, rw (run, ◌>>=◌) refl, h, omega arith)
    found (some at) run is_first = (at, rw (run, ◌>>=◌) refl, is_first.0, omega (arith, is_first.1))

-- A range without what means nothing at its ends, and with all that means something.
pub record IsTrimmed (input : Input) (from end : ℕ) (range : ℕ × ℕ) : Type 0 where
  pub starts : from ≤ range.0
  pub ordered : range.0 ≤ range.1
  pub ends : range.1 ≤ end
  pub keeps :
      (i : ℕ)
      → from ≤ i
      → i < end
      → is_significant input i ≡ some true
      → (range.0 ≤ i) × (i < range.1)
  pub first_means : range.0 < range.1 → is_significant input range.0 ≡ some true
  pub last_means : range.0 < range.1 → is_significant input (range.1 - 1) ≡ some true

alone_lem :
    (input : Input) (at : ℕ) (b : Bool) → is_significant input at ≡ some b → alone input at ≡ some b
unfolding alone significant
alone_lem input at b e = rw (one at) (rw (e, ◌>>=◌) (pick b))
  where
    one : (n : ℕ) → suc n - n ≡ 1
    one n = omega arith

    pick :
        (c : Bool)
        → (do found ← (if c then some (some at) else some none); some (is_some found)) ≡ some c
    pick true = refl
    pick false = refl

alone_back :
    (input : Input) (at : ℕ) (c : Bool)
    → at < len input
    → alone input at ≡ some c
    → is_significant input at ≡ some c
alone_back input at c h e =
    let (b, k) = is_significant_of input at h in k ∙ sym (alone_lem input at b k) ∙ e

true-false : {o : Option Bool} → o ≡ some true → o ≡ some false → ⊥
true-false h k = cc

split : (a b : ℕ) → (a < b) ⊎ (b ≤ a)
split a b = ground arith

not_below :
    (input : Input) (from end a i : ℕ)
    → IsFirst (is_significant input) from end (some a)
    → from ≤ i
    → is_significant input i ≡ some true
    → a ≤ i
not_below input from end a i is_first lo e = elim (split i a) [
  | inl below ↦ absurd (true-false e (is_first.3 i lo below))
  | inr h ↦ h
]

not_above :
    (input : Input) (from end z i : ℕ)
    → IsLast (alone input) from end (some z)
    → i < end
    → is_significant input i ≡ some true
    → i < suc z
not_above input from end z i is_last hi e = elim (split z i) [
  | inl above ↦ absurd (true-false (alone_lem input i true e) (is_last.3 i above hi))
  | inr h ↦ omega (arith, h)
]

-- `trim` does not panic in a range of a lexed input, and leaves exactly what means something.
pub trim-IsTrimmed :
    (input : Input) (from end : ℕ)
    → from ≤ end
    → end ≤ len input
    → (range : ℕ × ℕ) × (trim input from end ≡ some range) × IsTrimmed input from end range
unfolding trim
trim-IsTrimmed input from end h k =
    let (first, run, is_first) = significant-IsFirst input from end h k in
    let (last, run_back, is_last) = find_back-IsLast (alone input) (end - from) from (λ i lo hi.
      let (b, e) = is_significant_of input i (omega arith) in (b, alone_lem input i b e)) in
    both first last run run_back is_first
      (subst (λ e. IsLast (alone input) from e last) (omega arith) is_last)
  where
    both :
        (first last : Option ℕ)
        → significant input from end ≡ some first
        → find_back (alone input) (end - from) from ≡ some last
        → IsFirst (is_significant input) from end first
        → IsLast (alone input) from end last
        → (range : ℕ × ℕ) × (trim input from end ≡ some range) × IsTrimmed input from end range
    both none last run run_back is_first is_last = (
      (from, from),
      rw (run, ◌>>=◌) refl,
      record {
        starts = omega arith;
        ordered = omega arith;
        ends = h;
        keeps = λ i lo hi e. absurd (true-false e (is_first i lo hi));
        first_means = λ m. absurd (omega arith);
        last_means = λ m. absurd (omega arith);
      },
    )
    both (some a) none run run_back is_first is_last = absurd (
        true-false is_first.2
          (alone_back input a false (omega (arith, is_first.1)) (is_last a is_first.0 is_first.1)))
    both (some a) (some z) run run_back is_first is_last =
        let means_z = alone_back input z true (omega (arith, is_last.1)) is_last.2 in
        (
          (a, suc z),
          rw (run, ◌>>=◌, run_back, ◌>>=◌) refl,
          record {
            starts = is_first.0;
            ordered = omega (arith, not_below input from end a z is_first is_last.0 means_z);
            ends = omega (arith, is_last.1);
            keeps = λ i lo hi e. (
              not_below input from end a i is_first lo e,
              not_above input from end z i is_last hi e,
            );
            first_means = λ m. is_first.2;
            last_means = λ m. subst (λ n. is_significant input n ≡ some true) (omega arith) means_z;
          },
        )

pub trimmed_total :
    (input : Input) (from end : ℕ)
    → from ≤ end
    → end ≤ len input
    → (t : TokenSpan) × (trimmed input from end ≡ some t)
trimmed_total input from end h k =
    let (range, run, trim_of) = trim-IsTrimmed input from end h k in
    (
      record { src_id = input.src_id; start = range.0; end = range.1 },
      rw (run, ◌>>=◌) (ground (arith, trim_of.ordered)),
    )
