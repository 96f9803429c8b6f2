-- ===== src/Fmt/Doc/Token/Written.antt =====
-- The document of a token is printed as the token was written.
use astli.Prelude.{
  ℕ, zero, suc, ◌≡◌, ◌∙◌, refl, ap, ap₂, sym, Bool, true, false, List, [], ◌∷◌, ◌++◌, Option, none,
  some, if◌then◌else◌, ◌==◌, ◌>>=◌, ==_iff, Bool-cases, inl, inr, append_nil, append_assoc, length,
  replicate,
}
use astli.Fmt.Doc.{Chars, Doc, Anchor, Verbatim, Gap, Printer, Command}
use astli.Fmt.Doc.Gap.{no_gap, one_space, lines}
use astli.Fmt.Doc.Write.{is_empty, writes_space, break_lines, write_gap, flush, text}
use astli.Fmt.Doc.Block.{
  Placed, placed, backslashes, continued, new_line, write_lines, write_verbatim,
}
use astli.Fmt.Doc.Run.{step, run, inner}
use astli.Fmt.Doc.Token.{split_once, extend, split, kept_lines, over_lines, token}

-- Lines, each behind a line feed.
joined : List Chars → Chars
joined [] = []
joined (t ∷ ts) = 10 ∷ t ++ joined ts

joined-extend :
    (c : ℕ) (cs : Chars) (ps : List Chars)
    → joined ps ≡ 10 ∷ cs
    → joined (extend c ps) ≡ 10 ∷ c ∷ cs
unfolding joined
joined-extend c cs [] h = cc
joined-extend c cs (p ∷ ps) h = ap (λ t. 10 ∷ c ∷ t) (cc h)

split-joined : (t : Chars) → joined (split t) ≡ 10 ∷ t
unfolding joined
split-joined [] = refl
split-joined (c ∷ cs) = elim (Bool-cases (c == 10)) [
  | inl e ↦ rw e (ap (λ t. 10 ∷ t) (split-joined cs ∙ ap (λ x. x ∷ cs) (sym ((==_iff c 10).0 e))))
  | inr e ↦ rw e (joined-extend c cs (split cs) (split-joined cs))
]

-- The two parts around the first line feed of a text.
IsParted : Option (Chars × Chars) → Chars → Type 0
IsParted none t = Unit
IsParted (some parts) t = parts.0 ++ 10 ∷ parts.1 ≡ t

IsParted-step :
    (c : ℕ) (cs : Chars) (b : Bool) (o : Option (Chars × Chars))
    → (c == 10) ≡ b
    → IsParted o cs
    → IsParted
        (if b then some ([], cs) else elim o as (λ o. Option (Chars × Chars)) [
          | none ↦ none
          | some parts ↦ some (c ∷ parts.0, parts.1)
        ])
        (c ∷ cs)
unfolding IsParted
IsParted-step c cs true o e h = ap (λ x. x ∷ cs) (sym ((==_iff c 10).0 e))
IsParted-step c cs false none e h = tt
IsParted-step c cs false (some parts) e h = ap (λ t. c ∷ t) h

split_once-IsParted : (t : Chars) → IsParted (split_once t) t
unfolding IsParted
split_once-IsParted [] = tt
split_once-IsParted (c ∷ cs) =
    IsParted-step c cs (c == 10) (split_once cs) refl (split_once-IsParted cs)

break_lines_gap :
    (p : Printer) (count : ℕ) (anchor : Option Anchor) → (break_lines p count anchor).gap ≡ p.gap
break_lines_gap p count anchor = elim (Bool-cases (is_empty p.out)) [
  | inl e ↦ rw e refl
  | inr e ↦ rw e refl
]

write_gap_gap : (g : Gap) (p : Printer) → (write_gap g p).gap ≡ no_gap
unfolding write_gap
write_gap_gap no_gap p = refl
write_gap_gap one_space p = elim (Bool-cases (writes_space p)) [
  | inl e ↦ rw e refl
  | inr e ↦ rw e refl
]
write_gap_gap (lines count indent anchor) p =
    break_lines_gap (record p { gap = no_gap }) count anchor

flush_gap : (p : Printer) → (flush p).gap ≡ no_gap
unfolding flush
flush_gap p = write_gap_gap p.gap p

-- A text behind which no separation is pending is written as it is.
record Adds (p q : Printer) (cs : Chars) : Type 0 where
  out : q.out ≡ p.out ++ cs
  gap : q.gap ≡ no_gap

flush_none : (g : Gap) (p : Printer) → g ≡ no_gap → (write_gap g p).out ≡ p.out
unfolding write_gap
flush_none no_gap p e = refl
flush_none one_space p e = cc
flush_none (lines count indent anchor) p e = cc

text-Adds : (p : Printer) (t : Chars) → p.gap ≡ no_gap → Adds p (text p t) t
unfolding text flush
text-Adds p [] e = record { out = sym (append_nil p.out); gap = e }
text-Adds p (c ∷ cs) e = record {
  out = ap (λ o. o ++ c ∷ cs) (flush_none p.gap p e);
  gap = write_gap_gap p.gap p;
}

write_lines-Adds :
    (p : Printer) (at : Placed) (ts : List Chars)
    → p.gap ≡ no_gap
    → Adds p
        (write_lines p at (kept_lines ts) (replicate (length (kept_lines ts)) none))
        (joined ts)
unfolding write_lines continued joined
write_lines-Adds p at [] e = record { out = sym (append_nil p.out); gap = e }
write_lines-Adds p at (t ∷ ts) e =
    let q = new_line p (10 ∷ []) in
    let wrote = text-Adds q t e in
    let rest = write_lines-Adds (text q t) at ts wrote.gap in
    record {
      out =
          rest.out
          ∙ ap (λ o. o ++ joined ts) (wrote.out ∙ append_assoc p.out (10 ∷ []) t)
          ∙ append_assoc p.out (10 ∷ t) (joined ts);
      gap = rest.gap;
    }

text_out : (p : Printer) (x : ℕ) (xs : Chars) → (text p (x ∷ xs)).out ≡ (flush p).out ++ x ∷ xs
unfolding text
text_out p x xs = refl

block_of : Chars → Chars → Verbatim
block_of first rest = record {
  column = 0;
  indent = 0;
  first = first;
  rest = kept_lines (split rest);
  continued = [];
}

written_lines : Printer → Chars → Chars → Printer
unfolding block_of
written_lines p first rest =
    write_lines (text (flush p) first) (placed (flush p) (block_of first rest))
      (kept_lines (split rest)) (replicate (length (kept_lines (split rest))) none)

write_verbatim_run :
    (p : Printer) (first rest : Chars)
    → write_verbatim p (block_of first rest) ≡ some (written_lines p first rest)
unfolding write_verbatim written_lines block_of backslashes
write_verbatim_run p first rest = refl

written_lines-out :
    (p : Printer) (first rest : Chars)
    → (written_lines p first rest).out ≡ (flush p).out ++ (first ++ 10 ∷ rest)
unfolding written_lines
written_lines-out p first rest =
    let wrote = text-Adds (flush p) first (flush_gap p) in
    let more =
      write_lines-Adds (text (flush p) first) (placed (flush p) (block_of first rest)) (split rest)
        wrote.gap in
    more.out ∙ ap₂ ◌++◌ wrote.out (split-joined rest) ∙ append_assoc (flush p).out first (10 ∷ rest)

run_one :
    (fuel : ℕ) (p q : Printer) (c : Command) (d : Doc)
    → step (run fuel) p (inner c d) d [] ≡ some (q, [])
    → run (suc fuel) p (inner c d ∷ []) 0 ≡ some q
unfolding run
run_one zero p q c d e = rw (e, ◌>>=◌) refl
run_one (suc fuel) p q c d e = rw (e, ◌>>=◌) refl

step_verbatim :
    (fuel : ℕ) (p q : Printer) (c : Command) (v : Verbatim)
    → write_verbatim p v ≡ some q
    → step (run fuel) p c (Doc.verbatim v) [] ≡ some (q, [])
unfolding step
step_verbatim fuel p q c v h = ap (λ o. o >>= λ after. some (after, [])) h

over_lines-written :
    (fuel : ℕ) (p : Printer) (c : Command) (x : ℕ) (xs : Chars) (o : Option (Chars × Chars))
    → IsParted o (x ∷ xs)
    → (q : Printer) × (run (suc fuel) p (inner c (over_lines o (x ∷ xs)) ∷ []) 0 ≡ some q)
      × (q.out ≡ (flush p).out ++ x ∷ xs)
unfolding IsParted step block_of
over_lines-written fuel p c x xs none h =
    (text p (x ∷ xs), run_one fuel p (text p (x ∷ xs)) c (Doc.text (x ∷ xs)) refl, text_out p x xs)
over_lines-written fuel p c x xs (some (first, rest)) h =
    let q = written_lines p first rest in
    (
      q,
      run_one fuel p q c (Doc.verbatim (block_of first rest)) (
          step_verbatim fuel p q (inner c (Doc.verbatim (block_of first rest)))
            (block_of first rest) (write_verbatim_run p first rest)),
      written_lines-out p first rest ∙ ap (λ t. (flush p).out ++ t) h,
    )

-- On any positive fuel, whatever the printer has written, its layout, and what the command inherits, the
-- document of a token that is not empty is printed without a panic: behind the separation that
-- was pending, the text of the token is written character by character as it was.
pub token-written :
    (fuel : ℕ) (p : Printer) (c : Command) (x : ℕ) (xs : Chars)
    → (q : Printer) × (run (suc fuel) p (inner c (token (x ∷ xs)) ∷ []) 0 ≡ some q)
      × (q.out ≡ (flush p).out ++ x ∷ xs)
unfolding token
token-written fuel p c x xs =
    over_lines-written fuel p c x xs (split_once (x ∷ xs)) (split_once-IsParted (x ∷ xs))
