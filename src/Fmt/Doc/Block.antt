-- ===== src/Fmt/Doc/Block.antt =====
-- crates/astli-fmt/src/doc.rs, `verbatim`: text that is kept as written and moved as a block. A shift is the
-- difference of two columns, since a line it moves starts at 0 at least. What panics gives `none`.
pub mod Total
use astli.Prelude.{
  ℕ, zero, suc, ◌+◌, ◌-◌, ◌*◌, ◌/◌, max, min, List, [], ◌∷◌, ◌++◌, Option, none, some, ltb, ◌==◌,
  if◌then◌else◌, ◌>>=◌, is_some, length, replicate, set, get_elem?,
}
use astli.Fmt.Doc.{Chars, Anchor, Verbatim, VerbatimLine, Printer, byte_len}
use astli.Fmt.Doc.VerbatimLine.{moved, kept}
use astli.Fmt.Doc.Write.{is_empty, continuation, usize_max, flush, text, anchor_or}

-- `columns` of verbatim.rs, from a column on: a tab goes to the next multiple of 8.
abbrev pub columns_from : ℕ → Chars → ℕ
columns_from column [] = column
columns_from column (c ∷ cs) = columns_from (if c == 9 then (column / 8 + 1) * 8 else suc column) cs

abbrev pub columns : Chars → ℕ
columns cs = columns_from 0 cs

-- A text in front of its last backslash, and from there on.
abbrev pub split_last : Chars → Option (Chars × Chars)
split_last [] = none
split_last (c ∷ cs) = elim (split_last cs) [
  | some (before, after) ↦ some (c ∷ before, after)
  | none ↦ if c == 92 then some ([], c ∷ cs) else none
]

abbrev pub split_backslash : Chars → Chars × Chars
split_backslash cs = elim (split_last cs) [ some parts ↦ parts | none ↦ (cs, []) ]

pub record Shift : Type 0 where
  pub right : ℕ
  pub left : ℕ

abbrev pub shifted : Shift → ℕ → ℕ
shifted s column = column + s.right - s.left

-- The least column of the moved lines that have text.
abbrev pub leftmost : List VerbatimLine → Option ℕ
leftmost [] = none
leftmost (kept t ∷ ls) = leftmost ls
leftmost (moved indent t ∷ ls) =
    if is_empty t
    then leftmost ls
    else elim (leftmost ls) [ none ↦ some indent | some least ↦ some (min indent least) ]

-- How far the later lines move, what padding moves them with, and how far at most.
pub record Placed : Type 0 where
  pub shift : Shift
  pub anchor : Option Anchor
  pub limit : ℕ

-- A line that hangs off its line's indentation, `over` columns past the start of the first.
abbrev pub hanging : Printer → Verbatim → Anchor → ℕ → Placed
hanging p v first zero = record {
  shift = record { right = p.indent; left = v.indent };
  anchor = p.anchor;
  limit = usize_max;
}
hanging p v first (suc over) = record {
  shift = record { right = p.indent; left = v.indent + suc over };
  anchor = some (anchor_or p.anchor first);
  limit = if is_some p.anchor then usize_max else suc over;
}

abbrev pub aligned : Printer → Verbatim → Anchor → Placed
aligned p v first = record {
  shift = record { right = p.column; left = v.column };
  anchor = some (anchor_or p.anchor first);
  limit = usize_max;
}

unfoldable pub placed : Printer → Verbatim → Placed
placed p v =
    let first : Anchor = record { line = p.line; start = byte_len p.out } in
    elim (leftmost v.rest) [
      | none ↦ aligned p v first
      | some least ↦
          if ltb least v.column
          then hanging p v first (least + p.indent - (v.indent + p.column))
          else aligned p v first
    ]

-- Where a line of the block ends; one that is not there panics.
abbrev pub line_end : Printer → Verbatim → Shift → ℕ → Option ℕ
line_end p v s zero = some (p.column + columns (split_backslash v.first).0)
line_end p v s (suc at) = do
  l ← get_elem? v.rest at
  some (elim l [
    | kept t ↦ columns (split_backslash t).0
    | moved indent t ↦ shifted s indent + columns (split_backslash t).0
  ])

-- The lines of a run of consecutive ones, and those behind it: `chunk_by`.
abbrev pub cut_run : ℕ → List ℕ → List ℕ × List ℕ
cut_run at [] = ([], [])
cut_run at (next ∷ more) =
    if next == suc at
    then (let rest = cut_run next more in (next ∷ rest.0, rest.1))
    else ([], next ∷ more)

abbrev pub ends_of : Printer → Verbatim → Shift → List ℕ → Option (List ℕ)
ends_of p v s [] = some []
ends_of p v s (at ∷ more) = do end ← line_end p v s at; rest ← ends_of p v s more; some (end ∷ rest)

abbrev pub largest : List ℕ → ℕ
largest [] = 0
largest (n ∷ ns) = max n (largest ns)

abbrev pub put_all : List ℕ → List ℕ → ℕ → List (Option (ℕ × ℕ)) → List (Option (ℕ × ℕ))
put_all [] ends column out = out
put_all (at ∷ more) [] column out = out
put_all (at ∷ more) (end ∷ ends) column out =
    put_all more ends column (set out at (some (end, column)))

-- The runs, on fuel: each has a line at least.
unfoldable pub place_runs :
    ℕ → Printer → Verbatim → Shift → List ℕ → List (Option (ℕ × ℕ)) → Option (List (Option (ℕ × ℕ)))
place_runs zero p v s [] out = some out
place_runs zero p v s (at ∷ more) out = none
place_runs (suc fuel) p v s [] out = some out
place_runs (suc fuel) p v s (at ∷ more) out = do
  let run = cut_run at more
  ends ← ends_of p v s (at ∷ run.0)
  place_runs fuel p v s run.1 (put_all (at ∷ run.0) ends (suc (largest ends)) out)

unfoldable pub backslashes : Printer → Verbatim → Shift → Option (List (Option (ℕ × ℕ)))
unfolding place_runs
backslashes p v s =
    place_runs (length v.continued) p v s v.continued (replicate (suc (length v.rest)) none)

-- A line of the block, with its backslash moved.
unfoldable pub continued : Printer → Chars → Option (ℕ × ℕ) → Printer
unfolding text
continued p t none = text p t
continued p t (some (end, column)) =
    let (before, after) = split_backslash t in
    let q = text p before in
    text
      (record q { out = q.out ++ replicate (column - end) 32; column = q.column + (column - end) })
      after

abbrev pub new_line : Printer → Chars → Printer
new_line p newline = record p {
  out = p.out ++ newline;
  column = 0;
  indent = 0;
  line = suc p.line;
  anchor = none;
}

abbrev pub start_line : Printer → Placed → ℕ → Printer
start_line p placed indent = record p {
  continuations = p.continuations ++ continuation placed.anchor (byte_len p.out) placed.limit;
  anchor = placed.anchor;
  out = p.out ++ replicate indent 32;
  column = indent;
  indent = indent;
}

unfoldable pub write_lines : Printer → Placed → List VerbatimLine → List (Option (ℕ × ℕ)) → Printer
unfolding continued
write_lines p placed [] bs = p
write_lines p placed (l ∷ ls) [] = p
write_lines p placed (kept t ∷ ls) (b ∷ bs) =
    write_lines (continued (new_line p (10 ∷ [])) t b) placed ls bs
write_lines p placed (moved indent t ∷ ls) (b ∷ bs) =
    let q = new_line p p.layout.newline in
    let r =
      if is_empty t
      then record q { block = suc q.block }
      else continued (start_line q placed (shifted placed.shift indent)) t b in
    write_lines r placed ls bs

unfoldable pub write_verbatim : Printer → Verbatim → Option Printer
unfolding flush placed backslashes continued write_lines
write_verbatim p v = do
  let q = flush p
  let at = placed q v
  bs ← backslashes q v at.shift
  elim bs [ [] ↦ none | b ∷ more ↦ some (write_lines (continued q v.first b) at v.rest more) ]
