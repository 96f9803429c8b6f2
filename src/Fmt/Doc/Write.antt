-- ===== src/Fmt/Doc/Write.antt =====
-- crates/astli-fmt/src/doc.rs: what the printer writes. A separation is only requested, and written in front of
-- the next text.
use astli.Prelude.{
  ℕ, zero, suc, ◌+◌, ◌-◌, ◌/◌, ◌^◌, max, Bool, true, false, not, ◌&&◌, ◌||◌, List, [], ◌∷◌, ◌++◌,
  Option, none, some, ltb, ◌==◌, if◌then◌else◌, is_some, length, replicate,
}
use astli.Fmt.Doc.{Chars, Anchor, Gap, Continuation, Printer, byte_len}
use astli.Fmt.Doc.Gap.{no_gap, one_space, lines}

abbrev pub is_empty : Chars → Bool
is_empty [] = true
is_empty (c ∷ cs) = false

abbrev pub ends_with_space : Chars → Bool
ends_with_space [] = false
ends_with_space (c ∷ []) = c == 32
ends_with_space (c ∷ d ∷ cs) = ends_with_space (d ∷ cs)

abbrev pub is_one_space : Gap → Bool
is_one_space one_space = true
is_one_space no_gap = false
is_one_space (lines count indent anchor) = false

abbrev pub as_count : Bool → ℕ
as_count b = if b then 1 else 0

unfoldable pub writes_space : Printer → Bool
writes_space p = is_one_space p.gap && not (is_empty p.out) && not (ends_with_space p.out)

unfoldable pub request_space : Printer → Printer
request_space p = record p {
  gap = elim p.gap [
    | no_gap ↦ one_space
    | one_space ↦ one_space
    | lines count indent anchor ↦ lines count indent anchor
  ];
}

unfoldable pub request_lines : Printer → ℕ → ℕ → Option Anchor → Printer
request_lines p count indent anchor = record p {
  gap =
      lines
        (elim p.gap [ no_gap ↦ count | one_space ↦ count | lines before i a ↦ max before count ])
        indent anchor;
}

abbrev pub repeated : ℕ → Chars → Chars
repeated zero cs = []
repeated (suc n) cs = cs ++ repeated n cs

abbrev pub continuation : Option Anchor → ℕ → ℕ → List Continuation
continuation none offset limit = []
continuation (some a) offset limit =
    record { line = a.line; start = a.start; offset = offset; limit = limit } ∷ []

-- `usize::MAX`
abbrev pub usize_max : ℕ
usize_max = 2 ^ 64 - 1

-- The line breaks of a gap; none goes before the first text.
abbrev pub break_lines : Printer → ℕ → Option Anchor → Printer
break_lines p count anchor =
    if is_empty p.out
    then p
    else (let out : Chars = p.out ++ repeated count p.layout.newline in
        record p {
          out = out;
          line = p.line + count;
          block = p.block + as_count (ltb 1 count);
          continuations = p.continuations ++ continuation anchor (byte_len out) usize_max;
        })

unfoldable pub write_gap : Gap → Printer → Printer
unfolding writes_space
write_gap no_gap p = record p { gap = no_gap }
write_gap one_space p =
    if writes_space p
    then record p { gap = no_gap; out = p.out ++ 32 ∷ []; column = suc p.column }
    else record p { gap = no_gap }
write_gap (lines count indent anchor) p =
    let q = break_lines (record p { gap = no_gap }) count anchor in
    record q {
      anchor = anchor;
      cramped = q.cramped || (is_some anchor && ltb (q.layout.width / 2) indent);
      out = q.out ++ replicate indent 32;
      column = indent;
      indent = indent;
    }

unfoldable pub flush : Printer → Printer
unfolding write_gap
flush p = write_gap p.gap p

unfoldable pub text : Printer → Chars → Printer
unfolding flush
text p [] = p
text p (c ∷ cs) =
    let q = flush p in
    let column : ℕ = q.column + length (c ∷ cs) in
    record q {
      out = q.out ++ c ∷ cs;
      column = column;
      cramped = q.cramped || ltb q.layout.width column;
    }

abbrev pub is_lines : Gap → Bool
is_lines (lines count indent anchor) = true
is_lines one_space = false
is_lines no_gap = false

-- The end of a cell: after the last text, in front of a space that ends it and of what is pending.
unfoldable pub cell : Printer → Option (ℕ × Bool) → ℕ → Printer
cell p none index = p
cell p (some (table, strict)) index =
    if is_lines p.gap
    then p
    else (let space : ℕ = as_count (ends_with_space p.out) in
        record p {
          cells =
              p.cells
              ++ record {
                table = table;
                strict = strict;
                index = index;
                block = p.block;
                line = p.line;
                offset = byte_len p.out - space;
                column = p.column - space;
              }
                ∷ [];
        })

abbrev pub anchor_or : Option Anchor → Anchor → Anchor
anchor_or none a = a
anchor_or (some a) b = a

-- Where the lines of an aligned document start, and under what.
unfoldable pub alignment : Printer → ℕ × Option Anchor
unfolding writes_space
alignment p =
    if is_lines p.gap
    then pending p.gap
    else (let space : ℕ = as_count (writes_space p) in
        (
          p.column + space,
          some (anchor_or p.anchor (record { line = p.line; start = byte_len p.out + space })),
        ))
  where
    pending : Gap → ℕ × Option Anchor
    pending (lines count indent anchor) = (indent, anchor)
    pending one_space = (0, none)
    pending no_gap = (0, none)
