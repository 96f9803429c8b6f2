-- ===== src/Fmt/Doc.antt =====
-- crates/astli-fmt/src/doc.rs: the documents that rules build, and what the printer keeps while it lays one
-- out. A text is the list of its characters; a column counts characters and an offset bytes of UTF-8.
pub mod Measure
pub mod Write
pub mod Block
pub mod Run
pub mod Content
pub mod Token
use astli.Prelude.{ℕ, zero, suc, ◌+◌, ◌∷◌, Bool, List, [], Option, ltb, leb, if◌then◌else◌, length}

abbrev pub Chars : Type 0
Chars = List ℕ

pub data VerbatimLine : Type 0 where
  moved : ℕ → Chars → VerbatimLine
  kept : Chars → VerbatimLine

pub record Verbatim : Type 0 where
  pub column : ℕ
  pub indent : ℕ
  pub first : Chars
  pub rest : List VerbatimLine
  pub continued : List ℕ

mutual
  pub data Doc : Type 0 where
    text : Chars → Doc
    space : Doc
    line : Doc
    soft_line : Doc
    hard_line : Doc
    blank_line : Doc
    group : Doc → Doc
    indent : Doc → Doc
    margin : Doc → Doc
    align : Doc → Doc
    prefer : Doc → Doc → Doc
    fill : Docs → Doc
    table : Doc → Bool → Doc
    cell : ℕ → Doc
    trailing : Doc → Doc
    concat : Docs → Doc
    verbatim : Verbatim → Doc

  pub data Docs : Type 0 where
    no_docs : Docs
    docs : Doc → Docs → Docs

pub record Layout : Type 0 where
  pub width : ℕ
  pub indent : ℕ
  pub max_pad : ℕ
  pub newline : Chars

pub data Mode : Type 0 where
  flat : Mode
  broken : Mode

pub record Anchor : Type 0 where
  pub line : ℕ
  pub start : ℕ

-- The separation requested since the last text.
pub data Gap : Type 0 where
  no_gap : Gap
  one_space : Gap
  lines : ℕ → ℕ → Option Anchor → Gap

pub record Cell : Type 0 where
  pub table : ℕ
  pub strict : Bool
  pub index : ℕ
  pub block : ℕ
  pub line : ℕ
  pub offset : ℕ
  pub column : ℕ

pub record Continuation : Type 0 where
  pub line : ℕ
  pub start : ℕ
  pub offset : ℕ
  pub limit : ℕ

pub data Work : Type 0 where
  one : Doc → Work
  filling : Docs → Work

pub record Command : Type 0 where
  pub indent : ℕ
  pub anchor : Option Anchor
  pub mode : Mode
  pub table : Option (ℕ × Bool)
  pub doc : Work

pub record Printer : Type 0 where
  pub layout : Layout
  pub out : Chars
  pub column : ℕ
  pub gap : Gap
  pub line : ℕ
  pub indent : ℕ
  pub block : ℕ
  pub tables : ℕ
  pub anchor : Option Anchor
  pub cramped : Bool
  pub cells : List Cell
  pub continuations : List Continuation
  pub trial : Bool

-- The bytes that a text takes in UTF-8.
abbrev pub char_len : ℕ → ℕ
char_len c = if ltb c 128 then 1 else if ltb c 2048 then 2 else if ltb c 65536 then 3 else 4

abbrev pub byte_len : Chars → ℕ
byte_len [] = 0
byte_len (c ∷ cs) = char_len c + byte_len cs
