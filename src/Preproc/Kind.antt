-- ===== src/Preproc/Kind.antt =====
-- crates/astli-syntax/src/kind.rs: `SyntaxKind`, an enum that is represented by its place, a `u16` from 0
-- on, with the kinds that directives are read by.
use astli.Prelude.{ℕ, Bool, leb, ◌==◌, ◌||◌, ◌&&◌}

abbrev pub SyntaxKind : Type 0
SyntaxKind = ℕ

abbrev pub whitespace : SyntaxKind
whitespace = 0

abbrev pub line_comment : SyntaxKind
line_comment = 1

abbrev pub block_comment : SyntaxKind
block_comment = 2

abbrev pub directive_trivia : SyntaxKind
directive_trivia = 3

abbrev pub ident : SyntaxKind
ident = 4

abbrev pub escaped_ident : SyntaxKind
escaped_ident = 5

abbrev pub one_step_kw : SyntaxKind
one_step_kw = 13

abbrev pub string_literal : SyntaxKind
string_literal = 14

abbrev pub tick_ident : SyntaxKind
tick_ident = 16

abbrev pub macro_quote : SyntaxKind
macro_quote = 17

abbrev pub line_continuation : SyntaxKind
line_continuation = 20

abbrev pub l_paren : SyntaxKind
l_paren = 21

abbrev pub r_paren : SyntaxKind
r_paren = 22

abbrev pub comma : SyntaxKind
comma = 30

abbrev pub eq_sign : SyntaxKind
eq_sign = 63

abbrev pub lt_sign : SyntaxKind
lt_sign = 72

abbrev pub gt_sign : SyntaxKind
gt_sign = 79

abbrev pub first_keyword : SyntaxKind
first_keyword = 101

abbrev pub last_keyword : SyntaxKind
last_keyword = 348

abbrev pub eof : SyntaxKind
eof = 350

abbrev pub is_trivia : SyntaxKind → Bool
is_trivia kind =
    kind == whitespace || kind == line_comment || kind == block_comment || kind == directive_trivia

abbrev pub is_keyword : SyntaxKind → Bool
is_keyword kind = (leb first_keyword kind && leb kind last_keyword) || kind == one_step_kw
