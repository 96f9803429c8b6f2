-- ===== src/Preproc/Tokens.antt =====
-- crates/astli-preproc/src/tokens.rs and `Token` of crates/astli-syntax/src/lexer.rs: places in the tokens of
-- one file. What panics gives `none`: an index or a slice out of range, and a span that runs backwards.
use astli.Prelude.{
  ℕ, ◌-◌, ◌≤◌, List, Option, none, some, leb, if◌then◌else◌, ◌>>=◌, length, get_elem?, take, drop,
  All, ◌&&◌,
}
use astli.Text.Span.{SourceId}
use astli.Preproc.Kind.{SyntaxKind}

pub record Token : Type 0 where
  pub kind : SyntaxKind
  pub start : ℕ
  pub end : ℕ

pub record TokenId : Type 0 where
  pub src_id : SourceId
  pub index : ℕ

pub record TokenSpan : Type 0 where
  pub src_id : SourceId
  pub start : ℕ
  pub end : ℕ

-- The source is its bytes.
pub record Input : Type 0 where
  pub src_id : SourceId
  pub source : List ℕ
  pub tokens : List Token

abbrev pub len : Input → ℕ
len input = length input.tokens

abbrev pub token : Input → ℕ → Option Token
token input at = get_elem? input.tokens at

abbrev pub kind_at : Input → ℕ → Option SyntaxKind
kind_at input at = do t ← token input at; some t.kind

abbrev pub text_of : Token → List ℕ → Option (List ℕ)
text_of t source =
    if leb t.start t.end && leb t.end (length source)
    then some (take (t.end - t.start) (drop t.start source))
    else none

abbrev pub text : Input → ℕ → Option (List ℕ)
text input at = do t ← token input at; text_of t input.source

abbrev pub id : Input → ℕ → TokenId
id input at = record { src_id = input.src_id; index = at }

abbrev pub span : Input → ℕ → ℕ → Option TokenSpan
span input start end =
    if leb start end
    then some (record { src_id = input.src_id; start = start; end = end })
    else none

-- What the lexer makes: every token lies in the source.
pub record IsInside (source : List ℕ) (t : Token) : Type 0 where
  pub ordered : t.start ≤ t.end
  pub in_source : t.end ≤ length source

abbrev pub IsLexed : Input → Type 0
IsLexed input = All (IsInside input.source) input.tokens
