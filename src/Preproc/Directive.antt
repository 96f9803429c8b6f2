-- ===== src/Preproc/Directive.antt =====
-- crates/astli-preproc/src/directive.rs: which directive a text names, and where the operands of one end.
-- A position is a `u32`; none here is past one more than the number of tokens. What panics gives `none`.
pub mod Scan
pub mod Lines
pub mod Define
pub mod Include
pub mod Parse
use Prim.Native.String.{String}
use Prim.Native.Char.{code}
use astli.Prelude.{
  ℕ, zero, suc, ◌+◌, ◌-◌, min, Bool, true, false, not, ◌&&◌, ◌||◌, List, [], ◌∷◌, ◌++◌, Option,
  none, some, ltb, leb, ◌==◌, if◌then◌else◌, ◌>>=◌, is_some, any, get_elem?,
}
use astli.Preproc.Kind.{
  SyntaxKind, whitespace, string_literal, tick_ident, ident, escaped_ident, macro_quote,
  line_continuation, l_paren, r_paren, comma, eq_sign, lt_sign, gt_sign, eof, is_trivia, is_keyword,
}
use astli.Preproc.Tokens.{
  Token, TokenId, TokenSpan, Input, len, token, kind_at, text, text_of, id, span,
}

pub data DirectiveType : Type 0 where
  define : DirectiveType
  undef : DirectiveType
  undefine_all : DirectiveType
  ifdef : DirectiveType
  ifndef : DirectiveType
  elsif : DirectiveType
  else_ : DirectiveType
  endif : DirectiveType
  include : DirectiveType
  timescale : DirectiveType
  default_nettype : DirectiveType
  unconnected_drive : DirectiveType
  no_unconnected_drive : DirectiveType
  cell_define : DirectiveType
  end_cell_define : DirectiveType
  resetall : DirectiveType
  line : DirectiveType
  begin_keywords : DirectiveType
  end_keywords : DirectiveType
  pragma : DirectiveType
  file_name : DirectiveType
  line_number : DirectiveType

-- The text of a name, by its bytes.
abbrev pub codes : String → List ℕ
codes String.[] = []
codes (String.◌∷◌ c s) = code c ∷ codes s

abbrev pub same_bytes : List ℕ → List ℕ → Bool
same_bytes [] [] = true
same_bytes [] (y ∷ ys) = false
same_bytes (x ∷ xs) [] = false
same_bytes (x ∷ xs) (y ∷ ys) = x == y && same_bytes xs ys

-- The arms of `lookup`, in its order.
abbrev pub directive_names : List (String × DirectiveType)
directive_names =
    ("`define", define)
    ∷ ("`undef", undef)
    ∷ ("`undefineall", undefine_all)
    ∷ ("`ifdef", ifdef)
    ∷ ("`ifndef", ifndef)
    ∷ ("`elsif", elsif)
    ∷ ("`else", else_)
    ∷ ("`endif", endif)
    ∷ ("`include", include)
    ∷ ("`timescale", timescale)
    ∷ ("`default_nettype", default_nettype)
    ∷ ("`unconnected_drive", unconnected_drive)
    ∷ ("`nounconnected_drive", no_unconnected_drive)
    ∷ ("`celldefine", cell_define)
    ∷ ("`endcelldefine", end_cell_define)
    ∷ ("`resetall", resetall)
    ∷ ("`line", line)
    ∷ ("`begin_keywords", begin_keywords)
    ∷ ("`end_keywords", end_keywords)
    ∷ ("`pragma", pragma)
    ∷ ("`__FILE__", file_name)
    ∷ ("`__LINE__", line_number)
    ∷ []

abbrev pub first_named : List ℕ → List (String × DirectiveType) → Option DirectiveType
first_named name [] = none
first_named name ((s, ty) ∷ arms) =
    if same_bytes name (codes s) then some ty else first_named name arms

unfoldable pub lookup : List ℕ → Option DirectiveType
lookup name = first_named name directive_names

pub record Formal : Type 0 where
  pub name : TokenId
  pub default : Option TokenSpan

pub record MacroDef : Type 0 where
  pub tokens : TokenSpan
  pub name : TokenId
  pub formals : Option (List Formal)
  pub body : TokenSpan

pub data IncludePath : Type 0 where
  quoted : TokenId → IncludePath
  angle : TokenSpan → IncludePath
  expanded : TokenSpan → IncludePath

pub data Operands : Type 0 where
  define_op : MacroDef → Operands
  name_op : TokenId → Operands
  include_op : IncludePath → Operands
  bare : Operands
  unparsed : TokenSpan → Operands
  malformed : Operands

pub record Directive : Type 0 where
  pub ty : DirectiveType
  pub tokens : TokenSpan
  pub operands : Operands

unfoldable pub survives_expansion : DirectiveType → Bool
survives_expansion timescale = true
survives_expansion default_nettype = true
survives_expansion unconnected_drive = true
survives_expansion no_unconnected_drive = true
survives_expansion cell_define = true
survives_expansion end_cell_define = true
survives_expansion resetall = true
survives_expansion line = true
survives_expansion begin_keywords = true
survives_expansion end_keywords = true
survives_expansion pragma = true
survives_expansion ty = false

unfoldable pub takes_line : DirectiveType → Bool
takes_line define = true
takes_line timescale = true
takes_line default_nettype = true
takes_line unconnected_drive = true
takes_line no_unconnected_drive = true
takes_line line = true
takes_line begin_keywords = true
takes_line pragma = true
takes_line ty = false
