-- ===== src/Preproc/Examples.antt =====
-- Runs and instances of the theorems about crates/astli-preproc, on a short file.
use astli.Prelude.{ℕ, ◌<◌, ◌≤◌, ◌≡◌, refl, arith, true, List, [], ◌∷◌, some, none}
use astli.Preproc.Kind.{SyntaxKind, whitespace, ident, tick_ident, eof}
use astli.Preproc.Tokens.{Token, TokenSpan, Input, IsLexed}
use astli.Preproc.Directive.{DirectiveType, Directive, codes, lookup, takes_line}
use astli.Preproc.Directive.Operands.{name_op}
use astli.Preproc.Directive.Lines.{trim, end_of_line}
use astli.Preproc.Directive.Lines.Laws.{IsTrimmed, trim-IsTrimmed}
use astli.Preproc.Directive.Parse.{parse}
use astli.Preproc.Directive.Parse.Bounds.{parse-IsPlaced, takes_line-parse}
use astli.Preproc.Conditional.{Region, Taken, parse_at, region, regions, has_else}
use astli.Preproc.Conditional.Walk.{IsRegion}
use astli.Preproc.Conditional.Branches.{region-IsRegion}
use astli.Preproc.Conditional.Outermost.{InOrder, len-Whole, regions-InOrder}

abbrev tok : SyntaxKind → ℕ → ℕ → Token
tok kind start end = record { kind = kind; start = start; end = end }

-- "`ifdef A\nx\n`else y\n`endif\n" and its tokens.
abbrev file : Input
file = record {
  src_id = 0;
  source = codes "`ifdef A\nx\n`else y\n`endif\n";
  tokens =
      tok tick_ident 0 6
      ∷ tok whitespace 6 7
      ∷ tok ident 7 8
      ∷ tok whitespace 8 9
      ∷ tok ident 9 10
      ∷ tok whitespace 10 11
      ∷ tok tick_ident 11 16
      ∷ tok whitespace 16 17
      ∷ tok ident 17 18
      ∷ tok whitespace 18 19
      ∷ tok tick_ident 19 25
      ∷ tok whitespace 25 26
      ∷ tok eof 26 26
      ∷ [];
}

file-IsLexed : IsLexed file
file-IsLexed = omega arith

trim_runs : trim file 1 6 ≡ some (2, 5)
unfolding trim
trim_runs = refl

abbrev first : Directive
first = record {
  ty = DirectiveType.ifdef;
  tokens = record { src_id = 0; start = 0; end = 3 };
  operands = name_op (record { src_id = 0; index = 2 });
}

parse_runs : parse DirectiveType.ifdef file 0 ≡ some first
unfolding parse
parse_runs = refl

lookup_runs : (lookup (codes "`endif") ≡ some DirectiveType.endif) × (lookup (codes "`FOO") ≡ none)
unfolding lookup
lookup_runs = (refl, refl)

parse_at_runs : parse_at file 0 ≡ some (some first)
unfolding parse_at
parse_at_runs = refl

abbrev span_of : ℕ → ℕ → TokenSpan
span_of start end = record { src_id = 0; start = start; end = end }

abbrev whole : Region
whole = record {
  tokens = span_of 0 11;
  branches =
      record {
        taken = Taken.defined (record { src_id = 0; index = 2 });
        directive = span_of 0 3;
        body = span_of 3 6;
      }
      ∷ record { taken = Taken.otherwise; directive = span_of 6 7; body = span_of 7 10 }
      ∷ [];
  closed = true;
}

region_runs : region file 0 13 ≡ some whole
unfolding region
region_runs = refl

has_else_runs : has_else whole ≡ true
unfolding has_else
has_else_runs = refl

regions_runs : regions file (span_of 0 13) ≡ some (whole ∷ [])
unfolding regions
regions_runs = refl

trim-IsTrimmed_example : (range : ℕ × ℕ) × (trim file 1 6 ≡ some range) × IsTrimmed file 1 6 range
trim-IsTrimmed_example = trim-IsTrimmed file 1 6 (omega arith) (omega arith)

parse-IsPlaced_example :
    (d : Directive) × (parse DirectiveType.ifdef file 0 ≡ some d)
    × (d.ty ≡ DirectiveType.ifdef)
    × (d.tokens.src_id ≡ 0)
    × (d.tokens.start ≡ 0)
    × (0 < d.tokens.end)
    × (d.tokens.end ≤ 13)
parse-IsPlaced_example = parse-IsPlaced DirectiveType.ifdef file 0 file-IsLexed (omega arith)

region-IsRegion_example :
    (r : Region) × (region file 0 13 ≡ some r)
    × (r.tokens.start ≡ 0)
    × (0 < r.tokens.end)
    × (r.tokens.end ≤ 13)
    × IsRegion file 13 0 r.branches r.tokens.end r.closed
region-IsRegion_example =
    region-IsRegion file 0 13 first file-IsLexed (omega arith) (omega arith) parse_at_runs refl
      (omega arith)

regions-InOrder_example :
    (rs : List Region) × (regions file (span_of 0 13) ≡ some rs) × InOrder file 13 0 rs
regions-InOrder_example =
    regions-InOrder file (span_of 0 13) file-IsLexed (omega arith) (len-Whole file file-IsLexed)

-- "`pragma x y" runs to the end of its file.
abbrev pragma_file : Input
pragma_file = record {
  src_id = 0;
  source = codes "`pragma x\n";
  tokens =
      tok tick_ident 0 7
      ∷ tok whitespace 7 8
      ∷ tok ident 8 9
      ∷ tok whitespace 9 10
      ∷ tok eof 10 10
      ∷ [];
}

pragma_file-IsLexed : IsLexed pragma_file
pragma_file-IsLexed = omega arith

takes_line-parse_example :
    (d : Directive) × (parse DirectiveType.pragma pragma_file 0 ≡ some d)
    × (end_of_line pragma_file 1 ≡ some d.tokens.end)
unfolding takes_line
takes_line-parse_example =
    takes_line-parse DirectiveType.pragma pragma_file 0 refl pragma_file-IsLexed (omega arith)
