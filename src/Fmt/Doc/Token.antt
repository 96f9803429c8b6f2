-- ===== src/Fmt/Doc/Token.antt =====
-- crates/astli-fmt/src/doc.rs, `token`: the text of one token, which may run over lines.
pub mod Written
use astli.Prelude.{ℕ, List, [], ◌∷◌, Option, none, some, if◌then◌else◌, ◌==◌}
use astli.Fmt.Doc.{Chars, Doc, VerbatimLine}

-- `split_once('\n')`
abbrev pub split_once : Chars → Option (Chars × Chars)
split_once [] = none
split_once (c ∷ cs) =
    let rest = split_once cs in
    if c == 10
    then some ([], cs)
    else elim rest [ none ↦ none | some parts ↦ some (c ∷ parts.0, parts.1) ]

-- A character in front of the first of some pieces.
abbrev pub extend : ℕ → List Chars → List Chars
extend c [] = (c ∷ []) ∷ []
extend c (p ∷ ps) = (c ∷ p) ∷ ps

-- `split('\n')`
abbrev pub split : Chars → List Chars
split [] = [] ∷ []
split (c ∷ cs) = let rest = split cs in if c == 10 then [] ∷ rest else extend c rest

abbrev pub kept_lines : List Chars → List VerbatimLine
kept_lines [] = []
kept_lines (t ∷ ts) = VerbatimLine.kept t ∷ kept_lines ts

abbrev pub over_lines : Option (Chars × Chars) → Chars → Doc
over_lines none t = Doc.text t
over_lines (some (first, rest)) t = Doc.verbatim (record {
  column = 0;
  indent = 0;
  first = first;
  rest = kept_lines (split rest);
  continued = [];
})

unfoldable pub token : Chars → Doc
token t = over_lines (split_once t) t
