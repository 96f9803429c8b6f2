-- ===== src/Fmt/Doc/Run/Weight.antt =====
-- How many commands a document takes at most.
use astli.Prelude.{ℕ, suc, ◌+◌, List, [], ◌∷◌}
use astli.Fmt.Doc.{Doc, Docs, Work, Command}
use astli.Fmt.Doc.Doc.{
  text, space, line, soft_line, hard_line, blank_line, group, indent, margin, align, prefer, fill,
  table, cell, trailing, concat, verbatim,
}
use astli.Fmt.Doc.Docs.{no_docs, docs}
use astli.Fmt.Doc.Work.{one, filling}
use astli.Fmt.Doc.Block.Total.{IsBlock}

unfoldable mutual
  pub weight_doc : Doc → ℕ
  weight_doc (group d) = suc (weight_doc d)
  weight_doc (indent d) = suc (weight_doc d)
  weight_doc (margin d) = suc (weight_doc d)
  weight_doc (align d) = suc (weight_doc d)
  weight_doc (prefer d e) = suc (weight_doc d + weight_doc e)
  weight_doc (table d strict) = suc (weight_doc d)
  weight_doc (trailing d) = suc (weight_doc d)
  weight_doc (fill ds) = suc (weight_docs ds)
  weight_doc (concat ds) = suc (weight_docs ds)
  weight_doc (text t) = 1
  weight_doc space = 1
  weight_doc line = 1
  weight_doc soft_line = 1
  weight_doc hard_line = 1
  weight_doc blank_line = 1
  weight_doc (cell index) = 1
  weight_doc (verbatim v) = 1

  pub weight_docs : Docs → ℕ
  weight_docs no_docs = 0
  weight_docs (docs d ds) = suc (weight_doc d + weight_docs ds)

-- Every verbatim block in a document is one.
unfoldable mutual
  pub IsSound : Doc → Type 0
  IsSound (group d) = IsSound d
  IsSound (indent d) = IsSound d
  IsSound (margin d) = IsSound d
  IsSound (align d) = IsSound d
  IsSound (prefer d e) = IsSound d × IsSound e
  IsSound (table d strict) = IsSound d
  IsSound (trailing d) = IsSound d
  IsSound (fill ds) = AllSound ds
  IsSound (concat ds) = AllSound ds
  IsSound (text t) = Unit
  IsSound space = Unit
  IsSound line = Unit
  IsSound soft_line = Unit
  IsSound hard_line = Unit
  IsSound blank_line = Unit
  IsSound (cell index) = Unit
  IsSound (verbatim v) = IsBlock v

  pub AllSound : Docs → Type 0
  AllSound no_docs = Unit
  AllSound (docs d ds) = IsSound d × AllSound ds

abbrev pub weight_work : Work → ℕ
unfolding weight_doc weight_docs
weight_work (one d) = weight_doc d
weight_work (filling ds) = suc (weight_docs ds)

abbrev pub SoundWork : Work → Type 0
unfolding IsSound AllSound
SoundWork (one d) = IsSound d
SoundWork (filling ds) = AllSound ds

unfoldable pub weight : List Command → ℕ
unfolding weight_doc weight_docs
weight [] = 0
weight (c ∷ stack) = weight_work c.doc + weight stack

unfoldable pub SoundStack : List Command → Type 0
unfolding IsSound AllSound
SoundStack [] = Unit
SoundStack (c ∷ stack) = SoundWork c.doc × SoundStack stack
