-- ===== src/Fmt/Doc/Content.antt =====
-- What a document says, blanks aside: the printer may only change spaces and line breaks.
pub mod Write
pub mod Block
pub mod Stack
pub mod Run
use astli.Prelude.{
  ℕ, zero, suc, ◌≡◌, ◌∙◌, refl, ap, ap₂, Bool, true, false, not, ◌||◌, ◌==◌, List, [], ◌∷◌, ◌++◌,
  if◌then◌else◌, Bool-cases, inl, inr, replicate, append_nil,
}
use astli.Fmt.Doc.{Chars, Verbatim, VerbatimLine, Doc, Docs, Work, Command}
use astli.Fmt.Doc.VerbatimLine.{moved, kept}
use astli.Fmt.Doc.Doc.{
  text, space, line, soft_line, hard_line, blank_line, group, indent, margin, align, prefer, fill,
  table, cell, trailing, concat, verbatim,
}
use astli.Fmt.Doc.Docs.{no_docs, docs}
use astli.Fmt.Doc.Work.{one, filling}
use astli.Fmt.Doc.Write.{repeated}

-- A space, a line feed or a carriage return.
abbrev pub is_blank : ℕ → Bool
is_blank c = c == 32 || c == 10 || c == 13

abbrev pub solid : Chars → Chars
solid [] = []
solid (c ∷ cs) = if is_blank c then solid cs else c ∷ solid cs

abbrev pub lines_content : List VerbatimLine → Chars
lines_content [] = []
lines_content (kept t ∷ ls) = solid t ++ lines_content ls
lines_content (moved i t ∷ ls) = solid t ++ lines_content ls

unfoldable mutual
  pub content : Doc → Chars
  content (text t) = solid t
  content (verbatim v) = solid v.first ++ lines_content v.rest
  content (group d) = content d
  content (indent d) = content d
  content (margin d) = content d
  content (align d) = content d
  content (prefer d e) = content d
  content (table d strict) = content d
  content (trailing d) = content d
  content (fill ds) = contents ds
  content (concat ds) = contents ds
  content space = []
  content line = []
  content soft_line = []
  content hard_line = []
  content blank_line = []
  content (cell index) = []

  pub contents : Docs → Chars
  contents no_docs = []
  contents (docs d ds) = content d ++ contents ds

-- The two layouts of a preference say the same.
unfoldable mutual
  unfolding content contents

  pub Agrees : Doc → Type 0
  Agrees (prefer d e) = (content d ≡ content e) × Agrees d × Agrees e
  Agrees (group d) = Agrees d
  Agrees (indent d) = Agrees d
  Agrees (margin d) = Agrees d
  Agrees (align d) = Agrees d
  Agrees (table d strict) = Agrees d
  Agrees (trailing d) = Agrees d
  Agrees (fill ds) = AllAgree ds
  Agrees (concat ds) = AllAgree ds
  Agrees (text t) = Unit
  Agrees (verbatim v) = Unit
  Agrees space = Unit
  Agrees line = Unit
  Agrees soft_line = Unit
  Agrees hard_line = Unit
  Agrees blank_line = Unit
  Agrees (cell index) = Unit

  pub AllAgree : Docs → Type 0
  AllAgree no_docs = Unit
  AllAgree (docs d ds) = Agrees d × AllAgree ds

abbrev pub work_content : Work → Chars
unfolding content contents
work_content (one d) = content d
work_content (filling ds) = contents ds

abbrev pub WorkAgrees : Work → Type 0
unfolding Agrees AllAgree
WorkAgrees (one d) = Agrees d
WorkAgrees (filling ds) = AllAgree ds

unfoldable pub stack_content : List Command → Chars
unfolding content contents
stack_content [] = []
stack_content (c ∷ stack) = work_content c.doc ++ stack_content stack

unfoldable pub StackAgrees : List Command → Type 0
unfolding Agrees AllAgree
StackAgrees [] = Unit
StackAgrees (c ∷ stack) = WorkAgrees c.doc × StackAgrees stack

pub solid-append : (xs ys : Chars) → solid (xs ++ ys) ≡ solid xs ++ solid ys
solid-append [] ys = refl
solid-append (x ∷ xs) ys = elim (Bool-cases (is_blank x)) [
  | inl e ↦ rw e (solid-append xs ys)
  | inr e ↦ rw e (ap (λ t. x ∷ t) (solid-append xs ys))
]

pub solid-replicate : (n : ℕ) → solid (replicate n 32) ≡ []
solid-replicate zero = refl
solid-replicate (suc n) = solid-replicate n

pub solid-repeated : (n : ℕ) (cs : Chars) → solid cs ≡ [] → solid (repeated n cs) ≡ []
solid-repeated zero cs h = refl
solid-repeated (suc n) cs h = solid-append cs (repeated n cs) ∙ ap₂ ◌++◌ h (solid-repeated n cs h)

-- A blank text behind another adds nothing.
pub solid-blank : (xs ys : Chars) → solid ys ≡ [] → solid (xs ++ ys) ≡ solid xs
solid-blank xs ys h = solid-append xs ys ∙ ap (λ t. solid xs ++ t) h ∙ append_nil (solid xs)
