-- ===== src/Fmt/Examples.antt =====
-- Runs and instances of the theorems about crates/astli-fmt, on the documents of its tests.
use astli.Prelude.{ℕ, ◌≡◌, refl, arith, List, [], ◌∷◌, Option, some, none}
use astli.Preproc.Directive.{codes}
use astli.Fmt.Doc.{Gap, Doc, Layout, Mode, Work, Command, Printer, VerbatimLine}
use astli.Fmt.Doc.Doc.{text, space, line, soft_line, hard_line, group, indent, concat, verbatim}
use astli.Fmt.Doc.Docs.{no_docs, docs}
use astli.Fmt.Doc.Run.{new, run, inner}
use astli.Fmt.Doc.Run.Weight.{weight, SoundStack}
use astli.Fmt.Doc.Run.Total.{run-total}
use astli.Fmt.Doc.Token.{token}
use astli.Fmt.Doc.Token.Written.{token-written}
use astli.Fmt.Doc.Write.{flush}
use astli.Fmt.Doc.Content.{stack_content, StackAgrees}
use astli.Fmt.Doc.Content.Write.{Writes}
use astli.Fmt.Doc.Content.Run.{run-content}

-- "name (a, b);", on one line or one item per line.
abbrev call : Doc
call = group (
    concat (
      docs (text (codes "f")) (
        docs space (
          docs (text (codes "(")) (
            docs
              (indent (
                concat (
                  docs soft_line (
                    docs (text (codes "a"))
                      (docs (text (codes ",")) (docs line (docs (text (codes "b")) no_docs)))))))
              (docs soft_line (docs (text (codes ");")) no_docs)))))))

abbrev layout : ℕ → Layout
layout width = record { width = width; indent = 2; max_pad = 12; newline = codes "\n" }

abbrev start : Doc → List Command
start d =
    record { indent = 0; anchor = none; mode = Mode.broken; table = none; doc = Work.one d } ∷ []

abbrev output : Option Printer → Option (List ℕ)
output none = none
output (some p) = some p.out

flat_runs : output (run 40 (new (layout 20) 0) (start call) 0) ≡ some (codes "f (a, b);")
unfolding run
flat_runs = refl

broken_runs : output (run 40 (new (layout 6) 0) (start call) 0) ≡ some (codes "f (\n  a,\n  b\n);")
unfolding run
broken_runs = refl

-- "x;", and under it a block of which the second line hangs one column further in.
abbrev block : Doc
block = concat (
    docs (text (codes "x;")) (
      docs hard_line (
        docs
          (verbatim (record {
            column = 2;
            indent = 2;
            first = codes "y";
            rest = VerbatimLine.moved 3 (codes "z") ∷ VerbatimLine.kept (codes " w") ∷ [];
            continued = [];
          }))
          no_docs)))

block_runs : output (run 10 (new (layout 20) 0) (start block) 0) ≡ some (codes "x;\ny\n z\n w")
unfolding run
block_runs = refl

call-SoundStack : SoundStack (start call)
unfolding SoundStack
call-SoundStack = ((tt, (tt, (tt, ((tt, (tt, (tt, (tt, (tt, tt))))), (tt, (tt, tt)))))), tt)

run-total_example : (q : Printer) × (run 40 (new (layout 6) 0) (start call) 0 ≡ some q)
unfolding weight SoundStack
run-total_example = run-total 40 (new (layout 6) 0) (start call) 0 call-SoundStack (omega arith)

run-content_example :
    (q : Printer) × (run 40 (new (layout 6) 0) (start call) 0 ≡ some q)
    × Writes (new (layout 6) 0) q (codes "f(a,b);")
unfolding weight SoundStack StackAgrees stack_content
run-content_example =
    run-content 40 (new (layout 6) 0) (start call) call-SoundStack
      ((tt, (tt, (tt, ((tt, (tt, (tt, (tt, (tt, tt))))), (tt, (tt, tt)))))), tt) refl (omega arith)

comment_runs :
    token (codes "/* a\n b */")
    ≡ verbatim (record {
      column = 0;
      indent = 0;
      first = codes "/* a";
      rest = VerbatimLine.kept (codes " b */") ∷ [];
      continued = [];
    })
unfolding token
comment_runs = refl

-- Behind "x" and a pending space, in a layout that ends its lines otherwise.
abbrev behind_space : Printer
behind_space = record (new (record (layout 20) { newline = codes "\r\n" }) 1) {
  out = codes "x";
  gap = Gap.one_space;
}

abbrev outer : Command
outer = record { indent = 4; anchor = none; mode = Mode.broken; table = none; doc = Work.one space }

token-written_example :
    (q : Printer) × (run 3 behind_space (inner outer (token (codes "/* a\n b */")) ∷ []) 0 ≡ some q)
    × (q.out ≡ codes "x /* a\n b */")
unfolding flush
token-written_example = token-written 2 behind_space outer b'/' (codes "* a\n b */")
