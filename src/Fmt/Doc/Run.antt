-- ===== src/Fmt/Doc/Run.antt =====
-- crates/astli-fmt/src/doc.rs, `run`: the printer's commands. The stack has its top first, and the loop runs on
-- fuel; without it, and where the code panics, it gives `none`.
pub mod Weight
pub mod Total
use astli.Prelude.{
  ℕ, zero, suc, ◌+◌, Bool, true, false, not, ◌&&◌, ◌||◌, List, [], ◌∷◌, Option, none, some, ltb,
  if◌then◌else◌, ◌>>=◌, length,
}
use astli.Fmt.Doc.{Doc, Docs, Layout, Mode, Command, Printer}
use astli.Fmt.Doc.Docs.{no_docs, docs}
use astli.Fmt.Doc.Mode.{flat, broken}
use astli.Fmt.Doc.Gap.{no_gap, one_space, lines}
use astli.Fmt.Doc.Work.{one, filling}
use astli.Fmt.Doc.Measure.{fits, starts, is_broken, measure}
use astli.Fmt.Doc.Write.{
  writes_space, request_space, request_lines, as_count, text, cell, alignment,
}
use astli.Fmt.Doc.Block.{write_verbatim}

abbrev pub Runner : Type 0
Runner = Printer → List Command → ℕ → Option Printer

abbrev pub new : Layout → ℕ → Printer
new layout column = record {
  layout = layout;
  out = [];
  column = column;
  gap = no_gap;
  line = 0;
  indent = 0;
  block = 0;
  tables = 0;
  anchor = none;
  cramped = false;
  cells = [];
  continuations = [];
  trial = false;
}

abbrev pub inner : Command → Doc → Command
inner c d = record c { doc = one d }

abbrev pub push_docs : Command → Docs → List Command → List Command
push_docs c no_docs stack = stack
push_docs c (docs d ds) stack = inner c d ∷ push_docs c ds stack

abbrev pub mode_of : Bool → Mode
mode_of is_flat = if is_flat then flat else broken

abbrev pub no_more : Docs → Bool
no_more no_docs = true
no_more (docs d ds) = false

abbrev pub queue : Command → Mode → Doc → Command
queue c mode d = record c { mode = mode; doc = one d }

-- Only behind the last part does what follows stand on its line.
abbrev pub behind : Bool → List Command → List Command
behind last stack = if last then stack else []

unfoldable pub fill_broken : Printer → Command → Docs → List Command → List Command
unfolding measure
fill_broken p c no_docs stack = stack
fill_broken p c (docs part no_docs) stack =
    queue c (mode_of (fits p (docs part no_docs) stack)) part ∷ stack
fill_broken p c (docs part (docs separator no_docs)) stack =
    let is_flat = fits p (docs part no_docs) [] in
    queue c (mode_of is_flat) part ∷ queue c (mode_of is_flat) separator ∷ stack
fill_broken p c (docs part (docs separator (docs next more))) stack =
    let is_flat = fits p (docs part no_docs) [] in
    let both =
      starts p (docs part (docs separator (docs next no_docs))) (behind (no_more more) stack) in
    queue c (mode_of is_flat) part
    ∷ queue c (mode_of both) separator
    ∷ record c { doc = filling (docs next more) }
    ∷ stack

unfoldable pub fill : Printer → Command → Docs → List Command → List Command
unfolding fill_broken
fill p c ds stack = elim c.mode [ flat ↦ push_docs c ds stack | broken ↦ fill_broken p c ds stack ]

abbrev pub trial_column : Printer → ℕ
unfolding writes_space
trial_column p = elim p.gap [
  | lines count indent anchor ↦ indent
  | no_gap ↦ p.column + as_count (writes_space p)
  | one_space ↦ p.column + as_count (writes_space p)
]

unfoldable pub fits_printed : Runner → Printer → Command → List Command → Option Bool
unfolding writes_space measure
fits_printed runner p c rest = if p.trial then some false else (do
  printed ←
      runner (record (new p.layout (trial_column p)) { indent = p.indent; trial = true }) (c ∷ rest)
        (length rest)
  some (not printed.cramped && fits printed no_docs rest))

abbrev pub prefers : Runner → Printer → Command → List Command → Option Bool
unfolding fits_printed
prefers runner p c rest = elim c.mode [ flat ↦ some true | broken ↦ fits_printed runner p c rest ]

-- One command off the stack: the printer after it, and the stack.
unfoldable pub step :
    Runner → Printer → Command → Doc → List Command → Option (Printer × List Command)
unfolding text request_space request_lines measure alignment fill cell write_verbatim fits_printed
step runner p c (Doc.text t) stack = some (text p t, stack)
step runner p c Doc.space stack = some (request_space p, stack)
step runner p c Doc.line stack =
    some (if is_broken c.mode then request_lines p 1 c.indent c.anchor else request_space p, stack)
step runner p c Doc.hard_line stack = some (request_lines p 1 c.indent c.anchor, stack)
step runner p c Doc.soft_line stack =
    some (if is_broken c.mode then request_lines p 1 c.indent c.anchor else p, stack)
step runner p c Doc.blank_line stack = some (request_lines p 2 c.indent c.anchor, stack)
step runner p c (Doc.group d) stack =
    some (p, queue c (mode_of (not (is_broken c.mode) || fits p (docs d no_docs) stack)) d ∷ stack)
step runner p c (Doc.indent d) stack =
    some (p, record (inner c d) { indent = c.indent + p.layout.indent } ∷ stack)
step runner p c (Doc.margin d) stack =
    some (p, record (inner c d) { indent = 0; anchor = none } ∷ stack)
step runner p c (Doc.align d) stack =
    some (p, record (inner c d) { indent = (alignment p).0; anchor = (alignment p).1 } ∷ stack)
step runner p c (Doc.fill ds) stack = some (p, fill p c ds stack)
step runner p c (Doc.prefer d e) stack = do
  first ← prefers runner p (inner c d) stack
  some (p, inner c (if first then d else e) ∷ stack)
step runner p c (Doc.table d strict) stack = some (
  record p { tables = suc p.tables },
  record (inner c d) { table = some (suc p.tables, strict) } ∷ stack,
)
step runner p c (Doc.cell index) stack = some (cell p c.table index, stack)
step runner p c (Doc.trailing d) stack = do
  after ← runner p (inner c d ∷ []) 0
  some (record after { cramped = p.cramped }, stack)
step runner p c (Doc.concat ds) stack = some (p, push_docs c ds stack)
step runner p c (Doc.verbatim v) stack = do after ← write_verbatim p v; some (after, stack)

abbrev pub command : Runner → Printer → Command → List Command → Option (Printer × List Command)
unfolding step fill
command runner p c stack = elim c.doc [
  | one d ↦ step runner p c d stack
  | filling ds ↦ some (p, fill p c ds stack)
]

-- Until so many commands are left.
unfoldable pub run : ℕ → Printer → List Command → ℕ → Option Printer
unfolding step fill
run zero p stack until = if ltb until (length stack) then none else some p
run (suc fuel) p [] until = some p
run (suc fuel) p (c ∷ stack) until =
    if ltb until (length (c ∷ stack))
    then (do next ← command (run fuel) p c stack; run fuel next.0 next.1 until)
    else some p
