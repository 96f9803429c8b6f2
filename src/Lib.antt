-- ===== src/Lib.antt =====
-- astli: a model of the SystemVerilog toolchain, crate by crate.
--
-- A source file becomes tokens, whose directives make regions of it conditional (crates/astli-preproc), then
-- events, then a tree (crates/astli-syntax, crates/astli-parse), every token of which has a span into a registry of buffers (crates/astli-text). Values of the elaborated design
-- are four-state bit vectors (crates/astli-sema). Rules turn a tree into a document, which a
-- printer lays out (crates/astli-fmt). Fixes of diagnostics are applied to the text again
-- (crates/astli-text), and the packages that a project needs are solved for over sets of candidates
-- (crates/astli-resolve).
--
-- Text: crates/astli-text/src. `Text.Span` is span.rs; `Text.Fix` is `apply` of fix.rs, with its
--   closure `clashes` and its two loops as functions; `Text.Bytes` is a slice of a string, which is the
--   list of its bytes and panics where an end of the slice is within a character; `Text.Origins` is origins.rs, the registry of
--   buffers, views and expansions, each method a function from the registry to the registry. A
--   `Vec` is a list, an index out of range is `none`, and so is a failed assertion. The file system
--   (`Reader` of files.rs) is a function that the model takes as a parameter.
--   The walks up the includes and the expansions run on fuel; an id, or the number of
--   views, is enough fuel, since a buffer only refers to older ones.
-- Parse: crates/astli-parse/src/event.rs. `Parse.Events` is `Events` with its markers;
--   `Parse.Events.Attempt` says what a speculative parse may do; `Parse.Events.Resolve` is `resolve`,
--   its inner loop on fuel that the length of the buffer suffices for, as every link leads ahead. A
--   `u32` wraps around, the kinds of crates/astli-syntax are a parameter.
-- Sema: crates/astli-sema/src/value/bits.rs. `Sema.Bits` is the vector of 64-bit limbs, value and
--   unknown, and its tests; `Sema.Bits.Bitwise` the operators that work limb by limb, with
--   the four-state tables of the standard in `Sema.Bits.Bitwise.Closures`; a limb is a natural
--   below 2 ^ 64 and its operators are those of its binary digits. `Sema.Bits.Put` writes ranges of
--   bits and fills, `Sema.Bits.Copy` copies them: `resize`, `shl`, `shr`, which are `shl_bits` and
--   `shr_bits` here. The loops run on as much fuel as there are bits to write.
--   `Sema.Bits.Arithmetic` is `add`, `sub`, `neg`, `mul` and `compare`, in terms of `number` of
--   `Sema.Bits.Number`, what a list of limbs stands for.
-- Resolve: crates/astli-resolve/src/version.rs. `Resolve.Candidate` is `Candidate` with its derived
--   order, over any order of versions and of ids (`semver` and `gix` are not of the repository, and the
--   laws of their orders are what `Resolve.Order.IsLawful` asks); `Resolve.Candidates` is
--   `Candidates`. A `BTreeSet` is the ascending list of its elements. The doc of
--   `highest` speaks of those `known` alone; the code, as the model, looks at them only for a complement.
-- Preproc: crates/astli-preproc/src. `Preproc.Kind` has the kinds of tokens that directives are read by, each
--   the place of its `SyntaxKind` (crates/astli-syntax/src/kind.rs); `Preproc.Tokens` is tokens.rs over a
--   source of bytes, where a slice that starts or ends within a character is not told from others;
--   `Preproc.Directive` is directive.rs, `Preproc.Conditional` is conditional.rs. An
--   index out of range, a slice out of range and a span that runs backwards give `none`. A
--   position is a `u32` that the model leaves unbounded, since none is past the number of tokens by
--   more than one. The loops run on as much fuel as there are tokens left. The lexer is
--   a derive macro, so what is asked of its tokens is that they lie in the source (`IsLexed`).
-- Fmt: crates/astli-fmt/src/doc.rs. `Fmt.Doc` has the documents and what the printer keeps, `Fmt.Doc.Measure` is
--   `measure` with its stack of documents as recursion over them, `Fmt.Doc.Write` is `text`, `flush`
--   and what requests a separation, `Fmt.Doc.Block` is `verbatim`, `Fmt.Doc.Run` is `run` and `fill`,
--   `Fmt.Doc.Token` is `Doc::token`. The stack
--   has its top first. `run` runs on fuel, which a trial printing uses too; what the commands
--   weigh (`Fmt.Doc.Run.Weight`) is enough. A column that the source counts in `i64` is written as the
--   difference of two. Columns and counts are
--   naturals without a bound. The alignment of cells, which follows in `print`, is left out.
-- Prelude: names of the standard library, lemmas on lists and Booleans.
--
-- Not modelled: the grammar and the lexer, the expansion of macros, elaboration, lints and the rules of the
-- formatter, which work on syntax trees of a third-party crate; reading and writing of files, rendering,
-- the command line.
mod Prelude
pub mod Text
pub mod Resolve
pub mod Parse
pub mod Preproc
pub mod Sema
pub mod Fmt
