-- ===== src/Text/Origins.antt =====
-- crates/astli-text/src/origins.rs: the registry of source text. A text is the list of its bytes, a
-- path a string, a vector a list, and an index that would panic gives `none`. Ids are `u32` in the
-- source; here they are numbers, so a registry of 2^32 views or more is not modelled. The reader
-- (crates/astli-text/src/files.rs) is an argument. The two iterators that walk up the includes and
-- the expansions take fuel; `Includes` and `Expansions` prove how much is enough.
pub mod Valid
pub mod Through
pub mod Includes
pub mod Load
pub mod Expansions
use Prim.Native.String.{String}
use package.text.Mathlib.Text.{◌==◌ as str_eq}
use astli.Prelude.{
  ℕ, zero, suc, ◌+◌, ◌-◌, Bool, true, false, Option, none, some, List, [], ◌∷◌, ◌++◌, ◌&&◌, ◌||◌,
  ltb, leb, ◌==◌, if◌then◌else◌, ◌>>=◌, any, length, take, drop, get_elem?, set,
}
use astli.Text.Bytes.{str_slice}
use astli.Text.Span.{Span, SourceId}

abbrev pub ExpansionId : Type 0
ExpansionId = ℕ

pub record Expansion : Type 0 where
  pub name : Span
  pub call : Span
  pub def : Option Span

pub data Included : Type 0 where
  opened : SourceId → Included
  not_found cycle : Included

-- `File` with its path and where it was included from, or `Synthesised`.
pub data Source : Type 0 where
  file : String → Option Span → Source
  synthesised : Source

pub record Buffer : Type 0 where
  pub source : Source
  pub text : List ℕ
  pub lines : List ℕ
  pub written : SourceId

pub record View : Type 0 where
  pub buffer : ℕ
  pub from : Option ExpansionId

pub record Origins : Type 0 where
  pub buffers : List Buffer
  pub views : List View
  pub expansions : List (Expansion × List SourceId)

abbrev pub new : Origins
new = record { buffers = []; views = []; expansions = [] }

-- The offsets after each newline, from offset `at` on.
unfoldable pub line_starts : ℕ → List ℕ → List ℕ
line_starts at [] = []
line_starts at (b ∷ bs) =
    let rest = line_starts (at + 1) bs in if b == b'\n' then (at + 1) ∷ rest else rest

unfoldable pub view : Origins → ℕ → Option ExpansionId → Origins × SourceId
view o buffer from =
    (record o { views = o.views ++ record { buffer = buffer; from = from } ∷ [] }, length o.views)

unfoldable pub add : Origins → Source → List ℕ → Origins × SourceId
unfolding view line_starts
add o source text =
    let (o', written) = view o (length o.buffers) none in
    (
      record o' {
        buffers =
            o'.buffers
            ++ record {
              source = source;
              text = text;
              lines = 0 ∷ line_starts 0 text;
              written = written;
            }
              ∷ [];
      },
      written,
    )

unfoldable pub add_file : Origins → String → List ℕ → Origins × SourceId
unfolding add
add_file o path text = add o (file path none) text

unfoldable pub add_included : Origins → String → List ℕ → Span → Origins × SourceId
unfolding add
add_included o path text from = add o (file path (some from)) text

unfoldable pub add_synthesised : Origins → List ℕ → Origins × SourceId
unfolding add
add_synthesised o text = add o synthesised text

unfoldable pub expand : Origins → Expansion → Origins × ExpansionId
expand o expansion =
    (record o { expansions = o.expansions ++ (expansion, []) ∷ [] }, length o.expansions)

unfoldable pub buffer : Origins → SourceId → Option Buffer
buffer o f = do v ← get_elem? o.views f; get_elem? o.buffers v.buffer

-- `placed.iter().find(..)`: the first of the views that shows the buffer.
unfoldable pub find_placed : List View → ℕ → List SourceId → Option (Option SourceId)
find_placed views buffer [] = some none
find_placed views buffer (p ∷ ps) =
    let rest = find_placed views buffer ps in
    do v ← get_elem? views p; if v.buffer == buffer then some (some p) else rest

-- The new view is recorded with its expansion.
unfoldable pub place : Origins → ℕ → ExpansionId → Option (Origins × SourceId)
unfolding view find_placed
place o buffer id = do
  placed ← get_elem? o.expansions id
  found ← find_placed o.views buffer placed.1
  elim found [
    | some v ↦ some (o, v)
    | none ↦
        let (o', v) = view o buffer (some id) in
        some (record o' { expansions = set o'.expansions id (placed.0, placed.1 ++ v ∷ []) }, v)
  ]

unfoldable pub file_through : Origins → ℕ → Option ExpansionId → Option (Origins × SourceId)
unfolding place
file_through o buffer none = do b ← get_elem? o.buffers buffer; some (o, b.written)
file_through o buffer (some id) = place o buffer id

unfoldable pub through : Origins → Span → Option ExpansionId → Option (Origins × Span)
unfolding file_through
through o span expansion = do
  v ← get_elem? o.views span.src_id
  placed ← file_through o v.buffer expansion
  some (placed.0, record span { src_id = placed.1 })

unfoldable pub spelled : Origins → Span → Option Span
unfolding buffer
spelled o span = do b ← buffer o span.src_id; some (record span { src_id = b.written })

unfoldable pub placed_by : Origins → SourceId → Option (Option ExpansionId)
placed_by o f = do v ← get_elem? o.views f; some v.from

unfoldable pub text : Origins → SourceId → Option (List ℕ)
unfolding buffer
text o f = do b ← buffer o f; some b.text

-- `&text[start..end]`
unfoldable pub slice : Origins → Span → Option (List ℕ)
unfolding text str_slice
slice o span = do t ← text o span.src_id; str_slice t span.start span.end

abbrev pub source_path : Source → Option String
source_path (file p from) = some p
source_path synthesised = none

abbrev pub source_from : Source → Option Span
source_from (file p from) = from
source_from synthesised = none

unfoldable pub path : Origins → SourceId → Option (Option String)
unfolding buffer
path o f = do b ← buffer o f; some (source_path b.source)

unfoldable pub included_from : Origins → SourceId → Option (Option Span)
unfolding buffer
included_from o f = do b ← buffer o f; some (source_from b.source)

-- `successors(included_from(file), ..)`; `none` when the fuel runs out, or on a panic.
unfoldable pub include_trace : ℕ → Origins → SourceId → Option (List Span)
include_trace zero o f = none
include_trace (suc fuel) o f = do
  from ← included_from o f
  elim from [
    | none ↦ some []
    | some site ↦ (do rest ← include_trace fuel o site.src_id; some (site ∷ rest))
  ]

abbrev pub same_path : String → Option String → Bool
same_path p none = false
same_path p (some q) = str_eq q p

-- `.any(|open| self.path(open) == Some(path))`
unfoldable pub any_path : Origins → String → List SourceId → Option Bool
any_path o p [] = some false
any_path o p (f ∷ fs) =
    let rest = any_path o p fs in do q ← path o f; if same_path p q then some true else rest

abbrev pub sites : List Span → List SourceId
sites [] = []
sites (s ∷ ss) = s.src_id ∷ sites ss

-- The trace is walked with as much fuel as there are views.
unfoldable pub reenters : Origins → String → SourceId → Option Bool
unfolding include_trace any_path
reenters o p f = do trace ← include_trace (suc (length o.views)) o f; any_path o p (f ∷ sites trace)

unfoldable pub include_depth : Origins → SourceId → Option ℕ
unfolding include_trace
include_depth o f = do trace ← include_trace (suc (length o.views)) o f; some (length trace)

abbrev pub Reader : Type 0
Reader = String → Option (List ℕ)

-- `candidates.iter().find_map(..)`
unfoldable pub first_read : Reader → List String → Option (String × List ℕ)
first_read reader [] = none
first_read reader (c ∷ cs) =
    let rest = first_read reader cs in elim (reader c) [ some t ↦ some (c, t) | none ↦ rest ]

abbrev pub open_unless : Bool → Origins → String → List ℕ → Span → Origins × Included
open_unless true o p t site = (o, cycle)
open_unless false o p t site = let (o', f) = add_included o p t site in (o', opened f)

unfoldable pub load_included : Origins → Reader → List String → Span → Option (Origins × Included)
unfolding first_read reenters add_included
load_included o reader candidates site = elim (first_read reader candidates) [
  | none ↦ some (o, not_found)
  | some (p, t) ↦ (do again ← reenters o p site.src_id; some (open_unless again o p t site))
]

unfoldable pub expansion : Origins → ExpansionId → Option Expansion
expansion o id = do e ← get_elem? o.expansions id; some e.0
