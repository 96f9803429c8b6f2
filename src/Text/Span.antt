-- ===== src/Text/Span.antt =====
-- crates/astli-text/src/span.rs: byte ranges of a file. A `u32` offset is a number; nothing here
-- can pass 2^32, since the operations take a minimum, a maximum or a difference.
use astli.Prelude.{
  ℕ, ◌-◌, ◌≤◌, min, max, ◌≡◌, Bool, true, Option, none, some, ◌&&◌, arith, leb, ◌==◌, if◌then◌else◌,
}

-- The index of the file.
abbrev pub SourceId : Type 0
SourceId = ℕ

pub record Span : Type 0 where
  pub src_id : SourceId
  pub start : ℕ
  pub end : ℕ

-- What `Span::new` asserts in a debug build.
abbrev pub IsOrdered : Span → Type 0
IsOrdered s = s.start ≤ s.end

unfoldable pub point : SourceId → ℕ → Span
point file at = record { src_id = file; start = at; end = at }

unfoldable pub len : Span → ℕ
len s = s.end - s.start

unfoldable pub is_empty : Span → Bool
is_empty s = s.start == s.end

unfoldable pub contains : Span → Span → Bool
contains s other = s.src_id == other.src_id && (leb s.start other.start && leb other.end s.end)

unfoldable pub cover : Span → Span → Option Span
cover s other =
    if s.src_id == other.src_id
    then some
        (record { src_id = s.src_id; start = min s.start other.start; end = max s.end other.end })
    else none

-- Where two spans have a cover, it contains both, and every span that contains both contains it.
pub cover-IsLeast :
    (a b c : Span)
    → cover a b ≡ some c
    → (contains c a ≡ true)
      × (contains c b ≡ true)
      × ((d : Span) → contains d a ≡ true → contains d b ≡ true → contains d c ≡ true)
unfolding cover contains
cover-IsLeast a b c h = (ground arith, ground arith, λ d p q. ground arith)

-- Containment is a partial order on the ordered spans, and bounds the length.
pub len-contains :
    (a b : Span) → contains a b ≡ true → contains b a ≡ true → (a ≡ b) × (len a ≡ len b)
unfolding contains len
len-contains a b h k = ground arith
