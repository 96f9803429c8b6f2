-- ===== src/Parse/Events.antt =====
-- crates/astli-parse/src/event.rs: the buffer that the rules of the grammar append to, with its
-- markers and snapshots. A `u32` keeps its wrap-around, a panic is `none`. The guard against a
-- marker that is dropped (`Bomb`) stops a program and is not part of the state.
pub mod Resolve
pub mod Clear
pub mod Attempt
pub mod Rollback
use astli.Prelude.{
  ℕ, zero, suc, ◌+◌, ◌-◌, ◌%◌, ◌^◌, Bool, Option, none, some, List, [], ◌∷◌, ◌++◌, ◌==◌, leb,
  if◌then◌else◌, ◌>>=◌, length, get_elem?, set, take,
}
use astli.Parse.Event.{Event}

pub record Snapshot : Type 0 where
  pub events : ℕ
  pub open_markers : ℕ
  pub precedes : ℕ
  pub diagnostics : ℕ

pub record Events {ℓ κ} (K : Type ℓ) (D : Type κ) : Type (ℓ ⊔ κ) where
  pub events : List (Event K)
  pub open_markers : ℕ
  pub precedes : List ℕ
  pub diagnostics : List D

pub record Marker : Type 0 where
  pub pos : ℕ

pub record Completed : Type 0 where
  pub pos : ℕ

-- `as u32`, and the addition of a build without overflow checks.
abbrev pub u32 : ℕ → ℕ
u32 n = n % 2 ^ 32

module _ {ℓ} {K : Type ℓ} where
  -- The body of the loop of `rollback`.
  unfoldable pub clear : List (Event K) → ℕ → List (Event K)
  clear events at = elim (get_elem? events at) [
    | some (Event.start kind forward_parent) ↦ set events at (Event.start kind none)
    | some Event.tombstone ↦ events
    | some (Event.token kind) ↦ events
    | some Event.finish ↦ events
    | none ↦ events
  ]

  -- The loop of `rollback`, which takes the last first.
  unfoldable pub clear_past : ℕ → List (Event K) → List ℕ → List (Event K)
  unfolding clear
  clear_past n events [] = events
  clear_past zero events (at ∷ ats) = clear (clear_past zero events ats) at
  clear_past (suc n) events (at ∷ ats) = clear_past n events ats

  -- `*forward_parent = Some(..)`, and the panic where the event is no start.
  unfoldable pub link : List (Event K) → ℕ → ℕ → Option (List (Event K))
  link events at distance = elim (get_elem? events at) [
    | some (Event.start kind forward_parent) ↦
        some (set events at (Event.start kind (some distance)))
    | some Event.tombstone ↦ none
    | some (Event.token kind) ↦ none
    | some Event.finish ↦ none
    | none ↦ none
  ]

module _ {ℓ κ} {K : Type ℓ} {D : Type κ} where
  unfoldable pub new : Events K D
  new = record { events = []; open_markers = 0; precedes = []; diagnostics = [] }

  unfoldable pub start : Events K D → Events K D × Marker
  start s = (
    record s { events = s.events ++ Event.tombstone ∷ []; open_markers = u32 (s.open_markers + 1) },
    record { pos = u32 (length s.events) },
  )

  unfoldable pub token : Events K D → K → Events K D
  token s kind = record s { events = s.events ++ Event.token kind ∷ [] }

  -- `checked_sub(1).expect(..)`
  unfoldable pub close : Events K D → Option (Events K D)
  close s =
      if s.open_markers == 0 then none else some (record s { open_markers = s.open_markers - 1 })

  unfoldable pub snapshot : Events K D → Snapshot
  snapshot s = record {
    events = u32 (length s.events);
    open_markers = s.open_markers;
    precedes = u32 (length s.precedes);
    diagnostics = u32 (length s.diagnostics);
  }

  unfoldable pub rollback : Events K D → Snapshot → Option (Events K D)
  unfolding clear_past
  rollback s at =
      if s.open_markers == at.open_markers
      then some (record s {
        events = take at.events (clear_past at.precedes s.events s.precedes);
        precedes = take at.precedes s.precedes;
        diagnostics = take at.diagnostics s.diagnostics;
      })
      else none

  unfoldable pub report : Events K D → D → Events K D
  report s diagnostic = record s { diagnostics = s.diagnostics ++ diagnostic ∷ [] }

  unfoldable pub take_diagnostics : Events K D → List D × Events K D
  take_diagnostics s = (s.diagnostics, record s { diagnostics = [] })

  -- `events[pos] = ..`, which panics out of range.
  unfoldable pub complete : Events K D → Marker → K → Option (Events K D × Completed)
  unfolding close
  complete s m kind = do
    old ← get_elem? s.events m.pos
    closed ←
        close
          (record s { events = set s.events m.pos (Event.start kind none) ++ Event.finish ∷ [] })
    some (closed, record { pos = m.pos })

  unfoldable pub abandon : Events K D → Marker → Option (Events K D)
  unfolding close
  abandon s m = do
    closed ← close s
    some (
        if m.pos + 1 == length closed.events
        then record closed { events = take m.pos closed.events }
        else closed)

  unfoldable pub precede : Events K D → Completed → Option (Events K D × Marker)
  unfolding start link
  precede s c = do
    let (opened, m) = start s
    linked ← link opened.events c.pos (u32 (m.pos + 2 ^ 32 - c.pos))
    some (record opened { events = linked; precedes = opened.precedes ++ c.pos ∷ [] }, m)
