-- ===== src/Parse/Events/Resolve.antt =====
-- `Events::resolve`, its loops as functions. The inner loop takes fuel, and turns a start into a
-- tombstone at each step.
pub mod Counts
pub mod Links
pub mod Chase
pub mod Total
use astli.Prelude.{
  ℕ, zero, suc, ◌+◌, Option, none, some, List, [], ◌∷◌, ◌==◌, if◌then◌else◌, ◌>>=◌, length,
  get_elem?, set,
}
use astli.Parse.Event.{Event}
use astli.Parse.Events.{Events}

module _ {ℓ} {K : Type ℓ} where
  -- `while let Some(distance) = forward_parent`: the events left, and the kinds pushed.
  unfoldable pub chase : ℕ → List (Event K) → ℕ → Option ℕ → Option (List (Event K) × List K)
  chase fuel events link none = some (events, [])
  chase zero events link (some distance) = none
  chase (suc fuel) events link (some distance) = elim (get_elem? events (link + distance)) [
    | some (Event.start kind next) ↦ (do
      rest ← chase fuel (set events (link + distance) Event.tombstone) (link + distance) next
      some (rest.0, kind ∷ rest.1))
    | some Event.tombstone ↦ none
    | some (Event.token kind) ↦ none
    | some Event.finish ↦ none
    | none ↦ none
  ]

  -- `for kind in nesting.drain(..).rev()`, in front of what is pushed after.
  unfoldable pub push_starts : List K → List (Event K) → List (Event K)
  push_starts [] out = out
  push_starts (kind ∷ kinds) out = push_starts kinds (Event.start kind none ∷ out)

  -- `for at in ..`, for `n` more events.
  unfoldable pub resolve_from : ℕ → ℕ → List (Event K) → Option (List (Event K))
  unfolding chase push_starts
  resolve_from zero at events = some []
  resolve_from (suc n) at events = elim (get_elem? events at) [
    | some (Event.start kind forward_parent) ↦ (do
      chased ← chase (length events) events at forward_parent
      rest ← resolve_from n (suc at) chased.0
      some (push_starts (kind ∷ chased.1) rest))
    | some Event.tombstone ↦ resolve_from n (suc at) events
    | some (Event.token kind) ↦ (do
      rest ← resolve_from n (suc at) events
      some (Event.token kind ∷ rest))
    | some Event.finish ↦ (do rest ← resolve_from n (suc at) events; some (Event.finish ∷ rest))
    | none ↦ none
  ]

unfoldable pub resolve {ℓ κ} : {K : Type ℓ} {D : Type κ} → Events K D → Option (List (Event K))
unfolding resolve_from
resolve s = if s.open_markers == 0 then resolve_from (length s.events) 0 s.events else none
