-- ===== src/Parse/Events/Rollback.antt =====
-- `Events::rollback` puts back what `Events::snapshot` saw.
use astli.Prelude.{
  ℕ, ◌^◌, ◌<◌, ◌≡◌, ap, ◌∙◌, Option, none, some, List, ◌++◌, ◌==◌, arith, if◌then◌else◌, length,
  take, take-append,
}
use astli.Parse.Event.{Event}
use astli.Parse.Events.{Events, snapshot, rollback, clear_past, u32}
use astli.Parse.Events.Attempt.{Attempt, IsSince, restored-events}
use astli.Parse.Events.Attempt.Steps.{Attempt-IsSince}

-- A list that only grew, cut at its old length.
take-grown {ℓ} :
    {A : Type ℓ} (now before more : List A)
    → now ≡ before ++ more
    → take (length before) now ≡ before
take-grown now before more h = ap (take (length before)) h ∙ take-append before more

u32-of_lt : (n : ℕ) → n < 2 ^ 32 → u32 n ≡ n
u32-of_lt n h = omega arith

restore {ℓ κ} :
    {K : Type ℓ} {D : Type κ} (s0 s : Events K D) (e : List (Event K)) (p : List ℕ) (d : List D)
    → e ≡ s0.events
    → p ≡ s0.precedes
    → d ≡ s0.diagnostics
    → Path
        (Option (Events K D))
        (if s.open_markers == s0.open_markers
          then some (record s { events = e; precedes = p; diagnostics = d })
          else none)
        (if s.open_markers == s0.open_markers then some s0 else none)
restore s0 s e p d he hp hd = ground (arith, he, hp, hd)

-- After an attempt, which may report, open markers, complete or abandon them in any order, and
-- enclose a complete node that had no parent, the rollback to the snapshot from before it gives the
-- very state from before it, and is refused (a panic) just where the number of open markers is
-- another. The buffers are of fewer than 2^32 elements when the snapshot is taken.
pub rollback-Attempt {ℓ κ} :
    {K : Type ℓ} {D : Type κ} (s0 s : Events K D)
    → length s0.events < 2 ^ 32
    → length s0.precedes < 2 ^ 32
    → length s0.diagnostics < 2 ^ 32
    → Attempt s0 s
    → rollback s (snapshot s0) ≡ (if s.open_markers == s0.open_markers then some s0 else none)
unfolding rollback snapshot
rollback-Attempt s0 s he hp hd a =
    let h : IsSince s0 s = Attempt-IsSince s0 a in
    let events : take (length s0.events) (clear_past (length s0.precedes) s.events s.precedes)
        ≡ s0.events =
      restored-events s0 s h in
    let precedes : take (length s0.precedes) s.precedes ≡ s0.precedes =
      take-grown s.precedes s0.precedes h.more h.recorded in
    let diagnostics : take (length s0.diagnostics) s.diagnostics ≡ s0.diagnostics =
      take-grown s.diagnostics s0.diagnostics h.said h.reported in
    rw
      (
        u32-of_lt (length s0.events) he,
        u32-of_lt (length s0.precedes) hp,
        u32-of_lt (length s0.diagnostics) hd,
      )
      (restore s0 s _ _ _ events precedes diagnostics)
