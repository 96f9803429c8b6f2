-- ===== src/Parse/Examples.antt =====
-- Runs of the event buffer, those of the tests of crates/astli-parse/src/event.rs, and instances of
-- the theorems about it. A kind is a number, and so is a diagnostic.
use astli.Prelude.{sym, subst, ℕ, zero, suc, ◌+◌, ◌≤◌, ◌≡◌, refl, none, some, List, [], ◌∷◌, arith}
use astli.Parse.Event.{Event}
use astli.Parse.Events.{Events, token, report, abandon, precede, snapshot, rollback}
use astli.Parse.Events.Attempt.{Attempt, begin, next, takes, reports, abandons, precedes}
use astli.Parse.Events.Rollback.{rollback-Attempt}
use astli.Parse.Events.Resolve.{resolve}
use astli.Parse.Events.Resolve.Links.{IsLinked, LinkAt, StartAt}
use astli.Parse.Events.Resolve.Total.{IsResolved, resolve-total}

-- An open file, and in it a complete node of one token.
abbrev operand : Events ℕ ℕ
operand = record {
  events = Event.tombstone ∷ Event.start 1 none ∷ Event.token 7 ∷ Event.finish ∷ [];
  open_markers = 1;
  precedes = [];
  diagnostics = 5 ∷ [];
}

-- The node is enclosed, and a token follows; then the new node is abandoned.
abbrev enclosed : Events ℕ ℕ
enclosed = record {
  events =
      Event.tombstone
      ∷ Event.start 1 (some 3)
      ∷ Event.token 7
      ∷ Event.finish
      ∷ Event.tombstone
      ∷ [];
  open_markers = 2;
  precedes = 1 ∷ [];
  diagnostics = 5 ∷ [];
}

abbrev attempted : Events ℕ ℕ
attempted = record {
  events =
      Event.tombstone
      ∷ Event.start 1 (some 3)
      ∷ Event.token 7
      ∷ Event.finish
      ∷ Event.tombstone
      ∷ Event.token 8
      ∷ [];
  open_markers = 1;
  precedes = 1 ∷ [];
  diagnostics = 5 ∷ 6 ∷ [];
}

precede_runs : precede operand (record { pos = 1 }) ≡ some (enclosed, record { pos = 4 })
unfolding precede
precede_runs = refl

abandon_runs : abandon (report (token enclosed 8) 6) (record { pos = 4 }) ≡ some attempted
unfolding abandon token report
abandon_runs = refl

attempt : Attempt operand attempted
attempt =
    next
      (next
        (next
          (next begin
            (precedes (record { pos = 1 }) (record { pos = 4 }) (λ k fp h. cc) precede_runs))
          (takes _ 8))
        (reports _ 6))
      (abandons (record { pos = 4 }) (omega arith) abandon_runs)

rollback-Attempt_example : rollback attempted (snapshot operand) ≡ some operand
rollback-Attempt_example =
    rollback-Attempt operand attempted (omega arith) (omega arith) (omega arith) attempt

-- `a + b + c`, as in the table of the module's comment.
abbrev sums : Events ℕ ℕ
sums = record {
  events =
      Event.start 1 (some 3)
      ∷ Event.token 7
      ∷ Event.finish
      ∷ Event.start 2 (some 3)
      ∷ Event.token 8
      ∷ Event.finish
      ∷ Event.start 2 none
      ∷ Event.token 9
      ∷ Event.finish
      ∷ [];
  open_markers = 0;
  precedes = 0 ∷ 3 ∷ [];
  diagnostics = [];
}

resolve_runs :
    resolve sums
    ≡ some (
        Event.start 2 none
        ∷ Event.start 2 none
        ∷ Event.start 1 none
        ∷ Event.token 7
        ∷ Event.finish
        ∷ Event.token 8
        ∷ Event.finish
        ∷ Event.token 9
        ∷ Event.finish
        ∷ [])
unfolding resolve
resolve_runs = refl

sums_links : (p d : ℕ) → LinkAt sums.events p d → (d ≡ 3) × StartAt sums.events (p + d) × (p ≤ 3)
sums_links zero d (k, h) =
    let e : d ≡ 3 = ground arith in
    (e, subst (λ c. StartAt sums.events (0 + c)) (sym e) (2, some 3, refl), omega arith)
sums_links (suc zero) d (k, h) = cc
sums_links (suc (suc zero)) d (k, h) = cc
sums_links (suc (suc (suc zero))) d (k, h) =
    let e : d ≡ 3 = ground arith in
    (e, subst (λ c. StartAt sums.events (3 + c)) (sym e) (2, none, refl), omega arith)
sums_links (suc (suc (suc (suc zero)))) d (k, h) = cc
sums_links (suc (suc (suc (suc (suc zero))))) d (k, h) = cc
sums_links (suc (suc (suc (suc (suc (suc zero)))))) d (k, h) = ground arith
sums_links (suc (suc (suc (suc (suc (suc (suc zero))))))) d (k, h) = cc
sums_links (suc (suc (suc (suc (suc (suc (suc (suc zero)))))))) d (k, h) = cc
sums_links (suc (suc (suc (suc (suc (suc (suc (suc (suc p))))))))) d (k, h) = cc

sums-IsLinked : IsLinked 0 sums.events
sums-IsLinked = record {
  ahead = λ p d l k. let h = sums_links p d k in (omega (arith, h.0), h.1);
  unshared = λ p q d c l m k n e. omega (arith, e, (sums_links p d k).0, (sums_links q c n).0);
}

resolve-total_example :
    (out : List (Event ℕ)) × (resolve sums ≡ some out) × IsResolved 0 sums.events out
resolve-total_example = resolve-total sums refl sums-IsLinked
