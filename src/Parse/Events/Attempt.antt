-- ===== src/Parse/Events/Attempt.antt =====
-- A speculative attempt: what the rules may do between a snapshot and its rollback, and that they
-- leave what was recorded before but for links that are on record.
pub mod Steps
use astli.Prelude.{
  ℕ, ◌+◌, ◌-◌, ◌^◌, ◌≤◌, ◌<◌, ◌≡◌, refl, sym, ap, ◌∙◌, Option, none, some, List, [], ◌∷◌, ◌++◌,
  ◌==◌, inl, inr, arith, if◌then◌else◌, length, get_elem?, set, take, get_elem?-set_ne, append_nil,
  append_assoc, take_eq, Bool-cases, get_elem?-append_left, length-append, length-set, length-take,
  subst, get_elem?-take, false,
}
use astli.Parse.Event.{Event}
use astli.Parse.Events.{
  Events, Marker, Completed, start, token, report, complete, abandon, precede, clear_past, link,
  close, u32,
}
use astli.Parse.Events.Clear.{
  among, cleared?, seen, get_elem?-clear_past, clear_past-append, link_out, link-seen,
}

-- What an attempt that began at `s0` does: it opens markers, and completes or abandons those that it
-- opened; it may enclose a node that was complete before, which then has no parent yet.
module _ {ℓ κ} {K : Type ℓ} {D : Type κ} (s0 : Events K D) where
  abbrev pub IsFree : Completed → Type ℓ
  IsFree c =
      (kind : K) (forward_parent : Option ℕ)
      → get_elem? s0.events c.pos ≡ some (Event.start kind forward_parent)
      → forward_parent ≡ none

  pub data Step : Events K D → Events K D → Type (ℓ ⊔ κ) where
    opens : (s : Events K D) → Step s (start s).0
    takes : (s : Events K D) (kind : K) → Step s (token s kind)
    reports : (s : Events K D) (diagnostic : D) → Step s (report s diagnostic)
    completes :
        {s s' : Events K D} (m : Marker) (kind : K) (c : Completed)
        → length s0.events ≤ m.pos
        → complete s m kind ≡ some (s', c)
        → Step s s'
    abandons :
        {s s' : Events K D} (m : Marker)
        → length s0.events ≤ m.pos
        → abandon s m ≡ some s'
        → Step s s'
    precedes :
        {s s' : Events K D} (c : Completed) (m : Marker)
        → IsFree c
        → precede s c ≡ some (s', m)
        → Step s s'

  pub data Attempt : Events K D → Type (ℓ ⊔ κ) where
    begin : Attempt s0
    next : {s s' : Events K D} → Attempt s → Step s s' → Attempt s'

  -- What holds throughout an attempt: the events before it are there but for links that are on record.
  pub record IsSince (s : Events K D) : Type (ℓ ⊔ κ) where
    pub more : List ℕ
    pub recorded : s.precedes ≡ s0.precedes ++ more
    pub said : List D
    pub reported : s.diagnostics ≡ s0.diagnostics ++ said
    pub longer : length s0.events ≤ length s.events
    pub kept : (i : ℕ) → i < length s0.events → seen more s.events i ≡ get_elem? s0.events i

  pub begin-IsSince : IsSince s0
  begin-IsSince = record {
    more = [];
    recorded = sym (append_nil s0.precedes);
    said = [];
    reported = sym (append_nil s0.diagnostics);
    longer = omega arith;
    kept = λ i h. refl;
  }

  pub restored-events :
      (s : Events K D) (h : IsSince s)
      → take (length s0.events) (clear_past (length s0.precedes) s.events s.precedes) ≡ s0.events
  restored-events s h =
      let same =
        ap (clear_past (length s0.precedes) s.events) h.recorded
        ∙ clear_past-append s.events s0.precedes h.more in
      ap (take (length s0.events)) same
      ∙ take_eq (clear_past 0 s.events h.more) s0.events
          λ i k. get_elem?-clear_past s.events h.more i ∙ h.kept i k

  -- What leaves the earlier events and the links as they are keeps the invariant.
  pub IsSince-grow :
      (s s' : Events K D) (said : List D)
      → s'.precedes ≡ s.precedes
      → s'.diagnostics ≡ s.diagnostics ++ said
      → length s0.events ≤ length s'.events
      → ((i : ℕ) → i < length s0.events → get_elem? s'.events i ≡ get_elem? s.events i)
      → IsSince s
      → IsSince s'
  IsSince-grow s s' said p d l e h = record {
    more = h.more;
    recorded = p ∙ h.recorded;
    said = h.said ++ said;
    reported = d ∙ ap (λ ds. ds ++ said) h.reported ∙ append_assoc s0.diagnostics h.said said;
    longer = l;
    kept = λ i k. ap (λ x. if among i h.more then cleared? x else x) (e i k) ∙ h.kept i k;
  }

  pub complete_out :
      (s s' : Events K D) (m : Marker) (kind : K) (c : Completed)
      → complete s m kind ≡ some (s', c)
      → (s'.events ≡ set s.events m.pos (Event.start kind none) ++ Event.finish ∷ [])
        × (s'.precedes ≡ s.precedes)
        × (s'.diagnostics ≡ s.diagnostics)
  unfolding complete close
  complete_out s s' m kind c h = ground arith

  pub abandon_out :
      (s s' : Events K D) (m : Marker)
      → abandon s m ≡ some s'
      → (s'.events ≡ (if m.pos + 1 == length s.events then take m.pos s.events else s.events))
        × (s'.precedes ≡ s.precedes)
        × (s'.diagnostics ≡ s.diagnostics)
  unfolding abandon close
  abandon_out s s' m h = ground arith

  pub precede_out :
      (s s' : Events K D) (c : Completed) (m : Marker)
      → precede s c ≡ some (s', m)
      → (link (s.events ++ Event.tombstone ∷ []) c.pos (u32 (m.pos + 2 ^ 32 - c.pos))
          ≡ some s'.events)
        × (s'.precedes ≡ s.precedes ++ c.pos ∷ [])
        × (s'.diagnostics ≡ s.diagnostics)
  unfolding precede start
  precede_out s s' c m h = ground arith
