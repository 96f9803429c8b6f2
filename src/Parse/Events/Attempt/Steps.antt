-- ===== src/Parse/Events/Attempt/Steps.antt =====
-- Each step of an attempt keeps what `IsSince` says, and so does the whole of it.
use astli.Prelude.{
  ℕ, ◌+◌, ◌-◌, ◌^◌, ◌≤◌, ◌<◌, ◌≡◌, refl, sym, ap, ◌∙◌, Option, none, some, List, [], ◌∷◌, ◌++◌,
  ◌==◌, inl, inr, arith, if◌then◌else◌, length, get_elem?, set, take, get_elem?-set_ne, append_nil,
  append_assoc, Bool-cases, get_elem?-append_left, length-append, length-set, length-take, subst,
  get_elem?-take, false,
}
use astli.Parse.Event.{Event}
use astli.Parse.Events.{
  Events, Marker, Completed, start, token, report, complete, abandon, precede, u32,
}
use astli.Parse.Events.Clear.{among, cleared?, link_out, link-seen}
use astli.Parse.Events.Attempt.{
  Step, opens, takes, reports, completes, abandons, precedes, Attempt, begin, next, IsFree, IsSince,
  begin-IsSince, IsSince-grow, complete_out, abandon_out, precede_out,
}

module _ {ℓ κ} {K : Type ℓ} {D : Type κ} (s0 : Events K D) where
  push_get :
      (s : Events K D) (e : Event K)
      → IsSince s0 s
      → (i : ℕ) → i < length s0.events
      → get_elem? (s.events ++ e ∷ []) i ≡ get_elem? s.events i
  push_get s e h i k = get_elem?-append_left s.events (e ∷ []) i (omega (arith, h.longer))

  push-longer :
      (s : Events K D) (e : Event K) → IsSince s0 s → length s0.events ≤ length (s.events ++ e ∷ [])
  push-longer s e h = omega (arith, h.longer, length-append s.events (e ∷ []))

  opens-IsSince : (s : Events K D) → IsSince s0 s → IsSince s0 (start s).0
  unfolding start
  opens-IsSince s h =
      IsSince-grow s0 s _ [] refl (sym (append_nil s.diagnostics)) (push-longer s Event.tombstone h)
        (push_get s Event.tombstone h) h

  takes-IsSince : (s : Events K D) (kind : K) → IsSince s0 s → IsSince s0 (token s kind)
  unfolding token
  takes-IsSince s kind h =
      IsSince-grow s0 s _ [] refl (sym (append_nil s.diagnostics))
        (push-longer s (Event.token kind) h) (push_get s (Event.token kind) h) h

  reports-IsSince :
      (s : Events K D) (diagnostic : D) → IsSince s0 s → IsSince s0 (report s diagnostic)
  unfolding report
  reports-IsSince s diagnostic h =
      IsSince-grow s0 s _ (diagnostic ∷ []) refl refl h.longer (λ i k. refl) h

  completes-IsSince :
      (s s' : Events K D) (m : Marker) (kind : K) (c : Completed)
      → length s0.events ≤ m.pos
      → complete s m kind ≡ some (s', c)
      → IsSince s0 s
      → IsSince s0 s'
  completes-IsSince s s' m kind c l r h =
      let (e, p, d) = complete_out s0 s s' m kind c r in
      let placed : List (Event K) = set s.events m.pos (Event.start kind none) in
      let long : length placed ≡ length s.events =
        length-set s.events m.pos (Event.start kind none) in
      IsSince-grow s0 s s' [] p (d ∙ sym (append_nil s.diagnostics))
        (subst (λ es. length s0.events ≤ length es) (sym e)
          (omega (arith, h.longer, long, length-append placed (Event.finish ∷ []))))
        (λ i k.
          ap (λ es. get_elem? es i) e
          ∙ get_elem?-append_left placed (Event.finish ∷ []) i (omega (arith, h.longer, long))
          ∙ get_elem?-set_ne s.events m.pos i (Event.start kind none) (λ q. omega (arith, q)))
        h

  abandons-IsSince :
      (s s' : Events K D) (m : Marker)
      → length s0.events ≤ m.pos
      → abandon s m ≡ some s'
      → IsSince s0 s
      → IsSince s0 s'
  abandons-IsSince s s' m l r h =
      let (e, p, d) = abandon_out s0 s s' m r in
      elim (Bool-cases (m.pos + 1 == length s.events)) [
        | inl q ↦
            let last : s'.events ≡ take m.pos s.events = ground (arith, e) in
            IsSince-grow s0 s s' [] p (d ∙ sym (append_nil s.diagnostics))
              (subst (λ es. length s0.events ≤ length es) (sym last)
                (ground (arith, length-take m.pos s.events, h.longer)))
              (λ i k.
                ap (λ es. get_elem? es i) last ∙ get_elem?-take m.pos s.events i (omega arith))
              h
        | inr q ↦
            let all : s'.events ≡ s.events = ground (arith, e) in
            IsSince-grow s0 s s' [] p (d ∙ sym (append_nil s.diagnostics))
              (subst (λ es. length s0.events ≤ length es) (sym all) h.longer)
              (λ i k. ap (λ es. get_elem? es i) all) h
      ]

  seen_before :
      (s : Events K D) (h : IsSince s0 s) (i : ℕ)
      → i < length s0.events
      → among i h.more ≡ false
      → get_elem? s.events i ≡ get_elem? s0.events i
  seen_before s h i k new =
      ap (λ b. if b then cleared? (get_elem? s.events i) else get_elem? s.events i) (sym new)
      ∙ h.kept i k

  precedes-IsSince :
      (s s' : Events K D) (c : Completed) (m : Marker)
      → IsFree s0 c
      → precede s c ≡ some (s', m)
      → IsSince s0 s
      → IsSince s0 s'
  precedes-IsSince s s' c m f r h =
      let (e, p, d) = precede_out s0 s s' c m r in
      let opened : List (Event K) = s.events ++ Event.tombstone ∷ [] in
      let free : (i : ℕ)
          → i < length s0.events
          → (kind : K) (forward_parent : Option ℕ) → i ≡ c.pos
          → get_elem? opened i ≡ some (Event.start kind forward_parent)
          → among i h.more ≡ false
          → forward_parent ≡ none =
        λ i k kind fp same found new. f kind fp (
          ap (get_elem? s0.events) (sym same)
          ∙ sym (seen_before s h i k new)
          ∙ sym (push_get s Event.tombstone h i k)
          ∙ found) in
      let (kind, fp, found, written) =
        link_out opened s'.events c.pos (u32 (m.pos + 2 ^ 32 - c.pos)) e in
      record {
        more = h.more ++ c.pos ∷ [];
        recorded =
            p
            ∙ ap (λ ps. ps ++ c.pos ∷ []) h.recorded
            ∙ append_assoc s0.precedes h.more (c.pos ∷ []);
        said = h.said;
        reported = d ∙ h.reported;
        longer =
            subst (λ es. length s0.events ≤ length es) (sym written)
              (omega (
                arith,
                length-set opened c.pos (Event.start kind (some (u32 (m.pos + 2 ^ 32 - c.pos)))),
                push-longer s Event.tombstone h,
              ));
        kept = λ i k.
            link-seen opened s'.events c.pos (u32 (m.pos + 2 ^ 32 - c.pos)) h.more i e (free i k)
            ∙ ap (λ x. if among i h.more then cleared? x else x) (push_get s Event.tombstone h i k)
            ∙ h.kept i k;
      }

  Step-IsSince : {s s' : Events K D} → Step s0 s s' → IsSince s0 s → IsSince s0 s'
  Step-IsSince (opens s) h = opens-IsSince s h
  Step-IsSince (takes s kind) h = takes-IsSince s kind h
  Step-IsSince (reports s diagnostic) h = reports-IsSince s diagnostic h
  Step-IsSince {s} {s'} (completes m kind c l r) h = completes-IsSince s s' m kind c l r h
  Step-IsSince {s} {s'} (abandons m l r) h = abandons-IsSince s s' m l r h
  Step-IsSince {s} {s'} (precedes c m f r) h = precedes-IsSince s s' c m f r h

  pub Attempt-IsSince : {s : Events K D} → Attempt s0 s → IsSince s0 s
  Attempt-IsSince begin = (begin-IsSince s0)
  Attempt-IsSince (next a step) = Step-IsSince step (Attempt-IsSince a)
