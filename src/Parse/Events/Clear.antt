-- ===== src/Parse/Events/Clear.antt =====
-- What the loop of `rollback` leaves at each index, and what `precede` writes.
use astli.Prelude.{
  false, true, ◌||◌, ℕ, ◌≡◌, refl, ap, ◌∙◌, Bool, Option, none, some, List, [], ◌∷◌, ◌++◌, ◌==◌,
  inl, inr, arith, if◌then◌else◌, length, get_elem?, set, any, get_elem?-set_self, get_elem?-set_ne,
  lt_of_get_elem?, ==_iff, ◌≢◌, Bool-cases,
}
use astli.Parse.Event.{Event}
use astli.Parse.Events.{clear, clear_past, link}

abbrev pub among : ℕ → List ℕ → Bool
among i = any (λ p. i == p)

among-append : (i : ℕ) (xs : List ℕ) (p : ℕ) → among i (xs ++ p ∷ []) ≡ (among i xs || i == p)
among-append i [] p = ground arith
among-append i (x ∷ xs) p = ground (arith, among-append i xs p)

module _ {ℓ} {K : Type ℓ} where
  abbrev pub cleared : Event K → Event K
  cleared (Event.start kind forward_parent) = Event.start kind none
  cleared Event.tombstone = Event.tombstone
  cleared (Event.token kind) = Event.token kind
  cleared Event.finish = Event.finish

  abbrev pub cleared? : Option (Event K) → Option (Event K)
  cleared? none = none
  cleared? (some e) = some (cleared e)

  -- What is found at an index once the links are cleared.
  abbrev pub seen : List ℕ → List (Event K) → ℕ → Option (Event K)
  seen ats events i = if among i ats then cleared? (get_elem? events i) else get_elem? events i

  clear_self :
      (events : List (Event K)) (at : ℕ) (found : Option (Event K))
      → get_elem? events at ≡ found
      → get_elem? (clear events at) at ≡ cleared? found
  unfolding clear
  clear_self events at none h = rw (h, clear) h
  clear_self events at (some (Event.start kind forward_parent)) h =
      rw (h, clear)
        (get_elem?-set_self events at (Event.start kind none) (lt_of_get_elem? events at _ h))
  clear_self events at (some Event.tombstone) h = rw (h, clear) h
  clear_self events at (some (Event.token kind)) h = rw (h, clear) h
  clear_self events at (some Event.finish) h = rw (h, clear) h

  clear_other :
      (events : List (Event K)) (at i : ℕ) (found : Option (Event K))
      → get_elem? events at ≡ found
      → at ≢ i
      → get_elem? (clear events at) i ≡ get_elem? events i
  unfolding clear
  clear_other events at i none h ne = rw (h, clear) refl
  clear_other events at i (some (Event.start kind forward_parent)) h ne =
      rw (h, clear) (get_elem?-set_ne events at i (Event.start kind none) ne)
  clear_other events at i (some Event.tombstone) h ne = rw (h, clear) refl
  clear_other events at i (some (Event.token kind)) h ne = rw (h, clear) refl
  clear_other events at i (some Event.finish) h ne = rw (h, clear) refl

  get_elem?-clear :
      (events : List (Event K)) (at i : ℕ)
      → get_elem? (clear events at) i
        ≡ (if i == at then cleared? (get_elem? events i) else get_elem? events i)
  get_elem?-clear events at i = elim (Bool-cases (i == at)) [
    | inl e ↦
        let same : i ≡ at = (==_iff i at).0 e in
        rw e (rw same (clear_self events at (get_elem? events at) refl))
    | inr e ↦
        let other : at ≢ i = λ q. ground arith in
        rw e (clear_other events at i (get_elem? events at) refl other)
  ]

  cleared_twice : (e : Option (Event K)) → cleared? (cleared? e) ≡ cleared? e
  cleared_twice none = refl
  cleared_twice (some (Event.start kind forward_parent)) = refl
  cleared_twice (some Event.tombstone) = refl
  cleared_twice (some (Event.token kind)) = refl
  cleared_twice (some Event.finish) = refl

  pub get_elem?-clear_past :
      (events : List (Event K)) (ats : List ℕ) (i : ℕ)
      → get_elem? (clear_past 0 events ats) i ≡ seen ats events i
  unfolding clear_past
  get_elem?-clear_past events [] i = refl
  get_elem?-clear_past events (at ∷ ats) i =
      get_elem?-clear (clear_past 0 events ats) at i
      ∙ rw (get_elem?-clear_past events ats i) (ground (arith, cleared_twice (get_elem? events i)))

  pub clear_past-append :
      (events : List (Event K)) (before more : List ℕ)
      → clear_past (length before) events (before ++ more) ≡ clear_past 0 events more
  unfolding clear_past
  clear_past-append events [] more = refl
  clear_past-append events (at ∷ before) more = clear_past-append events before more

  link_self :
      (events events' : List (Event K)) (at distance : ℕ) (found : Option (Event K))
      → get_elem? events at ≡ found
      → link events at distance ≡ some events'
      → (kind : K) × (forward_parent : Option ℕ) × (found ≡ some (Event.start kind forward_parent))
        × (events' ≡ set events at (Event.start kind (some distance)))
  unfolding link
  link_self events events' at distance none q h = ground (arith, q)
  link_self events events' at distance (some (Event.start kind forward_parent)) q h =
      (kind, forward_parent, refl, ground (arith, q))
  link_self events events' at distance (some Event.tombstone) q h = ground (arith, q)
  link_self events events' at distance (some (Event.token kind)) q h = ground (arith, q)
  link_self events events' at distance (some Event.finish) q h = ground (arith, q)

  -- A link that is written is to a node that is complete.
  pub link_out :
      (events events' : List (Event K)) (at distance : ℕ)
      → link events at distance ≡ some events'
      → (kind : K) × (forward_parent : Option ℕ) × (get_elem? events at
          ≡ some (Event.start kind forward_parent))
        × (events' ≡ set events at (Event.start kind (some distance)))
  link_out events events' at distance h =
      link_self events events' at distance (get_elem? events at) refl h

  -- A link that goes on record does not change what is seen, where the node had no parent that was
  -- not on record.
  pub link-seen :
      (events events' : List (Event K)) (at distance : ℕ) (more : List ℕ) (i : ℕ)
      → link events at distance ≡ some events'
      → ((kind : K) (forward_parent : Option ℕ)
          → i ≡ at
          → get_elem? events i ≡ some (Event.start kind forward_parent)
          → among i more ≡ false
          → forward_parent ≡ none)
      → seen (more ++ at ∷ []) events' i ≡ seen more events i
  link-seen events events' at distance more i h free =
      let (kind, forward_parent, found, written) = link_out events events' at distance h in
      elim (Bool-cases (i == at)) [
        | inl e ↦
            let same : i ≡ at = (==_iff i at).0 e in
            let now : get_elem? events' i ≡ some (Event.start kind (some distance)) =
              ap (λ j. get_elem? events' j) same
              ∙ ap (λ es. get_elem? es at) written
              ∙ get_elem?-set_self events at _ (lt_of_get_elem? events at _ found) in
            let before : get_elem? events i ≡ some (Event.start kind forward_parent) =
              ap (λ j. get_elem? events j) same ∙ found in
            rw (among-append i more at, now, before, e)
              (seen_linked more kind forward_parent i (free kind forward_parent same before))
        | inr e ↦
            let other : at ≢ i = λ q. ground arith in
            let now : get_elem? events' i ≡ get_elem? events i =
              ap (λ es. get_elem? es i) written ∙ get_elem?-set_ne events at i _ other in
            rw (among-append i more at, now, e) (ground arith)
      ]
    where
      seen_linked :
          (ats : List ℕ) (kind : K) (forward_parent : Option ℕ) (j : ℕ)
          → (among j ats ≡ false → forward_parent ≡ none)
          → (if among j ats || true
              then some (Event.start kind none)
              else some (Event.start kind (some distance)))
            ≡ (if among j ats
                then some (Event.start kind none)
                else some (Event.start kind forward_parent))
      seen_linked ats kind forward_parent j q = ground arith
