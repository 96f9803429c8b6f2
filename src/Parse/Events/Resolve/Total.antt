-- ===== src/Parse/Events/Resolve/Total.antt =====
-- `Events::resolve` does not panic on well linked events, and keeps their tokens, ends and starts.
use astli.Prelude.{
  drop_at, drop_all, ℕ, zero, suc, ◌+◌, ◌≡◌, refl, sym, ap, ◌∙◌, Bool, Option, some, List, [], ◌∷◌,
  arith, ◌≢◌, All, length, get_elem?, drop, get_elem?_of_lt,
}
use astli.Parse.Event.{Event}
use astli.Parse.Events.{Events}
use astli.Parse.Events.Resolve.{push_starts, resolve_from, resolve}
use astli.Parse.Events.Resolve.Counts.{
  content, starts, tally, IsPlain, content-push, starts-push, IsPlain-push,
}
use astli.Parse.Events.Resolve.Links.{IsLinked, IsPending-first, IsLinked-weaken}
use astli.Parse.Events.Resolve.Chase.{ChaseTo, chase-IsChased}

module _ {ℓ} {K : Type ℓ} where
  -- What `resolve` gives for the events from `at` on.
  pub record IsResolved (at : ℕ) (es out : List (Event K)) : Type ℓ where
    pub plain : All IsPlain out
    pub same : content out ≡ content (drop at es)
    pub moved : (f : K → Bool) → starts f out ≡ starts f (drop at es)

  ResolveTo : ℕ → ℕ → List (Event K) → Type ℓ
  ResolveTo n at es =
      (out : List (Event K)) × (resolve_from n at es ≡ some out) × IsResolved at es out

  resolve_start :
      (n at : ℕ) (es : List (Event K)) (kind : K) (fp : Option ℕ)
      → get_elem? es at ≡ some (Event.start kind fp)
      → (c : ChaseTo (length es) (suc at) es at fp)
      → ((r : List (Event K)) → length r ≡ length es → IsLinked (suc at) r → ResolveTo n (suc at) r)
      → ResolveTo (suc n) at es
  unfolding ResolveTo resolve_from content starts tally
  resolve_start n at es kind fp found (r, run, c) go =
      let (out, ran, i) = go r.0 c.long c.linked in
      (
        push_starts (kind ∷ r.1) out,
        rw (found, resolve_from) (rw (run, ran) refl),
        record {
          plain = IsPlain-push (kind ∷ r.1) out i.plain;
          same =
              content-push (kind ∷ r.1) out
              ∙ i.same
              ∙ c.same
              ∙ ap content (sym (drop_at es at _ found));
          moved = λ f.
              starts-push f (kind ∷ r.1) out
              ∙ omega (arith, i.moved f, c.moved f)
              ∙ ap (starts f) (sym (drop_at es at _ found));
        },
      )

  resolve_other :
      (n at : ℕ) (es : List (Event K)) (e : Event K)
      → ((kind : K) (fp : Option ℕ) → e ≢ Event.start kind fp)
      → get_elem? es at ≡ some e
      → ResolveTo n (suc at) es
      → ResolveTo (suc n) at es
  unfolding ResolveTo resolve_from content starts
  resolve_other n at es (Event.start kind fp) ne found go = absurd (ne kind fp refl)
  resolve_other n at es Event.tombstone ne found (out, ran, i) = (
    out,
    rw (found, resolve_from) ran,
    record {
      plain = i.plain;
      same = i.same ∙ ap content (sym (drop_at es at _ found));
      moved = λ f. i.moved f ∙ ap (starts f) (sym (drop_at es at _ found));
    },
  )
  resolve_other n at es (Event.token kind) ne found (out, ran, i) = (
    Event.token kind ∷ out,
    rw (found, resolve_from) (rw ran refl),
    record {
      plain = (tt, i.plain);
      same = ap (λ t. Event.token kind ∷ t) i.same ∙ ap content (sym (drop_at es at _ found));
      moved = λ f. i.moved f ∙ ap (starts f) (sym (drop_at es at _ found));
    },
  )
  resolve_other n at es Event.finish ne found (out, ran, i) = (
    Event.finish ∷ out,
    rw (found, resolve_from) (rw ran refl),
    record {
      plain = (tt, i.plain);
      same = ap (λ t. Event.finish ∷ t) i.same ∙ ap content (sym (drop_at es at _ found));
      moved = λ f. i.moved f ∙ ap (starts f) (sym (drop_at es at _ found));
    },
  )

  resolve_end : (at : ℕ) (es : List (Event K)) → at + 0 ≡ length es → ResolveTo 0 at es
  unfolding ResolveTo resolve_from content starts
  resolve_end at es l =
      let none_left : drop at es ≡ [] = drop_all at es (omega arith) in
      ([], refl, record { plain = tt; same = rw none_left refl; moved = λ f. rw none_left refl })

  resolve_found :
      (n at : ℕ) (es : List (Event K)) (e : Event K)
      → at + suc n ≡ length es
      → IsLinked at es
      → get_elem? es at ≡ some e
      → ((r : List (Event K))
          → at + suc n ≡ length r
          → IsLinked (suc at) r
          → ResolveTo n (suc at) r)
      → ResolveTo (suc n) at es
  resolve_found n at es (Event.start kind fp) l h found go =
      resolve_start n at es kind fp found
        (chase-IsChased (length es) (suc at) es at fp (omega arith) (omega arith)
          (IsLinked-weaken at es h) (IsPending-first at es kind fp h found))
        (λ r k i. go r (l ∙ sym k) i)
  resolve_found n at es Event.tombstone l h found go =
      resolve_other n at es _ (λ k f e. cc) found (go es l (IsLinked-weaken at es h))
  resolve_found n at es (Event.token kind) l h found go =
      resolve_other n at es _ (λ k f e. cc) found (go es l (IsLinked-weaken at es h))
  resolve_found n at es Event.finish l h found go =
      resolve_other n at es _ (λ k f e. cc) found (go es l (IsLinked-weaken at es h))

  resolve_from-total :
      (n at : ℕ) (es : List (Event K)) → at + n ≡ length es → IsLinked at es → ResolveTo n at es
  resolve_from-total zero at es l h = resolve_end at es l
  resolve_from-total (suc n) at es l h =
      let (e, found) = get_elem?_of_lt es at (omega arith) in
      resolve_found n at es e l h found
        (λ r k i. resolve_from-total n (suc at) r (omega (arith, k)) i)

-- Where no marker is open and the links are as `precede` writes them, `resolve` does not panic; its
-- result has no tombstone and no link, the tokens and ends of the events in their order, and, for
-- every kind, as many starts.
pub resolve-total {ℓ κ} :
    {K : Type ℓ} {D : Type κ} (s : Events K D)
    → s.open_markers ≡ 0
    → IsLinked 0 s.events
    → (out : List (Event K)) × (resolve s ≡ some out) × IsResolved 0 s.events out
unfolding resolve ResolveTo
resolve-total s o h = rw o (resolve_from-total (length s.events) 0 s.events (omega arith) h)
