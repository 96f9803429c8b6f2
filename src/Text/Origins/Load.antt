-- ===== src/Text/Origins/Load.antt =====
-- What `load_included` does.
use Prim.Native.String.{String}
use mathlib.Core.List.{Memᴰ}
use package.text.Mathlib.TextEquality.{eq_iff}
use astli.Prelude.{
  subst, ℕ, suc, ◌<◌, ◌≡◌, ◌≢◌, refl, ap, ◌∙◌, Bool, true, false, Option, none, some, List, [], ◌∷◌,
  ◌++◌, inl, inr, arith, ◌>>=◌, All, length, get_elem?-append_last, Bool-cases, Option-cases,
  get_elem?_of_lt,
}
use astli.Text.Span.{Span, SourceId}
use astli.Text.Origins.{
  Origins, Source, file, source_path, Reader, Included, opened, not_found, cycle, add, add_included,
  buffer, path, included_from, include_trace, any_path, same_path, sites, first_read, load_included,
  line_starts, open_unless,
}
use astli.Text.Origins.Includes.{include_trace-total, include_trace-add}
use astli.Text.Origins.Valid.{IsValid, add-IsValid, length-push}

-- The first candidate that can be read.
pub record IsFirst (reader : Reader) (candidates : List String) (p : String) (t : List ℕ)
    : Type 0 where
  pub before : List String
  pub after : List String
  pub splits : candidates ≡ before ++ p ∷ after
  pub unread : All (λ c. reader c ≡ none) before
  pub reads : reader p ≡ some t

first_read-none :
    (reader : Reader) (cs : List String)
    → first_read reader cs ≡ none
    → All (λ c. reader c ≡ none) cs
unfolding first_read
first_read-none reader [] h = tt
first_read-none reader (c ∷ cs) h = ground (arith, first_read-none reader cs)

first_read-IsFirst :
    (reader : Reader) (cs : List String) (p : String) (t : List ℕ)
    → first_read reader cs ≡ some (p, t)
    → IsFirst reader cs p t
unfolding first_read
first_read-IsFirst reader [] p t h = cc
first_read-IsFirst reader (c ∷ cs) p t h = elim (Option-cases (reader c)) [
  | inl e ↦
      let rest = first_read-IsFirst reader cs p t (rw (e, first_read) at h) in
      record {
        before = c ∷ rest.before;
        after = rest.after;
        splits = ap (λ l. c ∷ l) rest.splits;
        unread = (e, rest.unread);
        reads = rest.reads;
      }
  | inr found ↦ record {
    before = [];
    after = cs;
    splits = ground arith;
    unread = tt;
    reads = ground arith;
  }
]

same_path-eq : (p : String) (q : Option String) → same_path p q ≡ true → q ≡ some p
same_path-eq p none h = cc
same_path-eq p (some q) h = ap some ((eq_iff q p).0 h)

same_path_refl : (p : String) → same_path p (some p) ≡ true
same_path_refl p = (eq_iff p p).1 refl

-- Whether a path is open: a file of the list has it, or none of them.
any_path-true :
    (o : Origins) (p : String) (fs : List SourceId)
    → any_path o p fs ≡ some true
    → (g : SourceId) × Memᴰ g fs × (path o g ≡ some (some p))
unfolding any_path
any_path-true o p [] h = cc
any_path-true o p (f ∷ fs) h = elim (Option-cases (path o f)) [
  | inl e ↦ cc (rw (e, ◌>>=◌) at h)
  | inr found ↦
      let (q, e) = found in
      elim (Bool-cases (same_path p q)) [
        | inl yes_here ↦ (f, Memᴰ.head refl, e ∙ ap some (same_path-eq p q yes_here))
        | inr other ↦
            let (g, found_in, at) = any_path-true o p fs (rw (other) at (rw (e, ◌>>=◌) at h)) in
            (g, Memᴰ.tail found_in, at)
      ]
]

any_path-false :
    (o : Origins) (p : String) (fs : List SourceId)
    → any_path o p fs ≡ some false
    → All (λ g. path o g ≢ some (some p)) fs
unfolding any_path
any_path-false o p [] h = tt
any_path-false o p (f ∷ fs) h = elim (Option-cases (path o f)) [
  | inl e ↦ cc (rw (e, ◌>>=◌) at h)
  | inr found ↦
      let (q, e) = found in
      elim (Bool-cases (same_path p q)) [
        | inl yes_here ↦ cc (rw yes_here at (rw (e, ◌>>=◌) at h))
        | inr other ↦ (
          λ k. cc (other, same_path_refl p, e, k),
          any_path-false o p fs (rw other at (rw (e, ◌>>=◌) at h)),
        )
      ]
]

path-total :
    (o : Origins) (f : SourceId)
    → IsValid o
    → f < length o.views
    → (q : Option String) × (path o f ≡ some q)
unfolding path buffer
path-total o f h within =
    let (v, at_v) = get_elem?_of_lt o.views f within in
    let (b, at_b, le) = h.shown f v at_v in (source_path b.source, rw (at_v, ◌>>=◌, at_b, ◌>>=◌))

any_path-total :
    (o : Origins) (p : String) (fs : List SourceId)
    → IsValid o
    → All (λ g. g < length o.views) fs
    → (b : Bool) × (any_path o p fs ≡ some b)
unfolding any_path
any_path-total o p [] h within = (false, refl)
any_path-total o p (f ∷ fs) h within =
    let (q, at) = path-total o f h within.0 in
    let (b, rest) = any_path-total o p fs h within.1 in
    elim (Bool-cases (same_path p q)) [
      | inl same ↦ (true, rw (at, ◌>>=◌, same))
      | inr other ↦ (b, rw (at, ◌>>=◌, other, rest))
    ]

-- The three outcomes of `load_included`.
pub data Loads (o : Origins) (reader : Reader) (candidates : List String) (site : Span)
    (r : Origins × Included) : Type 0 where
  -- no candidate can be read, and nothing changes
  unread :
      All (λ c. reader c ≡ none) candidates → r ≡ (o, not_found) → Loads o reader candidates site r
  -- the first that can be read is the path of a file that is open at the site: the one that the site is
  -- in, or one of those that its includes lead up to; and nothing changes
  reentered :
      (p : String) (t : List ℕ) (trace : List Span)
      → IsFirst reader candidates p t
      → include_trace (suc (length o.views)) o site.src_id ≡ some trace
      → (g : SourceId) → Memᴰ g (site.src_id ∷ sites trace)
      → path o g ≡ some (some p)
      → r ≡ (o, cycle)
      → Loads o reader candidates site r
  -- no open file has its path; it is registered, included from `site`, and the registry stays valid
  loaded :
      (p : String) (t : List ℕ) (trace : List Span)
      → IsFirst reader candidates p t
      → include_trace (suc (length o.views)) o site.src_id ≡ some trace
      → All (λ g. path o g ≢ some (some p)) (site.src_id ∷ sites trace)
      → r.1 ≡ opened (length o.views)
      → IsValid r.0
      → buffer r.0 (length o.views)
        ≡ some (record {
          source = file p (some site);
          text = t;
          lines = 0 ∷ line_starts 0 t;
          written = length o.views;
        })
      → include_trace (suc (length r.0.views)) r.0 (length o.views) ≡ some (site ∷ trace)
      → Loads o reader candidates site r

buffer-add_new :
    (o : Origins) (source : Source) (t : List ℕ)
    → buffer (add o source t).0 (length o.views)
      ≡ some (record {
        source = source;
        text = t;
        lines = 0 ∷ line_starts 0 t;
        written = length o.views;
      })
unfolding buffer add
buffer-add_new o source t =
    rw (get_elem?-append_last o.views (record { buffer = length o.buffers; from = none }), ◌>>=◌)
      (get_elem?-append_last o.buffers _)

trace-add_new :
    (o : Origins) (p : String) (t : List ℕ) (site : Span) (trace : List Span)
    → IsValid o
    → site.src_id < length o.views
    → include_trace (suc (length o.views)) o site.src_id ≡ some trace
    → include_trace (suc (suc (length o.views))) (add o (file p (some site)) t).0 (length o.views)
      ≡ some (site ∷ trace)
unfolding include_trace included_from
trace-add_new o p t site trace h within walks =
    rw (buffer-add_new o (file p (some site)) t, ◌>>=◌)
      (rw
        (
          include_trace-add (suc (length o.views)) o (file p (some site)) t site.src_id h within,
          walks,
          ◌>>=◌,
        )
        refl)

abbrev src_id_or_zero : Option Span → ℕ
src_id_or_zero none = 0
src_id_or_zero (some s) = s.src_id

-- With a readable candidate: the file is open already, or it is opened.
load_first :
    (o : Origins) (reader : Reader) (candidates : List String) (site : Span) (p : String)
    (t : List ℕ) (trace : List Span) (again : Bool)
    → IsValid o
    → site.src_id < length o.views
    → IsFirst reader candidates p t
    → include_trace (suc (length o.views)) o site.src_id ≡ some trace
    → any_path o p (site.src_id ∷ sites trace) ≡ some again
    → Loads o reader candidates site (open_unless again o p t site)
load_first o reader candidates site p t trace true h within first walks found =
    let (g, found_in, at) = any_path-true o p (site.src_id ∷ sites trace) found in
    reentered p t trace first walks g found_in at refl
load_first o reader candidates site p t trace false h within first walks found =
    unfold add_included in
    loaded p t trace first walks (any_path-false o p (site.src_id ∷ sites trace) found) refl
      (add-IsValid o (file p (some site)) t
        (λ s e. subst (λ (x : Option Span). src_id_or_zero x < length o.views) e within) h)
      (buffer-add_new o (file p (some site)) t)
      (rw (length-push o.views _) (trace-add_new o p t site trace h within walks))

-- `load_included` never panics on a valid registry and a site in it, and has the outcome that
-- `Loads` describes: no candidate can be read; or a file open at the site has the path of the first that
-- can be; or none has, and that file is opened, included from the site.
pub load_included-Loads :
    (o : Origins) (reader : Reader) (candidates : List String) (site : Span)
    → IsValid o
    → site.src_id < length o.views
    → (r : Origins × Included) × (load_included o reader candidates site ≡ some r)
      × Loads o reader candidates site r
unfolding load_included
load_included-Loads o reader candidates site h within =
    elim (Option-cases (first_read reader candidates)) [
      | inl e ↦ (
        (o, not_found),
        rw (e, load_included) refl,
        unread (first_read-none reader candidates e) refl,
      )
      | inr found ↦
          let ((p, t), e) = found in
          let (trace, walks, short, inside) =
            include_trace-total (suc (length o.views)) o site.src_id h within (omega arith) in
          let (again, tested) = any_path-total o p (site.src_id ∷ sites trace) h (within, inside) in
          (
            open_unless again o p t site,
            rw (e, load_included) (rw (walks, ◌>>=◌, tested, ◌>>=◌) refl),
            load_first o reader candidates site p t trace again h within
                (first_read-IsFirst reader candidates p t e) walks tested,
          )
    ]
