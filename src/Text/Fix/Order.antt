-- ===== src/Text/Fix/Order.antt =====
-- `sort` changes nothing of what the edits do to a text, and puts edits that do not clash in the
-- order in which they can be spliced.
use astli.Prelude.{
  ℕ, suc, ◌+◌, ◌-◌, ◌≤◌, ◌≡◌, refl, true, ap, ◌∙◌, false, some, List, [], ◌∷◌, ◌++◌, ◌||◌, inl, inr,
  arith, leb, ◌==◌, if◌then◌else◌, any, All, length, take, drop, Bool-cases, sym, length-drop,
  drop-drop, take_all,
}
use astli.Text.Fix.{Edit, clash, insert, sort, splice}
use astli.Text.Bytes.{is_boundary, is_boundary-length, str_slice_lem}
use astli.Text.Fix.Rewrite.{
  covers, texts, rewritten, From, From-mono, rewritten-take, rewritten-edit,
}

texts-insert : (p : ℕ) (e : Edit) (es : List Edit) → texts p (insert e es) ≡ texts p (e ∷ es)
unfolding insert texts
texts-insert p e [] = refl
texts-insert p e (x ∷ xs) = elim (Bool-cases (leb e.at.start x.at.start)) [
  | inl h ↦ rw h
  | inr h ↦ rw (h, texts) (rw (texts-insert p e xs, texts) (ground arith))
]

covers-insert :
    (p : ℕ) (e : Edit) (es : List Edit) → any (covers p) (insert e es) ≡ any (covers p) (e ∷ es)
unfolding insert
covers-insert p e [] = refl
covers-insert p e (x ∷ xs) = ground (arith, covers-insert p e xs)

texts-sort : (p : ℕ) (es : List Edit) → texts p (sort es) ≡ texts p es
unfolding sort texts
texts-sort p [] = refl
texts-sort p (e ∷ es) =
    texts-insert p e (sort es)
    ∙ ap (λ t. (if e.at.start == p then e.text else []) ++ t) (texts-sort p es)

covers-sort : (p : ℕ) (es : List Edit) → any (covers p) (sort es) ≡ any (covers p) es
unfolding sort
covers-sort p [] = refl
covers-sort p (e ∷ es) = covers-insert p e (sort es) ∙ ap (λ t. covers p e || t) (covers-sort p es)

-- The order of the edits does not matter.
pub rewritten-sort :
    (p : ℕ) (bs : List ℕ) (es : List Edit) → rewritten p bs (sort es) ≡ rewritten p bs es
unfolding rewritten
rewritten-sort p [] es = texts-sort p es
rewritten-sort p (b ∷ bs) es = rw (texts-sort p es, covers-sort p es, rewritten-sort (suc p) bs es)

-- An edit's span is ordered and lies in a text of `n` bytes.
abbrev pub InText : ℕ → Edit → Type 0
InText n e = (e.at.start ≤ e.at.end) × (e.at.end ≤ n)

-- Sorted by start, each edit ending before the next one starts.
abbrev pub Arranged : ℕ → List Edit → Type 0
Arranged n [] = Unit
Arranged n (e ∷ es) = InText n e × From (suc e.at.start) es × From e.at.end es × Arranged n es

All-insert {κ} :
    (P : Edit → Type κ) (e : Edit) (es : List Edit) → P e → All P es → All P (insert e es)
unfolding insert
All-insert P e [] p h = (p, tt)
All-insert P e (x ∷ xs) p h = ground (arith, All-insert P e xs)

-- Two edits may both be made.
abbrev pub Apart : Edit → Edit → Type 0
Apart e x = clash e x ≡ false

insert-Arranged :
    (n : ℕ) (e : Edit) (es : List Edit)
    → InText n e
    → All (Apart e) es
    → Arranged n es
    → Arranged n (insert e es)
unfolding insert
insert-Arranged n e [] g a h = (g, tt, tt, tt)
insert-Arranged n e (x ∷ xs) g a h = elim (Bool-cases (leb e.at.start x.at.start)) [
  | inl p ↦ rw p (
    g,
    (ground arith, From-mono (suc x.at.start) (suc e.at.start) xs (ground arith) h.1),
    (ground arith, From-mono (suc x.at.start) e.at.end xs (ground arith) h.1),
    h,
  )
  | inr p ↦ rw p (
    h.0,
    All-insert (λ y. suc x.at.start ≤ y.at.start) e xs (ground arith) h.1,
    All-insert (λ y. x.at.end ≤ y.at.start) e xs (ground arith) h.2,
    insert-Arranged n e xs g a.1 h.3,
  )
]

-- Each edit is apart from those after it.
abbrev pub AllApart : List Edit → Type 0
AllApart [] = Unit
AllApart (e ∷ es) = All (Apart e) es × AllApart es

pub All-sort {κ} : (P : Edit → Type κ) (es : List Edit) → All P es → All P (sort es)
unfolding sort
All-sort P [] h = tt
All-sort P (e ∷ es) h = All-insert P e (sort es) h.0 (All-sort P es h.1)

pub sort-Arranged :
    (n : ℕ) (es : List Edit) → All (InText n) es → AllApart es → Arranged n (sort es)
unfolding sort
sort-Arranged n [] g a = tt
sort-Arranged n (e ∷ es) g a =
    insert-Arranged n e (sort es) g.0 (All-sort (Apart e) es a.0) (sort-Arranged n es g.1 a.1)

rewritten-nil : (p : ℕ) (bs : List ℕ) → rewritten p bs [] ≡ bs
unfolding rewritten
rewritten-nil p [] = refl
rewritten-nil p (b ∷ bs) = ap (λ t. b ∷ t) (rewritten-nil (suc p) bs)

-- Up to the end of its first edit, the rewritten text is the bytes before that edit and its text.
rewritten-cons :
    (source : List ℕ) (at k m : ℕ) (e : Edit) (es : List Edit)
    → at + k ≡ e.at.start
    → e.at.start + m ≡ e.at.end
    → Arranged (length source) (e ∷ es)
    → rewritten at (drop at source) (e ∷ es)
      ≡ take k (drop at source) ++ (e.text ++ rewritten e.at.end (drop e.at.end source) es)
rewritten-cons source at k m e es p q a =
    let before =
      rewritten-take k at (drop at source) (e ∷ es) (omega (arith, length-drop at source))
        (omega arith, From-mono (suc e.at.start) (at + k) es (omega arith) a.1) in
    let here =
      rewritten-edit m e.at.start (drop e.at.start source) e es
        (omega (arith, length-drop e.at.start source)) refl (omega arith) (rw q a.2) a.1 in
    before
    ∙ rw (drop-drop k at source, p)
        (ap (λ t. take k (drop at source) ++ t) (here ∙ rw (drop-drop m e.at.start source, q)))

-- An edit starts and ends between characters.
abbrev pub OnBoundary : List ℕ → Edit → Type 0
OnBoundary source e = (is_boundary source e.at.start ≡ true) × (is_boundary source e.at.end ≡ true)

-- Edits in order, between characters, are spliced with no panic, into the rewritten text.
pub splice-rewritten :
    (source : List ℕ) (at : ℕ) (es : List Edit)
    → at ≤ length source
    → is_boundary source at ≡ true
    → All (OnBoundary source) es
    → From at es
    → Arranged (length source) es
    → splice source at es ≡ some (rewritten at (drop at source) es)
unfolding splice
splice-rewritten source at [] h b bs f a =
    str_slice_lem source at (length source) h (omega arith) b (is_boundary-length source)
    ∙ ap some (
        take_all (length source - at) (drop at source) (omega (arith, length-drop at source))
        ∙ sym (rewritten-nil at (drop at source)))
splice-rewritten source at (e ∷ es) h b bs f a =
    rw (str_slice_lem source at e.at.start f.0 (omega arith) b bs.0.0) (
      rw (splice-rewritten source e.at.end es (omega arith) bs.0.1 bs.1 a.2 a.3) (
        ap some (
          sym (
            rewritten-cons source at (e.at.start - at) (e.at.end - e.at.start) e es (omega arith)
              (omega arith) a))))
