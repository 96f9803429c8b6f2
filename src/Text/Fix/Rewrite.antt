-- ===== src/Text/Fix/Rewrite.antt =====
-- What a set of edits does to a text, byte by byte and in no order: at each offset the texts of the
-- edits that start there, then the byte, unless an edit covers it.
use astli.Prelude.{
  ℕ, zero, suc, ◌+◌, ◌≤◌, ◌<◌, ◌≡◌, refl, ap, Bool, false, List, [], ◌∷◌, ◌++◌, ◌&&◌, arith, ltb,
  leb, ◌==◌, if◌then◌else◌, any, All, length, take, drop,
}
use mathlib.Core.List.{append_assoc, append-nil}
use native.Mathlib.Nat.{add-zero}
use astli.Text.Fix.{Edit}

abbrev pub covers : ℕ → Edit → Bool
covers p e = leb e.at.start p && ltb p e.at.end

unfoldable pub texts : ℕ → List Edit → List ℕ
texts p [] = []
texts p (e ∷ es) = (if e.at.start == p then e.text else []) ++ texts p es

unfoldable pub rewritten : ℕ → List ℕ → List Edit → List ℕ
unfolding texts
rewritten p [] es = texts p es
rewritten p (b ∷ bs) es =
    texts p es ++ ((if any (covers p) es then [] else b ∷ []) ++ rewritten (suc p) bs es)

-- Every edit starts at `p` or after it.
abbrev pub From : ℕ → List Edit → Type 0
From p es = All (λ e. p ≤ e.at.start) es

pub texts-From : (p : ℕ) (es : List Edit) → From (suc p) es → texts p es ≡ []
unfolding texts
texts-From p [] h = refl
texts-From p (e ∷ es) h = ground (arith, texts-From p es h.1)

pub covers-From : (p : ℕ) (es : List Edit) → From (suc p) es → any (covers p) es ≡ false
covers-From p [] h = refl
covers-From p (e ∷ es) h = ground (arith, covers-From p es h.1)

pub From-mono : (p q : ℕ) (es : List Edit) → q ≤ p → From p es → From q es
From-mono p q [] l h = tt
From-mono p q (e ∷ es) l h = (omega arith, From-mono p q es l h.1)

-- The bytes before the first edit are kept.
pub rewritten-take :
    (k p : ℕ) (bs : List ℕ) (es : List Edit)
    → k ≤ length bs
    → From (p + k) es
    → rewritten p bs es ≡ take k bs ++ rewritten (p + k) (drop k bs) es
unfolding rewritten
rewritten-take zero p bs es h f = rw add-zero
rewritten-take (suc k) p [] es h f = absurd (omega arith)
rewritten-take (suc k) p (b ∷ bs) es h f =
    let g = From-mono (p + suc k) (suc p) es (omega arith) f in
    let e : p + suc k ≡ suc p + k = omega arith in
    rw e (
      rw (texts-From p es g, covers-From p es g)
        (ap (λ t. b ∷ t) (rewritten-take k (suc p) bs es (omega arith) (rw e at f))))

-- An edit that ends before `p` leaves nothing.
rewritten_past :
    (p : ℕ) (bs : List ℕ) (e : Edit) (es : List Edit)
    → e.at.start < p
    → e.at.end ≤ p
    → rewritten p bs (e ∷ es) ≡ rewritten p bs es
unfolding rewritten
rewritten_past p [] e es h k = ground arith
rewritten_past p (b ∷ bs) e es h k =
    ground (arith, rewritten_past (suc p) bs e es (omega arith) (omega arith))

-- What an edit covers is left out, up to its end.
rewritten_inside :
    (m p : ℕ) (bs : List ℕ) (e : Edit) (es : List Edit)
    → m ≤ length bs
    → e.at.start < p
    → e.at.end ≡ p + m
    → From (p + m) es
    → rewritten p bs (e ∷ es) ≡ rewritten (p + m) (drop m bs) es
unfolding rewritten
rewritten_inside zero p bs e es h s t f = rw add-zero (rewritten_past p bs e es s (omega arith))
rewritten_inside (suc m) p [] e es h s t f = absurd (omega arith)
rewritten_inside (suc m) p (b ∷ bs) e es h s t f =
    let q : p + suc m ≡ suc p + m = omega arith in
    let rest =
      rewritten_inside m (suc p) bs e es (omega arith) (omega arith) (omega arith) (rw q at f) in
    rw q (ground (arith, rest, texts-From p es (From-mono (p + suc m) (suc p) es (omega arith) f)))

texts-start :
    (p : ℕ) (e : Edit) (es : List Edit) → e.at.start ≡ p → texts p (e ∷ es) ≡ e.text ++ texts p es
unfolding texts
texts-start p e es h = ground arith

covers_empty : (p : ℕ) (e : Edit) → e.at.end ≡ p + 0 → covers p e ≡ false
covers_empty p e h = ground arith

-- Where the first edit starts, its text stands in place of what it covers.
pub rewritten-edit :
    (m p : ℕ) (bs : List ℕ) (e : Edit) (es : List Edit)
    → m ≤ length bs
    → e.at.start ≡ p
    → e.at.end ≡ p + m
    → From (p + m) es
    → From (suc p) es
    → rewritten p bs (e ∷ es) ≡ e.text ++ rewritten (p + m) (drop m bs) es
unfolding rewritten
rewritten-edit zero p [] e es h s t f g = rw (add-zero, texts-start p e es s)
rewritten-edit zero p (b ∷ bs) e es h s t f g =
    rw (add-zero, texts-start p e es s)
      (simp append_assoc (
        ground
          (arith, covers_empty p e t, rewritten_past (suc p) bs e es (omega arith) (omega arith))))
rewritten-edit (suc m) p [] e es h s t f g = absurd (omega arith)
rewritten-edit (suc m) p (b ∷ bs) e es h s t f g =
    let q : p + suc m ≡ suc p + m = omega arith in
    rw (q, texts-start p e es s, texts-From p es g, append-nil)
      (ground (
        arith,
        rewritten_inside m (suc p) bs e es (omega arith) (omega arith) (omega arith) (rw q at f),
      ))
