-- ===== src/Text/Fix/Apply.antt =====
-- What `apply` returns.
use astli.Prelude.{ℕ, ◌≡◌, refl, some, List, [], ◌∷◌, All, length, arith}
use astli.Text.Fix.{Edit, choose, sort, apply}
use astli.Text.Fix.Rewrite.{rewritten, From}
use astli.Text.Fix.Order.{
  InText, OnBoundary, AllApart, All-sort, sort-Arranged, splice-rewritten, rewritten-sort,
}
use astli.Text.Fix.Taken.{choose-AllApart, choose-All}

From-zero : (es : List Edit) → From 0 es
From-zero [] = tt
From-zero (e ∷ es) = (omega arith, From-zero es)

-- If every edit lies in the source, starts and ends between characters of it, and no fix clashes with
-- itself, `apply` does not panic, and returns the text that the edits taken describe byte by byte, in
-- whatever order they were given.
pub apply-rewritten :
    (source : List ℕ) (fixes : List (List Edit))
    → All (All (InText (length source))) fixes
    → All (All (OnBoundary source)) fixes
    → All AllApart fixes
    → apply source fixes ≡ some (rewritten 0 source (choose [] 0 fixes).0, (choose [] 0 fixes).1)
unfolding apply
apply-rewritten source fixes g b a =
    let taken = (choose [] 0 fixes).0 in
    let arranged =
      sort-Arranged (length source) taken (choose-All (InText (length source)) [] 0 fixes tt g)
        (choose-AllApart [] 0 fixes tt a) in
    let between =
      All-sort (OnBoundary source) taken (choose-All (OnBoundary source) [] 0 fixes tt b) in
    rw
      (splice-rewritten source 0 (sort taken) (omega arith) refl between (From-zero (sort taken))
        arranged)
      (rw (rewritten-sort 0 source taken))
