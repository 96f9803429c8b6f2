-- ===== src/Text/Fix.antt =====
-- crates/astli-text/src/fix.rs: the edits that diagnostics carry, applied to the text of a file.
-- A text is the list of its bytes. `apply` slices the source at the edits' offsets, and a slice
-- panics as `Text.Bytes.str_slice` says: `none`.
pub mod Rewrite
pub mod Order
pub mod Taken
pub mod Apply
use astli.Prelude.{
  ℕ, suc, ◌-◌, ◌+◌, Bool, true, false, Option, none, some, List, [], ◌∷◌, ◌++◌, ◌&&◌, ◌||◌, ltb,
  leb, ◌==◌, if◌then◌else◌, ◌>>=◌, any, length, take, drop,
}
use astli.Text.Span.{Span}
use astli.Text.Bytes.{str_slice}

-- crates/astli-text/src/diagnostic.rs: what `at` covers is replaced by `text`.
pub record Edit : Type 0 where
  pub at : Span
  pub text : List ℕ

-- The closure `clashes`, for one edit taken before.
abbrev pub clash : Edit → Edit → Bool
clash edit other =
    (ltb edit.at.start other.at.end && ltb other.at.start edit.at.end)
    || edit.at.start == other.at.start

abbrev pub clashes : List Edit → Edit → Bool
clashes taken edit = any (clash edit) taken

abbrev pub is_empty : List Edit → Bool
is_empty [] = true
is_empty (e ∷ es) = false

-- The first loop: the edits taken, and how many fixes were applied.
unfoldable pub choose : List Edit → ℕ → List (List Edit) → List Edit × ℕ
choose taken applied [] = (taken, applied)
choose taken applied (fix ∷ fixes) =
    let skip = is_empty fix || any (clashes taken) fix in
    choose (if skip then taken else taken ++ fix) (if skip then applied else applied + 1) fixes

-- `sort_by_key(|edit| edit.at.start)`, which is stable.
unfoldable pub insert : Edit → List Edit → List Edit
insert e [] = e ∷ []
insert e (x ∷ xs) =
    let rest = insert e xs in if leb e.at.start x.at.start then e ∷ x ∷ xs else x ∷ rest

unfoldable pub sort : List Edit → List Edit
unfolding insert
sort [] = []
sort (e ∷ es) = insert e (sort es)

-- The second loop, from `at` on, with the text pushed so far in front.
unfoldable pub splice : List ℕ → ℕ → List Edit → Option (List ℕ)
unfolding str_slice
splice source at [] = str_slice source at (length source)
splice source at (e ∷ es) = do
  kept ← str_slice source at e.at.start
  rest ← splice source e.at.end es
  some (kept ++ (e.text ++ rest))

unfoldable pub apply : List ℕ → List (List Edit) → Option (List ℕ × ℕ)
unfolding choose sort splice
apply source fixes = do
  let chosen = choose [] 0 fixes
  out ← splice source 0 (sort chosen.0)
  some (out, chosen.1)
