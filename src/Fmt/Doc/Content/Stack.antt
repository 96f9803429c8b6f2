-- ===== src/Fmt/Doc/Content/Stack.antt =====
-- What is pushed for the parts of a document says what they say.
use astli.Prelude.{◌≡◌, ◌∙◌, refl, sym, ap, List, [], ◌++◌, append_nil, append_assoc}
use astli.Fmt.Doc.{Chars, Docs, Mode, Command, Printer}
use astli.Fmt.Doc.Docs.{no_docs, docs}
use astli.Fmt.Doc.Mode.{flat, broken}
use astli.Fmt.Doc.Run.{push_docs, fill_broken, fill}
use astli.Fmt.Doc.Content.{content, contents, AllAgree, stack_content, StackAgrees}

pub push_docs_content :
    (c : Command) (ds : Docs) (stack : List Command)
    → AllAgree ds
    → StackAgrees stack
    → StackAgrees (push_docs c ds stack)
      × (stack_content (push_docs c ds stack) ≡ contents ds ++ stack_content stack)
unfolding AllAgree StackAgrees contents stack_content
push_docs_content c no_docs stack h k = (k, refl)
push_docs_content c (docs d ds) stack h k =
    let (agree, same) = push_docs_content c ds stack h.1 k in
    (
      (h.0, agree),
      ap (λ t. content d ++ t) same
          ∙ sym (append_assoc (content d) (contents ds) (stack_content stack)),
    )

fill_broken_content :
    (p : Printer) (c : Command) (ds : Docs) (stack : List Command)
    → AllAgree ds
    → StackAgrees stack
    → StackAgrees (fill_broken p c ds stack)
      × (stack_content (fill_broken p c ds stack) ≡ contents ds ++ stack_content stack)
unfolding AllAgree StackAgrees contents stack_content fill_broken
fill_broken_content p c no_docs stack h k = (k, refl)
fill_broken_content p c (docs d no_docs) stack h k =
    ((h.0, k), ap (λ t. t ++ stack_content stack) (sym (append_nil (content d))))
fill_broken_content p c (docs d (docs s no_docs)) stack h k =
    ((h.0, (h.1.0, k)), two (content d) (content s) [] (stack_content stack))
  where
    two : (a b e z : Chars) → a ++ (b ++ (e ++ z)) ≡ (a ++ (b ++ e)) ++ z
    two a b e z = ap (λ t. a ++ t) (sym (append_assoc b e z)) ∙ sym (append_assoc a (b ++ e) z)
fill_broken_content p c (docs d (docs s (docs e more))) stack h k = (
  (h.0, (h.1.0, (h.1.1, k))),
  three (content d) (content s) (content e ++ contents more) (stack_content stack),
)
  where
    three : (a b e z : Chars) → a ++ (b ++ (e ++ z)) ≡ (a ++ (b ++ e)) ++ z
    three a b e z = ap (λ t. a ++ t) (sym (append_assoc b e z)) ∙ sym (append_assoc a (b ++ e) z)

pub fill_content :
    (p : Printer) (c : Command) (ds : Docs) (stack : List Command)
    → AllAgree ds
    → StackAgrees stack
    → StackAgrees (fill p c ds stack)
      × (stack_content (fill p c ds stack) ≡ contents ds ++ stack_content stack)
unfolding fill
fill_content p c ds stack h k = by_mode c.mode
  where
    by_mode :
        (m : Mode)
        → StackAgrees (elim m as (λ m. List Command) [
          | flat ↦ push_docs c ds stack
          | broken ↦ fill_broken p c ds stack
        ])
          × (stack_content (elim m as (λ m. List Command) [
            | flat ↦ push_docs c ds stack
            | broken ↦ fill_broken p c ds stack
          ])
              ≡ contents ds ++ stack_content stack)
    by_mode flat = push_docs_content c ds stack h k
    by_mode broken = fill_broken_content p c ds stack h k
